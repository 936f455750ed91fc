-- ===== src/Readiness/Blocking.antt =====
-- What an open finding of app/modules/finding does to the snapshots of app/modules/market_readiness.
use regnova.Prelude.{
  ◌≡◌, ℕ, ◌≤◌, String, Bool, true, false, not, Option, none, some, List, [], ◌∷◌, any, ◌&&◌, ◌||◌,
  arith,
}
use regnova.Finding.Model as Review
use regnova.Finding.Model.{Finding, is_terminal}
use regnova.Finding.Repository.{get_all, get_latest}
use regnova.Assessment.Model.{AssessmentRun}
use regnova.Readiness.Model.{Floats, Summary, MarketState, Db}
use regnova.Readiness.Gate.{is_critical}
use regnova.Readiness.Open.{open_of, open_findings}
use regnova.Readiness.Snapshot.{snapshot_of, build_snapshot}
use regnova.Readiness.Worst.{rank, findings_allow, compute_gate-worst}

-- The finding's latest revision is not closed, and it is critical or has the hard-gate effect.
abbrev pub blocks : Review.Db → Finding → Bool
blocks db f = elim (get_latest db f.id) [
  | none ↦ false
  | some latest ↦
      not (is_terminal latest.status) && (is_critical latest.severity || latest.hard_gate_effect)
]

open_of-blocks :
    (db : Review.Db) (fs : List Finding)
    → any (blocks db) fs ≡ true
    → findings_allow (open_of db fs) ≤ 1
unfolding open_of
open_of-blocks db [] h = cc
open_of-blocks db (f ∷ fs) h = ground (arith, h, open_of-blocks db fs)

module _ {F : Type 0} (fl : Floats F) where
  -- While some finding of the product in the market is not closed in its latest revision, and that
  -- revision is critical or has the hard-gate effect, no snapshot gets a gate above G1.
  pub build_snapshot-blocks :
      {N : Type 0} (engine_build : String) (state : MarketState) (run : AssessmentRun)
      (requested_by_user_id : Option ℕ) (summary : Summary F) (correlation_id : Option String)
      (new_id : ℕ) (db : Db N F)
      → any
          (blocks db.assessment.review)
          (get_all db.assessment.review state.organization_id state.id)
        ≡ true
      → rank
          (build_snapshot fl engine_build state run requested_by_user_id summary correlation_id
            new_id db).0.overall_gate
        ≤ 1
  unfolding build_snapshot snapshot_of open_findings
  build_snapshot-blocks engine_build state run user summary correlation_id new_id db h =
      let review = db.assessment.review in
      let findings = get_all review state.organization_id state.id in
      ground (
        arith,
        compute_gate-worst summary (open_of review findings),
        open_of-blocks review findings h,
      )
