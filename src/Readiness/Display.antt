-- ===== src/Readiness/Display.antt =====
-- The progress that a snapshot of app/modules/market_readiness/service.py displays.
use mathlib.Core.Path.{subst}
use regnova.Prelude.{◌≡◌, ℕ, String, true, false, List, arith, ◌⊎◌, suc, zero}
use regnova.Assessment.Model.{AssessmentRun}
use regnova.Readiness.Model.{
  Gate, g0, g1, g2, g3, g4, g5, Floats, Summary, OpenFinding, MarketState,
}
use regnova.Readiness.Snapshot.{displayed_of, snapshot_of}
use regnova.Readiness.Worst.{rank, worse, summary_allows, findings_allow, compute_gate-worst}

module _ {F : Type 0} (fl : Floats F) where
  -- By the worst level that the dimensions and the open findings leave: at 0 (assessment
  -- incomplete) at most 49 of 100 are displayed, at 2 (customer action) at most 89, at 3 (review)
  -- at most 79, and at any other what is raw.
  abbrev pub IsWithin : ℕ → F → F → Type 0
  IsWithin zero displayed raw = fl.lt (fl.of_nat 49) displayed ≡ false
  IsWithin (suc (suc zero)) displayed raw = fl.lt (fl.of_nat 89) displayed ≡ false
  IsWithin (suc (suc (suc zero))) displayed raw = fl.lt (fl.of_nat 79) displayed ≡ false
  IsWithin _ displayed raw = displayed ≡ raw

  displayed_of-IsWithin :
      (gate : Gate) (raw : F)
      → ((x : F) → fl.lt x x ≡ false)
      → IsWithin (rank gate) (displayed_of fl gate raw) raw
        × ((displayed_of fl gate raw ≡ raw) ⊎ (fl.lt (displayed_of fl gate raw) raw ≡ true))
  unfolding displayed_of
  displayed_of-IsWithin g0 raw irreflexive = ground (arith, irreflexive (fl.of_nat 49))
  displayed_of-IsWithin g1 raw irreflexive = ground arith
  displayed_of-IsWithin g2 raw irreflexive = ground (arith, irreflexive (fl.of_nat 89))
  displayed_of-IsWithin g3 raw irreflexive = ground (arith, irreflexive (fl.of_nat 79))
  displayed_of-IsWithin g4 raw irreflexive = ground arith
  displayed_of-IsWithin g5 raw irreflexive = ground arith

  -- Whatever the dimensions and the open findings are, and if no float is below itself: a snapshot
  -- displays at most 49 while the worst of them leaves the assessment incomplete, at most 89 where
  -- the worst is a matter of the customer's action, at most 79 where nothing worse than a review is
  -- left, and the raw progress where the worst is a hard block; and what it displays is the raw
  -- progress or less.
  pub snapshot_of-IsWithin :
      (engine_build : String) (state : MarketState) (run : AssessmentRun) (summary : Summary F)
      (findings : List OpenFinding) (id : ℕ)
      → ((x : F) → fl.lt x x ≡ false)
      → let snapshot = snapshot_of fl engine_build state run summary findings id in
        IsWithin
          (worse (summary_allows summary) (findings_allow findings))
          snapshot.displayed_progress
          snapshot.raw_progress
        × ((snapshot.displayed_progress ≡ snapshot.raw_progress)
            ⊎ (fl.lt snapshot.displayed_progress snapshot.raw_progress ≡ true))
  unfolding snapshot_of
  snapshot_of-IsWithin engine_build state run summary findings id irreflexive =
      let snapshot = snapshot_of fl engine_build state run summary findings id in
      let (within, less) =
        displayed_of-IsWithin snapshot.overall_gate snapshot.raw_progress irreflexive in
      (
        subst (λ level. IsWithin level snapshot.displayed_progress snapshot.raw_progress)
            (compute_gate-worst summary findings) within,
        less,
      )
