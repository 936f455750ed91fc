-- ===== src/Readiness/Tests.antt =====
-- Snapshots of one product in a market, and the theorems about
-- app/modules/market_readiness/service.py at them.
use regnova.Prelude.{
  ◌≡◌, refl, ℕ, ◌≤◌, true, false, none, some, List, [], ◌∷◌, ltb, ◌==◌, ◌/◌, ◌*◌, ◌+◌, any, arith,
  ◌⊎◌,
}
use regnova.Finding.Model.{critical, major, moderate, minor, informational, proposed}
use regnova.Finding.Repository.{get_all}
use regnova.Finding.Propose.{propose}
use regnova.Finding.Tests as Review
use regnova.Finding.Tests.{banned, empty}
use regnova.Assessment.Model.{compliant, pending_input}
use regnova.Assessment.Tests.{run}
use regnova.Assessment.Tests as Run
use regnova.Readiness.Model.{
  g4_unreachable_no_approval_model, g3, g2, ingredients, claims, Floats, Summary, OpenFinding,
  MarketState, StateSnapshot, Db,
}
use regnova.Readiness.Gate.{compute_gate}
use regnova.Readiness.Open.{open_of, open_findings, count_severities, highest_severity}
use regnova.Readiness.Snapshot.{
  weigh, raw_progress_of, displayed_of, get_current, supersede_current, snapshot_of, build_snapshot,
}
use regnova.Readiness.Worst.{rank, worse, summary_allows, findings_allow, compute_gate-worst}
use regnova.Readiness.Display.{IsWithin, snapshot_of-IsWithin}
use regnova.Readiness.Severities.{count, most_severe, severity_allows, snapshot_of-severity}
use regnova.Readiness.Blocking.{blocks, build_snapshot-blocks}

unfoldable pub samples : Unit {0}
unfolding Review.program compute_gate open_of open_findings count_severities highest_severity weigh
    raw_progress_of displayed_of get_current supersede_current snapshot_of build_snapshot
samples = tt

-- Floats in hundredths.
abbrev pub hundredths : Floats ℕ
hundredths = record {
  of_nat = λ n. n * 100;
  of_hundredths = λ n. n;
  add = λ a b. a + b;
  mul = λ a b. a * b / 100;
  div = λ a b. a * 100 / b;
  round2 = λ a. a;
  eq = λ a b. a == b;
  lt = ltb;
}

abbrev pub summary : Summary ℕ
summary =
    (
      claims,
      record {
        dimension_assessment_id = 61;
        state = pending_input;
        score = some 9500;
        excluded = false;
        reused = false;
      },
    )
    ∷ (
      ingredients,
      record {
        dimension_assessment_id = 62;
        state = compliant;
        score = some 10000;
        excluded = false;
        reused = true;
      },
    )
    ∷ []

abbrev minor_open : List OpenFinding
minor_open =
    record { severity = minor; status = proposed; hard_gate_effect = false }
    ∷ record { severity = major; status = proposed; hard_gate_effect = false }
    ∷ []

abbrev pub product : MarketState
product = record {
  id = 5;
  organization_id = 7;
  product_id = 6;
  product_version_id = some 50;
  market = "DE";
  jurisdiction = "EU";
  regulatory_basis_release_id = some 51;
  gate = "G0";
  status = "ACTIVE";
  created_by_user_id = none;
}

abbrev pub tables : Db ℕ ℕ
tables = record {
  assessment = record Run.start { review = (propose (banned 11) empty).1 };
  states = product ∷ [];
  snapshots = [];
  outbox = [];
}

abbrev pub snapshot : StateSnapshot ℕ
snapshot = snapshot_of hundredths "1.0" product run summary minor_open 80

compute_gate-worst_example :
    rank (compute_gate summary minor_open).0
    ≡ worse (summary_allows summary) (findings_allow minor_open)
compute_gate-worst_example = compute_gate-worst summary minor_open

-- 97.85 is shown as 89.
snapshot_is_capped :
    (snapshot.overall_gate ≡ g2)
    × (snapshot.raw_progress ≡ 9785)
    × (snapshot.displayed_progress ≡ 8900)
unfolding samples
snapshot_is_capped = (refl, refl, refl)

snapshot_of-severity_example :
    (snapshot.highest_open_severity ≡ most_severe minor_open)
    × (snapshot.unresolved_severity_counts
        ≡ (critical, count critical minor_open)
          ∷ (major, count major minor_open)
          ∷ (moderate, count moderate minor_open)
          ∷ (minor, count minor minor_open)
          ∷ (informational, count informational minor_open)
          ∷ [])
    × (rank snapshot.overall_gate ≤ severity_allows snapshot.highest_open_severity)
snapshot_of-severity_example =
    snapshot_of-severity hundredths "1.0" product run summary minor_open 80

ltb_irreflexive : (n : ℕ) → ltb n n ≡ false
ltb_irreflexive n = ground arith

snapshot_of-IsWithin_example :
    IsWithin hundredths
      (worse (summary_allows summary) (findings_allow minor_open))
      snapshot.displayed_progress
      snapshot.raw_progress
    × ((snapshot.displayed_progress ≡ snapshot.raw_progress)
        ⊎ (ltb snapshot.displayed_progress snapshot.raw_progress ≡ true))
snapshot_of-IsWithin_example =
    snapshot_of-IsWithin hundredths "1.0" product run summary minor_open 80 ltb_irreflexive

banned_blocks : any (blocks tables.assessment.review) (get_all tables.assessment.review 7 5) ≡ true
unfolding samples get_all
banned_blocks = refl

build_snapshot-blocks_example :
    rank
      (build_snapshot hundredths "1.0" product run (some 9) summary none 80 tables).0.overall_gate
    ≤ 1
build_snapshot-blocks_example =
    build_snapshot-blocks hundredths "1.0" product run (some 9) summary none 80 tables banned_blocks

-- A run that fails at its first dimension leaves an empty summary, whose gate is G3.
empty_summary_gate : compute_gate {F = ℕ} [] [] ≡ (g3, g4_unreachable_no_approval_model ∷ [])
unfolding compute_gate
empty_summary_gate = refl
