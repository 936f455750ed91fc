-- ===== src/Readiness/Worst.antt =====
-- The gate of app/modules/market_readiness/service.py as the worst of what blocks.
use regnova.Prelude.{◌≡◌, refl, ℕ, List, [], ◌∷◌, any, ◌||◌, if◌then◌else◌, arith, leb}
use regnova.Finding.Model.{critical, major}
use regnova.Assessment.Model.{
  DimensionState, unknown_, no_subjects_resolved, non_compliant, pending_input,
}
use regnova.Readiness.Model.{Gate, g0, g1, g2, g3, g4, g5, Summary, OpenFinding}
use regnova.Readiness.Gate.{
  is_unknown, is_no_subjects_resolved, is_non_compliant_state, is_pending_input, is_critical,
  is_major, any_state, compute_gate,
}

abbrev pub rank : Gate → ℕ
rank g0 = 0
rank g1 = 1
rank g2 = 2
rank g3 = 3
rank g4 = 4
rank g5 = 5

abbrev pub worse : ℕ → ℕ → ℕ
worse a b = if leb a b then a else b

-- The best gate that a dimension's state allows.
abbrev pub state_allows : DimensionState → ℕ
state_allows unknown_ = 0
state_allows no_subjects_resolved = 0
state_allows non_compliant = 1
state_allows pending_input = 2
state_allows _ = 3

-- The best gate that an open finding allows.
abbrev pub finding_allows : OpenFinding → ℕ
finding_allows f =
    if f.hard_gate_effect then 1 else elim f.severity [ critical ↦ 1 | major ↦ 2 | _ ↦ 3 ]

abbrev pub findings_allow : List OpenFinding → ℕ
findings_allow [] = 3
findings_allow (f ∷ fs) = worse (finding_allows f) (findings_allow fs)

-- The worst of the findings, by the tests of the code.
findings-level :
    (fs : List OpenFinding)
    → findings_allow fs ≡ (
        if any (λ f. is_critical f.severity) fs || any (λ f. f.hard_gate_effect) fs
        then 1
        else if any (λ f. is_major f.severity) fs
        then 2
        else 3)
findings-level [] = refl
findings-level (f ∷ fs) = ground (arith, findings-level fs)

module _ {F : Type 0} where
  abbrev pub summary_allows : Summary F → ℕ
  summary_allows [] = 3
  summary_allows (e ∷ es) = worse (state_allows e.1.state) (summary_allows es)

  summary-level :
      (es : Summary F)
      → summary_allows es ≡ (
          if any_state is_unknown es || any_state is_no_subjects_resolved es
          then 0
          else if any_state is_non_compliant_state es
          then 1
          else if any_state is_pending_input es
          then 2
          else 3)
  summary-level [] = refl
  summary-level (e ∷ es) = ground (arith, summary-level es)

  -- The gate is the worst that any dimension or any open finding allows, whatever their order; no
  -- gate above G3 is given.
  pub compute_gate-worst :
      (summary : Summary F) (open_findings : List OpenFinding)
      → rank (compute_gate summary open_findings).0
        ≡ worse (summary_allows summary) (findings_allow open_findings)
  unfolding compute_gate
  compute_gate-worst summary open_findings =
      ground (arith, findings-level open_findings, summary-level summary)
