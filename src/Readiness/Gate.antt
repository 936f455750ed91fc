-- ===== src/Readiness/Gate.antt =====
-- `_compute_gate` of app/modules/market_readiness/service.py.
use regnova.Prelude.{Bool, true, false, List, [], ◌∷◌, ◌++◌, any, ◌||◌, if◌then◌else◌}
use regnova.Finding.Model.{Severity, critical, major}
use regnova.Assessment.Model.{
  DimensionState, unknown_, no_subjects_resolved, non_compliant, pending_input,
  human_review_required,
}
use regnova.Readiness.Model.{
  Gate, g0, g1, g2, g3, ReasonCode, dimension_unknown, dimension_no_subjects_resolved,
  critical_finding_open, hard_gate_finding_open, non_compliant_dimension, major_finding_open,
  pending_input_, human_review_required_, g4_unreachable_no_approval_model, Summary, OpenFinding,
}

abbrev pub is_unknown : DimensionState → Bool
is_unknown unknown_ = true
is_unknown _ = false

abbrev pub is_no_subjects_resolved : DimensionState → Bool
is_no_subjects_resolved no_subjects_resolved = true
is_no_subjects_resolved _ = false

abbrev pub is_non_compliant_state : DimensionState → Bool
is_non_compliant_state non_compliant = true
is_non_compliant_state _ = false

abbrev pub is_pending_input : DimensionState → Bool
is_pending_input pending_input = true
is_pending_input _ = false

abbrev pub is_human_review_required : DimensionState → Bool
is_human_review_required human_review_required = true
is_human_review_required _ = false

abbrev pub is_critical : Severity → Bool
is_critical critical = true
is_critical _ = false

abbrev pub is_major : Severity → Bool
is_major major = true
is_major _ = false

-- `any(info["state"] == state for info in dimension_summary.values())`.
abbrev pub any_state : {F : Type 0} → (DimensionState → Bool) → Summary F → Bool
any_state test summary = any (λ e. test e.1.state) summary

-- `if test: reasons.append(code)`.
abbrev pub note : Bool → ReasonCode → List ReasonCode
note test code = if test then code ∷ [] else []

-- `_compute_gate`.
unfoldable pub compute_gate : {F : Type 0} → Summary F → List OpenFinding → Gate × List ReasonCode
compute_gate summary open_findings =
    let no_opinion = any_state is_unknown summary in
    let no_subjects = any_state is_no_subjects_resolved summary in
    let critical_open = any (λ f. is_critical f.severity) open_findings in
    let hard_gate_open = any (λ f. f.hard_gate_effect) open_findings in
    let not_compliant = any_state is_non_compliant_state summary in
    let major_open = any (λ f. is_major f.severity) open_findings in
    let pending = any_state is_pending_input summary in
    let human_review = any_state is_human_review_required summary in
    if no_opinion || no_subjects
    then (g0, note no_opinion dimension_unknown ++ note no_subjects dimension_no_subjects_resolved)
    else if critical_open || hard_gate_open || not_compliant
    then (
      g1,
      note critical_open critical_finding_open
          ++ note hard_gate_open hard_gate_finding_open
          ++ note not_compliant non_compliant_dimension,
    )
    else if major_open || pending
    then (g2, note major_open major_finding_open ++ note pending pending_input_)
    else if human_review
    then (g3, human_review_required_ ∷ [])
    else (g3, g4_unreachable_no_approval_model ∷ [])
