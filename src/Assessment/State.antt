-- ===== src/Assessment/State.antt =====
-- `_derive_dimension_state` of app/modules/assessment_run/service.py, with its queries.
use regnova.Prelude.{
  ℕ, String, Bool, true, false, not, Option, none, some, List, [], ◌∷◌, filter, any, all, length,
  ◌==◌, ◌&&◌, ◌||◌, ltb, if◌then◌else◌,
}
use regnova.Prelude.Text.{str_eq}
use regnova.Engine.Compare.{Outcome, unknown}
use regnova.Engine.Node.{Reason, low_confidence}
use regnova.Finding.Model.{FindingRevision}
use regnova.Finding.Model as Review
use regnova.Finding.Repository.{has_open_finding}
use regnova.Assessment.Model.{
  UnknownBehavior, request_input, human_review, StepType, rule_evaluation, StepRunStatus, failed,
  DimensionState, unknown_, pending_input, human_review_required, compliant, non_compliant,
  not_applicable, ResultOutcome, does_not_apply, not_satisfied, StepRun, RequirementResult, Db,
  get_rule_version,
}

abbrev pub is_rule_evaluation : StepType → Bool
is_rule_evaluation rule_evaluation = true
is_rule_evaluation _ = false

abbrev pub is_failed : StepRunStatus → Bool
is_failed failed = true
is_failed _ = false

abbrev pub is_not_satisfied : ResultOutcome → Bool
is_not_satisfied not_satisfied = true
is_not_satisfied _ = false

abbrev pub is_does_not_apply : ResultOutcome → Bool
is_does_not_apply does_not_apply = true
is_does_not_apply _ = false

abbrev pub has_unknown_outcome : Option Outcome → Bool
has_unknown_outcome (some unknown) = true
has_unknown_outcome _ = false

abbrev pub has_low_confidence : Option Reason → Bool
has_low_confidence (some low_confidence) = true
has_low_confidence _ = false

abbrev pub asks_human : Option UnknownBehavior → Bool
asks_human (some human_review) = true
asks_human _ = false

abbrev pub asks_input : Option UnknownBehavior → Bool
asks_input (some request_input) = true
asks_input _ = false

abbrev pub is_empty {ℓ} : {A : Type ℓ} → List A → Bool
is_empty [] = true
is_empty (x ∷ xs) = false

-- `FindingRevisionRepository.count_proposed_for_run_dimension`.
unfoldable pub count_proposed_for_run_dimension : Review.Db → ℕ → String → ℕ
count_proposed_for_run_dimension db run_id dimension = length (
    filter
      (λ (r : FindingRevision).
        (r.assessment_run_id == run_id)
        && any (λ f. (f.id == r.finding_id) && str_eq f.dimension dimension) db.findings)
      db.revisions)

module _ {N : Type 0} where
  -- `StepRunRepository.get_for_run_dimension`.
  unfoldable pub get_steps : Db N → ℕ → String → List (StepRun N)
  get_steps db run_id dimension =
      filter (λ s. (s.assessment_run_id == run_id) && str_eq s.dimension dimension) db.steps

  -- `RequirementResultRepository.get_for_run_dimension`: the dimension is that of the result's step.
  unfoldable pub get_results : Db N → ℕ → String → List (RequirementResult N)
  get_results db run_id dimension =
      filter
        (λ r.
          (r.assessment_run_id == run_id)
          && any (λ (s : StepRun N). (s.id == r.step_run_id) && str_eq s.dimension dimension)
              db.steps)
        db.results

  -- `_unknown_reason_for_rule`.
  unfoldable pub unknown_reason_for_rule : Db N → Option ℕ → Option UnknownBehavior
  unknown_reason_for_rule db none = none
  unknown_reason_for_rule db (some id) = elim (get_rule_version db id) [
    | none ↦ none
    | some rule ↦ some rule.unknown_behavior
  ]

  -- The signals that the state is derived from.
  unfoldable pub is_non_compliant : Db N → ℕ → String → ℕ → ℕ → Bool
  is_non_compliant db run_id dimension organization_id product_market_state_id =
      ltb 0 (count_proposed_for_run_dimension db.review run_id dimension)
      || any (λ r. is_not_satisfied r.outcome) (get_results db run_id dimension)
      || has_open_finding db.review organization_id product_market_state_id dimension

  abbrev pub rule_steps : Db N → ℕ → String → List (StepRun N)
  rule_steps db run_id dimension =
      filter (λ s. is_rule_evaluation s.step_type) (get_steps db run_id dimension)

  abbrev pub unknown_steps : List (StepRun N) → List (StepRun N)
  unknown_steps steps = filter (λ s. has_unknown_outcome s.outcome) steps

  unfoldable pub needs_human_review : Db N → List (StepRun N) → Bool
  needs_human_review db steps =
      any (λ s. is_failed s.status) steps
      || any
          (λ s.
            has_low_confidence s.unknown_reason
            || asks_human (unknown_reason_for_rule db s.rule_version_id))
          (unknown_steps steps)

  unfoldable pub needs_input : Db N → List (StepRun N) → Bool
  needs_input db steps =
      any (λ s. asks_input (unknown_reason_for_rule db s.rule_version_id)) (unknown_steps steps)

  -- `_derive_dimension_state`.
  unfoldable pub derive_dimension_state : Db N → ℕ → String → ℕ → ℕ → DimensionState
  derive_dimension_state db run_id dimension organization_id product_market_state_id =
      let steps = rule_steps db run_id dimension in
      let results = get_results db run_id dimension in
      if is_empty steps
      then unknown_
      else if is_non_compliant db run_id dimension organization_id product_market_state_id
      then non_compliant
      else if needs_human_review db steps
      then human_review_required
      else if needs_input db steps
      then pending_input
      else if not (is_empty results) && all (λ r. is_does_not_apply r.outcome) results
      then not_applicable
      else compliant
