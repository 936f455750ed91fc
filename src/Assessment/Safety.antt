-- ===== src/Assessment/Safety.antt =====
-- What a dimension's state says about the rules that ran: app/modules/assessment_run/service.py.
use regnova.Prelude.{
  ◌≡◌, refl, ap, ◌∙◌, ℕ, String, Bool, true, false, Option, some, List, [], ◌∷◌, arith, filter, any,
  ◌==◌, ◌&&◌, ◌||◌, inl, inr, Bool-cases, ◌⊎◌,
}
use text.Mathlib.TextPositions.{eq_refl}
use regnova.Engine.Value.{Python, Fields}
use regnova.Engine.Compare.{Result, ok, raise, Error}
use regnova.Engine.Node.{Evaluation}
use regnova.Engine.Walk.{evaluate_condition}
use regnova.Assessment.Model.{
  non_compliant, human_review_required, RuleVersion, AssessmentRun, StepRun, Db, Services,
}
use regnova.Assessment.Output.{create_requirement_result, maybe_propose_finding, apply_output}
use regnova.Assessment.Step.{step_of, run_step, finish_step, run_rules, run_subjects}
use regnova.Assessment.State.{
  is_failed, has_unknown_outcome, has_low_confidence, is_empty, get_steps, rule_steps,
  needs_human_review, derive_dimension_state,
}

Result-cases : {A : Type 0} (m : Result A) → ((a : A) × (m ≡ ok a)) ⊎ ((e : Error) × (m ≡ raise e))
Result-cases (ok a) = inl (a, refl)
Result-cases (raise e) = inr (e, refl)

pub ==-refl : (n : ℕ) → (n == n) ≡ true
==-refl n = ground arith

any-filter :
    {A : Type 0} (p q : A → Bool) (xs : List A) → any p (filter q xs) ≡ any (λ x. q x && p x) xs
any-filter p q [] = refl
any-filter p q (x ∷ xs) = ground (arith, any-filter p q xs)

-- A step that nobody can take as passed: it failed, or a value was read with low confidence.
abbrev pub is_untrusted : {N : Type 0} → StepRun N → Bool
is_untrusted s =
    is_failed s.status || (has_unknown_outcome s.outcome && has_low_confidence s.unknown_reason)

module _ {N : Type 0} where
  untrusted_needs_review :
      (db : Db N) (steps : List (StepRun N))
      → any is_untrusted steps ≡ true
      → (needs_human_review db steps ≡ true) × (is_empty steps ≡ false)
  unfolding needs_human_review
  untrusted_needs_review db [] h = cc
  untrusted_needs_review db (s ∷ steps) h = ground (
    arith,
    Bool-cases (any is_untrusted steps),
    untrusted_needs_review db steps,
    Bool-cases (has_unknown_outcome s.outcome),
  )

  untrusted-state :
      (db : Db N) (run_id : ℕ) (dimension : String) (organization_id state_id : ℕ)
      → any is_untrusted (rule_steps db run_id dimension) ≡ true
      → (derive_dimension_state db run_id dimension organization_id state_id ≡ non_compliant)
        ⊎ (derive_dimension_state db run_id dimension organization_id state_id
            ≡ human_review_required)
  unfolding derive_dimension_state
  untrusted-state db run_id dimension organization_id state_id h =
      ground (arith, untrusted_needs_review db (rule_steps db run_id dimension) h)

-- An evaluation that raised, or came out unknown for low confidence.
abbrev pub is_untrusted_result : {N : Type 0} → Result (Evaluation N) → Bool
is_untrusted_result (raise e) = true
is_untrusted_result (ok r) =
    has_unknown_outcome (some r.outcome) && has_low_confidence r.unknown_reason

module _ {N : Type 0} (py : Python N) where
  -- Whether some rule's evaluation on a subject cannot be trusted.
  abbrev pub has_untrusted : List (RuleVersion N) → List (Option String × Fields N) → Bool
  has_untrusted rules subjects =
      any (λ s. any (λ rule. is_untrusted_result (evaluate_condition py rule.condition s.1)) rules)
        subjects

module _ {N : Type 0} (py : Python N) (services : Services N) (run : AssessmentRun)
    (dimension : String) (correlation_id : Option String) where
  -- Whether the run has an untrusted step in the dimension.
  abbrev marked : Db N → Bool
  marked db = any is_untrusted (rule_steps db run.id dimension)

  -- Whatever a rule writes besides its step, the steps stay.
  pub apply_output-steps :
      (rule : RuleVersion N) (step : StepRun N) (r : Evaluation N) (facts : Fields N) (db : Db N)
      → (apply_output services run rule step r facts correlation_id db).steps ≡ db.steps
  unfolding apply_output create_requirement_result maybe_propose_finding
  apply_output-steps rule step r facts db = ground arith

  finish_step-marked :
      (rule : RuleVersion N) (key : Option String) (facts : Fields N) (r : Result (Evaluation N))
      (db : Db N)
      → marked (finish_step py services run dimension rule key facts correlation_id r db)
        ≡ (is_untrusted_result r || marked db)
  unfolding finish_step get_steps step_of
  finish_step-marked rule key facts (raise e) db = rw (==-refl run.id, eq_refl dimension)
  finish_step-marked rule key facts (ok r) db =
      rw (apply_output-steps, ==-refl run.id, eq_refl dimension)

  run_step-marked :
      (rule : RuleVersion N) (key : Option String) (facts : Fields N) (db : Db N)
      → marked (run_step py services run dimension rule key facts correlation_id db)
        ≡ (is_untrusted_result (evaluate_condition py rule.condition facts) || marked db)
  unfolding run_step
  run_step-marked rule key facts db =
      finish_step-marked rule key facts (evaluate_condition py rule.condition facts) db

  run_rules-marked :
      (rules : List (RuleVersion N)) (key : Option String) (facts : Fields N) (db : Db N)
      → marked (run_rules py services run dimension rules key facts correlation_id db) ≡ (
          any (λ rule. is_untrusted_result (evaluate_condition py rule.condition facts)) rules
          || marked db)
  unfolding run_rules
  run_rules-marked [] key facts db = refl
  run_rules-marked (rule ∷ rules) key facts db = ground (
    arith,
    run_step-marked rule key facts db,
    run_rules-marked rules key facts
        (run_step py services run dimension rule key facts correlation_id db),
  )

  run_subjects-marked :
      (rules : List (RuleVersion N)) (subjects : List (Option String × Fields N)) (db : Db N)
      → marked (run_subjects py services run dimension rules subjects correlation_id db)
        ≡ (has_untrusted py rules subjects || marked db)
  unfolding run_subjects
  run_subjects-marked rules [] db = refl
  run_subjects-marked rules ((key, facts) ∷ subjects) db = ground (
    arith,
    run_rules-marked rules key facts db,
    run_subjects-marked rules subjects
        (run_rules py services run dimension rules key facts correlation_id db),
  )

  -- Where some rule's evaluation on some subject raises, or comes out unknown because a value was
  -- read with too low a confidence, the dimension is non-compliant or needs human review after the
  -- loops over subjects and rules, their semantic hop left out, whatever the other rules say and
  -- whatever unknown behaviour the rules declare.
  pub run_subjects-untrusted :
      (rules : List (RuleVersion N)) (subjects : List (Option String × Fields N)) (db : Db N)
      → has_untrusted py rules subjects ≡ true
      → let after = run_subjects py services run dimension rules subjects correlation_id db in
        let state =
          derive_dimension_state after run.id dimension run.organization_id
            run.product_market_state_id in
        (state ≡ non_compliant) ⊎ (state ≡ human_review_required)
  run_subjects-untrusted rules subjects db h =
      untrusted-state (run_subjects py services run dimension rules subjects correlation_id db)
        run.id dimension run.organization_id run.product_market_state_id
        (run_subjects-marked rules subjects db ∙ ap (λ b. b || marked db) h)
