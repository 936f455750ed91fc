-- ===== src/Assessment/Results.antt =====
-- The steps and requirement results that app/modules/assessment_run/service.py writes for a run,
-- and the requirement that they leave unmet.
use text.Mathlib.TextPositions.{eq_refl}
use regnova.Prelude.{
  ◌≡◌, refl, ap, ◌∙◌, ℕ, ◌+◌, ◌*◌, suc, String, Bool, true, false, not, Option, some, List, [], ◌∷◌,
  arith, filter, any, length, ◌==◌, ◌&&◌, ◌||◌, ltb, inl, inr, Bool-cases, is_some,
}
use regnova.Prelude.Text.{str_eq}
use regnova.Engine.Value.{Python, Fields}
use regnova.Engine.Compare.{Outcome, no_match, Result, ok, raise}
use regnova.Engine.Node.{Evaluation}
use regnova.Engine.Walk.{evaluate_condition}
use regnova.Assessment.Model.{
  non_compliant, RuleVersion, AssessmentRun, RuleOutputType, requirement_result, UnknownBehavior,
  fail_closed, StepRun, RequirementResult, Db, Services,
}
use regnova.Assessment.Output.{
  create_requirement_result, maybe_propose_finding, effective_unknown_behavior,
  resolve_satisfaction_outcome, apply_output,
}
use regnova.Assessment.Step.{step_of, finish_step, run_step, run_rules, run_subjects}
use regnova.Assessment.State.{
  is_not_satisfied, is_empty, has_unknown_outcome, has_low_confidence, get_results,
  is_non_compliant, derive_dimension_state,
}
use regnova.Assessment.Safety.{==-refl, apply_output-steps}
use regnova.Assessment.Count.{run_subjects_count}

any-weaken :
    {A : Type 0} (p q q' : A → Bool) (xs : List A)
    → ((x : A) → q x ≡ true → q' x ≡ true)
    → any p (filter q xs) ≡ true
    → any p (filter q' xs) ≡ true
any-weaken p q q' [] h k = k
any-weaken p q q' (x ∷ xs) h k =
    ground (arith, any-weaken p q q' xs h, h x, Bool-cases (q x), Bool-cases (q' x))

length-is_empty : {A : Type 0} (xs : List A) (n : ℕ) → length xs ≡ suc n → is_empty xs ≡ false
length-is_empty [] n h = ground arith
length-is_empty (x ∷ xs) n h = refl

abbrev is_requirement_result : RuleOutputType → Bool
is_requirement_result requirement_result = true
is_requirement_result _ = false

abbrev is_fail_closed : UnknownBehavior → Bool
is_fail_closed fail_closed = true
is_fail_closed _ = false

abbrev is_no_match : Outcome → Bool
is_no_match no_match = true
is_no_match _ = false

-- A rule that states a requirement finds it unmet: no match, or an input is missing and the rule
-- fails closed.
abbrev pub is_unmet : {N : Type 0} → RuleVersion N → Result (Evaluation N) → Bool
is_unmet rule (raise e) = false
is_unmet rule (ok r) =
    is_requirement_result rule.output_type
    && is_some rule.requirement_version_id
    && (is_no_match r.outcome
        || (has_unknown_outcome (some r.outcome)
            && not (has_low_confidence r.unknown_reason)
            && is_fail_closed rule.unknown_behavior))

module _ {N : Type 0} (py : Python N) where
  abbrev pub has_unmet : List (RuleVersion N) → List (Option String × Fields N) → Bool
  has_unmet rules subjects =
      any (λ s. any (λ rule. is_unmet rule (evaluate_condition py rule.condition s.1)) rules)
        subjects

  no_rules_unmet : (subjects : List (Option String × Fields N)) → has_unmet [] subjects ≡ false
  no_rules_unmet [] = refl
  no_rules_unmet (s ∷ subjects) = no_rules_unmet subjects

  -- Some unmet rule means that a step was written.
  has_unmet_size :
      (rules : List (RuleVersion N)) (subjects : List (Option String × Fields N))
      → has_unmet rules subjects ≡ true
      → ltb 0 (length subjects * length rules) ≡ true
  has_unmet_size rules [] h = cc
  has_unmet_size [] (s ∷ subjects) h = ground (arith, h, no_rules_unmet subjects)
  has_unmet_size (rule ∷ rules) (s ∷ subjects) h = ground arith

module _ {N : Type 0} (py : Python N) (services : Services N) (run : AssessmentRun)
    (dimension : String) (correlation_id : Option String) where
  apply_output_keeps :
      (p q : RequirementResult N → Bool) (rule : RuleVersion N) (step : StepRun N)
      (r : Evaluation N) (facts : Fields N) (db : Db N)
      → any p (filter q db.results) ≡ true
      → any p (filter q (apply_output services run rule step r facts correlation_id db).results)
        ≡ true
  unfolding apply_output create_requirement_result maybe_propose_finding
  apply_output_keeps p q rule step r facts db h = ground arith

  abbrev failing : Db N → Bool
  failing db = any (λ r. is_not_satisfied r.outcome) (get_results db run.id dimension)

  abbrev in_dimension : List (StepRun N) → RequirementResult N → Bool
  in_dimension steps r =
      (r.assessment_run_id == run.id)
      && any (λ s. (s.id == r.step_run_id) && str_eq s.dimension dimension) steps

  in_dimension_grows :
      (s : StepRun N) (steps : List (StepRun N)) (r : RequirementResult N)
      → in_dimension steps r ≡ true
      → in_dimension (s ∷ steps) r ≡ true
  in_dimension_grows s steps r h = ground arith

  finish_step_keeps :
      (rule : RuleVersion N) (key : Option String) (facts : Fields N) (r : Result (Evaluation N))
      (db : Db N)
      → failing db ≡ true
      → failing (finish_step py services run dimension rule key facts correlation_id r db) ≡ true
  unfolding finish_step get_results
  finish_step_keeps rule key facts (raise e) db h =
      let step =
        step_of py services run dimension rule key facts (raise e) (services.uuid4 db.drawn) in
      any-weaken (λ r. is_not_satisfied r.outcome) (in_dimension db.steps)
        (in_dimension (step ∷ db.steps)) db.results (in_dimension_grows step db.steps) h
  finish_step_keeps rule key facts (ok r) db h =
      let step =
        step_of py services run dimension rule key facts (ok r) (services.uuid4 db.drawn) in
      let start = record db { steps = step ∷ db.steps; drawn = db.drawn + 1 } in
      let written = apply_output services run rule step r facts correlation_id start in
      any-weaken (λ r. is_not_satisfied r.outcome) (in_dimension db.steps)
        (in_dimension written.steps) written.results
        (λ x k.
          ap (λ steps. in_dimension steps x)
            (apply_output-steps py services run dimension correlation_id rule step r facts start)
          ∙ in_dimension_grows step db.steps x k)
        (apply_output_keeps (λ r. is_not_satisfied r.outcome) (in_dimension db.steps) rule step r
          facts start h)

  finish_step_fails :
      (rule : RuleVersion N) (key : Option String) (facts : Fields N) (r : Result (Evaluation N))
      (db : Db N)
      → is_unmet rule r ≡ true
      → failing (finish_step py services run dimension rule key facts correlation_id r db) ≡ true
  unfolding finish_step get_results step_of apply_output create_requirement_result
      effective_unknown_behavior resolve_satisfaction_outcome
  finish_step_fails rule key facts (raise e) db h = cc
  finish_step_fails rule key facts (ok r) db h =
      ground (arith, eq_refl dimension, ==-refl run.id, ==-refl (services.uuid4 db.drawn))

  run_rules_keeps :
      (rules : List (RuleVersion N)) (key : Option String) (facts : Fields N) (db : Db N)
      → failing db ≡ true
      → failing (run_rules py services run dimension rules key facts correlation_id db) ≡ true
  unfolding run_rules run_step
  run_rules_keeps [] key facts db h = h
  run_rules_keeps (rule ∷ rules) key facts db h =
      run_rules_keeps rules key facts
        (run_step py services run dimension rule key facts correlation_id db)
        (finish_step_keeps rule key facts (evaluate_condition py rule.condition facts) db h)

  run_rules_fails :
      (rules : List (RuleVersion N)) (key : Option String) (facts : Fields N) (db : Db N)
      → any (λ rule. is_unmet rule (evaluate_condition py rule.condition facts)) rules ≡ true
      → failing (run_rules py services run dimension rules key facts correlation_id db) ≡ true
  unfolding run_rules run_step
  run_rules_fails [] key facts db h = cc
  run_rules_fails (rule ∷ rules) key facts db h =
      let result = evaluate_condition py rule.condition facts in
      let next = run_step py services run dimension rule key facts correlation_id db in
      elim (Bool-cases (is_unmet rule result)) [
        | inl e ↦
            run_rules_keeps rules key facts next (finish_step_fails rule key facts result db e)
        | inr e ↦ run_rules_fails rules key facts next (ground (arith, h, e))
      ]

  run_subjects_keeps :
      (rules : List (RuleVersion N)) (subjects : List (Option String × Fields N)) (db : Db N)
      → failing db ≡ true
      → failing (run_subjects py services run dimension rules subjects correlation_id db) ≡ true
  unfolding run_subjects
  run_subjects_keeps rules [] db h = h
  run_subjects_keeps rules ((key, facts) ∷ subjects) db h =
      run_subjects_keeps rules subjects
        (run_rules py services run dimension rules key facts correlation_id db)
        (run_rules_keeps rules key facts db h)

  run_subjects_fails :
      (rules : List (RuleVersion N)) (subjects : List (Option String × Fields N)) (db : Db N)
      → has_unmet py rules subjects ≡ true
      → failing (run_subjects py services run dimension rules subjects correlation_id db) ≡ true
  unfolding run_subjects
  run_subjects_fails rules [] db h = cc
  run_subjects_fails rules ((key, facts) ∷ subjects) db h =
      let next = run_rules py services run dimension rules key facts correlation_id db in
      elim (Bool-cases
        (any (λ rule. is_unmet rule (evaluate_condition py rule.condition facts)) rules)) [
          | inl e ↦ run_subjects_keeps rules subjects next (run_rules_fails rules key facts db e)
          | inr e ↦ run_subjects_fails rules subjects next (ground (arith, h, e))
        ]

  -- Where some rule that states a requirement comes out as no match on some subject, or unknown for
  -- a missing input while it fails closed, the dimension is non-compliant after the loops over
  -- subjects and rules, their semantic hop left out.
  pub run_subjects-unmet :
      (rules : List (RuleVersion N)) (subjects : List (Option String × Fields N)) (db : Db N)
      → has_unmet py rules subjects ≡ true
      → derive_dimension_state
          (run_subjects py services run dimension rules subjects correlation_id db)
          run.id
          dimension
          run.organization_id
          run.product_market_state_id
        ≡ non_compliant
  unfolding derive_dimension_state is_non_compliant
  run_subjects-unmet rules subjects db h = ground (
    arith,
    run_subjects_fails rules subjects db h,
    run_subjects_count py services run dimension correlation_id rules subjects db,
    has_unmet_size py rules subjects h,
  )
