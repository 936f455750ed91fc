-- ===== src/Assessment/Count.antt =====
-- How many steps the loops of app/modules/assessment_run/service.py write.
use text.Mathlib.TextPositions.{eq_refl}
use regnova.Prelude.{◌≡◌, ◌+◌, ◌*◌, suc, String, Option, List, [], ◌∷◌, arith, length}
use regnova.Engine.Value.{Python, Fields}
use regnova.Engine.Compare.{Result, ok, raise}
use regnova.Engine.Node.{Evaluation}
use regnova.Engine.Walk.{evaluate_condition}
use regnova.Assessment.Model.{RuleVersion, AssessmentRun, Db, Services}
use regnova.Assessment.Step.{step_of, finish_step, run_step, run_rules, run_subjects}
use regnova.Assessment.State.{get_steps, rule_steps}
use regnova.Assessment.Safety.{==-refl, apply_output-steps}

module _ {N : Type 0} (py : Python N) (services : Services N) (run : AssessmentRun)
    (dimension : String) (correlation_id : Option String) where
  finish_step_count :
      (rule : RuleVersion N) (key : Option String) (facts : Fields N) (r : Result (Evaluation N))
      (db : Db N)
      → length (
          rule_steps
            (finish_step py services run dimension rule key facts correlation_id r db)
            run.id
            dimension)
        ≡ suc (length (rule_steps db run.id dimension))
  unfolding finish_step get_steps step_of
  finish_step_count rule key facts (raise e) db = rw (==-refl run.id, eq_refl dimension)
  finish_step_count rule key facts (ok r) db =
      rw (apply_output-steps, ==-refl run.id, eq_refl dimension)

  run_rules_count :
      (rules : List (RuleVersion N)) (key : Option String) (facts : Fields N) (db : Db N)
      → length (
          rule_steps
            (run_rules py services run dimension rules key facts correlation_id db)
            run.id
            dimension)
        ≡ length rules + length (rule_steps db run.id dimension)
  unfolding run_rules run_step
  run_rules_count [] key facts db = omega arith
  run_rules_count (rule ∷ rules) key facts db = omega (
    arith,
    finish_step_count rule key facts (evaluate_condition py rule.condition facts) db,
    run_rules_count rules key facts
        (run_step py services run dimension rule key facts correlation_id db),
  )

  -- The loops write one rule-evaluation step for each rule on each subject, and no other.
  pub run_subjects_count :
      (rules : List (RuleVersion N)) (subjects : List (Option String × Fields N)) (db : Db N)
      → length (
          rule_steps
            (run_subjects py services run dimension rules subjects correlation_id db)
            run.id
            dimension)
        ≡ length subjects * length rules + length (rule_steps db run.id dimension)
  unfolding run_subjects
  run_subjects_count rules [] db = omega arith
  run_subjects_count rules ((key, facts) ∷ subjects) db = omega (
    arith,
    run_rules_count rules key facts db,
    run_subjects_count rules subjects
        (run_rules py services run dimension rules key facts correlation_id db),
  )
