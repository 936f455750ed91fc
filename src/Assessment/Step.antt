-- ===== src/Assessment/Step.antt =====
-- `_run_step` of app/modules/assessment_run/service.py and the loops over rules and subjects.
use regnova.Prelude.{ℕ, ◌+◌, String, Option, none, some, List, [], ◌∷◌}
use regnova.Engine.Value.{Python, Fields}
use regnova.Engine.Compare.{Result, ok, raise}
use regnova.Engine.Node.{Evaluation}
use regnova.Engine.Walk.{evaluate_condition}
use regnova.Assessment.Model.{
  rule_evaluation, completed, failed, RuleVersion, AssessmentRun, StepRun, Db, Services,
}
use regnova.Assessment.Output.{apply_output}

module _ {N : Type 0} (py : Python N) (services : Services N) where
  -- The row that `_run_step` writes, by how the evaluation ended.
  unfoldable pub step_of :
      AssessmentRun
      → String
      → RuleVersion N
      → Option String
      → Fields N
      → Result (Evaluation N)
      → ℕ
      → StepRun N
  step_of run dimension rule subject_key facts (ok result) id = record {
    id = id;
    assessment_run_id = run.id;
    dimension = dimension;
    step_type = rule_evaluation;
    rule_version_id = some rule.id;
    subject_key = subject_key;
    input_facts = facts;
    input_hash = services.hash_facts facts;
    status = completed;
    outcome = some result.outcome;
    unknown_reason = result.unknown_reason;
    trace = result.trace;
    error = none;
  }
  step_of run dimension rule subject_key facts (raise e) id = record {
    id = id;
    assessment_run_id = run.id;
    dimension = dimension;
    step_type = rule_evaluation;
    rule_version_id = some rule.id;
    subject_key = subject_key;
    input_facts = facts;
    input_hash = services.hash_facts facts;
    status = failed;
    outcome = none;
    unknown_reason = none;
    trace = [];
    error = some e;
  }

  -- `_run_step` after the evaluation, without the result that it returns: a failing evaluation is
  -- kept in its step.
  unfoldable pub finish_step :
      AssessmentRun
      → String
      → RuleVersion N
      → Option String
      → Fields N
      → Option String
      → Result (Evaluation N)
      → Db N
      → Db N
  finish_step run dimension rule subject_key facts correlation_id (raise e) db = record db {
    steps =
        step_of run dimension rule subject_key facts (raise e) (services.uuid4 db.drawn) ∷ db.steps;
    drawn = db.drawn + 1;
  }
  finish_step run dimension rule subject_key facts correlation_id (ok evaluation) db =
      let step =
        step_of run dimension rule subject_key facts (ok evaluation) (services.uuid4 db.drawn) in
      apply_output services run rule step evaluation facts correlation_id
        (record db { steps = step ∷ db.steps; drawn = db.drawn + 1 })

  -- `_run_step`.
  unfoldable pub run_step :
      AssessmentRun
      → String
      → RuleVersion N
      → Option String
      → Fields N
      → Option String
      → Db N
      → Db N
  run_step run dimension rule subject_key facts correlation_id db =
      finish_step run dimension rule subject_key facts correlation_id
        (evaluate_condition py rule.condition facts) db

  -- The loop over the rules for one subject, and that over the subjects: the deterministic part of
  -- `_run_subject_list_dimension`.
  unfoldable pub run_rules :
      AssessmentRun
      → String
      → List (RuleVersion N)
      → Option String
      → Fields N
      → Option String
      → Db N
      → Db N
  run_rules run dimension [] subject_key facts correlation_id db = db
  run_rules run dimension (rule ∷ rules) subject_key facts correlation_id db =
      run_rules run dimension rules subject_key facts correlation_id
        (run_step run dimension rule subject_key facts correlation_id db)

  unfoldable pub run_subjects :
      AssessmentRun
      → String
      → List (RuleVersion N)
      → List (Option String × Fields N)
      → Option String
      → Db N
      → Db N
  unfolding run_rules
  run_subjects run dimension rules [] correlation_id db = db
  run_subjects run dimension rules ((subject_key, facts) ∷ subjects) correlation_id db =
      run_subjects run dimension rules subjects correlation_id
        (run_rules run dimension rules subject_key facts correlation_id db)
