-- ===== src/Assessment/Attempts.antt =====
-- Which steps the loops of app/modules/assessment_run/service.py write.
use regnova.Prelude.{ℕ, String, Option, none, some, List, [], ◌∷◌, ◌++◌, map}
use regnova.Engine.Value.{Python, Fields}
use regnova.Engine.Compare.{Result, ok, raise, Error, Outcome}
use regnova.Engine.Node.{Evaluation}
use regnova.Engine.Walk.{evaluate_condition}
use regnova.Assessment.Model.{RuleVersion, AssessmentRun, StepRun, Db, Services}
use regnova.Assessment.State.{rule_steps}

-- What a step says of one rule's evaluation on one subject.
pub record Attempt (N : Type 0) : Type 0 where
  pub rule_version_id : Option ℕ
  pub subject_key : Option String
  pub input_facts : Fields N
  pub outcome : Option Outcome
  pub error : Option Error

abbrev pub attempt_of : {N : Type 0} → StepRun N → Attempt N
attempt_of s = record {
  rule_version_id = s.rule_version_id;
  subject_key = s.subject_key;
  input_facts = s.input_facts;
  outcome = s.outcome;
  error = s.error;
}

abbrev pub outcome_of : {N : Type 0} → Result (Evaluation N) → Option Outcome
outcome_of (ok r) = some r.outcome
outcome_of (raise e) = none

abbrev pub error_of : {N : Type 0} → Result (Evaluation N) → Option Error
error_of (ok r) = none
error_of (raise e) = some e

module _ {N : Type 0} (py : Python N) where
  -- The attempt of one rule on one subject, by its evaluation.
  abbrev pub attempt : Option String → Fields N → RuleVersion N → Attempt N
  attempt key facts rule =
      let r = evaluate_condition py rule.condition facts in
      record {
        rule_version_id = some rule.id;
        subject_key = key;
        input_facts = facts;
        outcome = outcome_of r;
        error = error_of r;
      }

  -- Every rule on one subject, and on every subject, the last one first.
  abbrev pub rule_attempts : List (RuleVersion N) → Option String → Fields N → List (Attempt N)
  rule_attempts [] key facts = []
  rule_attempts (rule ∷ rules) key facts =
      rule_attempts rules key facts ++ (attempt key facts rule ∷ [])

  abbrev pub attempts : List (RuleVersion N) → List (Option String × Fields N) → List (Attempt N)
  attempts rules [] = []
  attempts rules ((key, facts) ∷ subjects) =
      attempts rules subjects ++ rule_attempts rules key facts

module _ {N : Type 0} (py : Python N) (services : Services N) (run : AssessmentRun)
    (dimension : String) (correlation_id : Option String) where
  -- The attempts that the run's steps of the dimension record.
  abbrev recorded : Db N → List (Attempt N)
  recorded db = map attempt_of (rule_steps db run.id dimension)
