-- ===== src/Assessment/Model.antt =====
-- The rows that an assessment reads and writes: app/modules/assessment_run/models.py, and those of
-- rule_version, requirement_version and requirement_result.
use regnova.Prelude.{ℕ, String, Bool, Option, List, ◌==◌, find}
use regnova.Engine.Value.{Value, Fields}
use regnova.Engine.Compare.{Outcome, Error}
use regnova.Engine.Node.{Node, Entry, Reason}
use regnova.Finding.Model as Review
use regnova.Finding.Model.{Severity}

pub data UnknownBehavior : Type 0 where
  fail_closed request_input human_review : UnknownBehavior

pub data RuleOutputType : Type 0 where
  applicability requirement_result finding_proposal evidence_request workflow_gate : RuleOutputType
  calculation_component : RuleOutputType

pub data StepType : Type 0 where
  extraction rule_evaluation ai_analysis ra_decision state_calculation authority_outcome : StepType

pub data StepRunStatus : Type 0 where
  completed failed : StepRunStatus

pub data DimensionState : Type 0 where
  unknown_ pending_input human_review_required compliant non_compliant not_applicable :
      DimensionState
  no_subjects_resolved : DimensionState

-- APPLICABILITY_OUTCOMES and SATISFACTION_OUTCOMES.
pub data ResultOutcome : Type 0 where
  applies does_not_apply conflict satisfied not_satisfied undecided : ResultOutcome

pub record RuleVersion (N : Type 0) : Type 0 where
  pub id : ℕ
  pub requirement_version_id : Option ℕ
  pub condition : Node N
  pub unknown_behavior : UnknownBehavior
  pub output_type : RuleOutputType
  pub source_locations : List ℕ

pub record RequirementVersion : Type 0 where
  pub id : ℕ
  pub obligation_type : String
  pub default_severity : Severity
  pub is_hard_gate : Bool

pub record AssessmentRun : Type 0 where
  pub id : ℕ
  pub organization_id : ℕ
  pub product_market_state_id : ℕ

pub record StepRun (N : Type 0) : Type 0 where
  pub id : ℕ
  pub assessment_run_id : ℕ
  pub dimension : String
  pub step_type : StepType
  pub rule_version_id : Option ℕ
  pub subject_key : Option String
  pub input_facts : Fields N
  pub input_hash : String
  pub status : StepRunStatus
  pub outcome : Option Outcome
  pub unknown_reason : Option Reason
  pub trace : List (Entry N)
  pub error : Option Error

pub record RequirementResult (N : Type 0) : Type 0 where
  pub step_run_id : ℕ
  pub assessment_run_id : ℕ
  pub requirement_version_id : ℕ
  pub rule_version_id : ℕ
  pub outcome : ResultOutcome
  pub predicate_inputs : Fields N
  pub source_locations : List ℕ

-- The tables, newest rows first, and how many identifiers were drawn.
pub record Db (N : Type 0) : Type 0 where
  pub review : Review.Db
  pub rule_versions : List (RuleVersion N)
  pub requirement_versions : List RequirementVersion
  pub steps : List (StepRun N)
  pub results : List (RequirementResult N)
  pub drawn : ℕ

-- What is called but not defined here: the n-th identifier of `uuid4`, `hash_facts` (SHA-256 of a
-- JSON text) `json.dumps`, the format `:.2f` and the text of
-- an identifier in an issue type.
pub record Services (N : Type 0) : Type 0 where
  pub uuid4 : ℕ → ℕ
  pub hash_facts : Fields N → String
  pub dumps : Value N → String
  -- `f'{confidence:.2f}'`, on values for which Python gives a text and does not raise.
  pub two_digits : Option (Value N) → String
  pub rule_issue_type : ℕ → String

module _ {N : Type 0} where
  -- `RuleVersionRepository.get_by_id_only`.
  unfoldable pub get_rule_version : Db N → ℕ → Option (RuleVersion N)
  get_rule_version db id = find (λ r. r.id == id) db.rule_versions

  -- `RequirementVersionRepository.get_by_id_only`.
  unfoldable pub get_requirement_version : Db N → ℕ → Option RequirementVersion
  get_requirement_version db id = find (λ r. r.id == id) db.requirement_versions
