-- ===== src/Assessment/Output.antt =====
-- What a rule's result writes: `_apply_output` of app/modules/assessment_run/service.py.
use Prim.Native.String.{◌++◌}
use regnova.Assessment.Text.{trace_summary, low_confidence_rationale}
use regnova.Prelude.{◌+◌, String, false, Option, none, some, ◌∷◌}
use regnova.Engine.Value.{null, str, obj, Fields, get}
use regnova.Engine.Compare.{Outcome, match, no_match, unknown}
use regnova.Engine.Node.{Reason, low_confidence, Evaluation}
use regnova.Finding.Model.{moderate}
use regnova.Finding.Propose.{Proposal, propose}
use regnova.Assessment.Model.{
  UnknownBehavior, fail_closed, request_input, human_review, applicability, requirement_result,
  finding_proposal, ResultOutcome, applies, does_not_apply, satisfied, not_satisfied, undecided,
  RuleVersion, RequirementVersion, AssessmentRun, StepRun, Db, Services, get_requirement_version,
}

-- `_effective_unknown_behavior`: low confidence is pinned to human review.
unfoldable pub effective_unknown_behavior : Option Reason → UnknownBehavior → UnknownBehavior
effective_unknown_behavior (some low_confidence) behavior = human_review
effective_unknown_behavior _ behavior = behavior

-- `_resolve_applicability_outcome`.
unfoldable pub resolve_applicability_outcome : Outcome → UnknownBehavior → ResultOutcome
resolve_applicability_outcome match behavior = applies
resolve_applicability_outcome no_match behavior = does_not_apply
resolve_applicability_outcome unknown fail_closed = applies
resolve_applicability_outcome unknown _ = undecided

-- `_resolve_satisfaction_outcome`.
unfoldable pub resolve_satisfaction_outcome : Outcome → UnknownBehavior → ResultOutcome
resolve_satisfaction_outcome match behavior = satisfied
resolve_satisfaction_outcome no_match behavior = not_satisfied
resolve_satisfaction_outcome unknown fail_closed = not_satisfied
resolve_satisfaction_outcome unknown _ = undecided

module _ {N : Type 0} (services : Services N) where
  -- `_create_requirement_result`: nothing is written for a rule without a requirement.
  unfoldable pub create_requirement_result :
      AssessmentRun → RuleVersion N → StepRun N → ResultOutcome → Fields N → Db N → Db N
  create_requirement_result run rule step outcome facts db = elim rule.requirement_version_id [
    | none ↦ db
    | some requirement_version_id ↦ record db {
      results =
          record {
            step_run_id = step.id;
            assessment_run_id = run.id;
            requirement_version_id = requirement_version_id;
            rule_version_id = rule.id;
            outcome = outcome;
            predicate_inputs = facts;
            source_locations = rule.source_locations;
          }
          ∷ db.results;
    }
  ]

  -- `_observed_value`.
  unfoldable pub observed_value : Fields N → String
  unfolding get
  observed_value facts = elim (get "wording" facts) [
    | some (str wording) ↦ wording
    | _ ↦ elim (get "extracted" facts) [
      | some (obj extracted) ↦ elim (get "value" extracted) [
        | some v ↦ services.dumps v
        | none ↦ services.dumps (obj facts)
      ]
      | _ ↦ services.dumps (obj facts)
    ]
  ]

  -- The rationale that `_maybe_propose_finding` writes; `none` where it returns early.
  unfoldable pub rationale_of : RuleVersion N → Evaluation N → Option String
  rationale_of rule result = elim result.outcome [
    | match ↦ some ("Condition matched: " ++ trace_summary services result.trace)
    | no_match ↦ none
    | unknown ↦ elim result.unknown_reason [
      | some low_confidence ↦
          some (low_confidence_rationale services result.trace rule.unknown_behavior)
      | _ ↦ elim rule.unknown_behavior [
        | fail_closed ↦
            some
              "Required input missing; proposed under fail-closed unknown-behavior policy rather than silently passing."
        | human_review ↦
            some
              "Required input missing; escalated to human review per this rule's unknown-behavior policy."
        | request_input ↦ none
      ]
    ]
  ]

  abbrev pub requirement_of : Db N → RuleVersion N → Option RequirementVersion
  requirement_of db rule = elim rule.requirement_version_id [
    | none ↦ none
    | some id ↦ get_requirement_version db id
  ]

  -- The arguments with which a finding is proposed.
  unfoldable pub proposal_of :
      AssessmentRun
      → RuleVersion N
      → StepRun N
      → Fields N
      → Option String
      → String
      → Db N
      → Proposal
  proposal_of run rule step facts correlation_id rationale db =
      let requirement = requirement_of db rule in
      record {
        organization_id = run.organization_id;
        product_market_state_id = run.product_market_state_id;
        dimension = step.dimension;
        assessment_run_id = run.id;
        requirement_version_id = rule.requirement_version_id;
        rule_version_id = some rule.id;
        subject_key = step.subject_key;
        issue_type = elim requirement [
          | none ↦ services.rule_issue_type rule.id
          | some r ↦ r.obligation_type
        ];
        observed_value = observed_value facts;
        severity = elim requirement [ none ↦ moderate | some r ↦ r.default_severity ];
        hard_gate_effect = elim requirement [ none ↦ false | some r ↦ r.is_hard_gate ];
        rationale = rationale;
        normalized_value = none;
        observed_location = elim (get "location" facts) [
          | none ↦ none
          | some null ↦ none
          | some v ↦ some (services.dumps v)
        ];
        analysis_method = none;
        ai_model_identifier = none;
        ai_prompt_version = none;
        correlation_id = correlation_id;
        new_id = services.uuid4 db.drawn;
      }

  -- `_maybe_propose_finding`.
  unfoldable pub maybe_propose_finding :
      AssessmentRun
      → RuleVersion N
      → StepRun N
      → Evaluation N
      → Fields N
      → Option String
      → Db N
      → Db N
  maybe_propose_finding run rule step result facts correlation_id db =
      elim (rationale_of rule result) [
        | none ↦ db
        | some rationale ↦ record db {
          review =
              (propose (proposal_of run rule step facts correlation_id rationale db) db.review).1;
          drawn = db.drawn + 1;
        }
      ]

  -- `_apply_output`.
  unfoldable pub apply_output :
      AssessmentRun
      → RuleVersion N
      → StepRun N
      → Evaluation N
      → Fields N
      → Option String
      → Db N
      → Db N
  apply_output run rule step result facts correlation_id db =
      let behavior = effective_unknown_behavior result.unknown_reason rule.unknown_behavior in
      elim rule.output_type [
        | applicability ↦
            create_requirement_result run rule step
              (resolve_applicability_outcome result.outcome behavior) facts db
        | requirement_result ↦
            create_requirement_result run rule step
              (resolve_satisfaction_outcome result.outcome behavior) facts db
        | finding_proposal ↦ maybe_propose_finding run rule step result facts correlation_id db
        | _ ↦ db
      ]
