-- ===== src/Finding/Propose.antt =====
-- `FindingService.propose` of app/modules/finding/service.py.
use regnova.Prelude.{ℕ, ◌+◌, String, Bool, Option, none, some, [], ◌∷◌}
use regnova.Finding.Model.{proposed, Severity, Finding, FindingRevision, finding_proposed, Db}
use regnova.Finding.Repository.{get_latest, find_open_match}

-- The keyword arguments of `propose`, and the identifier that a new finding gets.
pub record Proposal : Type 0 where
  pub organization_id : ℕ
  pub product_market_state_id : ℕ
  pub dimension : String
  pub assessment_run_id : ℕ
  pub requirement_version_id : Option ℕ
  pub rule_version_id : Option ℕ
  pub subject_key : Option String
  pub issue_type : String
  pub observed_value : String
  pub severity : Severity
  pub hard_gate_effect : Bool
  pub rationale : String
  pub normalized_value : Option String
  pub observed_location : Option String
  pub analysis_method : Option String
  pub ai_model_identifier : Option String
  pub ai_prompt_version : Option String
  pub correlation_id : Option String
  pub new_id : ℕ

unfoldable pub new_finding : Proposal → Finding
new_finding p = record {
  id = p.new_id;
  organization_id = p.organization_id;
  product_market_state_id = p.product_market_state_id;
  dimension = p.dimension;
  requirement_version_id = p.requirement_version_id;
  rule_version_id = p.rule_version_id;
  subject_key = p.subject_key;
}

unfoldable pub proposed_revision : Proposal → Finding → ℕ → FindingRevision
proposed_revision p finding next_revision_number = record {
  finding_id = finding.id;
  revision_number = next_revision_number;
  assessment_run_id = p.assessment_run_id;
  issue_type = p.issue_type;
  observed_value = p.observed_value;
  normalized_value = p.normalized_value;
  observed_location = p.observed_location;
  severity = p.severity;
  status = proposed;
  disposition = none;
  hard_gate_effect = p.hard_gate_effect;
  rationale = p.rationale;
  analysis_method = p.analysis_method;
  ai_model_identifier = p.ai_model_identifier;
  ai_prompt_version = p.ai_prompt_version;
  decided_by_user_id = none;
  resolution_decision = none;
  resolved_at = none;
  source_locations = [];
}

-- The end of `propose`: the revision is created and FindingProposed published.
unfoldable pub write_proposal : Proposal → Finding → ℕ → Db → Option Finding × Db
unfolding proposed_revision
write_proposal p finding next_revision_number db = (
  some finding,
  record db {
    revisions = proposed_revision p finding next_revision_number ∷ db.revisions;
    outbox =
        record {
          organization_id = p.organization_id;
          payload = finding_proposed (record {
            finding_id = finding.id;
            product_market_state_id = p.product_market_state_id;
            dimension = p.dimension;
            subject_key = p.subject_key;
            assessment_run_id = p.assessment_run_id;
            requirement_version_id = p.requirement_version_id;
            rule_version_id = p.rule_version_id;
            severity = p.severity;
            hard_gate_effect = p.hard_gate_effect;
            issue_type = p.issue_type;
            observed_value = p.observed_value;
            observed_location = p.observed_location;
            rationale = p.rationale;
            analysis_method = p.analysis_method;
            ai_model_identifier = p.ai_model_identifier;
            ai_prompt_version = p.ai_prompt_version;
          });
          actor_user_id = none;
          correlation_id = p.correlation_id;
        }
        ∷ db.outbox;
  },
)

-- What `propose` does with a finding that matches, by its latest revision.
unfoldable pub repropose : Proposal → Finding → Option FindingRevision → Db → Option Finding × Db
repropose p finding none db = write_proposal p finding 1 db
repropose p finding (some latest) db = elim latest.status [
  | proposed ↦ write_proposal p finding (latest.revision_number + 1) db
  | _ ↦ (none, db)
]

-- The finding that the proposal's issue matches.
abbrev pub match_of : Proposal → Db → Option Finding
match_of p db =
    find_open_match db p.product_market_state_id p.dimension p.requirement_version_id p.subject_key

unfoldable pub propose : Proposal → Db → Option Finding × Db
propose p db = elim (match_of p db) [
  | some existing ↦ repropose p existing (get_latest db existing.id) db
  | none ↦ write_proposal p (new_finding p) 1 (record db { findings = new_finding p ∷ db.findings })
]
