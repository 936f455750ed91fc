-- ===== src/Finding/Service.antt =====
-- The review transitions of app/modules/finding/service.py, on a request's arguments.
use regnova.Prelude.{
  ℕ, ◌+◌, String, Bool, true, false, Option, none, some, List, [], ◌∷◌, any, ◌==◌, ◌||◌,
  if◌then◌else◌,
}
use regnova.Access.{
  User, InternalRoleCode, ra, senior_reviewer, get_user, has_internal_role, is_customer_manager,
}
use regnova.Finding.Model.{
  FindingStatus, proposed, open_, customer_responded, resolved, accepted_with_rationale,
  not_applicable, rejected, superseded, Severity, critical, major, Finding, FindingRevision,
  finding_decision_changed, Db, finding_not_found, user_not_found, transition_not_allowed,
  transition_not_authorized, Action, ◌>>=◌, ◌>>◌, pure, gets, or_raise, require, modify,
}
use regnova.Finding.Repository.{get_finding, get_latest}

-- The keyword arguments of a transition and the time at which it runs.
pub record Request : Type 0 where
  pub organization_id : ℕ
  pub product_market_state_id : ℕ
  pub finding_id : ℕ
  pub actor_user_id : ℕ
  pub rationale : String
  pub correlation_id : Option String
  pub now : ℕ

abbrev pub status_number : FindingStatus → ℕ
status_number proposed = 0
status_number open_ = 1
status_number customer_responded = 2
status_number resolved = 3
status_number accepted_with_rationale = 4
status_number not_applicable = 5
status_number rejected = 6
status_number superseded = 7

abbrev pub non_terminal_statuses : List FindingStatus
non_terminal_statuses = proposed ∷ open_ ∷ customer_responded ∷ []

-- `status in statuses`.
abbrev pub is_among : FindingStatus → List FindingStatus → Bool
is_among status statuses = any (λ s. status_number s == status_number status) statuses

unfoldable pub get_by_id : Request → Action Finding
get_by_id q = do
  found ← gets (λ db. get_finding db q.organization_id q.product_market_state_id q.finding_id)
  or_raise finding_not_found found

unfoldable pub latest_or_404 : ℕ → Action FindingRevision
latest_or_404 finding_id = do
  latest ← gets (λ db. get_latest db finding_id)
  or_raise finding_not_found latest

unfoldable pub require_status : FindingRevision → List FindingStatus → Action (Unit {0})
require_status latest allowed = require (is_among latest.status allowed) transition_not_allowed

unfoldable pub load_actor_or_404 : ℕ → Action User
load_actor_or_404 actor_user_id = do
  actor ← gets (λ db. get_user db.directory actor_user_id)
  or_raise user_not_found actor

abbrev pub has_role : Db → User → InternalRoleCode → Bool
has_role db actor code = has_internal_role db.directory actor.id code

abbrev pub is_manager : Db → User → Bool
is_manager db actor = is_customer_manager db.directory actor

abbrev pub is_resolved : FindingStatus → Bool
is_resolved resolved = true
is_resolved _ = false

-- The revision that `_append_revision` creates.
unfoldable pub next_revision :
    Request
    → Finding
    → FindingRevision
    → FindingStatus
    → Option String
    → Option String
    → FindingRevision
next_revision q finding latest status disposition resolution_decision = record {
  finding_id = finding.id;
  revision_number = latest.revision_number + 1;
  assessment_run_id = latest.assessment_run_id;
  issue_type = latest.issue_type;
  observed_value = latest.observed_value;
  normalized_value = latest.normalized_value;
  observed_location = latest.observed_location;
  severity = latest.severity;
  status = status;
  disposition = disposition;
  hard_gate_effect = latest.hard_gate_effect;
  rationale = q.rationale;
  analysis_method = none;
  ai_model_identifier = none;
  ai_prompt_version = none;
  decided_by_user_id = some q.actor_user_id;
  resolution_decision = resolution_decision;
  resolved_at = if is_resolved status then some q.now else none;
  source_locations = latest.source_locations;
}

unfoldable pub append_revision :
    Request
    → Finding
    → FindingRevision
    → FindingStatus
    → Option String
    → Option String
    → Action (Unit {0})
append_revision q finding latest status disposition resolution_decision = modify (λ db. record db {
  revisions = next_revision q finding latest status disposition resolution_decision ∷ db.revisions;
})

unfoldable pub publish_decision_changed :
    Request → Finding → FindingStatus → FindingStatus → Option String → Action (Unit {0})
publish_decision_changed q finding from_status to_status disposition = modify (λ db. record db {
  outbox =
      record {
        organization_id = q.organization_id;
        payload = finding_decision_changed (record {
          finding_id = finding.id;
          product_market_state_id = finding.product_market_state_id;
          dimension = finding.dimension;
          from_status = from_status;
          to_status = to_status;
          rationale = q.rationale;
          disposition = disposition;
        });
        actor_user_id = some q.actor_user_id;
        correlation_id = q.correlation_id;
      }
      ∷ db.outbox;
})

unfoldable pub accept : Request → Option String → Action Finding
accept q disposition = do
  finding ← get_by_id q
  latest ← latest_or_404 finding.id
  require_status latest (proposed ∷ [])
  actor ← load_actor_or_404 q.actor_user_id
  authorized ←
      gets (λ db. is_manager db actor || has_role db actor ra || has_role db actor senior_reviewer)
  require authorized transition_not_authorized
  append_revision q finding latest open_ disposition none
  publish_decision_changed q finding latest.status open_ disposition
  pure finding

unfoldable pub reject : Request → Option String → Action Finding
reject q disposition = do
  finding ← get_by_id q
  latest ← latest_or_404 finding.id
  require_status latest (proposed ∷ [])
  actor ← load_actor_or_404 q.actor_user_id
  authorized ← gets (λ db. has_role db actor ra || has_role db actor senior_reviewer)
  require authorized transition_not_authorized
  append_revision q finding latest rejected disposition none
  publish_decision_changed q finding latest.status rejected disposition
  pure finding

unfoldable pub mark_not_applicable : Request → Option String → Action Finding
mark_not_applicable q disposition = do
  finding ← get_by_id q
  latest ← latest_or_404 finding.id
  require_status latest (proposed ∷ [])
  actor ← load_actor_or_404 q.actor_user_id
  authorized ← gets (λ db. has_role db actor ra || has_role db actor senior_reviewer)
  require authorized transition_not_authorized
  append_revision q finding latest not_applicable disposition none
  publish_decision_changed q finding latest.status not_applicable disposition
  pure finding

unfoldable pub respond : Request → Action Finding
respond q = do
  finding ← get_by_id q
  latest ← latest_or_404 finding.id
  require_status latest (open_ ∷ [])
  actor ← load_actor_or_404 q.actor_user_id
  authorized ← gets (λ db. is_manager db actor)
  require authorized transition_not_authorized
  append_revision q finding latest customer_responded none none
  publish_decision_changed q finding latest.status customer_responded none
  pure finding

unfoldable pub reopen : Request → Action Finding
reopen q = do
  finding ← get_by_id q
  latest ← latest_or_404 finding.id
  require_status latest (customer_responded ∷ [])
  actor ← load_actor_or_404 q.actor_user_id
  authorized ← gets (λ db. has_role db actor ra || has_role db actor senior_reviewer)
  require authorized transition_not_authorized
  append_revision q finding latest open_ none none
  publish_decision_changed q finding latest.status open_ none
  pure finding

-- The authority that `resolve` asks for, by severity.
abbrev pub resolves : Severity → Bool → Bool → Bool → Bool
resolves critical is_customer_manager is_ra is_senior = is_senior
resolves major is_customer_manager is_ra is_senior = is_ra || is_senior
resolves _ is_customer_manager is_ra is_senior = is_customer_manager || is_ra || is_senior

unfoldable pub resolve : Request → Option String → Option String → Action Finding
resolve q disposition resolution_decision = do
  finding ← get_by_id q
  latest ← latest_or_404 finding.id
  require_status latest non_terminal_statuses
  actor ← load_actor_or_404 q.actor_user_id
  is_ra ← gets (λ db. has_role db actor ra)
  is_senior ← gets (λ db. has_role db actor senior_reviewer)
  authorized ← gets (λ db. resolves latest.severity (is_manager db actor) is_ra is_senior)
  require authorized transition_not_authorized
  append_revision q finding latest resolved disposition resolution_decision
  publish_decision_changed q finding latest.status resolved disposition
  pure finding

unfoldable pub accept_with_rationale : Request → Option String → Action Finding
accept_with_rationale q disposition = do
  finding ← get_by_id q
  latest ← latest_or_404 finding.id
  require_status latest non_terminal_statuses
  actor ← load_actor_or_404 q.actor_user_id
  authorized ← gets (λ db. has_role db actor ra || has_role db actor senior_reviewer)
  require authorized transition_not_authorized
  append_revision q finding latest accepted_with_rationale disposition none
  publish_decision_changed q finding latest.status accepted_with_rationale disposition
  pure finding
