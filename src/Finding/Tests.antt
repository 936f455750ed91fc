-- ===== src/Finding/Tests.antt =====
-- A critical finding from its proposal to its resolution, and the theorems about findings at it.
use regnova.Prelude.{◌≡◌, ◌≢◌, refl, ℕ, true, none, some, [], ◌∷◌, arith, ◌↔◌, ◌+◌, ◌||◌, ◌&&◌}
use regnova.Access.{
  Directory, User, ra, senior_reviewer, approved, get_user, get_role, require_role,
  get_active_for_user_role, has_internal_role, is_customer_manager,
}
use regnova.Finding.Model.{
  critical, resolved, is_terminal, Finding, FindingRevision, Db, ok, raise, transition_not_allowed,
  transition_not_authorized,
}
use regnova.Finding.Repository.{get_finding, latest_of, get_latest, find_open_match}
use regnova.Finding.Service.{
  Request, get_by_id, latest_or_404, require_status, load_actor_or_404, next_revision,
  append_revision, publish_decision_changed, accept, reject, mark_not_applicable, respond, reopen,
  resolve, accept_with_rationale,
}
use regnova.Finding.Propose.{
  Proposal, new_finding, proposed_revision, write_proposal, repropose, propose,
}
use regnova.Finding.Latest.{count}
use regnova.Finding.Transition.{
  accept_, reject_, resolve_, perform, after, IsPermitted, perform_iff,
}
use regnova.Finding.Lifecycle.{
  perform_terminal, Moves, perform-Moves, is_major, is_grave, resolve_authority,
}
use regnova.Finding.Numbering.{Numbered, Reach, here, next, performed, proposed_by, Reach-Numbered}
use regnova.Finding.Repeated.{Revised, propose_again}

unfoldable pub program : Unit {0}
unfolding get_user get_role require_role get_active_for_user_role has_internal_role
    is_customer_manager get_finding latest_of get_latest find_open_match get_by_id latest_or_404
    require_status load_actor_or_404 next_revision append_revision publish_decision_changed accept
    reject mark_not_applicable respond reopen resolve accept_with_rationale new_finding
    proposed_revision write_proposal repropose propose perform count
program = tt

-- User 1 manages organization 7; user 2 is RA and user 3 a senior reviewer, of tenant zero.
abbrev staff : Directory
staff = record {
  upper = λ s. s;
  users =
      record { id = 1; organization_id = 7; role_id = 70 }
      ∷ record { id = 2; organization_id = 0; role_id = 71 }
      ∷ record { id = 3; organization_id = 0; role_id = 71 }
      ∷ [];
  roles = record { id = 70; organization_id = 7; code = "MANAGER" } ∷ [];
  grants =
      record { user_id = 2; role_code = ra; status = approved }
      ∷ record { user_id = 3; role_code = senior_reviewer; status = approved }
      ∷ [];
}

abbrev pub empty : Db
empty = record { directory = staff; findings = []; revisions = []; outbox = [] }

abbrev pub banned : ℕ → Proposal
banned id = record {
  organization_id = 7;
  product_market_state_id = 5;
  dimension = "CLAIMS";
  assessment_run_id = 40;
  requirement_version_id = some 30;
  rule_version_id = some 31;
  subject_key = some "claim-1";
  issue_type = "PROHIBITED_CLAIM";
  observed_value = "cures acne";
  severity = critical;
  hard_gate_effect = true;
  rationale = "Condition matched";
  normalized_value = none;
  observed_location = none;
  analysis_method = none;
  ai_model_identifier = none;
  ai_prompt_version = none;
  correlation_id = none;
  new_id = id;
}

abbrev by : ℕ → Request
by actor = record {
  organization_id = 7;
  product_market_state_id = 5;
  finding_id = 11;
  actor_user_id = actor;
  rationale = "reviewed";
  correlation_id = none;
  now = 99;
}

raised : Db
raised = (propose (banned 11) empty).1

issue : Finding
issue = new_finding (banned 11)

first_revision : FindingRevision
first_revision = proposed_revision (banned 11) issue 1

settled : Db
settled = after (resolve_ none none) (by 3) issue first_revision raised

last_revision : FindingRevision
last_revision = next_revision (by 3) issue first_revision resolved none none

discarded : Db
discarded = after (reject_ none) (by 2) issue first_revision raised

samples : Unit {0}
unfolding raised issue first_revision settled last_revision discarded program
samples = tt

resolved_by_senior : perform (resolve_ none none) (by 3) raised ≡ ok (issue, settled)
unfolding samples
resolved_by_senior = refl

refused_to_ra : perform (resolve_ none none) (by 2) raised ≡ raise transition_not_authorized
unfolding samples
refused_to_ra = refl

refused_to_manager : perform (resolve_ none none) (by 1) raised ≡ raise transition_not_authorized
unfolding samples
refused_to_manager = refl

perform_iff_example : (perform (resolve_ none none) (by 3) raised ≡ ok (issue, settled)) ↔ (
    (latest : FindingRevision) × (actor : User) × IsPermitted
      (resolve_ none none)
      (by 3)
      raised
      issue
      latest
      actor
    × (settled ≡ after (resolve_ none none) (by 3) issue latest raised))
perform_iff_example = perform_iff (resolve_ none none) (by 3) raised issue settled

settled_found : get_finding settled 7 5 11 ≡ some issue
unfolding samples
settled_found = refl

settled_current : get_latest settled issue.id ≡ some last_revision
unfolding samples
settled_current = refl

settled_is_terminal : is_terminal last_revision.status ≡ true
unfolding samples
settled_is_terminal = refl

perform_terminal_example : perform (accept_ none) (by 3) settled ≡ raise transition_not_allowed
perform_terminal_example =
    perform_terminal (accept_ none) (by 3) settled issue last_revision settled_found settled_current
      settled_is_terminal

another : 12 ≢ issue.id
unfolding samples
another = omega arith

perform-Moves_example :
    (old new : FindingRevision) × (get_latest raised issue.id ≡ some old)
    × (get_latest settled issue.id ≡ some new)
    × Moves old.status new.status
    × (new.revision_number ≡ old.revision_number + 1)
    × (new.severity ≡ old.severity)
    × (new.decided_by_user_id ≡ some 3)
    × (settled.revisions ≡ new ∷ raised.revisions)
    × (get_latest settled 12 ≡ get_latest raised 12)
perform-Moves_example =
    perform-Moves (resolve_ none none) (by 3) raised issue settled 12 resolved_by_senior another

raised_current : get_latest raised issue.id ≡ some first_revision
unfolding samples
raised_current = refl

raised_is_grave : is_grave first_revision.severity ≡ true
unfolding samples
raised_is_grave = refl

resolve_authority_example :
    (has_internal_role raised.directory 3 senior_reviewer
      || (is_major first_revision.severity && has_internal_role raised.directory 3 ra))
    ≡ true
resolve_authority_example =
    resolve_authority none none (by 3) raised issue settled first_revision resolved_by_senior
      raised_current raised_is_grave

history : Reach empty settled
unfolding samples
history =
    next (next here (proposed_by (banned 11) refl))
      (performed (resolve_ none none) (by 3) issue resolved_by_senior)

Reach-Numbered_example : Numbered settled.revisions
Reach-Numbered_example = Reach-Numbered history tt

issue_raised : (propose (banned 11) empty).0 ≡ some issue
unfolding samples
issue_raised = refl

fresh : count 11 empty.revisions ≡ 0
unfolding samples
fresh = refl

propose_again_example :
    (r : FindingRevision) × (get_latest (propose (banned 11) empty).1 issue.id ≡ some r)
    × Revised
        (banned 12)
        issue
        r
        (propose (banned 11) empty).1
        (propose (banned 12) (propose (banned 11) empty).1)
propose_again_example =
    propose_again (banned 11) (banned 12) empty issue fresh issue_raised refl refl refl refl
