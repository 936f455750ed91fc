-- ===== src/Assignment/Revocation.antt =====
-- The revocations of app/modules/internal_role_assignment/service.py.
use regnova.Prelude.{ℕ, String, Bool, true, false, not, Option, none, some, if◌then◌else◌, is_some}
use regnova.Prelude.Text.{is_empty}
use regnova.Access.{revoked, is_approved}
use regnova.Assignment.Model.{
  InternalRoleAssignment, propose_revocation_, decide_revocation_, revoke_, Db,
  assignment_not_active, revocation_already_pending, no_revocation_pending, Result, ◌>>=◌, ◌>>◌,
}
use regnova.Prelude.Rows.{modify_first}
use regnova.Assignment.Service.{
  require, has_id, require_internal_user, get_assignment, publish_changed, Request,
}

abbrev pub revocation_asked : Request → String → InternalRoleAssignment → InternalRoleAssignment
revocation_asked q rationale a = record a {
  revocation_proposed_by_user_id = some q.actor_user_id;
  revocation_proposed_at = some q.now;
  revocation_rationale = some rationale;
}

unfoldable pub propose_revocation : Request → ℕ → String → Db → Result Db
unfolding modify_first
propose_revocation q id rationale db = do
  assignment ← get_assignment db id
  require_internal_user db q.actor_user_id
  require (is_approved assignment.status) assignment_not_active
  require (not (is_some assignment.revocation_proposed_at)) revocation_already_pending
  let change = revocation_asked q rationale
  publish_changed (record db { assignments = modify_first (has_id id) change db.assignments })
      (change assignment) propose_revocation_ (some assignment.status) q.actor_user_id
      (some rationale) q.correlation_id

-- `decision_rationale or assignment.revocation_rationale`.
abbrev pub reason_of : Option String → Option String → Option String
reason_of none other = other
reason_of (some text) other = if is_empty text then other else some text

abbrev pub revoked_by : Request → Option String → InternalRoleAssignment → InternalRoleAssignment
revoked_by q reason a = record a {
  status = revoked;
  revoked_by_user_id = some q.actor_user_id;
  revoked_at = some q.now;
  revocation_reason = reason;
}

abbrev pub revocation_decided :
    Request → Bool → Option String → InternalRoleAssignment → InternalRoleAssignment
revocation_decided q true rationale a = revoked_by q (reason_of rationale a.revocation_rationale) a
revocation_decided q false rationale a = record a {
  revocation_proposed_by_user_id = none;
  revocation_proposed_at = none;
  revocation_rationale = none;
}

unfoldable pub decide_revocation : Request → ℕ → Bool → Option String → Db → Result Db
unfolding modify_first
decide_revocation q id approve rationale db = do
  assignment ← get_assignment db id
  require (is_some assignment.revocation_proposed_at) no_revocation_pending
  let change = revocation_decided q approve rationale
  publish_changed (record db { assignments = modify_first (has_id id) change db.assignments })
      (change assignment) decide_revocation_ (some assignment.status) q.actor_user_id rationale
      q.correlation_id

unfoldable pub revoke : Request → ℕ → String → Db → Result Db
unfolding modify_first
revoke q id reason db = do
  assignment ← get_assignment db id
  require (is_approved assignment.status) assignment_not_active
  let change = revoked_by q (some reason)
  publish_changed (record db { assignments = modify_first (has_id id) change db.assignments })
      (change assignment) revoke_ (some assignment.status) q.actor_user_id (some reason)
      q.correlation_id
