-- ===== src/Assignment/Service.antt =====
-- app/modules/internal_role_assignment/service.py. A request is a transaction: it returns the new
-- tables, or raises and leaves none of its writes. The session does not flush before a query.
use regnova.Prelude.{
  ℕ, suc, String, Bool, true, false, not, Option, none, some, List, [], ◌∷◌, find, ◌==◌, ◌&&◌,
  if◌then◌else◌,
}
use regnova.Prelude.Rows.{modify_first}
use regnova.Prelude.Text.{str_eq}
use regnova.Access.{
  User, InternalRoleCode, ra, senior_reviewer, submission_operations, platform_admin,
  regulatory_knowledge_lead, regulatory_content_advisor, auditor, role_number, AssignmentStatus,
  proposed, approved, rejected, superseded, is_approved,
}
use regnova.Assignment.Model.{
  InternalRoleAssignment, Change, propose_, decide_, Db, Error, user_not_found,
  target_user_not_internal, tenant_zero_not_configured, invalid_internal_role_code,
  scope_not_allowed_for_role, assignment_not_found, assignment_not_pending, Result, ok, raise,
  ◌>>=◌, ◌>>◌,
}

abbrev pub require : Bool → Error → Result (Unit {0})
require test e = if test then ok tt else raise e

abbrev pub or_raise : {A : Type 0} → Option A → Error → Result A
or_raise none e = raise e
or_raise (some a) e = ok a

abbrev pub has_id : ℕ → InternalRoleAssignment → Bool
has_id id a = a.id == id

abbrev pub is_active : ℕ → InternalRoleCode → InternalRoleAssignment → Bool
is_active user_id code a =
    (a.user_id == user_id) && (role_number a.role_code == role_number code) && is_approved a.status

abbrev pub is_proposed : AssignmentStatus → Bool
is_proposed proposed = true
is_proposed _ = false

-- `_require_internal_user`.
unfoldable pub require_internal_user : Db → ℕ → Result (Unit {0})
require_internal_user db user_id = do
  user ← or_raise (find (λ (u : User). u.id == user_id) db.users) user_not_found
  tenant_zero ← or_raise db.tenant_zero tenant_zero_not_configured
  require (user.organization_id == tenant_zero) target_user_not_internal

-- `get_by_id`.
unfoldable pub get_assignment : Db → ℕ → Result InternalRoleAssignment
get_assignment db id = or_raise (find (has_id id) db.assignments) assignment_not_found

-- `_publish_changed`, and the commit.
unfoldable pub publish_changed :
    Db
    → InternalRoleAssignment
    → Change
    → Option AssignmentStatus
    → ℕ
    → Option String
    → Option String
    → Result Db
publish_changed db a action from_status actor_user_id rationale correlation_id = do
  tenant_zero ← or_raise db.tenant_zero tenant_zero_not_configured
  ok (record db {
    outbox =
        record {
          organization_id = tenant_zero;
          assignment_id = a.id;
          user_id = a.user_id;
          role_code = a.role_code;
          scope = a.scope;
          action = action;
          from_status = from_status;
          to_status = a.status;
          rationale = rationale;
          actor_user_id = actor_user_id;
          correlation_id = correlation_id;
        }
        ∷ db.outbox;
  })

abbrev pub code_text : InternalRoleCode → String
code_text ra = "RA"
code_text senior_reviewer = "SENIOR_REVIEWER"
code_text submission_operations = "SUBMISSION_OPERATIONS"
code_text platform_admin = "PLATFORM_ADMIN"
code_text regulatory_knowledge_lead = "REGULATORY_KNOWLEDGE_LEAD"
code_text regulatory_content_advisor = "REGULATORY_CONTENT_ADVISOR"
code_text auditor = "AUDITOR"

-- The member of _VALID_ROLE_CODES with that text.
abbrev pub role_of : String → Option InternalRoleCode
role_of text =
    find (λ code. str_eq (code_text code) text)
      (ra ∷ senior_reviewer ∷ submission_operations ∷ platform_admin ∷ regulatory_knowledge_lead
        ∷ regulatory_content_advisor ∷ auditor ∷ [])

abbrev pub has_scope : Option (List String) → Bool
has_scope (some (x ∷ xs)) = true
has_scope _ = false

-- Who acts, when, and under which correlation.
pub record Request : Type 0 where
  pub actor_user_id : ℕ
  pub now : ℕ
  pub correlation_id : Option String

module _ (content_hash : ℕ → InternalRoleCode → Option (List String) → String) where
  -- The row that `propose` creates.
  unfoldable pub new_assignment :
      Request → ℕ → InternalRoleCode → Option (List String) → String → ℕ → InternalRoleAssignment
  new_assignment q user_id code scope rationale id = record {
    id = id;
    user_id = user_id;
    role_code = code;
    scope = scope;
    status = proposed;
    proposed_by_user_id = q.actor_user_id;
    proposed_at = q.now;
    rationale = rationale;
    approver_user_id = none;
    decided_at = none;
    decision_rationale = none;
    superseded_by_id = none;
    revocation_proposed_by_user_id = none;
    revocation_proposed_at = none;
    revocation_rationale = none;
    revoked_by_user_id = none;
    revoked_at = none;
    revocation_reason = none;
    content_hash = content_hash user_id code scope;
  }

  unfoldable pub propose : Request → ℕ → String → Option (List String) → String → Db → Result Db
  propose q user_id role_code scope rationale db = do
    require_internal_user db q.actor_user_id
    require_internal_user db user_id
    code ← or_raise (role_of role_code) invalid_internal_role_code
    require (not (has_scope scope && not (role_number code == role_number platform_admin)))
        scope_not_allowed_for_role
    let assignment = new_assignment q user_id code scope rationale db.next_id
    publish_changed
        (record db { assignments = assignment ∷ db.assignments; next_id = suc db.next_id })
        assignment propose_ none q.actor_user_id (some rationale) q.correlation_id

-- The end of `_supersede_prior_approved`, on the row that its query returned.
unfoldable pub supersede_row :
    InternalRoleAssignment
    → List InternalRoleAssignment
    → Option InternalRoleAssignment
    → List InternalRoleAssignment
unfolding modify_first
supersede_row assignment rows none = rows
supersede_row assignment rows (some prior) =
    if not (prior.id == assignment.id)
    then modify_first (is_active assignment.user_id assignment.role_code)
        (λ a. record a { status = superseded; superseded_by_id = some assignment.id }) rows
    else rows

-- `_supersede_prior_approved`: the query reads the rows as they were before the request.
unfoldable pub supersede_prior_approved :
    InternalRoleAssignment → List InternalRoleAssignment → List InternalRoleAssignment
unfolding supersede_row
supersede_prior_approved assignment rows =
    supersede_row assignment rows (find (is_active assignment.user_id assignment.role_code) rows)

abbrev pub decided :
    Request → AssignmentStatus → Option String → InternalRoleAssignment → InternalRoleAssignment
decided q status rationale a = record a {
  status = status;
  approver_user_id = some q.actor_user_id;
  decided_at = some q.now;
  decision_rationale = rationale;
}

unfoldable pub decide : Request → ℕ → Bool → Option String → Db → Result Db
unfolding modify_first
decide q id approve rationale db = do
  assignment ← get_assignment db id
  require (is_proposed assignment.status) assignment_not_pending
  let rows = if approve then supersede_prior_approved assignment db.assignments else db.assignments
  let change = decided q (if approve then approved else rejected) rationale
  publish_changed (record db { assignments = modify_first (has_id id) change rows })
      (change assignment) decide_ (some assignment.status) q.actor_user_id rationale
      q.correlation_id
