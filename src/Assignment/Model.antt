-- ===== src/Assignment/Model.antt =====
-- The rows of app/modules/internal_role_assignment/models.py and the exceptions of its service. A
-- scope is a list of JSON texts.
use regnova.Prelude.{ℕ, String, Option, List}
use regnova.Access.{User, InternalRoleCode, AssignmentStatus}

pub record InternalRoleAssignment : Type 0 where
  pub id : ℕ
  pub user_id : ℕ
  pub role_code : InternalRoleCode
  pub scope : Option (List String)
  pub status : AssignmentStatus
  pub proposed_by_user_id : ℕ
  pub proposed_at : ℕ
  pub rationale : String
  pub approver_user_id : Option ℕ
  pub decided_at : Option ℕ
  pub decision_rationale : Option String
  pub superseded_by_id : Option ℕ
  pub revocation_proposed_by_user_id : Option ℕ
  pub revocation_proposed_at : Option ℕ
  pub revocation_rationale : Option String
  pub revoked_by_user_id : Option ℕ
  pub revoked_at : Option ℕ
  pub revocation_reason : Option String
  pub content_hash : String

pub data Change : Type 0 where
  propose_ decide_ propose_revocation_ decide_revocation_ revoke_ : Change

-- The payload and the actor of InternalRoleAssignmentChanged.
pub record ChangedEvent : Type 0 where
  pub organization_id : ℕ
  pub assignment_id : ℕ
  pub user_id : ℕ
  pub role_code : InternalRoleCode
  pub scope : Option (List String)
  pub action : Change
  pub from_status : Option AssignmentStatus
  pub to_status : AssignmentStatus
  pub rationale : Option String
  pub actor_user_id : ℕ
  pub correlation_id : Option String

-- The tables, newest rows first; the organization that is tenant zero, if there is one; and the
-- number of the next identifier.
pub record Db : Type 0 where
  pub users : List User
  pub tenant_zero : Option ℕ
  pub assignments : List InternalRoleAssignment
  pub outbox : List ChangedEvent
  pub next_id : ℕ

pub data Error : Type 0 where
  user_not_found target_user_not_internal tenant_zero_not_configured : Error
  invalid_internal_role_code scope_not_allowed_for_role assignment_not_found : Error
  assignment_not_pending assignment_not_active revocation_already_pending : Error
  no_revocation_pending : Error

pub data Result (A : Type 0) : Type 0 where
  ok : A → Result A
  raise : Error → Result A

infixl 5 ◌>>=◌ ◌>>◌
abbrev pub ◌>>=◌ : {A B : Type 0} → Result A → (A → Result B) → Result B
ok a >>= f = f a
raise e >>= f = raise e

abbrev pub ◌>>◌ : {A B : Type 0} → Result A → Result B → Result B
m >> k = m >>= λ _. k
