-- ===== src/Access.antt =====
-- Users, roles and internal role assignments, and the permission checks on them:
-- app/modules/rbac/service.py, app/modules/user/repository.py, app/modules/role/repository.py and
-- app/modules/internal_role_assignment/{models,repository}.py.
use regnova.Prelude.{
  ℕ, String, Bool, true, false, Option, none, some, List, [], ◌∷◌, find, any, is_some, ◌==◌, ◌&&◌,
}
use regnova.Prelude.Text.{str_eq}

pub record User : Type 0 where
  pub id : ℕ
  pub organization_id : ℕ
  pub role_id : ℕ

pub record Role : Type 0 where
  pub id : ℕ
  pub organization_id : ℕ
  pub code : String

pub data InternalRoleCode : Type 0 where
  ra senior_reviewer submission_operations platform_admin regulatory_knowledge_lead :
      InternalRoleCode
  regulatory_content_advisor auditor : InternalRoleCode

pub data AssignmentStatus : Type 0 where
  proposed approved rejected revoked superseded : AssignmentStatus

-- The columns that decide whether an assignment is in force.
pub record Grant : Type 0 where
  pub user_id : ℕ
  pub role_code : InternalRoleCode
  pub status : AssignmentStatus

-- What the permission checks read: the tables, newest rows first, and the case mapping of Unicode.
pub record Directory : Type 0 where
  pub upper : String → String
  pub users : List User
  pub roles : List Role
  pub grants : List Grant

abbrev pub role_number : InternalRoleCode → ℕ
role_number ra = 0
role_number senior_reviewer = 1
role_number submission_operations = 2
role_number platform_admin = 3
role_number regulatory_knowledge_lead = 4
role_number regulatory_content_advisor = 5
role_number auditor = 6

abbrev pub is_approved : AssignmentStatus → Bool
is_approved approved = true
is_approved _ = false

-- `UserRepository.get_by_id_only`.
unfoldable pub get_user : Directory → ℕ → Option User
get_user d user_id = find (λ u. u.id == user_id) d.users

-- `RoleRepository.get_by_id`.
unfoldable pub get_role : Directory → ℕ → ℕ → Option Role
get_role d organization_id role_id =
    find (λ r. (r.id == role_id) && (r.organization_id == organization_id)) d.roles

-- `RBACService.require_role`: whether it returns.
unfoldable pub require_role : Directory → User → List String → Bool
require_role d user roles = elim (get_role d user.organization_id user.role_id) [
  | none ↦ false
  | some role ↦ any (λ code. str_eq (d.upper role.code) code) roles
]

-- `InternalRoleAssignmentRepository.get_active_for_user_role`.
unfoldable pub get_active_for_user_role : Directory → ℕ → InternalRoleCode → Option Grant
get_active_for_user_role d user_id code =
    find
      (λ g.
        (g.user_id == user_id)
        && (role_number g.role_code == role_number code)
        && is_approved g.status)
      d.grants

-- `_has_internal_role`.
unfoldable pub has_internal_role : Directory → ℕ → InternalRoleCode → Bool
has_internal_role d user_id code = is_some (get_active_for_user_role d user_id code)

-- `FindingService._is_customer_manager`.
unfoldable pub is_customer_manager : Directory → User → Bool
is_customer_manager d actor = require_role d actor ("ADMIN" ∷ "MANAGER" ∷ [])
