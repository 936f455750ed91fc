-- ===== src/Content/Model.antt =====
-- The rows of app/modules/content_review: the versions of requirements, rules and sources, by what
-- the workflow reads and writes of them, and the history of their transitions.
use regnova.Prelude.{ℕ, String, Bool, true, false, Option, List, ◌==◌, ◌&&◌}
use regnova.Access.{Directory}

pub data ContentType : Type 0 where
  requirement_version rule_version source_version : ContentType

-- RequirementVersionStatus, RuleVersionStatus and SourceVersionStatus, which are the same.
pub data VersionStatus : Type 0 where
  draft in_review verified active superseded archived : VersionStatus

-- `activated_at` is a column of source versions only.
pub record Version : Type 0 where
  pub content_type : ContentType
  pub id : ℕ
  pub status : VersionStatus
  pub reviewer_user_id : Option ℕ
  pub verified_at : Option ℕ
  pub activated_at : Option ℕ

pub record ContentVersionTransition : Type 0 where
  pub content_type : ContentType
  pub content_version_id : ℕ
  pub from_status : Option VersionStatus
  pub to_status : VersionStatus
  pub actor_user_id : Option ℕ
  pub rationale : Option String

-- A ContentVersionTransitioned event.
pub record TransitionedEvent : Type 0 where
  pub organization_id : ℕ
  pub content_type : ContentType
  pub content_version_id : ℕ
  pub from_status : Option VersionStatus
  pub to_status : VersionStatus
  pub rationale : Option String
  pub actor_user_id : Option ℕ

-- The tables, newest rows first, and the organization that is tenant zero, if there is one.
pub record Db : Type 0 where
  pub directory : Directory
  pub tenant_zero : Option ℕ
  pub versions : List Version
  pub transitions : List ContentVersionTransition
  pub outbox : List TransitionedEvent

pub data Error : Type 0 where
  transition_not_allowed transition_not_authorized user_not_found unknown_content_type : Error

abbrev pub same_type : ContentType → ContentType → Bool
same_type requirement_version requirement_version = true
same_type rule_version rule_version = true
same_type source_version source_version = true
same_type _ _ = false

abbrev pub is_version : ContentType → ℕ → Version → Bool
is_version content_type id v = (v.id == id) && same_type v.content_type content_type

abbrev pub is_about : ContentType → ℕ → ContentVersionTransition → Bool
is_about content_type id t = (t.content_version_id == id) && same_type t.content_type content_type
