-- ===== src/Basis/Model.antt =====
-- The rows of app/modules/regulatory_basis_release/models.py and the columns of the versions that a
-- release reads, less the columns that no call writes. A configuration is the text of its JSON, a
-- status a text as in the requests.
use regnova.Prelude.{ℕ, String, Bool, Option, List, ◌==◌, ◌&&◌}
use regnova.Prelude.Text.{str_eq}

pub record SourceVersion : Type 0 where
  pub id : ℕ
  pub status : String
  pub verified_at : Option ℕ

pub record RequirementVersion : Type 0 where
  pub id : ℕ
  pub status : String
  pub verified_at : Option ℕ
  pub jurisdiction : String
  pub category : String

pub record RuleVersion : Type 0 where
  pub id : ℕ
  pub status : String
  pub verified_at : Option ℕ
  pub requirement_version_id : Option ℕ

pub record RegulatoryBasisRelease : Type 0 where
  pub id : ℕ
  pub jurisdiction : String
  pub market : String
  pub category : String
  pub status : String
  pub content_hash : String
  pub configuration : Option String
  pub configuration_schema_name : Option String
  pub configuration_schema_version : Option ℕ
  pub reviewer_user_id : Option ℕ
  pub verified_at : Option ℕ
  pub effective_from : Option ℕ
  pub effective_to : Option ℕ
  pub retired_at : Option ℕ
  pub supersedes_id : Option ℕ
  pub superseded_by_id : Option ℕ
  pub notes : Option String
  pub source_versions : List SourceVersion
  pub requirement_versions : List RequirementVersion
  pub rule_versions : List RuleVersion

-- A RegulatoryBasisActivated event.
pub record ActivatedEvent : Type 0 where
  pub organization_id : ℕ
  pub release_id : ℕ
  pub jurisdiction : String
  pub category : String
  pub previous_active_release_id : Option ℕ
  pub effective_from : Option ℕ
  pub effective_to : Option ℕ
  pub actor_user_id : Option ℕ
  pub correlation_id : Option String

-- The tables, newest rows first; the organization that is tenant zero; and the next identifier.
pub record Db : Type 0 where
  pub tenant_zero : Option ℕ
  pub source_versions : List SourceVersion
  pub requirement_versions : List RequirementVersion
  pub rule_versions : List RuleVersion
  pub releases : List RegulatoryBasisRelease
  pub outbox : List ActivatedEvent
  pub next_id : ℕ

pub data Error : Type 0 where
  source_version_not_found requirement_version_not_found rule_version_not_found : Error
  ineligible_version version_scope_mismatch release_not_found already_active : Error
  duplicate_content : Error

abbrev pub has_id : ℕ → RegulatoryBasisRelease → Bool
has_id id r = r.id == id

abbrev pub is_active_of : String → String → RegulatoryBasisRelease → Bool
is_active_of jurisdiction category r =
    str_eq r.jurisdiction jurisdiction && str_eq r.category category && str_eq r.status "ACTIVE"
