-- ===== src/Basis/Service.antt =====
-- `RegulatoryBasisReleaseService` of app/modules/regulatory_basis_release/service.py.
use regnova.Prelude.{
  ℕ, String, Bool, true, false, Option, none, some, List, [], ◌∷◌, ◌+◌, find, any, map, not,
  is_some, ◌==◌, ◌&&◌, leb, if◌then◌else◌,
}
use regnova.Prelude.Results.{Result, ok, ◌>>=◌, ◌>>◌, require, or_raise}
use regnova.Prelude.Rows.{modify_first}
use regnova.Prelude.Text.{str_eq}
use regnova.Basis.Model.{
  SourceVersion, RequirementVersion, RuleVersion, RegulatoryBasisRelease, Db, Error,
  source_version_not_found, requirement_version_not_found, rule_version_not_found,
  ineligible_version, version_scope_mismatch, release_not_found, already_active, duplicate_content,
  has_id, is_active_of,
}

-- RegulatoryBasisReleaseCreate; an absent list of versions is empty.
pub record RegulatoryBasisReleaseCreate : Type 0 where
  pub jurisdiction : String
  pub market : String
  pub category : String
  pub status : Option String
  pub configuration : Option String
  pub configuration_schema_name : Option String
  pub configuration_schema_version : Option ℕ
  pub effective_from : Option ℕ
  pub effective_to : Option ℕ
  pub supersedes_id : Option ℕ
  pub source_version_ids : List ℕ
  pub requirement_version_ids : List ℕ
  pub rule_version_ids : List ℕ
  pub notes : Option String

-- RegulatoryBasisReleaseUpdate; a field that is none was not sent.
pub record RegulatoryBasisReleaseUpdate : Type 0 where
  pub status : Option String
  pub notes : Option (Option String)
  pub reviewer_user_id : Option (Option ℕ)
  pub verified_at : Option (Option ℕ)
  pub retired_at : Option (Option ℕ)
  pub superseded_by_id : Option (Option ℕ)
  pub effective_to : Option (Option ℕ)

-- Who acts, and when.
pub record Request : Type 0 where
  pub actor_user_id : Option ℕ
  pub correlation_id : Option String
  pub now : ℕ

abbrev pub is_eligible : String → Option ℕ → Bool
is_eligible status verified_at = str_eq status "ACTIVE" && is_some verified_at

-- `_resolve_eligible_source_versions`.
unfoldable pub resolve_eligible_source_versions : List ℕ → Db → Result Error (List SourceVersion)
resolve_eligible_source_versions [] db = ok []
resolve_eligible_source_versions (id ∷ ids) db = do
  v ← or_raise (find (λ v. v.id == id) db.source_versions) source_version_not_found
  require (is_eligible v.status v.verified_at) ineligible_version
  vs ← resolve_eligible_source_versions ids db
  ok (v ∷ vs)

abbrev pub in_scope : String → String → RequirementVersion → Bool
in_scope jurisdiction category v = str_eq v.jurisdiction jurisdiction && str_eq v.category category

-- `_resolve_eligible_requirement_versions`.
unfoldable pub resolve_eligible_requirement_versions :
    List ℕ → String → String → Db → Result Error (List RequirementVersion)
resolve_eligible_requirement_versions [] jurisdiction category db = ok []
resolve_eligible_requirement_versions (id ∷ ids) jurisdiction category db = do
  v ← or_raise (find (λ v. v.id == id) db.requirement_versions) requirement_version_not_found
  require (is_eligible v.status v.verified_at) ineligible_version
  require (in_scope jurisdiction category v) version_scope_mismatch
  vs ← resolve_eligible_requirement_versions ids jurisdiction category db
  ok (v ∷ vs)

abbrev pub linked_in_scope : String → String → Option RequirementVersion → Bool
linked_in_scope jurisdiction category none = true
linked_in_scope jurisdiction category (some linked) = in_scope jurisdiction category linked

-- A rule is of the scope of the requirement version that it operationalizes; without one it passes.
abbrev pub rule_in_scope : String → String → Db → Option ℕ → Bool
rule_in_scope jurisdiction category db none = true
rule_in_scope jurisdiction category db (some id) =
    linked_in_scope jurisdiction category (find (λ r. r.id == id) db.requirement_versions)

-- `_resolve_eligible_rule_versions`.
unfoldable pub resolve_eligible_rule_versions :
    List ℕ → String → String → Db → Result Error (List RuleVersion)
resolve_eligible_rule_versions [] jurisdiction category db = ok []
resolve_eligible_rule_versions (id ∷ ids) jurisdiction category db = do
  v ← or_raise (find (λ v. v.id == id) db.rule_versions) rule_version_not_found
  require (is_eligible v.status v.verified_at) ineligible_version
  require (rule_in_scope jurisdiction category db v.requirement_version_id) version_scope_mismatch
  vs ← resolve_eligible_rule_versions ids jurisdiction category db
  ok (v ∷ vs)

-- `get_active_for_jurisdiction_and_category`.
unfoldable pub get_active : String → String → Db → Option RegulatoryBasisRelease
get_active jurisdiction category db = find (is_active_of jurisdiction category) db.releases

abbrev pub id_of : Option RegulatoryBasisRelease → Option ℕ
id_of none = none
id_of (some r) = some r.id

-- `_publish_activated`: without a tenant zero the event is left out.
unfoldable pub publish_activated : Request → RegulatoryBasisRelease → Option ℕ → Db → Db
publish_activated q release previous_active_release_id db = elim db.tenant_zero [
  | none ↦ db
  | some organization_id ↦ record db {
    outbox =
        record {
          organization_id = organization_id;
          release_id = release.id;
          jurisdiction = release.jurisdiction;
          category = release.category;
          previous_active_release_id = previous_active_release_id;
          effective_from = release.effective_from;
          effective_to = release.effective_to;
          actor_user_id = q.actor_user_id;
          correlation_id = q.correlation_id;
        }
        ∷ db.outbox;
  }
]

-- `sorted` on identifiers, whose texts are in the order of their numbers.
abbrev pub insert_id : ℕ → List ℕ → List ℕ
insert_id i [] = i ∷ []
insert_id i (j ∷ js) = let rest = insert_id i js in if leb i j then i ∷ j ∷ js else j ∷ rest

abbrev pub sorted : List ℕ → List ℕ
sorted [] = []
sorted (i ∷ is) = insert_id i (sorted is)

abbrev pub supersedes : Option ℕ → RegulatoryBasisRelease → Bool
supersedes none r = false
supersedes (some id) r = id == r.id

-- Whether a release may become active beside the active one of its scope.
abbrev pub may_activate : Option ℕ → Option RegulatoryBasisRelease → Bool
may_activate supersedes_id none = true
may_activate supersedes_id (some existing) = supersedes supersedes_id existing

abbrev pub status_of : Option String → String
status_of none = "ACTIVE"
status_of (some s) = if str_eq s "" then "ACTIVE" else s

abbrev pub existing_if : Bool → Option RegulatoryBasisRelease → Option RegulatoryBasisRelease
existing_if active existing = if active then existing else none

abbrev pub set_superseded : ℕ → ℕ → RegulatoryBasisRelease → RegulatoryBasisRelease
set_superseded id now r = record r {
  status = "SUPERSEDED";
  superseded_by_id = some id;
  retired_at = some now;
}

abbrev pub supersede : Request → Option RegulatoryBasisRelease → ℕ → Db → Db
supersede q none id db = db
supersede q (some existing) id db = record db {
  releases = modify_first (has_id existing.id) (set_superseded id q.now) db.releases;
}

abbrev pub release_exists : Option ℕ → Db → Bool
release_exists none db = true
release_exists (some id) db = any (has_id id) db.releases

-- `content_hash` is SHA-256 of the JSON of the three sorted lists and the configuration.
module _ (content_hash : List ℕ → List ℕ → List ℕ → Option String → String) where
  abbrev pub new_release :
      RegulatoryBasisReleaseCreate
      → List SourceVersion
      → List RequirementVersion
      → List RuleVersion
      → Db
      → RegulatoryBasisRelease
  new_release payload sources requirements rules db = record {
    id = db.next_id;
    jurisdiction = payload.jurisdiction;
    market = payload.market;
    category = payload.category;
    status = status_of payload.status;
    content_hash =
        content_hash (sorted (map (λ v. v.id) sources)) (sorted (map (λ v. v.id) requirements))
          (sorted (map (λ v. v.id) rules)) payload.configuration;
    configuration = payload.configuration;
    configuration_schema_name = payload.configuration_schema_name;
    configuration_schema_version = payload.configuration_schema_version;
    reviewer_user_id = none;
    verified_at = none;
    effective_from = payload.effective_from;
    effective_to = payload.effective_to;
    retired_at = none;
    supersedes_id = payload.supersedes_id;
    superseded_by_id = none;
    notes = payload.notes;
    source_versions = sources;
    requirement_versions = requirements;
    rule_versions = rules;
  }

  -- The release is stored, the active one superseded, and the activation published.
  abbrev pub store : Request → RegulatoryBasisRelease → Option RegulatoryBasisRelease → Db → Db
  store q release existing db =
      let db =
        supersede q existing release.id
          (record db { releases = release ∷ db.releases; next_id = db.next_id + 1 }) in
      let published = publish_activated q release (id_of existing) db in
      if str_eq release.status "ACTIVE" then published else db

  unfoldable pub create :
      Request → RegulatoryBasisReleaseCreate → Db → Result Error (RegulatoryBasisRelease × Db)
  unfolding resolve_eligible_source_versions resolve_eligible_requirement_versions
      resolve_eligible_rule_versions get_active publish_activated modify_first
  create q payload db = do
    sources ← resolve_eligible_source_versions payload.source_version_ids db
    requirements ←
        resolve_eligible_requirement_versions payload.requirement_version_ids payload.jurisdiction
          payload.category db
    rules ←
        resolve_eligible_rule_versions payload.rule_version_ids payload.jurisdiction
          payload.category db
    require (release_exists payload.supersedes_id db) release_not_found
    let existing =
        existing_if (str_eq (status_of payload.status) "ACTIVE")
          (get_active payload.jurisdiction payload.category db)
    require (may_activate payload.supersedes_id existing) already_active
    let release = new_release payload sources requirements rules db
    require (not (any (λ r. str_eq r.content_hash release.content_hash) db.releases))
        duplicate_content
    ok (release, store q release existing db)

-- `setattr` for a field that was sent.
abbrev pub sent : {A : Type 0} → Option A → A → A
sent none a = a
sent (some b) a = b

abbrev pub updated : RegulatoryBasisReleaseUpdate → RegulatoryBasisRelease → RegulatoryBasisRelease
updated payload r = record r {
  status = sent payload.status r.status;
  notes = sent payload.notes r.notes;
  reviewer_user_id = sent payload.reviewer_user_id r.reviewer_user_id;
  verified_at = sent payload.verified_at r.verified_at;
  retired_at = sent payload.retired_at r.retired_at;
  superseded_by_id = sent payload.superseded_by_id r.superseded_by_id;
  effective_to = sent payload.effective_to r.effective_to;
}

abbrev pub other_id : ℕ → Option RegulatoryBasisRelease → Option ℕ
other_id id none = none
other_id id (some r) = if r.id == id then none else some r.id

-- `update`: the query for the active release does not see the change yet.
unfoldable pub update :
    Request → ℕ → RegulatoryBasisReleaseUpdate → Db → Result Error (RegulatoryBasisRelease × Db)
unfolding get_active publish_activated modify_first
update q release_id payload db = do
  release ← or_raise (find (has_id release_id) db.releases) release_not_found
  let changed = updated payload release
  let previous = get_active changed.jurisdiction changed.category db
  let newly_activated = not (str_eq release.status "ACTIVE") && str_eq changed.status "ACTIVE"
  let db = record db { releases = modify_first (has_id release_id) (updated payload) db.releases }
  let published = publish_activated q changed (other_id changed.id previous) db
  ok (changed, if newly_activated then published else db)
