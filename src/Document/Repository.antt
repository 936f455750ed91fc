-- ===== src/Document/Repository.antt =====
-- The queries of app/modules/document/repository.py, document_version/repository.py and
-- evidence/repository.py, the stored bytes of app/storage, and `require_organization_synthetic` of
-- app/modules/organization/service.py.
use regnova.Prelude.{
  ℕ, String, Bool, true, false, Option, none, some, List, [], ◌∷◌, find, any, filter, map, ◌==◌,
  ◌&&◌, ltb, if◌then◌else◌, not, is_some,
}
use regnova.Prelude.Text.{str_eq}
use regnova.Document.Model.{
  Bytes, Document, DocumentVersion, DocumentField, DocumentFieldRevision, Evidence, Db, verified,
  same_status,
}

-- The row with the greatest key, as a query in falling order returns it.
abbrev pub greater : {A : Type 0} → (A → ℕ) → A → Option A → A
greater key x none = x
greater key x (some y) = if ltb (key x) (key y) then y else x

unfoldable pub greatest : {A : Type 0} → (A → ℕ) → List A → Option A
greatest key [] = none
greatest key (x ∷ xs) = some (greater key x (greatest key xs))

abbrev pub or_zero : {A : Type 0} → (A → ℕ) → Option A → ℕ
or_zero key none = 0
or_zero key (some x) = key x

abbrev pub same_option : Option ℕ → Option ℕ → Bool
same_option none none = true
same_option (some i) (some j) = i == j
same_option _ _ = false

-- `DocumentRepository.get_by_id`.
unfoldable pub get_document : ℕ → ℕ → Db → Option Document
get_document organization_id document_id db =
    find (λ d. d.id == document_id && d.organization_id == organization_id) db.documents

-- `DocumentVersionRepository.get_by_id`.
unfoldable pub get_version : ℕ → ℕ → ℕ → Db → Option DocumentVersion
get_version organization_id document_id version_id db =
    find
      (λ v.
        v.id == version_id && v.document_id == document_id && v.organization_id == organization_id)
      db.versions

unfoldable pub get_by_id_for_org : ℕ → ℕ → Db → Option DocumentVersion
get_by_id_for_org organization_id version_id db =
    find (λ v. v.id == version_id && v.organization_id == organization_id) db.versions

abbrev pub is_of : ℕ → DocumentVersion → Bool
is_of document_id v = v.document_id == document_id

abbrev pub is_current_of : ℕ → DocumentVersion → Bool
is_current_of document_id v = is_of document_id v && not (is_some v.superseded_by_id)

-- `get_current`.
unfoldable pub get_current : ℕ → Db → Option DocumentVersion
get_current document_id db = find (is_current_of document_id) db.versions

-- `get_latest_version_number`.
unfoldable pub get_latest_version_number : ℕ → Db → ℕ
unfolding greatest
get_latest_version_number document_id db =
    or_zero (λ v. v.version_number)
      (greatest (λ v. v.version_number) (filter (is_of document_id) db.versions))

unfoldable pub get_all_verified_for_organization : ℕ → Db → List DocumentVersion
get_all_verified_for_organization organization_id db =
    filter
      (λ v.
        v.organization_id == organization_id
        && same_status v.status verified
        && not (is_some v.superseded_by_id))
      db.versions

-- `DocumentFieldRepository.get_by_key`.
unfoldable pub get_by_key : ℕ → String → Db → Option DocumentField
get_by_key version_id field_key db =
    find (λ f. f.document_version_id == version_id && str_eq f.field_key field_key) db.fields

-- `DocumentFieldRevisionRepository.get_latest` and `get_latest_revision_number`.
unfoldable pub get_latest : ℕ → Db → Option DocumentFieldRevision
unfolding greatest
get_latest field_id db =
    greatest (λ r. r.revision_number) (filter (λ r. r.document_field_id == field_id) db.revisions)

unfoldable pub get_latest_revision_number : ℕ → Db → ℕ
unfolding get_latest
get_latest_revision_number field_id db = or_zero (λ r. r.revision_number) (get_latest field_id db)

-- `EvidenceRepository.get_by_id` and `find_existing_link`.
unfoldable pub get_evidence : ℕ → ℕ → Db → Option Evidence
get_evidence organization_id evidence_id db =
    find (λ e. e.id == evidence_id && e.organization_id == organization_id) db.evidence

unfoldable pub find_existing_link : ℕ → ℕ → ℕ → Option ℕ → Db → Option Evidence
find_existing_link organization_id document_version_id product_id requirement_version_id db =
    find
      (λ e.
        e.organization_id == organization_id
        && e.document_version_id == document_version_id
        && e.product_id == product_id
        && same_option e.requirement_version_id requirement_version_id)
      db.evidence

abbrev pub stale_if : ℕ → String → Evidence → Evidence
stale_if document_version_id reason e =
    if e.document_version_id == document_version_id && e.is_current
    then record e { is_current = false; stale_reason = some reason }
    else e

unfoldable pub mark_stale_for_document_version : ℕ → String → Db → Db
mark_stale_for_document_version document_version_id reason db = record db {
  evidence = map (stale_if document_version_id reason) db.evidence;
}

abbrev pub bytes_of : Option (String × Bytes) → Option Bytes
bytes_of none = none
bytes_of (some entry) = some entry.1

-- `DocumentStorage.get` and `put`, which keeps what is stored already.
unfoldable pub get_stored : String → Db → Option Bytes
get_stored checksum db = bytes_of (find (λ entry. str_eq entry.0 checksum) db.storage)

unfoldable pub put : String → Bytes → Db → Db
unfolding get_stored
put checksum content db =
    if is_some (get_stored checksum db)
    then db
    else record db { storage = (checksum, content) ∷ db.storage }

unfoldable pub require_organization_synthetic : ℕ → Db → Bool
require_organization_synthetic organization_id db =
    any (λ i. i == organization_id) db.synthetic_organizations
