-- ===== src/Document/Upload.antt =====
-- `DocumentVersionService` of app/modules/document_version/service.py: uploads, the retries and the
-- review of a version. An operation returns the version's identifier and the tables, or raises.
use regnova.Prelude.{
  ℕ, String, Option, none, some, [], ◌∷◌, any, length, ◌+◌, leb, if◌then◌else◌, is_some,
}
use regnova.Prelude.Results.{Result, ok, ◌>>=◌, ◌>>◌, require, or_raise}
use regnova.Prelude.Rows.{modify_first}
use regnova.Prelude.Text.{str_eq}
use regnova.Document.Model.{
  Bytes, DocumentVersionStatus, scanning, processing, review_required, verified, rejected,
  quarantined, failed, DocumentVersion, document_version_uploaded, document_version_verified,
  document_version_rejected, document_version_quarantined, Db, Error, document_not_found,
  document_version_too_large, document_version_transition_not_allowed,
  document_type_has_no_extraction_schema, file_not_found, Services, Request, same_status,
}
use regnova.Document.Repository.{
  get_document, get_current, get_latest_version_number, mark_stale_for_document_version, get_stored,
  put,
}
use regnova.Document.Sniff.{sniff_content_type}
use regnova.Document.Fields.{append, get_version_or_404}
use regnova.Document.Scan.{
  update, schema_of, publish_reviewed, run_extraction_, run_scan_and_transition,
}

-- A file as the client sends it.
pub record File : Type 0 where
  pub filename : String
  pub declared_content_type : String
  pub content : Bytes
  pub notes : Option String

abbrev pub id_of : Option DocumentVersion → Option ℕ
id_of none = none
id_of (some v) = some v.id

-- The version that was current is superseded, and the evidence for it goes stale.
abbrev pub set_superseded_by : ℕ → DocumentVersion → DocumentVersion
set_superseded_by id v = record v { superseded_by_id = some id }

abbrev pub supersede : Option DocumentVersion → ℕ → Db → Db
supersede none id db = db
supersede (some current) id db =
    mark_stale_for_document_version current.id "DOCUMENT_VERSION_SUPERSEDED"
      (update current.id (set_superseded_by id) db)

abbrev pub insert : DocumentVersion → Db → Db
insert v db = record db { versions = v ∷ db.versions; next_id = db.next_id + 1 }

module _ (services : Services) where
  abbrev pub new_version : Request → File → String → Option DocumentVersion → Db → DocumentVersion
  new_version q file content_type current db = record {
    id = db.next_id;
    document_id = q.document_id;
    organization_id = q.organization_id;
    version_number = get_latest_version_number q.document_id db + 1;
    checksum = services.sha256 file.content;
    storage_backend = services.document_storage_backend;
    original_filename = file.filename;
    content_type = content_type;
    size_bytes = length file.content;
    status = scanning;
    supersedes_id = id_of current;
    superseded_by_id = none;
    uploaded_by_user_id = q.actor_user_id;
    reviewed_by_user_id = none;
    reviewed_at = none;
    review_note = none;
    malware_signature = none;
    scan_error = none;
    extraction_status = none;
    extraction_error = none;
    notes = file.notes;
  }

  -- `create` up to its first commit, for a file whose bytes are not those of the current version.
  unfoldable pub store :
      Request → File → String → Option DocumentVersion → Db → DocumentVersion × Db
  unfolding put get_latest_version_number mark_stale_for_document_version modify_first
  store q file content_type current db =
      let v : DocumentVersion = new_version q file content_type current db in
      (
        v,
        append q (document_version_uploaded v) q.actor_user_id
            (supersede current v.id (insert v (put v.checksum file.content db))),
      )

  -- `create` after its guards.
  abbrev pub store_and_scan : Request → File → DocumentVersion × Db → ℕ × Db
  store_and_scan q file (v, db) = (v.id, run_scan_and_transition services q v file.content db)

  abbrev pub upload : Request → File → String → Option DocumentVersion → Db → ℕ × Db
  upload q file content_type none db = store_and_scan q file (store q file content_type none db)
  upload q file content_type (some current) db =
      if str_eq current.checksum (services.sha256 file.content)
      then (current.id, db)
      else store_and_scan q file (store q file content_type (some current) db)

  unfoldable pub create : Request → File → Db → Result Error (ℕ × Db)
  unfolding get_document sniff_content_type get_current store run_scan_and_transition
  create q file db = do
    require (is_some (get_document q.organization_id q.document_id db)) document_not_found
    require (leb (length file.content) services.document_max_size_bytes) document_version_too_large
    content_type ← sniff_content_type services file.content file.declared_content_type
    ok (upload q file content_type (get_current q.document_id db) db)

  unfoldable pub retry_scan : Request → ℕ → Db → Result Error (ℕ × Db)
  unfolding get_version_or_404 get_stored run_scan_and_transition
  retry_scan q version_id db = do
    v ← get_version_or_404 q version_id db
    require (any (same_status v.status) (failed ∷ scanning ∷ []))
        document_version_transition_not_allowed
    content ← or_raise (get_stored v.checksum db) file_not_found
    ok (v.id, run_scan_and_transition services q v content db)

  unfoldable pub run_extraction : Request → ℕ → Db → Result Error (ℕ × Db)
  unfolding get_version_or_404 get_document get_stored run_extraction_
  run_extraction q version_id db = do
    v ← get_version_or_404 q version_id db
    require (any (same_status v.status) (review_required ∷ processing ∷ []))
        document_version_transition_not_allowed
    document_type ←
        or_raise (schema_of (get_document q.organization_id q.document_id db))
          document_type_has_no_extraction_schema
    content ← or_raise (get_stored v.checksum db) file_not_found
    ok (v.id, run_extraction_ services q v content document_type db)

-- `_require_reviewable`.
unfoldable pub require_reviewable : DocumentVersion → Result Error (Unit {0})
require_reviewable v =
    require (same_status v.status review_required) document_version_transition_not_allowed

-- What a reviewer writes on the row.
abbrev pub reviewed :
    Request → DocumentVersionStatus → Option String → DocumentVersion → DocumentVersion
reviewed q status note v = record v {
  status = status;
  reviewed_by_user_id = q.actor_user_id;
  reviewed_at = some q.now;
  review_note = note;
}

unfoldable pub verify : Request → ℕ → Option String → Db → Result Error (ℕ × Db)
unfolding get_version_or_404 require_reviewable modify_first
verify q version_id note db = do
  v ← get_version_or_404 q version_id db
  require_reviewable v
  ok (
    v.id,
    publish_reviewed document_version_verified q v.id v.status verified note q.actor_user_id
        (update v.id (reviewed q verified note) db),
  )

unfoldable pub reject : Request → ℕ → String → Db → Result Error (ℕ × Db)
unfolding get_version_or_404 require_reviewable modify_first
reject q version_id note db = do
  v ← get_version_or_404 q version_id db
  require_reviewable v
  ok (
    v.id,
    publish_reviewed document_version_rejected q v.id v.status rejected (some note) q.actor_user_id
        (update v.id (reviewed q rejected (some note)) db),
  )

unfoldable pub quarantine : Request → ℕ → String → Db → Result Error (ℕ × Db)
unfolding get_version_or_404 require_reviewable modify_first
quarantine q version_id note db = do
  v ← get_version_or_404 q version_id db
  require_reviewable v
  ok (
    v.id,
    publish_reviewed document_version_quarantined q v.id v.status quarantined (some note)
        q.actor_user_id (update v.id (reviewed q quarantined (some note)) db),
  )
