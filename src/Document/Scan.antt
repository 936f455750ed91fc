-- ===== src/Document/Scan.antt =====
-- `DocumentVersionService._run_scan_and_transition` and `_run_extraction` of
-- app/modules/document_version/service.py.
use Prim.Native.String.{◌++◌}
use regnova.Prelude.{ℕ, String, Bool, Option, none, some, [], ◌∷◌, any, ◌&&◌, not, if◌then◌else◌}
use regnova.Prelude.Rows.{modify_first}
use regnova.Prelude.Text.{str_eq}
use regnova.Document.Model.{
  Bytes, DocumentVersionStatus, processing, review_required, quarantined, failed, Document,
  DocumentVersion, Payload, document_version_scan_failed, document_version_quarantined, Db,
  ScanResult, clean, infected, unavailable, ExtractionResult, extracted, not_extracted, Services,
  Request, has_id,
}
use regnova.Document.Repository.{get_document, require_organization_synthetic}
use regnova.Document.Fields.{append, write_extracted_fields}

-- The loaded row is changed in place.
abbrev pub update : ℕ → (DocumentVersion → DocumentVersion) → Db → Db
update version_id change db = record db {
  versions = modify_first (has_id version_id) change db.versions;
}

-- Whether EXTRACTION_SCHEMAS has a schema for the type of the document.
abbrev pub has_extraction_schema : String → Bool
has_extraction_schema document_type = any (str_eq document_type) ("GMP_CERTIFICATE" ∷ "CFS" ∷ [])

abbrev pub schema_of : Option Document → Option String
schema_of none = none
schema_of (some d) = if has_extraction_schema d.document_type then some d.document_type else none

-- `_publish_reviewed`, by the constructor of its event type.
abbrev pub publish_reviewed :
    (ℕ → ℕ → DocumentVersionStatus → DocumentVersionStatus → Option String → Payload)
    → Request
    → ℕ
    → DocumentVersionStatus
    → DocumentVersionStatus
    → Option String
    → Option ℕ
    → Db
    → Db
publish_reviewed event_type q version_id from_status to_status note actor_user_id db =
    append q (event_type q.document_id version_id from_status to_status note) actor_user_id db

abbrev pub quarantine_note : String → String
quarantine_note name = "Automatically quarantined: malware detected (" ++ name ++ ")."

abbrev pub mark_failed : String → DocumentVersion → DocumentVersion
mark_failed message v = record v { status = failed; scan_error = some message }

abbrev pub mark_infected : String → DocumentVersion → DocumentVersion
mark_infected name v = record v {
  status = quarantined;
  malware_signature = some name;
  scan_error = none;
  review_note = some (quarantine_note name);
}

abbrev pub mark_clean : DocumentVersionStatus → DocumentVersion → DocumentVersion
mark_clean status v = record v { scan_error = none; status = status }

abbrev pub mark_not_extracted : String → DocumentVersion → DocumentVersion
mark_not_extracted message v = record v {
  status = review_required;
  extraction_status = some "FAILED";
  extraction_error = some message;
}

abbrev pub mark_extracted : DocumentVersion → DocumentVersion
mark_extracted v = record v {
  status = review_required;
  extraction_status = some "COMPLETED";
  extraction_error = none;
}

-- The row is stored as `processing` before the extraction runs.
unfoldable pub enter_processing : ℕ → Db → Db
unfolding modify_first
enter_processing version_id db = update version_id (mark_clean processing) db

module _ (services : Services) where
  -- What the extractor answers, unless the organization must not be sent to the outside model.
  unfoldable pub extraction_of : Request → DocumentVersion → Bytes → String → Db → ExtractionResult
  unfolding require_organization_synthetic
  extraction_of q v content document_type db =
      if services.is_gemini && not (require_organization_synthetic q.organization_id db)
      then not_extracted (
          "organization_not_synthetic: Organization.is_synthetic is not set - the Gemini free tier "
          ++ "must only ever see confirmed-synthetic organizations' data.")
      else q.extract document_type content v.content_type

  abbrev pub settle_extraction : Request → ℕ → ExtractionResult → Db → Db
  settle_extraction q version_id (not_extracted message) db =
      update version_id (mark_not_extracted message) db
  settle_extraction q version_id (extracted fields model_identifier schema_version) db =
      write_extracted_fields q version_id fields model_identifier schema_version
        (update version_id mark_extracted db)

  unfoldable pub run_extraction_ : Request → DocumentVersion → Bytes → String → Db → Db
  unfolding extraction_of write_extracted_fields modify_first
  run_extraction_ q v content document_type db =
      settle_extraction q v.id (extraction_of q v content document_type db) db

  -- After a clean scan: extraction where the type of the document has a schema.
  abbrev pub pass_clean : Request → DocumentVersion → Bytes → Option String → Db → Db
  pass_clean q v content none db = update v.id (mark_clean review_required) db
  pass_clean q v content (some document_type) db =
      run_extraction_ q v content document_type (enter_processing v.id db)

  abbrev pub settle_scan : Request → DocumentVersion → Bytes → ScanResult → Db → Db
  settle_scan q v content (unavailable message) db =
      append q (document_version_scan_failed q.document_id v.id v.status message) q.actor_user_id
        (update v.id (mark_failed message) db)
  settle_scan q v content (infected name) db =
      publish_reviewed document_version_quarantined q v.id v.status quarantined
        (some (quarantine_note name)) none (update v.id (mark_infected name) db)
  settle_scan q v content clean db =
      pass_clean q v content (schema_of (get_document q.organization_id q.document_id db)) db

  unfoldable pub run_scan_and_transition : Request → DocumentVersion → Bytes → Db → Db
  unfolding run_extraction_ enter_processing get_document modify_first
  run_scan_and_transition q v content db = settle_scan q v content (q.scan content) db
