-- ===== src/Document/Perform.antt =====
-- The calls of app/modules/document_version and evidence, and any sequence of them. A call that
-- raises is rolled back; a call may also stop after its first commit.
use regnova.Prelude.{
  ℕ, String, Option, none, some, List, [], ◌∷◌, any, if◌then◌else◌, length, leb, is_some,
}
use regnova.Prelude.Results.{Result, ok, raise, ◌>>=◌, ◌>>◌, require, or_raise}
use regnova.Prelude.Text.{str_eq}
use regnova.Document.Model.{
  scanning, failed, DocumentVersion, Db, Error, document_not_found, document_version_too_large,
  document_version_transition_not_allowed, file_not_found, ScanResult, clean, Services, Request,
  same_status,
}
use regnova.Document.Repository.{get_document, get_current, get_stored}
use regnova.Document.Sniff.{sniff_content_type}
use regnova.Document.Fields.{get_version_or_404, set_field}
use regnova.Document.Scan.{schema_of, enter_processing}
use regnova.Document.Upload.{
  File, store, create, retry_scan, run_extraction, verify, reject, quarantine,
}
use regnova.Document.Evidence.{EvidenceCreate, link, unlink}

pub data Operation : Type 0 where
  create_ create_stopped_ : File → Operation
  retry_scan_ retry_scan_stopped_ run_extraction_of_ : ℕ → Operation
  verify_ : ℕ → Option String → Operation
  reject_ quarantine_ : ℕ → String → Operation
  set_field_ : ℕ → String → String → Option String → Option String → Operation
  link_ : EvidenceCreate → Operation
  unlink_ : ℕ → Operation

pub record Call : Type 0 where
  pub operation : Operation
  pub request : Request

abbrev pub tables : Result Error (ℕ × Db) → Result Error Db
tables m = m >>= λ r. ok r.1

abbrev pub processing_if_clean : ScanResult → Option String → ℕ → Db → Db
processing_if_clean clean (some document_type) id db = enter_processing id db
processing_if_clean _ _ id db = db

-- `retry_scan`, stopped before the extraction: only a clean scan of a type with a schema has
-- committed anything by then.
unfoldable pub retry_scan_stopped : Request → ℕ → Db → Result Error Db
unfolding get_version_or_404 get_stored get_document enter_processing
retry_scan_stopped q version_id db = do
  v ← get_version_or_404 q version_id db
  require (any (same_status v.status) (failed ∷ scanning ∷ []))
      document_version_transition_not_allowed
  content ← or_raise (get_stored v.checksum db) file_not_found
  ok (
      processing_if_clean (q.scan content)
        (schema_of (get_document q.organization_id q.document_id db)) v.id db)

abbrev pub or_unchanged : Result Error Db → Db → Db
or_unchanged (ok db') db = db'
or_unchanged (raise e) db = db

module _ (services : Services) where
  abbrev pub store_only : Request → File → String → Option DocumentVersion → Db → Db
  store_only q file content_type current db = (store services q file content_type current db).1

  abbrev pub upload_stopped : Request → File → String → Option DocumentVersion → Db → Db
  upload_stopped q file content_type none db = store_only q file content_type none db
  upload_stopped q file content_type (some current) db =
      if str_eq current.checksum (services.sha256 file.content)
      then db
      else store_only q file content_type (some current) db

  -- `create`, stopped between its commit and the scan.
  unfoldable pub create_stopped : Request → File → Db → Result Error Db
  unfolding get_document sniff_content_type get_current store
  create_stopped q file db = do
    require (is_some (get_document q.organization_id q.document_id db)) document_not_found
    require (leb (length file.content) services.document_max_size_bytes) document_version_too_large
    content_type ← sniff_content_type services file.content file.declared_content_type
    ok (upload_stopped q file content_type (get_current q.document_id db) db)

  unfoldable pub perform : Operation → Request → Db → Result Error Db
  unfolding create retry_scan run_extraction verify reject quarantine set_field link unlink
      create_stopped retry_scan_stopped
  perform (create_ file) q db = tables (create services q file db)
  perform (create_stopped_ file) q db = create_stopped q file db
  perform (retry_scan_ version_id) q db = tables (retry_scan services q version_id db)
  perform (retry_scan_stopped_ version_id) q db = retry_scan_stopped q version_id db
  perform (run_extraction_of_ version_id) q db = tables (run_extraction services q version_id db)
  perform (verify_ version_id note) q db = tables (verify q version_id note db)
  perform (reject_ version_id note) q db = tables (reject q version_id note db)
  perform (quarantine_ version_id note) q db = tables (quarantine q version_id note db)
  perform (set_field_ version_id field_key value confidence location) q db =
      set_field services q version_id field_key value confidence location db
  perform (link_ payload) q db = tables (link q payload db)
  perform (unlink_ evidence_id) q db = unlink q evidence_id db

  -- The tables after a sequence of calls.
  unfoldable pub run : List Call → Db → Db
  unfolding perform
  run [] db = db
  run (call ∷ calls) db = run calls (or_unchanged (perform call.operation call.request db) db)
