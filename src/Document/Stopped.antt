-- ===== src/Document/Stopped.antt =====
-- Calls of app/modules/document_version/service.py that stop after their first commit keep the
-- tables valid.
use mathlib.Core.Path.{subst}
use regnova.Prelude.{
  ◌≡◌, ◌≢◌, refl, sym, ℕ, String, Bool, true, Option, none, some, [], ◌∷◌, any, find, if◌then◌else◌,
  Bool-cases, inl, inr, is_some, length, leb,
}
use regnova.Prelude.Results.{require, or_raise, OnOk, OnOk-bind, or_raise-ok, require-ok}
use regnova.Prelude.Text.{str_eq}
use regnova.Document.Model.{
  Bytes, scanning, processing, verified, failed, DocumentVersion, Db, document_not_found,
  document_version_too_large, document_version_transition_not_allowed, file_not_found, ScanResult,
  clean, infected, unavailable, Services, Request, same_status,
}
use regnova.Document.Repository.{get_document, get_current, get_stored}
use regnova.Document.Sniff.{sniff_content_type}
use regnova.Document.Fields.{get_version_or_404}
use regnova.Document.Scan.{schema_of, mark_clean, enter_processing}
use regnova.Document.Upload.{File}
use regnova.Document.Edit.{update-Edit, kept}
use regnova.Document.Valid.{IsCleanAt, Safe, IsValid, get_stored-sha256}
use regnova.Document.Preserve.{Edit-IsValid, store-IsValid}
use regnova.Document.Perform.{
  create_stopped, upload_stopped, store_only, processing_if_clean, retry_scan_stopped,
}
use regnova.Document.Guards.{version_found, guard_passed}
use regnova.Document.Scanned.{scanned-Safe}

module _ (services : Services) (safe : Bytes → Bool)
    (collisions : (b c : Bytes) → services.sha256 b ≡ services.sha256 c → safe b ≡ safe c)
    (q : Request) (trusted : (content : Bytes) → q.scan content ≡ clean → safe content ≡ true) where
  abbrev Valid : Db → Type 0
  Valid db = IsValid services safe db

  pub create_stopped-IsValid :
      (file : File) (db : Db) → Valid db → OnOk Valid (create_stopped services q file db)
  unfolding create_stopped
  create_stopped-IsValid file db h =
      OnOk-bind Valid
        (require (is_some (get_document q.organization_id q.document_id db)) document_not_found) _
        (λ a e.
          OnOk-bind Valid
            (require (leb (length file.content) services.document_max_size_bytes)
              document_version_too_large)
            _
            (λ b k.
              OnOk-bind Valid (sniff_content_type services file.content file.declared_content_type)
                _
                (λ content_type d.
                  upload_stopped-IsValid file content_type (get_current q.document_id db) db refl
                    h)))
    where
      upload_stopped-IsValid :
          (file : File) (content_type : String) (o : Option DocumentVersion) (db : Db)
          → get_current q.document_id db ≡ o
          → Valid db
          → Valid (upload_stopped services q file content_type o db)
      upload_stopped-IsValid file content_type none db e h =
          subst (λ o. Valid (store_only services q file content_type o db)) e
            (store-IsValid services safe q file content_type db h)
      upload_stopped-IsValid file content_type (some current) db e h =
          let done : Option DocumentVersion → Db =
            λ o. store_only services q file content_type o db in
          elim (Bool-cases (str_eq current.checksum (services.sha256 file.content))) [
            | inl k ↦ subst (λ b. Valid (if b then db else done (some current))) (sym k) h
            | inr k ↦
                subst (λ b. Valid (if b then db else done (some current))) (sym k)
                  (subst (λ o. Valid (done o)) e
                    (store-IsValid services safe q file content_type db h))
          ]

  processing-IsValid :
      (test : DocumentVersion → Bool) (r : ScanResult) (o : Option String) (v : DocumentVersion)
      (db : Db)
      → Valid db
      → find test db.versions ≡ some v
      → v.status ≢ verified
      → (r ≡ clean → Safe services safe v.checksum)
      → Valid (processing_if_clean r o v.id db)
  unfolding enter_processing
  processing-IsValid test clean (some t) v db h found s safe_bytes =
      Edit-IsValid services safe test v db (enter_processing v.id db) h found s (
        update-Edit (IsCleanAt services safe v.checksum) v.id (mark_clean processing) db kept
          (λ x past. safe_bytes refl))
  processing-IsValid test clean none v db h found s safe_bytes = h
  processing-IsValid test (infected name) o v db h found s safe_bytes = h
  processing-IsValid test (unavailable m) o v db h found s safe_bytes = h

  pub retry_scan_stopped-IsValid :
      (version_id : ℕ) (db : Db) → Valid db → OnOk Valid (retry_scan_stopped q version_id db)
  unfolding retry_scan_stopped
  retry_scan_stopped-IsValid version_id db h =
      OnOk-bind Valid (get_version_or_404 q version_id db) _ (λ v e.
        OnOk-bind Valid
          (require (any (same_status v.status) (failed ∷ scanning ∷ []))
            document_version_transition_not_allowed)
          _
          (λ u k.
            OnOk-bind Valid (or_raise (get_stored v.checksum db) file_not_found) _ (λ content d.
              processing-IsValid _ (q.scan content)
                (schema_of (get_document q.organization_id q.document_id db)) v db h
                (version_found q version_id db v e)
                (guard_passed (λ s. any (same_status s) (failed ∷ scanning ∷ [])) v.status refl
                  (require-ok _ document_version_transition_not_allowed u k))
                (scanned-Safe services safe collisions q trusted v.checksum content (
                  get_stored-sha256 services safe v.checksum content db h
                    (or_raise-ok _ file_not_found content d))))))
