-- ===== src/Document/Scanned.antt =====
-- Uploads, scans and extractions in app/modules/document_version/service.py keep the tables valid.
use mathlib.Core.Path.{subst}
use regnova.Prelude.{
  ◌≡◌, refl, sym, ap, ◌∙◌, ℕ, String, Bool, true, Option, none, some, [], ◌∷◌, any, find,
  if◌then◌else◌, Bool-cases, inl, inr, is_some, length, leb,
}
use regnova.Prelude.Rows.{Falling-find}
use regnova.Prelude.Results.{require, or_raise, OnOk, OnOk-bind, or_raise-ok, require-ok}
use regnova.Prelude.Text.{str_eq}
use regnova.Document.Model.{
  Bytes, scanning, processing, review_required, failed, DocumentVersion, Db, document_not_found,
  document_version_too_large, document_version_transition_not_allowed,
  document_type_has_no_extraction_schema, file_not_found, clean, Services, Request, same_status,
}
use regnova.Document.Repository.{get_document, get_current, get_stored, is_current_of}
use regnova.Document.Sniff.{sniff_content_type}
use regnova.Document.Fields.{get_version_or_404}
use regnova.Document.Scan.{schema_of, run_extraction_, run_scan_and_transition}
use regnova.Document.Upload.{
  File, new_version, store, store_and_scan, upload, create, retry_scan, run_extraction,
}
use regnova.Document.Edit.{outcome_past, run_extraction_-Edit, run_scan_and_transition-Edit}
use regnova.Document.Stored.{store-versions}
use regnova.Document.Valid.{IsCleanAt, Safe, IsValid, get_stored-sha256, found-IsClean}
use regnova.Document.Preserve.{Edit-IsValid, store-IsValid}
use regnova.Document.Guards.{version_found, guard_passed, extractable_past}

module _ (services : Services) (safe : Bytes → Bool)
    (collisions : (b c : Bytes) → services.sha256 b ≡ services.sha256 c → safe b ≡ safe c)
    (q : Request) (trusted : (content : Bytes) → q.scan content ≡ clean → safe content ≡ true) where
  abbrev Valid : Db → Type 0
  Valid db = IsValid services safe db

  pub scanned-Safe :
      (checksum : String) (content : Bytes)
      → services.sha256 content ≡ checksum
      → q.scan content ≡ clean
      → Safe services safe checksum
  scanned-Safe checksum content e h b k = collisions b content (k ∙ sym e) ∙ trusted content h

  -- A new version is stored, then scanned.
  stored-IsValid :
      (file : File) (content_type : String) (db : Db)
      → Valid db
      → Valid
          (store_and_scan services q file
            (store services q file content_type (get_current q.document_id db) db)).1
  unfolding store get_current
  stored-IsValid file content_type db h =
      let o = get_current q.document_id db in
      let v : DocumentVersion = new_version services q file content_type o db in
      let stored = (store services q file content_type o db).1 in
      let rows = store-versions services q file content_type o db (λ c e.
        Falling-find (λ x. x.id) db.next_id (is_current_of q.document_id) db.versions c h.falling
          e) in
      Edit-IsValid services safe (λ x. true) v stored
        (run_scan_and_transition services q v file.content stored)
        (store-IsValid services safe q file content_type db h) (ap (find (λ x. true)) rows)
        (guard_passed (same_status scanning) scanning refl refl)
        (run_scan_and_transition-Edit services (IsCleanAt services safe v.checksum) q v file.content
          stored (outcome_past (q.scan file.content) (scanned-Safe v.checksum file.content refl)))

  upload-IsValid :
      (file : File) (content_type : String) (o : Option DocumentVersion) (db : Db)
      → get_current q.document_id db ≡ o
      → Valid db
      → Valid (upload services q file content_type o db).1
  upload-IsValid file content_type none db e h =
      subst
        (λ o. Valid (store_and_scan services q file (store services q file content_type o db)).1) e
        (stored-IsValid file content_type db h)
  upload-IsValid file content_type (some current) db e h =
      let done : Option DocumentVersion → ℕ × Db =
        λ o. store_and_scan services q file (store services q file content_type o db) in
      elim (Bool-cases (str_eq current.checksum (services.sha256 file.content))) [
        | inl k ↦
            subst (λ b. Valid (if b then (current.id, db) else done (some current)).1) (sym k) h
        | inr k ↦
            subst (λ b. Valid (if b then (current.id, db) else done (some current)).1) (sym k)
              (subst (λ o. Valid (done o).1) e (stored-IsValid file content_type db h))
      ]

  pub create-IsValid :
      (file : File) (db : Db) → Valid db → OnOk (λ r. Valid r.1) (create services q file db)
  unfolding create
  create-IsValid file db h =
      OnOk-bind (λ r. Valid r.1)
        (require (is_some (get_document q.organization_id q.document_id db)) document_not_found) _
        (λ a e.
          OnOk-bind (λ r. Valid r.1)
            (require (leb (length file.content) services.document_max_size_bytes)
              document_version_too_large)
            _
            (λ b k.
              OnOk-bind (λ r. Valid r.1)
                (sniff_content_type services file.content file.declared_content_type) _
                (λ content_type d.
                  upload-IsValid file content_type (get_current q.document_id db) db refl h)))

  pub retry_scan-IsValid :
      (version_id : ℕ) (db : Db)
      → Valid db
      → OnOk (λ r. Valid r.1) (retry_scan services q version_id db)
  unfolding retry_scan
  retry_scan-IsValid version_id db h =
      OnOk-bind (λ r. Valid r.1) (get_version_or_404 q version_id db) _
        (λ v e.
          OnOk-bind (λ r. Valid r.1)
            (require (any (same_status v.status) (failed ∷ scanning ∷ []))
              document_version_transition_not_allowed)
            _
            (λ u k.
              OnOk-bind (λ r. Valid r.1) (or_raise (get_stored v.checksum db) file_not_found) _
                (λ content d.
                  Edit-IsValid services safe _ v db
                    (run_scan_and_transition services q v content db) h
                    (version_found q version_id db v e)
                    (guard_passed (λ s. any (same_status s) (failed ∷ scanning ∷ [])) v.status refl
                      (require-ok _ document_version_transition_not_allowed u k))
                    (run_scan_and_transition-Edit services (IsCleanAt services safe v.checksum) q v
                      content db
                      (outcome_past (q.scan content) (
                        scanned-Safe v.checksum content (
                          get_stored-sha256 services safe v.checksum content db h
                            (or_raise-ok _ file_not_found content d))))))))

  pub run_extraction-IsValid :
      (version_id : ℕ) (db : Db)
      → Valid db
      → OnOk (λ r. Valid r.1) (run_extraction services q version_id db)
  unfolding run_extraction
  run_extraction-IsValid version_id db h =
      OnOk-bind (λ r. Valid r.1) (get_version_or_404 q version_id db) _
        (λ v e.
          OnOk-bind (λ r. Valid r.1)
            (require (any (same_status v.status) (review_required ∷ processing ∷ []))
              document_version_transition_not_allowed)
            _
            (λ u k.
              let found = version_found q version_id db v e in
              let allowed = require-ok _ document_version_transition_not_allowed u k in
              OnOk-bind (λ r. Valid r.1)
                (or_raise (schema_of (get_document q.organization_id q.document_id db))
                  document_type_has_no_extraction_schema)
                _
                (λ document_type d.
                  OnOk-bind (λ r. Valid r.1) (or_raise (get_stored v.checksum db) file_not_found) _
                    (λ content c.
                      Edit-IsValid services safe _ v db
                        (run_extraction_ services q v content document_type db) h found
                        (guard_passed (λ s. any (same_status s) (review_required ∷ processing ∷ []))
                          v.status refl allowed)
                        (run_extraction_-Edit services (IsCleanAt services safe v.checksum) q v
                          content document_type db
                          (λ past.
                            found-IsClean services safe _ v db h found
                              (extractable_past v.status allowed)))))))
