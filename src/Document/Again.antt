-- ===== src/Document/Again.antt =====
-- An upload, a second one of the same bytes, and a retry of the scan, in
-- app/modules/document_version/service.py.
use regnova.Prelude.{◌≡◌, ℕ, String, true, some, find, length, leb, is_some}
use regnova.Prelude.Results.{ok}
use regnova.Prelude.Text.{str_eq}
use regnova.Document.Model.{DocumentVersionStatus, DocumentVersion, Db, Services, Request, has_id}
use regnova.Document.Repository.{get_document, get_current}
use regnova.Document.Sniff.{sniff_content_type}
use regnova.Document.Upload.{File}
use regnova.Document.Edit.{Edit}
use regnova.Document.Rows.{Same}

abbrev pub HasStatus : ℕ → DocumentVersionStatus → Db → Type 0
HasStatus id status db =
    (w : DocumentVersion) × (find (has_id id) db.versions ≡ some w) × (w.status ≡ status)

-- Every version keeps its number, its checksum and its links, and there is no other one.
abbrev pub SameVersions : Db → Db → Type 0
SameVersions db db' = Same db.versions db'.versions

module _ (services : Services) (q : Request) (file : File) where
  -- The tables in which a second upload finds the bytes.
  abbrev Holds : ℕ × Db → Type 0
  Holds r =
      (w : DocumentVersion) × (get_current q.document_id r.1 ≡ some w)
      × (str_eq w.checksum (services.sha256 file.content) ≡ true)
      × (w.id ≡ r.0)

  abbrev Kept : Db → ℕ × Db → Type 0
  Kept db r = Holds r × (r.1.documents ≡ db.documents)

  -- The guards of an upload that went through.
  abbrev Made : Db → ℕ × Db → Type 0
  Made db r =
      (content_type : String) × (is_some (get_document q.organization_id q.document_id db) ≡ true)
      × (leb (length file.content) services.document_max_size_bytes ≡ true)
      × (sniff_content_type services file.content file.declared_content_type ≡ ok content_type)
      × Kept db r
