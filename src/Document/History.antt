-- ===== src/Document/History.antt =====
-- Any sequence of calls of app/modules/document_version and evidence keeps the tables valid.
use regnova.Prelude.{◌≡◌, Bool, true, List, [], ◌∷◌, All}
use regnova.Prelude.Results.{Result, ok, raise, OnOk}
use regnova.Document.Model.{Bytes, Db, Error, clean, Services, Request}
use regnova.Document.Valid.{IsValid}
use regnova.Document.Perform.{
  Operation, create_, create_stopped_, retry_scan_, retry_scan_stopped_, run_extraction_of_,
  verify_, reject_, quarantine_, set_field_, link_, unlink_, Call, perform, or_unchanged, run,
}
use regnova.Document.Guards.{OnOk-tables}
use regnova.Document.Scanned.{create-IsValid, retry_scan-IsValid, run_extraction-IsValid}
use regnova.Document.Reviewed.{
  verify-IsValid, reject-IsValid, quarantine-IsValid, set_field-IsValid,
}
use regnova.Document.Linked.{link-IsValid, unlink-IsValid}
use regnova.Document.Stopped.{create_stopped-IsValid, retry_scan_stopped-IsValid}

module _ (services : Services) (safe : Bytes → Bool)
    (collisions : (b c : Bytes) → services.sha256 b ≡ services.sha256 c → safe b ≡ safe c)
    (q : Request) (trusted : (content : Bytes) → q.scan content ≡ clean → safe content ≡ true) where
  abbrev Valid : Db → Type 0
  Valid db = IsValid services safe db

  perform-IsValid : (op : Operation) (db : Db) → Valid db → OnOk Valid (perform services op q db)
  unfolding perform
  perform-IsValid (create_ file) db h =
      OnOk-tables Valid _ (create-IsValid services safe collisions q trusted file db h)
  perform-IsValid (create_stopped_ file) db h =
      create_stopped-IsValid services safe collisions q trusted file db h
  perform-IsValid (retry_scan_ id) db h =
      OnOk-tables Valid _ (retry_scan-IsValid services safe collisions q trusted id db h)
  perform-IsValid (retry_scan_stopped_ id) db h =
      retry_scan_stopped-IsValid services safe collisions q trusted id db h
  perform-IsValid (run_extraction_of_ id) db h =
      OnOk-tables Valid _ (run_extraction-IsValid services safe collisions q trusted id db h)
  perform-IsValid (verify_ id note) db h =
      OnOk-tables Valid _ (verify-IsValid services safe q id note db h)
  perform-IsValid (reject_ id note) db h =
      OnOk-tables Valid _ (reject-IsValid services safe q id note db h)
  perform-IsValid (quarantine_ id note) db h =
      OnOk-tables Valid _ (quarantine-IsValid services safe q id note db h)
  perform-IsValid (set_field_ id key value confidence location) db h =
      set_field-IsValid services safe q id key value confidence location db h
  perform-IsValid (link_ payload) db h =
      OnOk-tables Valid _ (link-IsValid services safe q payload db h)
  perform-IsValid (unlink_ id) db h = unlink-IsValid services safe q id db h

or_unchanged_keeps :
    (P : Db → Type 0) (m : Result Error Db) (db : Db) → P db → OnOk P m → P (or_unchanged m db)
or_unchanged_keeps P (ok db') db h k = k
or_unchanged_keeps P (raise e) db h k = h

-- The scanner that answers a call lets no malware pass.
abbrev pub Trusted : (Bytes → Bool) → Call → Type 0
Trusted safe call = (content : Bytes) → call.request.scan content ≡ clean → safe content ≡ true

pub run-IsValid :
    (services : Services) (safe : Bytes → Bool)
    → ((b c : Bytes) → services.sha256 b ≡ services.sha256 c → safe b ≡ safe c)
    → (calls : List Call) (db : Db) → All (Trusted safe) calls
    → IsValid services safe db
    → IsValid services safe (run services calls db)
unfolding run
run-IsValid services safe collisions [] db t h = h
run-IsValid services safe collisions (call ∷ calls) db t h =
    run-IsValid services safe collisions calls
      (or_unchanged (perform services call.operation call.request db) db) t.1
      (or_unchanged_keeps (IsValid services safe) (perform services call.operation call.request db)
        db h (perform-IsValid services safe collisions call.request t.0 call.operation db h))
