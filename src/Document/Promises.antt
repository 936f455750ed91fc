-- ===== src/Document/Promises.antt =====
-- What app/modules/document_version/service.py and evidence/service.py promise of their tables after
-- any sequence of calls.
use regnova.Prelude.{◌≡◌, refl, ℕ, Bool, true, none, List, filter, length, [], ◌∷◌, All}
use regnova.Document.Model.{Bytes, DocumentVersion, Db, Services}
use regnova.Document.Repository.{is_of, get_current, get_latest_version_number}
use regnova.Document.Chain.{head, Chain, Chain-current, Chain-greatest}
use regnova.Document.Valid.{IsVerified, IsClean, IsValid}
use regnova.Document.Perform.{Call, run}
use regnova.Document.History.{Trusted, run-IsValid}

abbrev pub versions_of : ℕ → Db → List DocumentVersion
versions_of document_id db = filter (is_of document_id) db.versions

-- Whatever uploads, scans, retries, extractions and reviews were called, in any order and also where
-- they stop after their first commit: if the scanner lets no malware pass, and two files with one
-- checksum are both malware or both not, then no bytes with the checksum of a version that is processed,
-- to be reviewed, verified or rejected are malware. It is so if the tables were valid at the start.
pub run-IsClean :
    (services : Services) (safe : Bytes → Bool)
    → ((b c : Bytes) → services.sha256 b ≡ services.sha256 c → safe b ≡ safe c)
    → (calls : List Call) (db : Db) → All (Trusted safe) calls
    → IsValid services safe db
    → All (IsClean services safe) (run services calls db).versions
run-IsClean services safe collisions calls db t h =
    (run-IsValid services safe collisions calls db t h).clean

abbrev all_trusted : (calls : List Call) → All (Trusted (λ content. true)) calls
all_trusted [] = tt
all_trusted (call ∷ calls) = (λ content e. refl, all_trusted calls)

-- After any sequence of calls the versions of a document are linked: each is superseded by the next
-- newer one and supersedes the next older one, the newest is superseded by none, and they are numbered
-- from 1 without a gap; the current version is the newest one, and the latest number the count of
-- them. It is so if the tables were valid at the start.
pub run-Chain :
    (services : Services) (calls : List Call) (db : Db) (document_id : ℕ)
    → IsValid services (λ content. true) db
    → let db' = run services calls db in
      Chain none (versions_of document_id db')
      × (get_current document_id db' ≡ head (versions_of document_id db'))
      × (get_latest_version_number document_id db' ≡ length (versions_of document_id db'))
unfolding get_current get_latest_version_number
run-Chain services calls db document_id h =
    let db' = run services calls db in
    let valid =
      run-IsValid services (λ content. true) (λ b c e. refl) calls db (all_trusted calls) h in
    let chain = valid.chain document_id in
    (
      chain,
      Chain-current document_id db'.versions chain,
      Chain-greatest none (versions_of document_id db') chain,
    )

-- After any sequence of calls all evidence is for a version that exists and is verified, if the
-- tables were valid at the start.
pub run-linked :
    (services : Services) (calls : List Call) (db : Db)
    → IsValid services (λ content. true) db
    → All
        (λ e. IsVerified (run services calls db).versions e.document_version_id)
        (run services calls db).evidence
run-linked services calls db h =
    (run-IsValid services (λ content. true) (λ b c e. refl) calls db (all_trusted calls) h).linked
