-- ===== src/Document/Tests.antt =====
-- Runs of app/modules/document_version and evidence on small tables.
use regnova.Prelude.{
  ◌≡◌, refl, ap, ℕ, String, Bool, true, false, none, some, List, [], ◌∷◌, map, length, not,
  if◌then◌else◌, ◌==◌, All,
}
use regnova.Prelude.Text.{str_eq}
use regnova.Document.Model.{
  failed, Bytes, DocumentVersionStatus, review_required, verified, quarantined, Db, ScanResult,
  clean, infected, unavailable, not_extracted, Services, Request,
}
use regnova.Document.Upload.{File}
use regnova.Document.Evidence.{EvidenceCreate}
use regnova.Document.Valid.{IsVerified, IsClean, IsValid}
use regnova.Document.Perform.{Operation, create_, retry_scan_, verify_, link_, Call, run}
use regnova.Document.History.{Trusted}
use regnova.Document.Promises.{versions_of, run-IsClean, run-Chain, run-linked}
use regnova.Document.Clam.{Answer, response, os_error, Visit, call_of, IsHonest, scan-IsClean}
use regnova.Document.Chain.{head, Chain}
use regnova.Document.Repository.{get_current, get_latest_version_number}

abbrev digest : Bytes → String
digest content =
    if length content == 5 then "first" else if length content == 6 then "second" else "other"

abbrev services : Services
services = record {
  sha256 = digest;
  decodes = λ content. true;
  same_value = str_eq;
  document_max_size_bytes = 100;
  document_storage_backend = "local";
  is_gemini = false;
}

abbrev is_safe : Bytes → Bool
is_safe content = not (str_eq (digest content) "other")

abbrev scan : Bytes → ScanResult
scan content = if is_safe content then clean else infected "Eicar"

abbrev request : Request
request = record {
  organization_id = 1;
  document_id = 10;
  actor_user_id = some 7;
  correlation_id = none;
  now = 100;
  scan = scan;
  extract = λ document_type content content_type. not_extracted "not_configured";
}

-- The scanner is not there.
abbrev unscanned : Request
unscanned = record request { scan = λ content. unavailable "timeout" }

abbrev start : Db
start = record {
  documents = record { id = 10; organization_id = 1; document_type = "LABEL" } ∷ [];
  versions = [];
  fields = [];
  revisions = [];
  evidence = [];
  storage = [];
  products = (1, 20) ∷ [];
  requirement_versions = [];
  synthetic_organizations = [];
  outbox = [];
  next_id = 100;
}

abbrev file_of : Bytes → File
file_of content = record {
  filename = "label.pdf";
  declared_content_type = "application/pdf";
  content = content;
  notes = none;
}

abbrev first : File
first = file_of (37 ∷ 80 ∷ 68 ∷ 70 ∷ 45 ∷ [])

abbrev second : File
second = file_of (37 ∷ 80 ∷ 68 ∷ 70 ∷ 45 ∷ 1 ∷ [])

abbrev malware : File
malware = file_of (37 ∷ 80 ∷ 68 ∷ 70 ∷ 45 ∷ 1 ∷ 2 ∷ [])

abbrev by : Request → Operation → Call
by q operation = record { operation = operation; request = q }

abbrev evidence_for : ℕ → EvidenceCreate
evidence_for id = record {
  document_version_id = id;
  product_id = 20;
  requirement_version_id = none;
  notes = none;
}

-- A first version is verified and linked; the second fails to be scanned and is scanned again; the
-- third is malware.
abbrev calls : List Call
calls =
    by request (create_ first)
    ∷ by request (verify_ 100 none)
    ∷ by request (link_ (evidence_for 100))
    ∷ by unscanned (create_ second)
    ∷ by request (retry_scan_ 102)
    ∷ by request (create_ malware)
    ∷ []

abbrev statuses : Db → List (ℕ × DocumentVersionStatus)
statuses db = map (λ v. (v.version_number, v.status)) db.versions

abbrev links : Db → List (ℕ × Bool)
links db = map (λ e. (e.document_version_id, e.is_current)) db.evidence

final_statuses :
    statuses (run services calls start)
    ≡ (3, quarantined) ∷ (2, review_required) ∷ (1, verified) ∷ []
unfolding run
final_statuses = refl

-- The evidence went stale with the second upload.
stale : links (run services calls start) ≡ (100, false) ∷ []
unfolding run
stale = refl

-- Evidence is taken for a version that is verified but superseded, and counts as current.
link_superseded :
    links (
      run services
        (by request (create_ first)
          ∷ by request (verify_ 100 none)
          ∷ by request (create_ second)
          ∷ by request (link_ (evidence_for 100))
          ∷ [])
        start)
    ≡ (100, true) ∷ []
unfolding run
link_superseded = refl

start-IsValid : (safe : Bytes → Bool) → IsValid services safe start
start-IsValid safe = record {
  falling = tt;
  chain = λ d. tt;
  clean = tt;
  addressed = tt;
  linked = tt;
}

collisions : (b c : Bytes) → services.sha256 b ≡ services.sha256 c → is_safe b ≡ is_safe c
collisions b c e = ap (λ s. not (str_eq s "other")) e

infected_unclean : (b : Bool) → (if b then clean else infected "Eicar") ≡ clean → b ≡ true
infected_unclean true e = refl
infected_unclean false e = cc

trusted : All (Trusted is_safe) calls
trusted =
    let answered = λ (c : Bytes) (e : scan c ≡ clean). infected_unclean (is_safe c) e in
    (answered, (answered, (answered, (λ c e. cc, (answered, (answered, tt))))))

run-IsClean_example : All (IsClean services is_safe) (run services calls start).versions
run-IsClean_example =
    run-IsClean services is_safe collisions calls start trusted (start-IsValid is_safe)

run-linked_example :
    All
      (λ e. IsVerified (run services calls start).versions e.document_version_id)
      (run services calls start).evidence
run-linked_example = run-linked services calls start (start-IsValid (λ content. true))

run-Chain_example :
    let db' = run services calls start in
    Chain none (versions_of 10 db')
    × (get_current 10 db' ≡ head (versions_of 10 db'))
    × (get_latest_version_number 10 db' ≡ length (versions_of 10 db'))
run-Chain_example = run-Chain services calls start 10 (start-IsValid (λ content. true))

abbrev waiting : Db
unfolding run
waiting = run services (by unscanned (create_ second) ∷ []) start

-- The daemon finds what is not safe, and is not there for the second upload.
abbrev daemon : Bytes → Answer
daemon content = response (some (if is_safe content then ("OK", "") else ("FOUND", "Eicar")))

abbrev visits : List Visit
visits =
    record { operation = create_ first; request = request; daemon = daemon }
    ∷ record { operation = create_ second; request = request; daemon = λ c. os_error "refused" }
    ∷ record { operation = create_ malware; request = request; daemon = daemon }
    ∷ []

scanned_statuses :
    statuses (run services (map call_of visits) start)
    ≡ (3, quarantined) ∷ (2, failed) ∷ (1, review_required) ∷ []
unfolding run call_of
scanned_statuses = refl

honest_if :
    (b : Bool) (detail : String)
    → response (some (if b then ("OK", "") else ("FOUND", "Eicar")))
      ≡ response (some ("OK", detail))
    → b ≡ true
honest_if true detail e = refl
honest_if false detail e = cc

honest : All (IsHonest is_safe) visits
honest =
    let answered = λ (c : Bytes) (detail : String) (e : daemon c ≡ response (some ("OK", detail))).
      honest_if (is_safe c) detail e in
    (answered, (λ c detail e. cc, (answered, tt)))

scan-IsClean_example :
    All (IsClean services is_safe) (run services (map call_of visits) start).versions
scan-IsClean_example =
    scan-IsClean services is_safe collisions visits start honest (start-IsValid is_safe)
