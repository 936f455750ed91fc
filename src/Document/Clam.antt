-- ===== src/Document/Clam.antt =====
-- `ClamAVScanner` of app/scanning, and the calls of app/modules/document_version that use it.
use Prim.Native.String.{◌++◌}
use regnova.Prelude.{
  ◌≡◌, refl, ap, String, Bool, true, false, Option, none, some, List, [], ◌∷◌, map, All,
  if◌then◌else◌,
}
use regnova.Prelude.Text.{str_eq, eq_iff}
use regnova.Document.Model.{Bytes, Db, ScanResult, clean, infected, unavailable, Services, Request}
use regnova.Document.Valid.{IsClean, IsValid}
use regnova.Document.Perform.{Operation, Call, run}
use regnova.Document.History.{Trusted}
use regnova.Document.Promises.{run-IsClean}

-- How `instream` ends: with a response, of which the entry "stream" is a status and its detail, or
-- with an error of the connection or of the client, by its text.
pub data Answer : Type 0 where
  response : Option (String × String) → Answer
  os_error clamd_error : String → Answer

abbrev pub read_stream : String → String → ScanResult
read_stream status detail =
    if str_eq status "OK"
    then clean
    else if str_eq status "FOUND"
    then infected detail
    else unavailable ("ClamAV returned an inconclusive result: " ++ detail)

-- `ClamAVScanner.scan`, from the answer of the daemon.
unfoldable pub scan : Answer → ScanResult
scan (response none) = unavailable "ClamAV returned an inconclusive result: None"
scan (response (some stream)) = read_stream stream.0 stream.1
scan (os_error message) = unavailable ("Could not reach ClamAV: " ++ message)
scan (clamd_error message) = unavailable ("ClamAV scan did not complete: " ++ message)

-- A call with what the daemon answers while it runs.
pub record Visit : Type 0 where
  pub operation : Operation
  pub request : Request
  pub daemon : Bytes → Answer

unfoldable pub call_of : Visit → Call
unfolding scan
call_of visit = record {
  operation = visit.operation;
  request = record visit.request { scan = λ content. scan (visit.daemon content) };
}

-- The daemon answers OK for no malware.
abbrev pub IsHonest : (Bytes → Bool) → Visit → Type 0
IsHonest safe visit =
    (content : Bytes) (detail : String)
    → visit.daemon content ≡ response (some ("OK", detail))
    → safe content ≡ true

clean_first :
    (b c : Bool) (name message : String)
    → (if b then clean else if c then infected name else unavailable message) ≡ clean
    → b ≡ true
clean_first true c name message h = refl
clean_first false true name message h = cc
clean_first false false name message h = cc

read_stream-clean : (status detail : String) → read_stream status detail ≡ clean → status ≡ "OK"
read_stream-clean status detail h = (eq_iff status "OK").0 (
    clean_first (str_eq status "OK") (str_eq status "FOUND") detail
      ("ClamAV returned an inconclusive result: " ++ detail) h)

-- Only a response OK is a clean scan.
scan-clean :
    (answer : Answer)
    → scan answer ≡ clean
    → (detail : String) × (answer ≡ response (some ("OK", detail)))
unfolding scan
scan-clean (response none) h = cc
scan-clean (response (some stream)) h =
    (stream.1, ap (λ s. response (some (s, stream.1))) (read_stream-clean stream.0 stream.1 h))
scan-clean (os_error message) h = cc
scan-clean (clamd_error message) h = cc

honest-Trusted :
    (safe : Bytes → Bool) (visit : Visit) → IsHonest safe visit → Trusted safe (call_of visit)
unfolding call_of
honest-Trusted safe visit h content e =
    let answer = scan-clean (visit.daemon content) e in h content answer.0 answer.1

all_trusted :
    (safe : Bytes → Bool) (visits : List Visit)
    → All (IsHonest safe) visits
    → All (Trusted safe) (map call_of visits)
all_trusted safe [] h = tt
all_trusted safe (visit ∷ visits) h = (honest-Trusted safe visit h.0, all_trusted safe visits h.1)

-- After any sequence of calls that scan with ClamAV, however its daemon answers or fails while each of
-- them runs, no bytes with the checksum of a version that is processed, to be reviewed, verified or
-- rejected are malware, if the daemon answers OK for no malware, two files with one checksum are both
-- malware or both not, and the tables were valid at the start.
pub scan-IsClean :
    (services : Services) (safe : Bytes → Bool)
    → ((b c : Bytes) → services.sha256 b ≡ services.sha256 c → safe b ≡ safe c)
    → (visits : List Visit) (db : Db) → All (IsHonest safe) visits
    → IsValid services safe db
    → All (IsClean services safe) (run services (map call_of visits) db).versions
scan-IsClean services safe collisions visits db h k =
    run-IsClean services safe collisions (map call_of visits) db (all_trusted safe visits h) k
