-- ===== src/Document/Edit.antt =====
-- What one call of app/modules/document_version/service.py does to the row of a version that exists:
-- it is changed in place, never in the columns that tie the versions of a document together.
use regnova.Prelude.{
  ◌≡◌, refl, ap, ◌∙◌, ℕ, ◌≤◌, String, Bool, true, false, Option, none, some, List, [], ◌∷◌, arith,
}
use regnova.Prelude.Rows.{modify_first}
use regnova.Document.Model.{
  quarantined, failed, Bytes, DocumentVersionStatus, processing, review_required, verified,
  rejected, DocumentVersion, DocumentField, Payload, Db, ScanResult, clean, infected, unavailable,
  ExtractedField, ExtractionResult, extracted, not_extracted, Services, Request, has_id,
}
use regnova.Document.Repository.{get_document, get_by_key}
use regnova.Document.Fields.{
  append, found_or_new, field_for, write_extracted_field, write_extracted_fields,
}
use regnova.Document.Scan.{
  update, schema_of, mark_clean, mark_failed, mark_infected, mark_extracted, mark_not_extracted,
  extraction_of, settle_extraction, run_extraction_, enter_processing, pass_clean, settle_scan,
  run_scan_and_transition,
}

absurd_bool : false ≡ true → ⊥
absurd_bool h = cc

-- The statuses that are behind a scan that found nothing.
abbrev pub is_past_scan : DocumentVersionStatus → Bool
is_past_scan processing = true
is_past_scan review_required = true
is_past_scan verified = true
is_past_scan rejected = true
is_past_scan _ = false

-- The status in which a scan leaves the version.
abbrev pub outcome : ScanResult → DocumentVersionStatus
outcome clean = review_required
outcome (infected name) = quarantined
outcome (unavailable message) = failed

pub outcome_past :
    {Clean : Type 0} (r : ScanResult)
    → (r ≡ clean → Clean)
    → is_past_scan (outcome r) ≡ true
    → Clean
outcome_past clean h e = h refl
outcome_past (infected name) h e = elim (absurd_bool e) [ ]
outcome_past (unavailable message) h e = elim (absurd_bool e) [ ]

abbrev pub Keeps : DocumentVersion → DocumentVersion → Type 0
Keeps x y =
    (y.id ≡ x.id)
    × (y.document_id ≡ x.document_id)
    × (y.version_number ≡ x.version_number)
    × (y.checksum ≡ x.checksum)
    × (y.supersedes_id ≡ x.supersedes_id)
    × (y.superseded_by_id ≡ x.superseded_by_id)

-- Nothing but the fields, their revisions and the outbox changed.
pub record Frame (db db' : Db) : Type 0 where
  pub versions : db'.versions ≡ db.versions
  pub documents : db'.documents ≡ db.documents
  pub evidence : db'.evidence ≡ db.evidence
  pub storage : db'.storage ≡ db.storage
  pub next_id : db.next_id ≤ db'.next_id

-- The version of the identifier was changed too, and `P` holds of its status now.
pub record Edit (P : DocumentVersionStatus → Type 0) (id : ℕ) (db db' : Db) : Type 0 where
  pub change : DocumentVersion → DocumentVersion
  pub versions : db'.versions ≡ modify_first (has_id id) change db.versions
  pub keeps : (x : DocumentVersion) → Keeps x (change x)
  pub settled : (x : DocumentVersion) → P (change x).status
  pub documents : db'.documents ≡ db.documents
  pub evidence : db'.evidence ≡ db.evidence
  pub storage : db'.storage ≡ db.storage
  pub next_id : db.next_id ≤ db'.next_id

Frame-trans : (a b c : Db) → Frame a b → Frame b c → Frame a c
Frame-trans a b c h k = record {
  versions = k.versions ∙ h.versions;
  documents = k.documents ∙ h.documents;
  evidence = k.evidence ∙ h.evidence;
  storage = k.storage ∙ h.storage;
  next_id = omega (arith, h.next_id, k.next_id);
}

pub Edit-Frame :
    (P : DocumentVersionStatus → Type 0) (id : ℕ) (a b c : Db)
    → Edit P id a b
    → Frame b c
    → Edit P id a c
Edit-Frame P id a b c h k = record {
  change = h.change;
  versions = k.versions ∙ h.versions;
  keeps = h.keeps;
  settled = h.settled;
  documents = k.documents ∙ h.documents;
  evidence = k.evidence ∙ h.evidence;
  storage = k.storage ∙ h.storage;
  next_id = omega (arith, h.next_id, k.next_id);
}

modify_first_twice :
    (id : ℕ) (f g : DocumentVersion → DocumentVersion) (vs : List DocumentVersion)
    → ((x : DocumentVersion) → (f x).id ≡ x.id)
    → modify_first (has_id id) g (modify_first (has_id id) f vs)
      ≡ modify_first (has_id id) (λ x. g (f x)) vs
unfolding modify_first
modify_first_twice id f g [] h = refl
modify_first_twice id f g (v ∷ vs) h = ground (arith, h v, modify_first_twice id f g vs h)

Edit-trans :
    (P Q : DocumentVersionStatus → Type 0) (id : ℕ) (a b c : Db)
    → Edit Q id a b
    → Edit P id b c
    → Edit P id a c
Edit-trans P Q id a b c h k = record {
  change = λ x. k.change (h.change x);
  versions =
      k.versions
      ∙ ap (modify_first (has_id id) k.change) h.versions
      ∙ modify_first_twice id h.change k.change a.versions (λ x. (h.keeps x).0);
  keeps = λ x.
      let p = h.keeps x in
      let q = k.keeps (h.change x) in
      (q.0 ∙ p.0, q.1 ∙ p.1, q.2 ∙ p.2, q.3 ∙ p.3, q.4 ∙ p.4, q.5 ∙ p.5);
  settled = λ x. k.settled (h.change x);
  documents = k.documents ∙ h.documents;
  evidence = k.evidence ∙ h.evidence;
  storage = k.storage ∙ h.storage;
  next_id = omega (arith, h.next_id, k.next_id);
}

pub update-Edit :
    (P : DocumentVersionStatus → Type 0) (id : ℕ) (change : DocumentVersion → DocumentVersion)
    (db : Db)
    → ((x : DocumentVersion) → Keeps x (change x))
    → ((x : DocumentVersion) → P (change x).status)
    → Edit P id db (update id change db)
update-Edit P id change db h k = record {
  change = change;
  versions = refl;
  keeps = h;
  settled = k;
  documents = refl;
  evidence = refl;
  storage = refl;
  next_id = omega arith;
}

pub append-Frame :
    (q : Request) (payload : Payload) (actor : Option ℕ) (db : Db)
    → Frame db (append q payload actor db)
append-Frame q payload actor db = record {
  versions = refl;
  documents = refl;
  evidence = refl;
  storage = refl;
  next_id = omega arith;
}

found_or_new-Frame :
    (o : Option DocumentField) (version_id : ℕ) (field_key : String) (db : Db)
    → Frame db (found_or_new o version_id field_key db).1
found_or_new-Frame none version_id field_key db = record {
  versions = refl;
  documents = refl;
  evidence = refl;
  storage = refl;
  next_id = omega arith;
}
found_or_new-Frame (some field) version_id field_key db = record {
  versions = refl;
  documents = refl;
  evidence = refl;
  storage = refl;
  next_id = omega arith;
}

-- A revision and its event after the field was looked up.
pub written-Frame :
    (o : Option DocumentField) (version_id : ℕ) (field_key : String) (db db' : Db)
    → Frame (found_or_new o version_id field_key db).1 db'
    → Frame db db'
written-Frame o version_id field_key db db' =
    Frame-trans db _ db' (found_or_new-Frame o version_id field_key db)

write_extracted_field-Frame :
    (q : Request) (version_id : ℕ) (x : ExtractedField) (m p : String) (db : Db)
    → Frame db (write_extracted_field q version_id x m p db)
unfolding write_extracted_field field_for
write_extracted_field-Frame q version_id x m p db =
    written-Frame (get_by_key version_id x.field_key db) version_id x.field_key db _ (record {
      versions = refl;
      documents = refl;
      evidence = refl;
      storage = refl;
      next_id = omega arith;
    })

write_extracted_fields-Frame :
    (q : Request) (version_id : ℕ) (xs : List ExtractedField) (m p : String) (db : Db)
    → Frame db (write_extracted_fields q version_id xs m p db)
unfolding write_extracted_fields
write_extracted_fields-Frame q version_id [] m p db = record {
  versions = refl;
  documents = refl;
  evidence = refl;
  storage = refl;
  next_id = omega arith;
}
write_extracted_fields-Frame q version_id (x ∷ xs) m p db =
    Frame-trans db _ _ (write_extracted_field-Frame q version_id x m p db) (
      write_extracted_fields-Frame q version_id xs m p
        (write_extracted_field q version_id x m p db))

pub kept : (x : DocumentVersion) → Keeps x x
kept x = (refl, refl, refl, refl, refl, refl)

module _ (services : Services) (P : DocumentVersionStatus → Type 0) where
  settle_extraction-Edit :
      (q : Request) (id : ℕ) (r : ExtractionResult) (db : Db)
      → P review_required
      → Edit P id db (settle_extraction services q id r db)
  settle_extraction-Edit q id (not_extracted message) db h =
      update-Edit P id (mark_not_extracted message) db kept (λ x. h)
  settle_extraction-Edit q id (extracted fields m p) db h =
      Edit-Frame P id db (update id mark_extracted db) _
        (update-Edit P id mark_extracted db kept (λ x. h))
        (write_extracted_fields-Frame q id fields m p (update id mark_extracted db))

  pub run_extraction_-Edit :
      (q : Request) (v : DocumentVersion) (content : Bytes) (document_type : String) (db : Db)
      → P review_required
      → Edit P v.id db (run_extraction_ services q v content document_type db)
  unfolding run_extraction_
  run_extraction_-Edit q v content document_type db h =
      settle_extraction-Edit q v.id (extraction_of services q v content document_type db) db h

  pass_clean-Edit :
      (q : Request) (v : DocumentVersion) (content : Bytes) (o : Option String) (db : Db)
      → P review_required
      → Edit P v.id db (pass_clean services q v content o db)
  unfolding enter_processing
  pass_clean-Edit q v content none db h =
      update-Edit P v.id (mark_clean review_required) db kept (λ x. h)
  pass_clean-Edit q v content (some document_type) db h =
      Edit-trans P (λ s. Unit) v.id db (enter_processing v.id db) _
        (update-Edit (λ s. Unit) v.id (mark_clean processing) db kept (λ x. tt))
        (run_extraction_-Edit q v content document_type (enter_processing v.id db) h)

  settle_scan-Edit :
      (q : Request) (v : DocumentVersion) (content : Bytes) (r : ScanResult) (db : Db)
      → P (outcome r)
      → Edit P v.id db (settle_scan services q v content r db)
  settle_scan-Edit q v content (unavailable message) db h =
      Edit-Frame P v.id db (update v.id (mark_failed message) db) _
        (update-Edit P v.id (mark_failed message) db kept (λ x. h)) (append-Frame q _ _ _)
  settle_scan-Edit q v content (infected name) db h =
      Edit-Frame P v.id db (update v.id (mark_infected name) db) _
        (update-Edit P v.id (mark_infected name) db kept (λ x. h)) (append-Frame q _ _ _)
  settle_scan-Edit q v content clean db h =
      pass_clean-Edit q v content (schema_of (get_document q.organization_id q.document_id db)) db h

  -- A scan changes its version only, which it leaves in the status of its outcome.
  pub run_scan_and_transition-Edit :
      (q : Request) (v : DocumentVersion) (content : Bytes) (db : Db)
      → P (outcome (q.scan content))
      → Edit P v.id db (run_scan_and_transition services q v content db)
  unfolding run_scan_and_transition
  run_scan_and_transition-Edit q v content db h = settle_scan-Edit q v content (q.scan content) db h
