-- ===== src/Document/Fields.antt =====
-- `DocumentFieldService` of app/modules/document_version/service.py.
use regnova.Prelude.{ℕ, String, Option, none, some, List, [], ◌∷◌, ◌+◌, if◌then◌else◌, is_some}
use regnova.Prelude.Results.{Result, ok, ◌>>=◌, ◌>>◌, require, or_raise}
use regnova.Prelude.Text.{str_eq}
use regnova.Document.Model.{
  DocumentVersion, review_required, DocumentField, DocumentFieldRevision, CorrectedExtraction,
  document_field_revised, Payload, Db, Error, document_not_found, document_version_not_found,
  document_version_not_editable, ExtractedField, Services, Request, same_status,
}
use regnova.Document.Repository.{
  get_document, get_version, get_by_key, get_latest, get_latest_revision_number,
}

-- `OutboxRepository.append`.
abbrev pub append : Request → Payload → Option ℕ → Db → Db
append q payload actor_user_id db = record db {
  outbox =
      record {
        organization_id = q.organization_id;
        payload = payload;
        actor_user_id = actor_user_id;
        correlation_id = q.correlation_id;
      }
      ∷ db.outbox;
}

-- `_get_version_or_404`.
unfoldable pub get_version_or_404 : Request → ℕ → Db → Result Error DocumentVersion
unfolding get_document get_version
get_version_or_404 q version_id db = do
  require (is_some (get_document q.organization_id q.document_id db)) document_not_found
  or_raise (get_version q.organization_id q.document_id version_id db) document_version_not_found

abbrev pub new_field : ℕ → String → Db → DocumentField
new_field version_id field_key db = record {
  id = db.next_id;
  document_version_id = version_id;
  field_key = field_key;
}

-- The field of a key, which is created where the version has none.
abbrev pub found_or_new : Option DocumentField → ℕ → String → Db → DocumentField × Db
found_or_new none version_id field_key db = (
  new_field version_id field_key db,
  record db { fields = new_field version_id field_key db ∷ db.fields; next_id = db.next_id + 1 },
)
found_or_new (some field) version_id field_key db = (field, db)

unfoldable pub field_for : ℕ → String → Db → DocumentField × Db
unfolding get_by_key
field_for version_id field_key db =
    found_or_new (get_by_key version_id field_key db) version_id field_key db

-- The revision is stored and a DocumentFieldRevised event recorded.
abbrev pub write_revision :
    Request → ℕ → String → DocumentFieldRevision → Option CorrectedExtraction → Option ℕ → Db → Db
write_revision q version_id field_key revision corrected actor_user_id db =
    append q
      (document_field_revised (record {
        document_id = q.document_id;
        document_version_id = version_id;
        field_key = field_key;
        revision = revision;
        corrected_extraction = corrected;
      }))
      actor_user_id (record db { revisions = revision ∷ db.revisions })

module _ (services : Services) where
  -- The model's value that a manual entry replaces.
  abbrev pub corrected_extraction :
      Option DocumentFieldRevision → String → Option CorrectedExtraction
  corrected_extraction none value = none
  corrected_extraction (some previous) value =
      if str_eq previous.method "AI_EXTRACTED"
      then some (record {
        previous_value = previous.value;
        previous_confidence = previous.confidence;
        ai_model_identifier = previous.ai_model_identifier;
        ai_prompt_version = previous.ai_prompt_version;
        values_matched = services.same_value previous.value value;
      })
      else none

  unfoldable pub set_field :
      Request → ℕ → String → String → Option String → Option String → Db → Result Error Db
  unfolding get_version_or_404 field_for get_latest get_latest_revision_number
  set_field q version_id field_key value confidence location db = do
    v ← get_version_or_404 q version_id db
    require (same_status v.status review_required) document_version_not_editable
    let (field, db) = field_for version_id field_key db
    let previous = get_latest field.id db
    let next_revision_number = get_latest_revision_number field.id db + 1
    ok (
        write_revision q version_id field_key
          (record {
            document_field_id = field.id;
            revision_number = next_revision_number;
            value = value;
            confidence = confidence;
            method = "MANUAL";
            location = location;
            entered_by_user_id = q.actor_user_id;
            ai_model_identifier = none;
            ai_prompt_version = none;
          })
          (corrected_extraction previous value) q.actor_user_id db)

unfoldable pub write_extracted_field : Request → ℕ → ExtractedField → String → String → Db → Db
unfolding field_for get_latest_revision_number
write_extracted_field q version_id x ai_model_identifier ai_prompt_version db =
    let (field, db) = field_for version_id x.field_key db in
    write_revision q version_id x.field_key
      (record {
        document_field_id = field.id;
        revision_number = get_latest_revision_number field.id db + 1;
        value = x.value;
        confidence = some x.confidence;
        method = "AI_EXTRACTED";
        location = none;
        entered_by_user_id = none;
        ai_model_identifier = some ai_model_identifier;
        ai_prompt_version = some ai_prompt_version;
      })
      none none db

-- `_run_extraction` writes the fields in their order.
unfoldable pub write_extracted_fields :
    Request → ℕ → List ExtractedField → String → String → Db → Db
unfolding write_extracted_field
write_extracted_fields q version_id [] ai_model_identifier ai_prompt_version db = db
write_extracted_fields q version_id (x ∷ xs) ai_model_identifier ai_prompt_version db =
    write_extracted_fields q version_id xs ai_model_identifier ai_prompt_version
      (write_extracted_field q version_id x ai_model_identifier ai_prompt_version db)
