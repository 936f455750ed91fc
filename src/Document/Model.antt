-- ===== src/Document/Model.antt =====
-- The rows of app/modules/document, document_version and evidence. Bytes are numbers; the value of
-- a field, its confidence and its location are the texts of their JSON.
use regnova.Prelude.{ℕ, String, Bool, true, false, Option, List, ◌==◌}

abbrev pub Bytes : Type 0
Bytes = List ℕ

pub data DocumentVersionStatus : Type 0 where
  scanning processing review_required verified rejected quarantined failed : DocumentVersionStatus

pub record Document : Type 0 where
  pub id : ℕ
  pub organization_id : ℕ
  pub document_type : String

pub record DocumentVersion : Type 0 where
  pub id : ℕ
  pub document_id : ℕ
  pub organization_id : ℕ
  pub version_number : ℕ
  pub checksum : String
  pub storage_backend : String
  pub original_filename : String
  pub content_type : String
  pub size_bytes : ℕ
  pub status : DocumentVersionStatus
  pub supersedes_id : Option ℕ
  pub superseded_by_id : Option ℕ
  pub uploaded_by_user_id : Option ℕ
  pub reviewed_by_user_id : Option ℕ
  pub reviewed_at : Option ℕ
  pub review_note : Option String
  pub malware_signature : Option String
  pub scan_error : Option String
  pub extraction_status : Option String
  pub extraction_error : Option String
  pub notes : Option String

pub record DocumentField : Type 0 where
  pub id : ℕ
  pub document_version_id : ℕ
  pub field_key : String

pub record DocumentFieldRevision : Type 0 where
  pub document_field_id : ℕ
  pub revision_number : ℕ
  pub value : String
  pub confidence : Option String
  pub method : String
  pub location : Option String
  pub entered_by_user_id : Option ℕ
  pub ai_model_identifier : Option String
  pub ai_prompt_version : Option String

pub record Evidence : Type 0 where
  pub id : ℕ
  pub organization_id : ℕ
  pub document_version_id : ℕ
  pub product_id : ℕ
  pub requirement_version_id : Option ℕ
  pub notes : Option String
  pub created_by_user_id : Option ℕ
  pub is_current : Bool
  pub stale_reason : Option String

pub record CorrectedExtraction : Type 0 where
  pub previous_value : String
  pub previous_confidence : Option String
  pub ai_model_identifier : Option String
  pub ai_prompt_version : Option String
  pub values_matched : Bool

pub record FieldRevised : Type 0 where
  pub document_id : ℕ
  pub document_version_id : ℕ
  pub field_key : String
  pub revision : DocumentFieldRevision
  pub corrected_extraction : Option CorrectedExtraction

-- The event types with their payloads. Of an upload and of a link the payload is columns of the row.
pub data Payload : Type 0 where
  document_version_uploaded : DocumentVersion → Payload
  document_version_scan_failed : ℕ → ℕ → DocumentVersionStatus → String → Payload
  document_version_verified document_version_rejected document_version_quarantined :
      ℕ → ℕ → DocumentVersionStatus → DocumentVersionStatus → Option String → Payload
  document_field_revised : FieldRevised → Payload
  evidence_linked evidence_unlinked : Evidence → Payload

pub record OutboxEvent : Type 0 where
  pub organization_id : ℕ
  pub payload : Payload
  pub actor_user_id : Option ℕ
  pub correlation_id : Option String

-- The tables, newest rows first; the stored bytes by their checksum; products by organization and
-- identifier, the versions of requirements, the synthetic organizations; and the next identifier.
pub record Db : Type 0 where
  pub documents : List Document
  pub versions : List DocumentVersion
  pub fields : List DocumentField
  pub revisions : List DocumentFieldRevision
  pub evidence : List Evidence
  pub storage : List (String × Bytes)
  pub products : List (ℕ × ℕ)
  pub requirement_versions : List ℕ
  pub synthetic_organizations : List ℕ
  pub outbox : List OutboxEvent
  pub next_id : ℕ

pub data Error : Type 0 where
  document_not_found document_version_not_found document_version_too_large : Error
  document_version_invalid_file_type document_version_transition_not_allowed : Error
  document_type_has_no_extraction_schema document_version_not_editable : Error
  file_not_found product_not_found evidence_document_version_not_verified : Error
  requirement_version_not_found evidence_already_linked evidence_not_found : Error

-- What the scanner answers: clean, infected by a named malware, or ScannerUnavailable.
pub data ScanResult : Type 0 where
  clean : ScanResult
  infected : String → ScanResult
  unavailable : String → ScanResult

pub record ExtractedField : Type 0 where
  pub field_key : String
  pub value : String
  pub confidence : String

-- What the extractor answers: the fields with the model and the schema version, or
-- DocumentExtractionUnavailable.
pub data ExtractionResult : Type 0 where
  extracted : List ExtractedField → String → String → ExtractionResult
  not_extracted : String → ExtractionResult

-- What is called but not defined here: SHA-256, whether bytes decode as UTF-8, Python's `==` on two
-- JSON values, the settings, and whether the extractor is the one that calls the outside model.
pub record Services : Type 0 where
  pub sha256 : Bytes → String
  pub decodes : Bytes → Bool
  pub same_value : String → String → Bool
  pub document_max_size_bytes : ℕ
  pub document_storage_backend : String
  pub is_gemini : Bool

-- A request: who, for which organization and document, when, and what the scanner and the extractor
-- answer during it.
pub record Request : Type 0 where
  pub organization_id : ℕ
  pub document_id : ℕ
  pub actor_user_id : Option ℕ
  pub correlation_id : Option String
  pub now : ℕ
  pub scan : Bytes → ScanResult
  pub extract : String → Bytes → String → ExtractionResult

abbrev pub has_id : ℕ → DocumentVersion → Bool
has_id id v = v.id == id

-- Whether two statuses are the same.
abbrev pub same_status : DocumentVersionStatus → DocumentVersionStatus → Bool
same_status scanning scanning = true
same_status processing processing = true
same_status review_required review_required = true
same_status verified verified = true
same_status rejected rejected = true
same_status quarantined quarantined = true
same_status failed failed = true
same_status _ _ = false
