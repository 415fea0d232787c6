-- ===== src/Repositories/Models.antt =====
-- app/repositories/models.py: the tables as lists of rows in the order of insertion. The columns keep
-- their names. `draft` is a draft rather than its JSON dump, and `raw_payload` is the provider's JSON
-- text; the metadata columns of an extraction are one field.
use evidence_flow.Prelude.{ℕ, Bool, Option, List, [], Text}
use evidence_flow.Domain.Events.{EventType, DocumentStatus, WriteStatus, ExtractionStatus}
use evidence_flow.Domain.Evidence.Results.{EvidenceRow}
use evidence_flow.Domain.Failures.{Error}
use evidence_flow.Domain.Schema.{Date, InvoiceDraft}
use evidence_flow.Domain.Validation.{RuleResult}
use evidence_flow.Domain.Validation.Dates.{Unicode}

pub record Document : Type 0 where
  pub id : Text
  pub filename : Text
  pub source_text : Text
  pub status : DocumentStatus
  pub approved_payload_hash : Option Text
  pub created_at : ℕ

-- The provider's account of one call.
pub record Metadata : Type 0 where
  pub model : Text
  pub prompt_hash : Text
  pub latency_ms : ℕ
  pub input_tokens : Option ℕ
  pub output_tokens : Option ℕ
  pub request_id : Option Text

pub record Extraction : Type 0 where
  pub id : Text
  pub document_id : Text
  pub status : ExtractionStatus
  pub schema_version : Text
  pub raw_payload : Option Text
  pub draft : Option InvoiceDraft
  pub evidence : Option (List EvidenceRow)
  pub payload_hash : Option Text
  pub error_code : Option Text
  pub error_detail : Option Text
  pub metadata : Option Metadata
  pub created_at : ℕ

pub record Approval : Type 0 where
  pub id : Text
  pub document_id : Text
  pub extraction_id : Text
  pub payload_hash : Text
  pub actor : Text
  pub expires_at : ℕ
  pub created_at : ℕ

pub record CrmWrite : Type 0 where
  pub id : Text
  pub document_id : Text
  pub extraction_id : Text
  pub idempotency_key : Text
  pub status : WriteStatus
  pub external_id : Option Text
  pub attempts : ℕ
  pub last_error : Option Error
  pub created_at : ℕ

pub data JobType : Type 0 where
  extract write : JobType

pub data JobStatus : Type 0 where
  pending running succeeded failed : JobStatus

pub data FailureKind : Type 0 where
  transient_exhausted permanent : FailureKind

pub record Job : Type 0 where
  pub id : Text
  pub type : JobType
  pub document_id : Text
  pub status : JobStatus
  pub attempts : ℕ
  pub max_attempts : ℕ
  pub run_at : ℕ
  pub lease_expires_at : Option ℕ
  pub locked_by : Option Text
  pub failure_kind : Option FailureKind
  pub last_error : Option Error
  pub created_at : ℕ
  pub updated_at : ℕ

pub record CrmRecordRow : Type 0 where
  pub id : Text
  pub idempotency_key : Text
  pub business_key : Text
  pub external_id : Text
  pub payload : Option InvoiceDraft
  pub created_at : ℕ

pub record ValidationResult : Type 0 where
  pub id : Text
  pub extraction_id : Text
  pub result : RuleResult
  pub created_at : ℕ

-- The JSON payloads of the events, a constructor for each call that appends one.
pub data Payload : Type 0 where
  requested : Payload
  extracted_payload : Option Text → List Text → Payload
  fields : List Text → Payload
  extraction_error : Text → Text → Payload
  validation_payload : Bool → List RuleResult → Payload
  approval_payload : Text → Text → ℕ → Payload
  attempt_payload : Text → ℕ → Bool → Payload
  write_error : Text → Error → Payload
  write_payload : Text → Text → Bool → Payload

pub record Event : Type 0 where
  pub id : Text
  pub document_id : Text
  pub extraction_id : Option Text
  pub type : EventType
  pub actor : Text
  pub payload : Payload
  pub created_at : ℕ

-- What lies outside the program: random identifiers, the time and today's date by the number of draws
-- so far, the digest over UTF-8, the canonical JSON dump of a draft, and the character database.
pub record Env : Type 0 where
  pub uuid : ℕ → Text
  pub clock : ℕ → ℕ
  pub today : ℕ → Date
  pub sha256 : Text → Text
  pub canonical_json : InvoiceDraft → Text
  pub unicode : Unicode

-- The database in one session. `draws` counts the identifiers and times taken from `Env`.
pub record Db : Type 0 where
  pub draws : ℕ
  pub documents : List Document
  pub extractions : List Extraction
  pub approvals : List Approval
  pub crm_writes : List CrmWrite
  pub jobs : List Job
  pub crm_records : List CrmRecordRow
  pub validation_results : List ValidationResult
  pub events : List Event

abbrev pub empty_db : Db
empty_db = record {
  draws = 0;
  documents = [];
  extractions = [];
  approvals = [];
  crm_writes = [];
  jobs = [];
  crm_records = [];
  validation_results = [];
  events = [];
}
