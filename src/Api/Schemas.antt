-- ===== src/Api/Schemas.antt =====
-- app/api/schemas.py: the bodies of requests and responses. Times stay numbers, and the columns of
-- enumerations stay their values.
use evidence_flow.Prelude.{ℕ, Bool, Option, List, Text, length, leb, ◌&&◌}
use evidence_flow.Domain.Events.{EventType, DocumentStatus, WriteStatus, ExtractionStatus}
use evidence_flow.Domain.Failures.{Error}
use evidence_flow.Domain.Schema.{InvoiceDraft}
use evidence_flow.Domain.Validation.{Rule, RuleOutcome, Message}
use evidence_flow.Repositories.Models.{JobType, JobStatus, FailureKind, Payload}

pub record DocumentCreate : Type 0 where
  pub filename : Text
  pub text : Text

-- The bounds on the lengths of the fields.
unfoldable pub is_document_create : DocumentCreate → Bool
is_document_create body =
    leb 1 (length body.filename) && leb (length body.filename) 255 && leb 1 (length body.text)

pub record DocumentSummary : Type 0 where
  pub id : Text
  pub filename : Text
  pub status : DocumentStatus

pub record EvidenceView : Type 0 where
  pub field : Text
  pub quote : Text
  pub verified : Bool
  pub start : Option ℕ
  pub end : Option ℕ
  pub line : Option ℕ

pub record ValidationView : Type 0 where
  pub rule : Rule
  pub outcome : RuleOutcome
  pub message : Message

pub record ExtractionView : Type 0 where
  pub id : Text
  pub status : ExtractionStatus
  pub schema_version : Text
  pub payload_hash : Option Text
  pub draft : Option InvoiceDraft
  pub evidence : List EvidenceView
  pub validation : List ValidationView
  pub accepted : Option Bool
  pub error_code : Option Text
  pub error_detail : Option Text
  pub model : Option Text
  pub latency_ms : Option ℕ

pub record EventView : Type 0 where
  pub type : EventType
  pub actor : Text
  pub payload : Payload
  pub created_at : ℕ

pub record ApprovalView : Type 0 where
  pub id : Text
  pub extraction_id : Text
  pub payload_hash : Text
  pub actor : Text
  pub expires_at : ℕ

pub record WriteView : Type 0 where
  pub idempotency_key : Text
  pub status : WriteStatus
  pub external_id : Option Text
  pub attempts : ℕ
  pub called_destination : Bool

pub record JobCreate : Type 0 where
  pub type : Text

pub record JobView : Type 0 where
  pub id : Text
  pub type : JobType
  pub document_id : Text
  pub status : JobStatus
  pub attempts : ℕ
  pub max_attempts : ℕ
  pub run_at : ℕ
  pub failure_kind : Option FailureKind
  pub last_error : Option Error

pub record DocumentDetail : Type 0 where
  pub summary : DocumentSummary
  pub source_text : Text
  pub extraction : Option ExtractionView
  pub approval : Option ApprovalView
  pub events : List EventView
