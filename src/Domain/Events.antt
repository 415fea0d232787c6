-- ===== src/Domain/Events.antt =====
-- app/domain/events.py: the event types and the statuses.
use evidence_flow.Prelude.{ℕ, ◌≡◌, ◌↔◌, Bool, true, false, arith, Eq, nat_beq}

pub data EventType : Type 0 where
  extraction_requested extraction_succeeded extraction_failed : EventType
  evidence_verified evidence_rejected validation_completed : EventType
  correction_applied approval_granted : EventType
  write_attempted write_succeeded write_failed : EventType

pub data DocumentStatus : Type 0 where
  received extracted validated approved written extraction_failed needs_review : DocumentStatus

pub data WriteStatus : Type 0 where
  pending succeeded failed : WriteStatus

pub data ExtractionStatus : Type 0 where
  succeeded failed : ExtractionStatus

-- The position of a status among the members of its enumeration.
abbrev document_status_rank : DocumentStatus → ℕ
document_status_rank received = 0
document_status_rank extracted = 1
document_status_rank validated = 2
document_status_rank approved = 3
document_status_rank written = 4
document_status_rank DocumentStatus.extraction_failed = 5
document_status_rank needs_review = 6

abbrev document_status_beq : DocumentStatus → DocumentStatus → Bool
document_status_beq a b = nat_beq (document_status_rank a) (document_status_rank b)

pub document_status_beq_iff : (a b : DocumentStatus) → (document_status_beq a b ≡ true) ↔ (a ≡ b)
document_status_beq_iff a b = ground arith

instance abbrev pub document_status_eq : Eq DocumentStatus
document_status_eq = record { equal = document_status_beq; equal_iff = document_status_beq_iff }

abbrev write_status_beq : WriteStatus → WriteStatus → Bool
write_status_beq WriteStatus.pending WriteStatus.pending = true
write_status_beq WriteStatus.succeeded WriteStatus.succeeded = true
write_status_beq WriteStatus.failed WriteStatus.failed = true
write_status_beq _ _ = false

pub write_status_beq_iff : (a b : WriteStatus) → (write_status_beq a b ≡ true) ↔ (a ≡ b)
write_status_beq_iff a b = ground arith

instance abbrev pub write_status_eq : Eq WriteStatus
write_status_eq = record { equal = write_status_beq; equal_iff = write_status_beq_iff }
