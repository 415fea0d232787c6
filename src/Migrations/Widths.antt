-- ===== src/Migrations/Widths.antt =====
-- What the program stores in columns with a length, as text, and that it fits there. SQLite does not look
-- at the length of a column, PostgreSQL refuses what is longer.
use evidence_flow.Prelude.{
  ◌≡◌, refl, ℕ, Bool, true, false, Option, none, some, List, [], ◌∷◌, ◌++◌, Text, codes, arith,
  ◌==◌, nat_eq, list_eq, list_beq, leb, find, length, take, map, length-take,
}
use evidence_flow.Domain.Events.{EventType, DocumentStatus, WriteStatus, ExtractionStatus}
use evidence_flow.Domain.Failures.{Error, error_code}
use evidence_flow.Domain.Validation.{RuleOutcome}
use evidence_flow.Repositories.Models.{JobType, JobStatus, FailureKind}
use evidence_flow.Providers.Crm.{external_id_for}
use evidence_flow.Api.Schemas.{DocumentCreate, is_document_create}
use evidence_flow.Migrations.{ColumnType, Column, Table, string, migrate}
use evidence_flow.Migrations.Revisions.{migrated}

-- The values of the enumerations, as `StrEnum` stores them.
abbrev pub event_type_value : EventType → Text
event_type_value EventType.extraction_requested = codes "extraction_requested"
event_type_value EventType.extraction_succeeded = codes "extraction_succeeded"
event_type_value EventType.extraction_failed = codes "extraction_failed"
event_type_value EventType.evidence_verified = codes "evidence_verified"
event_type_value EventType.evidence_rejected = codes "evidence_rejected"
event_type_value EventType.validation_completed = codes "validation_completed"
event_type_value EventType.correction_applied = codes "correction_applied"
event_type_value EventType.approval_granted = codes "approval_granted"
event_type_value EventType.write_attempted = codes "write_attempted"
event_type_value EventType.write_succeeded = codes "write_succeeded"
event_type_value EventType.write_failed = codes "write_failed"

-- `DocumentStatus`
abbrev pub document_status_value : DocumentStatus → Text
document_status_value DocumentStatus.received = codes "received"
document_status_value DocumentStatus.extracted = codes "extracted"
document_status_value DocumentStatus.validated = codes "validated"
document_status_value DocumentStatus.approved = codes "approved"
document_status_value DocumentStatus.written = codes "written"
document_status_value DocumentStatus.extraction_failed = codes "extraction_failed"
document_status_value DocumentStatus.needs_review = codes "needs_review"

-- `WriteStatus`
abbrev pub write_status_value : WriteStatus → Text
write_status_value WriteStatus.pending = codes "pending"
write_status_value WriteStatus.succeeded = codes "succeeded"
write_status_value WriteStatus.failed = codes "failed"

-- `ExtractionStatus`
abbrev pub extraction_status_value : ExtractionStatus → Text
extraction_status_value ExtractionStatus.succeeded = codes "succeeded"
extraction_status_value ExtractionStatus.failed = codes "failed"

-- `JobType`
abbrev pub job_type_value : JobType → Text
job_type_value JobType.extract = codes "extract"
job_type_value JobType.write = codes "write"

-- `JobStatus`
abbrev pub job_status_value : JobStatus → Text
job_status_value JobStatus.pending = codes "pending"
job_status_value JobStatus.running = codes "running"
job_status_value JobStatus.succeeded = codes "succeeded"
job_status_value JobStatus.failed = codes "failed"

-- `FailureKind`
abbrev pub failure_kind_value : FailureKind → Text
failure_kind_value FailureKind.transient_exhausted = codes "transient_exhausted"
failure_kind_value FailureKind.permanent = codes "permanent"

-- `RuleOutcome`
abbrev pub rule_outcome_value : RuleOutcome → Text
rule_outcome_value RuleOutcome.pass = codes "pass"
rule_outcome_value RuleOutcome.fail = codes "fail"
rule_outcome_value RuleOutcome.needs_review = codes "needs_review"

-- What is stored, by the column that it is stored in.
pub data StoredText : Type 0 where
  event_type : EventType → StoredText
  document_status : DocumentStatus → StoredText
  document_filename : DocumentCreate → StoredText
  write_status : WriteStatus → StoredText
  write_external_id : Text → StoredText
  record_external_id : Text → StoredText
  extraction_status : ExtractionStatus → StoredText
  extraction_error : Error → StoredText
  job_type : JobType → StoredText
  job_status : JobStatus → StoredText
  job_failure : FailureKind → StoredText
  rule_outcome : RuleOutcome → StoredText

abbrev pub place_of : StoredText → Text × Text
place_of (event_type e) = (codes "event", codes "type")
place_of (document_status s) = (codes "document", codes "status")
place_of (document_filename body) = (codes "document", codes "filename")
place_of (write_status s) = (codes "crm_write", codes "status")
place_of (write_external_id key) = (codes "crm_write", codes "external_id")
place_of (record_external_id key) = (codes "crm_record", codes "external_id")
place_of (extraction_status s) = (codes "extraction", codes "status")
place_of (extraction_error e) = (codes "extraction", codes "error_code")
place_of (job_type t) = (codes "job", codes "type")
place_of (job_status s) = (codes "job", codes "status")
place_of (job_failure k) = (codes "job", codes "failure_kind")
place_of (rule_outcome r) = (codes "validation_result", codes "outcome")

abbrev code_or_null : Option Text → Text
code_or_null none = []
code_or_null (some code) = code

-- The text; NULL counts as the empty one.
abbrev pub text_of : StoredText → Text
text_of (event_type e) = event_type_value e
text_of (document_status s) = document_status_value s
text_of (document_filename body) = body.filename
text_of (write_status s) = write_status_value s
text_of (write_external_id key) = external_id_for key
text_of (record_external_id key) = external_id_for key
text_of (extraction_status s) = extraction_status_value s
text_of (extraction_error e) = code_or_null (error_code e)
text_of (job_type t) = job_type_value t
text_of (job_status s) = job_status_value s
text_of (job_failure k) = failure_kind_value k
text_of (rule_outcome r) = rule_outcome_value r

-- What the API lets through: it checks the body of a new document.
abbrev pub is_let_in : StoredText → Bool
is_let_in (document_filename body) = is_document_create body
is_let_in _ = true

abbrev length_of : ColumnType → Option ℕ
length_of (string n) = some n
length_of _ = none

abbrev column_length : Option Column → Option ℕ
column_length none = none
column_length (some c) = length_of c.type

abbrev table_length : Text → Option Table → Option ℕ
table_length column none = none
table_length column (some t) = column_length (find (λ (c : Column). c.name == column) t.columns)

-- The length of a column of the migrated schema.
abbrev pub limit_of : Text × Text → Option ℕ
limit_of (table, column) = table_length column (find (λ (t : Table). t.name == table) migrated)

abbrev pub fits_in : Option ℕ → Text → Bool
fits_in none t = false
fits_in (some n) t = leb (length t) n

length-map : {A B : Type 0} (f : A → B) (xs : List A) → length (map f xs) ≡ length xs
length-map f [] = refl
length-map f (x ∷ xs) = omega (arith, length-map f xs)

within :
    {limit : Option ℕ} (n : ℕ) (t : Text)
    → limit ≡ some n
    → leb (length t) n ≡ true
    → fits_in limit t ≡ true
within n t e h = rw e h

event_type_value-length : (x : EventType) → leb (length (event_type_value x)) 48 ≡ true
event_type_value-length x = ground arith

document_status_value-length :
    (x : DocumentStatus) → leb (length (document_status_value x)) 32 ≡ true
document_status_value-length x = ground arith

write_status_value-length : (x : WriteStatus) → leb (length (write_status_value x)) 16 ≡ true
write_status_value-length x = ground arith

extraction_status_value-length :
    (x : ExtractionStatus) → leb (length (extraction_status_value x)) 32 ≡ true
extraction_status_value-length x = ground arith

job_type_value-length : (x : JobType) → leb (length (job_type_value x)) 16 ≡ true
job_type_value-length x = ground arith

job_status_value-length : (x : JobStatus) → leb (length (job_status_value x)) 16 ≡ true
job_status_value-length x = ground arith

failure_kind_value-length : (x : FailureKind) → leb (length (failure_kind_value x)) 32 ≡ true
failure_kind_value-length x = ground arith

rule_outcome_value-length : (x : RuleOutcome) → leb (length (rule_outcome_value x)) 16 ≡ true
rule_outcome_value-length x = ground arith

error_code-length : (e : Error) → leb (length (code_or_null (error_code e))) 64 ≡ true
unfolding error_code
error_code-length e = ground arith

external_id-length :
    (f : ℕ → ℕ) (key : Text) → leb (length (codes "CRM-" ++ map f (take 10 key))) 64 ≡ true
external_id-length f key = ground (arith, length-map f (take 10 key), length-take 10 key)

external_id_for-length : (key : Text) → leb (length (external_id_for key)) 64 ≡ true
unfolding external_id_for
external_id_for-length key = external_id-length _ key

filename-length :
    (body : DocumentCreate) → is_document_create body ≡ true → leb (length body.filename) 255 ≡ true
unfolding is_document_create
filename-length body h = ground arith

-- Every value of an enumeration, every code of an error, every identifier that the destination in the
-- database gives and every name of a file that the API lets through fits in the column that the
-- migrations make for it.
pub stored-Fits :
    (v : StoredText) → is_let_in v ≡ true → fits_in (limit_of (place_of v)) (text_of v) ≡ true
unfolding migrate list_beq
stored-Fits (event_type e) h = within 48 (event_type_value e) refl (event_type_value-length e)
stored-Fits (document_status s) h =
    within 32 (document_status_value s) refl (document_status_value-length s)
stored-Fits (document_filename body) h = within 255 body.filename refl (filename-length body h)
stored-Fits (write_status s) h = within 16 (write_status_value s) refl (write_status_value-length s)
stored-Fits (write_external_id key) h =
    within 64 (external_id_for key) refl (external_id_for-length key)
stored-Fits (record_external_id key) h =
    within 64 (external_id_for key) refl (external_id_for-length key)
stored-Fits (extraction_status s) h =
    within 32 (extraction_status_value s) refl (extraction_status_value-length s)
stored-Fits (extraction_error e) h =
    within 64 (code_or_null (error_code e)) refl (error_code-length e)
stored-Fits (job_type t) h = within 16 (job_type_value t) refl (job_type_value-length t)
stored-Fits (job_status s) h = within 16 (job_status_value s) refl (job_status_value-length s)
stored-Fits (job_failure k) h = within 32 (failure_kind_value k) refl (failure_kind_value-length k)
stored-Fits (rule_outcome r) h = within 16 (rule_outcome_value r) refl (rule_outcome_value-length r)
