-- ===== src/Services/Extraction.antt =====
-- app/services/extraction.py. The provider and pydantic's validation of its payload are parameters.
pub mod Revocation
use evidence_flow.Prelude.{
  suc, Bool, true, false, not, Option, none, some, List, [], ◌∷◌, ◌++◌, map, filter, Text, codes,
  if◌then◌else◌, Result, ok, err, Exec,
}
use evidence_flow.Domain.Events.{
  DocumentStatus, ExtractionStatus, EventType, extracted, extraction_requested,
  extraction_succeeded, evidence_verified, evidence_rejected,
}
use evidence_flow.Domain.Evidence.Results.{EvidenceResult, verified, to_row, verify_draft}
use evidence_flow.Domain.Failures.{Error, malformed_output, error_code, is_provider_error}
use evidence_flow.Domain.Schema.{InvoiceDraft}
use evidence_flow.Repositories.Models.{
  Document, Extraction, Metadata, Env, Db, requested, extracted_payload, fields, extraction_error,
}
use evidence_flow.Repositories.Documents.{set_document, append_event}
use evidence_flow.Services.Validation.{system_actor}

pub record ProviderResult : Type 0 where
  pub raw : Text
  pub metadata : Metadata

-- What `InvoiceDraft.model_validate` does: it gives a draft, raises a ValidationError, here the
-- summary of its errors, or lets another exception pass that a validator raised.
pub data Validated : Type 0 where
  valid : InvoiceDraft → Validated
  invalid : Text → Validated
  raised : Error → Validated

-- An `ExtractionProvider` on the text of a document, and `InvoiceDraft.model_validate` on a payload.
pub record Intake : Type 0 where
  pub provide : Text → Result Error ProviderResult
  pub model_validate : Text → Validated

pub record ExtractionOutcome : Type 0 where
  pub extraction : Extraction
  pub error : Option Error

abbrev schema_version : Text
schema_version = codes "1.0.0"

-- `draft.payload_hash()`
unfoldable pub payload_hash : Env → InvoiceDraft → Text
payload_hash env draft = env.sha256 (env.canonical_json draft)

abbrev text_or_empty : Option Text → Text
text_or_empty none = []
text_or_empty (some t) = t

abbrev pub detail_of : Error → Text
detail_of (Error.provider_error t) = t
detail_of (Error.provider_timeout t) = t
detail_of (Error.provider_refusal t) = t
detail_of (malformed_output t) = t
detail_of _ = []

-- `_record`: the row of a failed extraction, and of a successful one.
abbrev pub failed_row : Env → Text → Error → Option Text → Option Metadata → Db → Extraction
failed_row env document_id error raw metadata db = record {
  id = env.uuid db.draws;
  document_id = document_id;
  status = ExtractionStatus.failed;
  schema_version = schema_version;
  raw_payload = raw;
  draft = none;
  evidence = none;
  payload_hash = none;
  error_code = error_code error;
  error_detail = some (detail_of error);
  metadata = metadata;
  created_at = env.clock db.draws;
}

abbrev pub succeeded_row :
    Env → Text → ProviderResult → InvoiceDraft → List EvidenceResult → Db → Extraction
succeeded_row env document_id result draft evidence db = record {
  id = env.uuid db.draws;
  document_id = document_id;
  status = ExtractionStatus.succeeded;
  schema_version = schema_version;
  raw_payload = some result.raw;
  draft = some draft;
  evidence = some (map to_row evidence);
  payload_hash = some (payload_hash env draft);
  error_code = none;
  error_detail = none;
  metadata = some result.metadata;
  created_at = env.clock db.draws;
}

abbrev pub add_extraction : Extraction → Db → Db
add_extraction x db = record db { draws = suc db.draws; extractions = db.extractions ++ x ∷ [] }

-- `_fail`
unfoldable pub fail_extraction :
    Env → Document → Error → Option Text → Option Metadata → Db → ExtractionOutcome × Db
fail_extraction env document error raw metadata db =
    let x = failed_row env document.id error raw metadata db in
    let marked =
      set_document document.id (λ d. record d { status = DocumentStatus.extraction_failed })
        (add_extraction x db) in
    (
      record { extraction = x; error = some error },
      append_event env document.id (some x.id) EventType.extraction_failed system_actor
          (extraction_error (text_or_empty (error_code error)) (detail_of error)) marked,
    )

abbrev names : List EvidenceResult → List Text
names = map (λ (e : EvidenceResult). e.field)

-- One turn of the loop of `_record_evidence_events`.
unfoldable pub event_if_any : Env → Document → Extraction → EventType → List Text → Db → Db
event_if_any env document x type [] db = db
event_if_any env document x type (name ∷ more) db =
    append_event env document.id (some x.id) type system_actor (fields (name ∷ more)) db

unfoldable pub record_evidence_events : Env → Document → Extraction → List EvidenceResult → Db → Db
record_evidence_events env document x evidence db =
    event_if_any env document x evidence_rejected (names (filter (λ e. not (verified e)) evidence))
      (event_if_any env document x evidence_verified (names (filter verified evidence)) db)

unfoldable pub accept_draft :
    Env → Document → Bool → ProviderResult → InvoiceDraft → Db → ExtractionOutcome × Db
unfolding record_evidence_events event_if_any payload_hash
accept_draft env document allow_value_fallback result draft db =
    let evidence = verify_draft draft document.source_text allow_value_fallback in
    let x = succeeded_row env document.id result draft evidence db in
    let recorded = record_evidence_events env document x evidence (add_extraction x db) in
    let marked =
      set_document document.id (λ d. record d { status = extracted; approved_payload_hash = none })
        recorded in
    (
      record { extraction = x; error = none },
      append_event env document.id (some x.id) extraction_succeeded system_actor
          (extracted_payload x.payload_hash (names (filter (λ e. not (verified e)) evidence)))
          marked,
    )

-- After the payload was read.
unfoldable pub validate_payload :
    Env → Document → Bool → ProviderResult → Result Text InvoiceDraft → Db → ExtractionOutcome × Db
unfolding accept_draft fail_extraction
validate_payload env document allow_value_fallback result (err summary) db =
    fail_extraction env document (malformed_output summary) (some result.raw) (some result.metadata)
      db
validate_payload env document allow_value_fallback result (ok draft) db =
    accept_draft env document allow_value_fallback result draft db

-- An exception that is no ValidationError passes.
unfoldable pub read_payload :
    Env → Document → Bool → ProviderResult → Validated → Exec Db Error ExtractionOutcome
unfolding validate_payload
read_payload env document allow_value_fallback result (raised e) db = (err e, db)
read_payload env document allow_value_fallback result (invalid summary) db =
    let (outcome, recorded) =
      validate_payload env document allow_value_fallback result (err summary) db in
    (ok outcome, recorded)
read_payload env document allow_value_fallback result (valid draft) db =
    let (outcome, recorded) =
      validate_payload env document allow_value_fallback result (ok draft) db in
    (ok outcome, recorded)

-- After the provider answered: a ProviderError is an outcome, any other exception passes.
unfoldable pub receive :
    Env → Intake → Document → Bool → Result Error ProviderResult → Exec Db Error ExtractionOutcome
unfolding read_payload
receive env intake document allow_value_fallback (err e) db =
    if is_provider_error e
    then (let (outcome, failed) = fail_extraction env document e none none db in
        (ok outcome, failed))
    else (err e, db)
receive env intake document allow_value_fallback (ok result) db =
    read_payload env document allow_value_fallback result (intake.model_validate result.raw) db

unfoldable pub extract_document : Env → Intake → Bool → Document → Exec Db Error ExtractionOutcome
unfolding receive
extract_document env intake allow_value_fallback document db =
    receive env intake document allow_value_fallback (intake.provide document.source_text)
      (append_event env document.id none extraction_requested system_actor requested db)
