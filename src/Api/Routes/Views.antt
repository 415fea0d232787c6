-- ===== src/Api/Routes/Views.antt =====
-- app/api/routes.py: the views of rows.
use evidence_flow.Prelude.{ℕ, Bool, Option, none, some, List, [], ◌∷◌, map, Text, all}
use evidence_flow.Domain.Evidence.Results.{EvidenceRow}
use evidence_flow.Domain.Validation.{is_pass}
use evidence_flow.Repositories.Models.{
  Document, Extraction, Metadata, Approval, Job, Event, ValidationResult, Db,
}
use evidence_flow.Repositories.Documents.{list_validation_results}
use evidence_flow.Services.CrmWrite.{WriteOutcome}
use evidence_flow.Services.Validation.{rows_or_empty}
use evidence_flow.Api.Schemas.{
  DocumentSummary, EvidenceView, ValidationView, ExtractionView, EventView, ApprovalView, WriteView,
  JobView,
}

-- `_summary`
unfoldable pub summary : Document → DocumentSummary
summary document = record {
  id = document.id;
  filename = document.filename;
  status = document.status;
}

unfoldable pub evidence_view : EvidenceRow → EvidenceView
evidence_view row = record {
  field = row.field;
  quote = row.quote;
  verified = row.verified;
  start = row.start;
  end = row.end;
  line = row.line;
}

-- `_validation_view`
unfoldable pub validation_view : ValidationResult → ValidationView
validation_view row = record {
  rule = row.result.rule;
  outcome = row.result.outcome;
  message = row.result.message;
}

-- `all(row.outcome == "pass" for row in validation) if validation else None`
unfoldable pub accepted_of : List ValidationResult → Option Bool
accepted_of [] = none
accepted_of (row ∷ rows) = some (all (λ r. is_pass r.result.outcome) (row ∷ rows))

abbrev model_of : Option Metadata → Option Text
model_of none = none
model_of (some m) = some m.model

abbrev latency_of : Option Metadata → Option ℕ
latency_of none = none
latency_of (some m) = some m.latency_ms

-- `_extraction_view`
unfoldable pub extraction_view : Db → Extraction → ExtractionView
unfolding accepted_of validation_view evidence_view
extraction_view db x =
    let validation = list_validation_results x.id db in
    record {
      id = x.id;
      status = x.status;
      schema_version = x.schema_version;
      payload_hash = x.payload_hash;
      draft = x.draft;
      evidence = map evidence_view (rows_or_empty x.evidence);
      validation = map validation_view validation;
      accepted = accepted_of validation;
      error_code = x.error_code;
      error_detail = x.error_detail;
      model = model_of x.metadata;
      latency_ms = latency_of x.metadata;
    }

-- `_job_view`
unfoldable pub job_view : Job → JobView
job_view job = record {
  id = job.id;
  type = job.type;
  document_id = job.document_id;
  status = job.status;
  attempts = job.attempts;
  max_attempts = job.max_attempts;
  run_at = job.run_at;
  failure_kind = job.failure_kind;
  last_error = job.last_error;
}

-- `_approval_view`
unfoldable pub approval_view : Approval → ApprovalView
approval_view approval = record {
  id = approval.id;
  extraction_id = approval.extraction_id;
  payload_hash = approval.payload_hash;
  actor = approval.actor;
  expires_at = approval.expires_at;
}

-- The end of the route `write`.
unfoldable pub write_view : WriteOutcome → WriteView
write_view outcome = record {
  idempotency_key = outcome.write.idempotency_key;
  status = outcome.write.status;
  external_id = outcome.write.external_id;
  attempts = outcome.write.attempts;
  called_destination = outcome.called_destination;
}

-- `_event_view`
unfoldable pub event_view : Event → EventView
event_view event = record {
  type = event.type;
  actor = event.actor;
  payload = event.payload;
  created_at = event.created_at;
}
