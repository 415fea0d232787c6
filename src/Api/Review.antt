-- ===== src/Api/Review.antt =====
-- app/api/review.py: the pages of the reviewer. A page is the context of its template. The summaries of
-- events, which are JSON text cut at 160 characters, are the events themselves.
pub mod Outcomes
use evidence_flow.Prelude.{
  Bool, true, false, not, Option, none, some, List, [], ◌∷◌, ◌++◌, map, filter, Text, codes, ◌==◌,
  nat_eq, list_eq, option_eq, str_of_int, length, if◌then◌else◌, Result, ok, err, Exec,
}
use evidence_flow.Domain.Approval.{idempotency_key}
use evidence_flow.Domain.Evidence.Results.{EvidenceRow}
use evidence_flow.Domain.Events.{DocumentStatus}
use evidence_flow.Domain.Failures.{
  Error, type_error, is_approval_error, is_crm_error, default_approval_ttl,
}
use evidence_flow.Domain.Schema.{InvoiceDraft, evidenced_fields, str_value}
use evidence_flow.Domain.Validation.{Rule, is_pass}
use evidence_flow.Repositories.Models.{
  Document, Extraction, Approval, CrmWrite, ValidationResult, Event, Env, Db,
}
use evidence_flow.Repositories.Documents.{
  latest_extraction, list_documents, list_events, list_validation_results, find_write,
}
use evidence_flow.Repositories.Session.{Session, in_session}
use evidence_flow.Providers.Crm.{CrmClient}
use evidence_flow.Services.Approval.{approve_extraction}
use evidence_flow.Services.CrmWrite.{WriteOutcome, write_approved_record}
use evidence_flow.Services.Validation.{rows_or_empty}
use evidence_flow.Api.Errors.{commit_refusal}
use evidence_flow.Api.Highlight.{Segment, segments}
use evidence_flow.Api.Routes.{is_succeeded, with_document}

-- The message in the query of a redirect.
pub data Notice : Type 0 where
  stale_page : Notice
  approved_by : Text → Notice
  -- whether the destination was called, and the external identifier
  wrote : Bool → Option Text → Notice
  refusal : Error → Notice

-- `_back`
pub record Redirect : Type 0 where
  pub document_id : Text
  pub message : Notice

abbrev pub back : Text → Notice → Redirect
back document_id message = record { document_id = document_id; message = message }

pub record QueueRow : Type 0 where
  pub id : Text
  pub filename : Text
  pub status : DocumentStatus
  pub blocking : List Rule
  pub external_id : Option Text

pub record DetailPage : Type 0 where
  pub document : Document
  pub extraction : Option Extraction
  pub fields : List (Text × Text)
  pub segments : List Segment
  pub validation : List ValidationResult
  pub events : List Event
  pub external_id : Option Text
  pub message : Text

-- `_blocking`
unfoldable pub blocking_rules : Db → Option Extraction → List Rule
blocking_rules db none = []
blocking_rules db (some x) =
    map (λ (v : ValidationResult). v.result.rule)
      (filter (λ v. not (is_pass v.result.outcome)) (list_validation_results x.id db))

abbrev external_id_of : Option CrmWrite → Option Text
external_id_of none = none
external_id_of (some w) = w.external_id

abbrev external_id_under : Env → Text → Option Text → Db → Option Text
external_id_under env document_id none db = none
external_id_under env document_id (some payload_hash) db =
    external_id_of (find_write (idempotency_key env.sha256 document_id payload_hash) db)

-- `_external_id`
unfoldable pub external_id : Env → Document → Db → Option Text
external_id env document db = external_id_under env document.id document.approved_payload_hash db

-- `_summary_fields`
unfoldable pub summary_fields : Option InvoiceDraft → List (Text × Text)
summary_fields none = []
summary_fields (some draft) =
    map (λ p. (p.0, str_value p.1.value)) (evidenced_fields draft)
    ++ (codes "line items", str_of_int (length draft.line_items)) ∷ []

unfoldable pub queue_row : Env → Db → Document → QueueRow
unfolding blocking_rules external_id
queue_row env db document = record {
  id = document.id;
  filename = document.filename;
  status = document.status;
  blocking = blocking_rules db (latest_extraction document.id db);
  external_id = external_id env document db;
}

unfoldable pub queue : Env → Exec Session Error (List QueueRow)
unfolding queue_row
queue env s = (ok (map (queue_row env s.db) (list_documents s.db)), s)

-- `extraction.draft if extraction and extraction.succeeded else None`
abbrev draft_shown : Option Extraction → Option InvoiceDraft
draft_shown none = none
draft_shown (some x) = if is_succeeded x.status then x.draft else none

abbrev evidence_shown : Option Extraction → List EvidenceRow
evidence_shown none = []
evidence_shown (some x) = rows_or_empty x.evidence

abbrev validation_shown : Db → Option Extraction → List ValidationResult
validation_shown db none = []
validation_shown db (some x) = list_validation_results x.id db

-- The page, given what `segments` returns; `none` is its TypeError.
abbrev pub detail_page :
    Env
    → Text
    → Document
    → Option Extraction
    → Option (List Segment)
    → Exec Session Error DetailPage
detail_page env message document x none s = (err type_error, s)
detail_page env message document x (some shown) s = (
  ok (record {
    document = document;
    extraction = x;
    fields = summary_fields (draft_shown x);
    segments = shown;
    validation = validation_shown s.db x;
    events = list_events document.id s.db;
    external_id = external_id env document s.db;
    message = message;
  }),
  s,
)

abbrev detail_on : Env → Text → Document → Option Extraction → Exec Session Error DetailPage
detail_on env message document x s =
    detail_page env message document x (segments document.source_text (evidence_shown x)) s

unfoldable pub detail : Env → Text → Text → Exec Session Error DetailPage
unfolding summary_fields external_id
detail env message document_id =
    with_document document_id
      (λ document s. detail_on env message document (latest_extraction document_id s.db) s)

-- `except ApprovalError`, and the redirect of an approval.
abbrev pub after_approve :
    Text → Text → Result Error Approval × Session → Result Error Redirect × Session
after_approve document_id actor (ok approval, s) = (ok (back document_id (approved_by actor)), s)
after_approve document_id actor (err e, s) =
    if is_approval_error e
    then (ok (back document_id (refusal e)), commit_refusal s)
    else (err e, s)

-- The page that the reviewer read must still be the latest.
abbrev pub approve_shown :
    Env → Text → Text → Document → Option Extraction → Exec Session Error Redirect
approve_shown env actor payload_hash document none s = (ok (back document.id stale_page), s)
approve_shown env actor payload_hash document (some x) s =
    if x.payload_hash == some payload_hash
    then after_approve document.id actor
        (in_session (approve_extraction env document x actor default_approval_ttl) s)
    else (ok (back document.id stale_page), s)

unfoldable pub approve : Env → Text → Text → Text → Exec Session Error Redirect
approve env actor document_id payload_hash = with_document document_id (λ document s.
    approve_shown env actor payload_hash document (latest_extraction document_id s.db) s)

-- `except ApprovalError`, `except CrmError`, and the redirect of a write.
abbrev pub after_write :
    Text → Result Error WriteOutcome × Session → Result Error Redirect × Session
after_write document_id (ok outcome, s) =
    (ok (back document_id (wrote outcome.called_destination outcome.write.external_id)), s)
after_write document_id (err e, s) =
    if is_approval_error e
    then (ok (back document_id (refusal e)), commit_refusal s)
    else if is_crm_error e
    then (ok (back document_id (refusal e)), s)
    else (err e, s)

unfoldable pub write : Env → CrmClient → Option Db → Text → Exec Session Error Redirect
write env crm conflict document_id = with_document document_id (λ document s.
    after_write document_id (in_session (write_approved_record env crm conflict document) s))
