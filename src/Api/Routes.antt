-- ===== src/Api/Routes.antt =====
-- app/api/routes.py: the handlers that read or change the database. A handler runs in the session that
-- `get_session` of app/api/dependencies.py opens for its request. The three routes with fixed answers are
-- left out.
pub mod Views
pub mod Outcomes
pub mod Accepted
use evidence_flow.Prelude.{
  Bool, true, false, Option, none, some, List, [], ◌∷◌, map, Text, codes, ◌==◌, nat_eq, list_eq,
  if◌then◌else◌, Result, ok, err, Exec,
}
use evidence_flow.Domain.Events.{ExtractionStatus}
use evidence_flow.Domain.Failures.{
  Error, http_error, http_refusal, is_approval_error, is_crm_error, default_approval_ttl,
  default_max_attempts,
}
use evidence_flow.Repositories.Models.{Document, Extraction, Approval, JobType, Job, Env, Db}
use evidence_flow.Repositories.Documents.{
  get_document, latest_extraction, latest_approval, list_events,
  create_document as repo_create_document, list_documents as repo_list_documents,
}
use evidence_flow.Repositories.Session.{Session, in_session, session_scope}
use evidence_flow.Providers.Crm.{CrmClient}
use evidence_flow.Services.Approval.{approve_extraction}
use evidence_flow.Services.CrmWrite.{WriteOutcome, write_approved_record}
use evidence_flow.Services.Extraction.{Intake, ExtractionOutcome, extract_document}
use evidence_flow.Services.Validation.{validate_extraction}
use evidence_flow.Workflows.Queue.{enqueue, get_job, review_queue as queue_review_queue}
use evidence_flow.Api.Errors.{as_http_error, commit_refusal, document_not_found}
use evidence_flow.Api.Schemas.{
  DocumentCreate, is_document_create, DocumentSummary, ExtractionView, ApprovalView, WriteView,
  JobCreate, JobView, DocumentDetail,
}
use evidence_flow.Api.Routes.Views.{
  summary, extraction_view, approval_view, write_view, job_view, event_view,
}

-- `_require` on the row that the lookup gives, and the handler that goes on with it.
abbrev pub required :
    {A : Type 0} → (Document → Exec Session Error A) → Option Document → Exec Session Error A
required handler none s = (err document_not_found, s)
required handler (some document) s = handler document s

abbrev pub with_document :
    {A : Type 0} → Text → (Document → Exec Session Error A) → Exec Session Error A
with_document document_id handler s = required handler (get_document document_id s.db) s

unfoldable pub list_documents : Exec Session Error (List DocumentSummary)
list_documents s = (ok (map summary (repo_list_documents s.db)), s)

-- FastAPI validates the body, and answers 422 without calling the handler.
unfoldable pub create_document : Env → DocumentCreate → Exec Session Error DocumentSummary
unfolding is_document_create
create_document env body s =
    if is_document_create body
    then (let (document, db) = repo_create_document env body.filename body.text none s.db in
        (ok (summary document), record s { db = db }))
    else (err (http_error 422 (codes "invalid body")), s)

-- `outcome.succeeded`
abbrev pub is_succeeded : ExtractionStatus → Bool
is_succeeded ExtractionStatus.succeeded = true
is_succeeded ExtractionStatus.failed = false

abbrev pub view_after :
    Extraction → {A : Type 0} → Result Error A × Session → Result Error ExtractionView × Session
view_after x (ok a, s) = (ok (extraction_view s.db x), s)
view_after x (err e, s) = (err e, s)

-- What follows the extraction.
abbrev pub after_extract :
    Env
    → Document
    → Result Error ExtractionOutcome × Session
    → Result Error ExtractionView × Session
after_extract env document (err e, s) = (err e, s)
after_extract env document (ok outcome, s) =
    if is_succeeded outcome.extraction.status
    then view_after outcome.extraction
        (in_session (validate_extraction env document outcome.extraction) s)
    else (ok (extraction_view s.db outcome.extraction), s)

unfoldable pub extract : Env → Intake → Text → Exec Session Error ExtractionView
extract env intake document_id = with_document document_id (λ document s.
    after_extract env document (in_session (extract_document env intake false document) s))

-- `except ApprovalError`, and the view of an approval.
abbrev pub after_approve : Result Error Approval × Session → Result Error ApprovalView × Session
after_approve (ok approval, s) = (ok (approval_view approval), s)
after_approve (err e, s) =
    if is_approval_error e then (err (as_http_error e), commit_refusal s) else (err e, s)

abbrev pub approve_latest :
    Env → Text → Document → Option Extraction → Exec Session Error ApprovalView
approve_latest env actor document none s = (err (http_error 409 (codes "nothing to approve")), s)
approve_latest env actor document (some x) s =
    after_approve (in_session (approve_extraction env document x actor default_approval_ttl) s)

unfoldable pub approve : Env → Text → Text → Exec Session Error ApprovalView
approve env actor document_id =
    with_document document_id
      (λ document s. approve_latest env actor document (latest_extraction document_id s.db) s)

-- `except ApprovalError`, `except CrmError`, and the view of a write.
abbrev pub after_write : Result Error WriteOutcome × Session → Result Error WriteView × Session
after_write (ok outcome, s) = (ok (write_view outcome), s)
after_write (err e, s) =
    if is_approval_error e
    then (err (as_http_error e), commit_refusal s)
    else if is_crm_error e
    then (err (http_refusal 502 e), s)
    else (err e, s)

unfoldable pub write : Env → CrmClient → Option Db → Text → Exec Session Error WriteView
write env crm conflict document_id =
    with_document document_id
      (λ document s. after_write (in_session (write_approved_record env crm conflict document) s))

-- `JobType(body.type)`
unfoldable pub job_type_of : Text → Option JobType
job_type_of type =
    if type == codes "extract"
    then some JobType.extract
    else if type == codes "write"
    then some JobType.write
    else none

abbrev pub enqueue_typed : Env → Text → Option JobType → Exec Session Error JobView
enqueue_typed env document_id none s = (err (http_error 422 (codes "unknown job type")), s)
enqueue_typed env document_id (some type) s =
    let (job, db) = enqueue env type document_id none default_max_attempts s.db in
    (ok (job_view job), record s { db = db })

unfoldable pub enqueue_job : Env → Text → JobCreate → Exec Session Error JobView
unfolding job_type_of
enqueue_job env document_id body =
    with_document document_id
      (λ document s. enqueue_typed env document_id (job_type_of body.type) s)

unfoldable pub review_queue : Exec Session Error (List JobView)
review_queue s = (ok (map job_view (queue_review_queue s.db)), s)

abbrev found_job : Option Job → Exec Session Error JobView
found_job none s = (err (http_error 404 (codes "job not found")), s)
found_job (some job) s = (ok (job_view job), s)

unfoldable pub read_job : Text → Exec Session Error JobView
read_job job_id s = found_job (get_job job_id s.db) s

abbrev optional : {A B : Type 0} → (A → B) → Option A → Option B
optional f none = none
optional f (some a) = some (f a)

unfoldable pub read_document : Text → Exec Session Error DocumentDetail
read_document document_id = with_document document_id (λ document s. (
  ok (record {
    summary = summary document;
    source_text = document.source_text;
    extraction = optional (extraction_view s.db) (latest_extraction document_id s.db);
    approval = optional approval_view (latest_approval document_id s.db);
    events = map event_view (list_events document_id s.db);
  }),
  s,
))
