-- ===== src/Evals/Replay.antt =====
-- evals/run.py: `run` and `_one`. The destination is a client with the two counts that `run` reads in
-- the end; the mock of the source keeps them outside the database. The entry holds the document's text.
use evidence_flow.Prelude.{
  ℕ, ◌+◌, Bool, Option, none, some, List, [], ◌∷◌, filter, Text, ◌==◌, nat_eq, list_eq, length,
  if◌then◌else◌, Result, ok, err, Exec, ◌>>=◌, ◌>>◌, pure,
}
use evidence_flow.Domain.Approval.{idempotency_key}
use evidence_flow.Domain.Events.{DocumentStatus, document_status_eq}
use evidence_flow.Domain.Failures.{
  Error, missing_row, type_error, default_approval_ttl, default_max_attempts, default_lease,
}
use evidence_flow.Domain.Schema.{InvoiceDraft}
use evidence_flow.Repositories.Models.{
  Document, Extraction, Metadata, Approval, CrmWrite, ValidationResult, Job, JobType, Env, Db,
  empty_db,
}
use evidence_flow.Repositories.Documents.{
  create_document, get_document, latest_extraction, list_validation_results, find_write,
}
use evidence_flow.Repositories.Session.{in_session, session_scope}
use evidence_flow.Providers.Crm.{CrmClient}
use evidence_flow.Services.Approval.{approve_extraction}
use evidence_flow.Services.Extraction.{Intake}
use evidence_flow.Workflows.Queue.{enqueue}
use evidence_flow.Workflows.Worker.{Worker, drain}
use evidence_flow.Api.Routes.{is_succeeded}
use evidence_flow.Labels.{label_blocking_rules, label_extraction_failure}
use evidence_flow.Evals.Rows.{Routing, Entry, Trajectory, new_row, blocking_of, routing, score}

pub record Destination : Type 0 where
  pub client : CrmClient
  pub records : Db → ℕ
  pub calls : Db → ℕ

pub record Run : Type 0 where
  pub name : Text
  pub rows : List Trajectory
  pub destination_records : ℕ
  pub destination_calls : ℕ

-- `with session_scope(factory) as session`
abbrev scoped : {A : Type 0} → Exec Db Error A → Exec Db Error A
scoped body = session_scope (in_session body)

-- The first session: the document and its job.
unfoldable pub start_entry : Env → Entry → Exec Db Error Text
start_entry env entry db =
    let (document, created) = create_document env entry.document entry.source_text none db in
    (ok document.id, (enqueue env JobType.extract document.id none default_max_attempts created).1)

-- `drain()` with its default limit.
abbrev drain_limit : ℕ
drain_limit = 100

abbrev attempts_of : List Job → ℕ
attempts_of [] = 0
attempts_of (j ∷ js) = j.attempts + attempts_of js

-- `_job_totals`
unfoldable pub job_totals : Text → Db → ℕ × ℕ
job_totals document_id db =
    let jobs = filter (λ j. j.document_id == document_id) db.jobs in (attempts_of jobs, length jobs)

abbrev with_totals : Text → Db → Trajectory → Trajectory
with_totals document_id db row = record row {
  attempts = (job_totals document_id db).0;
  jobs = (job_totals document_id db).1;
}

abbrev or_zero : Option ℕ → ℕ
or_zero none = 0
or_zero (some n) = n

abbrev or_empty : Option Text → Text
or_empty none = []
or_empty (some t) = t

-- `extraction.latency_ms or 0`, and the two counts of tokens.
abbrev with_metadata : Option Metadata → Trajectory → Trajectory
with_metadata none row = row
with_metadata (some m) row = record row {
  latency_ms = m.latency_ms;
  input_tokens = or_zero m.input_tokens;
  output_tokens = or_zero m.output_tokens;
}

-- What the second session ends with: a finished row, or one that goes on to the write.
pub data Seen : Type 0 where
  finished going_on : Trajectory → Seen

abbrev failed_row : Env → Text → Extraction → Db → Trajectory → Trajectory
failed_row env document_id x db row = with_totals document_id db (record row {
  outcome = Routing.extraction_failed;
  error = some (x.error_code, x.error_detail);
  label = some (label_extraction_failure env.unicode (or_empty x.error_detail));
})

abbrev scored_row : List ValidationResult → InvoiceDraft → Entry → Trajectory → Trajectory
scored_row results draft entry row =
    score
      (record row {
        blocking_rules = blocking_of results;
        outcome = routing results;
        label = label_blocking_rules (blocking_of results);
      })
      draft entry.ground_truth

-- The approval of a validated document, and the job for its write.
abbrev queue_write : Env → Text → Trajectory → Result Error Approval × Db → Result Error Seen × Db
queue_write env document_id row (err e, db) = (err e, db)
queue_write env document_id row (ok approval, db) =
    (ok (going_on row), (enqueue env JobType.write document_id none default_max_attempts db).1)

-- The test of the document's status, on a row that is scored.
abbrev observe_scored :
    Env → Text → Text → Option Document → Extraction → Trajectory → Exec Db Error Seen
observe_scored env actor document_id none x row db = (err missing_row, db)
observe_scored env actor document_id (some document) x row db =
    if document.status == DocumentStatus.validated
    then queue_write env document_id row
        (approve_extraction env document x actor default_approval_ttl db)
    else (ok (going_on row), db)

-- `_score` on a draft that is None is a TypeError.
abbrev observe_succeeded :
    Env
    → Text
    → Entry
    → Text
    → Option Document
    → Extraction
    → Trajectory
    → Option InvoiceDraft
    → Exec Db Error Seen
observe_succeeded env actor entry document_id document x row none db = (err type_error, db)
observe_succeeded env actor entry document_id document x row (some draft) db =
    observe_scored env actor document_id document x
      (scored_row (list_validation_results x.id db) draft entry row) db

abbrev observe_found :
    Env → Text → Entry → Text → Option Document → Option Extraction → Exec Db Error Seen
observe_found env actor entry document_id document none db = (err missing_row, db)
observe_found env actor entry document_id document (some x) db =
    let row = with_metadata x.metadata (new_row entry) in
    if is_succeeded x.status
    then observe_succeeded env actor entry document_id document x row x.draft db
    else (ok (finished (failed_row env document_id x db row)), db)

-- The second session. `actor` is `ACTOR`.
unfoldable pub observe : Env → Text → Entry → Text → Exec Db Error Seen
unfolding job_totals
observe env actor entry document_id db =
    observe_found env actor entry document_id (get_document document_id db)
      (latest_extraction document_id db) db

abbrev external_id_of : Option CrmWrite → Option Text
external_id_of none = none
external_id_of (some w) = w.external_id

-- `_write_key` is read only of a written document, which has an approved hash.
abbrev written_id : Env → Document → Option Text → Db → Option Text
written_id env document none db = none
written_id env document (some hash) db =
    external_id_of (find_write (idempotency_key env.sha256 document.id hash) db)

abbrev finish_document : Env → Trajectory → Text → Option Document → Exec Db Error Trajectory
finish_document env row document_id none db = (err missing_row, db)
finish_document env row document_id (some document) db =
    let accepted = document.status == DocumentStatus.written in
    (
      ok (
          with_totals document_id db (record row {
            accepted = accepted;
            external_id =
                if accepted
                then written_id env document document.approved_payload_hash db
                else none;
          })),
      db,
    )

-- The third session.
unfoldable pub finish_entry : Env → Trajectory → Text → Exec Db Error Trajectory
unfolding job_totals
finish_entry env row document_id db =
    finish_document env row document_id (get_document document_id db) db

abbrev write_entry : Env → Worker → Text → Seen → Exec Db Error Trajectory
write_entry env worker document_id (finished row) = pure row
write_entry env worker document_id (going_on row) = do
  drain env none worker drain_limit
  scoped (finish_entry env row document_id)

-- `_one`
unfoldable pub one : Env → Text → Worker → Entry → Exec Db Error Trajectory
unfolding start_entry observe finish_entry
one env actor worker entry = do
  document_id ← scoped (start_entry env entry)
  drain env none worker drain_limit
  seen ← scoped (observe env actor entry document_id)
  write_entry env worker document_id seen

unfoldable pub replay_rows : Env → Text → Worker → List Entry → Exec Db Error (List Trajectory)
unfolding one
replay_rows env actor worker [] = pure []
replay_rows env actor worker (entry ∷ entries) = do
  row ← one env actor worker entry
  rows ← replay_rows env actor worker entries
  pure (row ∷ rows)

abbrev evaluation_worker : Intake → CrmClient → Bool → Text → Worker
evaluation_worker intake crm fallback worker_id = record {
  intake = intake;
  crm = some crm;
  worker_id = worker_id;
  lease = default_lease;
  allow_value_fallback = fallback;
}

abbrev run_of : Text → Destination → Result Error (List Trajectory) × Db → Result Error Run × Db
run_of name destination (err e, db) = (err e, db)
run_of name destination (ok rows, db) = (
  ok (record {
    name = name;
    rows = rows;
    destination_records = destination.records db;
    destination_calls = destination.calls db;
  }),
  db,
)

-- `run`, on a database of its own. `worker_id` is the worker's default name.
unfoldable pub run :
    Env → Intake → Destination → Text → Text → Bool → Text → List Entry → Result Error Run
unfolding replay_rows
run env intake destination actor worker_id fallback name entries =
    (run_of name destination (
      replay_rows env actor (evaluation_worker intake destination.client fallback worker_id) entries
        empty_db)).0
