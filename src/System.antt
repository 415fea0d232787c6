-- ===== src/System.antt =====
-- The whole program as one database and the transactions on it: the requests of app/api/routes.py and
-- app/api/review.py, each in its session of app/api/dependencies.py, the start of app/api/app.py, and the
-- sessions of any number of workers of app/workflows/worker.py. The sessions of a worker are actions of
-- their own, so that others come between them. A transaction runs as if alone; requests that only read
-- are left out. The destination is the program's own, as in the deployed application.
pub mod Invariant
pub mod Services
pub mod Landing
pub mod Writes
pub mod Queue
pub mod Requests
pub mod Transactions
pub mod History
pub mod Approved
pub mod Truth
pub mod Written
pub mod Jobs
pub mod Audit
pub mod Drain
use evidence_flow.Prelude.{ℕ, Bool, Option, none, some, List, [], ◌∷◌, Text, Exec}
use evidence_flow.Domain.Failures.{Error}
use evidence_flow.Repositories.Models.{Job, Env, Db}
use evidence_flow.Repositories.Session.{Session, session_scope}
use evidence_flow.Providers.Crm.{create_record}
use evidence_flow.Services.Extraction.{Intake}
use evidence_flow.Workflows.Queue.{get_job}
use evidence_flow.Workflows.Worker.{Worker, claim_job, dispatch_job, finish_job}
use evidence_flow.Api.Schemas.{DocumentCreate, JobCreate}
use evidence_flow.Api.Routes.{create_document, extract, approve, write, enqueue_job}
use evidence_flow.Api.Review.{approve as approve_page, write as write_page}
use evidence_flow.Startup.{Settings, start}

-- What the application and its workers are started with.
pub record Deployment : Type 0 where
  pub env : Env
  pub settings : Settings
  pub uuid5 : Text → Text
  pub files : List Text → List (Text × Text)
  pub intake : Intake
  pub lease : ℕ
  pub allow_value_fallback : Bool

-- `Worker(...)` of app/api/app.py and app/worker_process.py, which give no destination.
abbrev pub worker_of : Deployment → Text → Worker
worker_of d worker_id = record {
  intake = d.intake;
  crm = none;
  worker_id = worker_id;
  lease = d.lease;
  allow_value_fallback = d.allow_value_fallback;
}

-- A transaction, with the data that comes from outside: identifiers in the path, bodies, the actor of
-- the header, the hash that the page submits, the worker, and what the worker has kept of a job.
pub data Action : Type 0 where
  starts : Action
  posts_document : DocumentCreate → Action
  posts_extract : Text → Action
  posts_approve : Text → Text → Action
  posts_write : Text → Action
  posts_job : Text → JobCreate → Action
  page_approves : Text → Text → Text → Action
  page_writes : Text → Action
  worker_claims : Text → Action
  worker_dispatches : Text → Text → Action
  worker_finishes : Text → Option Error → Action

-- `get_session`: the handler's exception ends the session.
abbrev pub request : {A : Type 0} → Exec Session Error A → Db → Db
request handler db = (session_scope handler db).1

-- The second session of `run_once`. Without a row, `_dispatch` raises before it changes anything.
unfoldable pub dispatch_session : Env → Worker → Option Job → Db → Option Error × Db
dispatch_session env worker none db = (none, db)
dispatch_session env worker (some job) db = dispatch_job env none worker job db

unfoldable pub perform : Deployment → Action → Db → Db
unfolding dispatch_session
perform d starts db = (start d.env d.uuid5 d.files d.settings db).1
perform d (posts_document body) db = request (create_document d.env body) db
perform d (posts_extract document_id) db = request (extract d.env d.intake document_id) db
perform d (posts_approve actor document_id) db = request (approve d.env actor document_id) db
perform d (posts_write document_id) db =
    request (write d.env (create_record d.env) none document_id) db
perform d (posts_job document_id body) db = request (enqueue_job d.env document_id body) db
perform d (page_approves actor document_id payload_hash) db =
    request (approve_page d.env actor document_id payload_hash) db
perform d (page_writes document_id) db =
    request (write_page d.env (create_record d.env) none document_id) db
perform d (worker_claims worker_id) db = (claim_job d.env (worker_of d worker_id) db).1
perform d (worker_dispatches worker_id job_id) db =
    (dispatch_session d.env (worker_of d worker_id) (get_job job_id db) db).1
perform d (worker_finishes job_id error) db = (finish_job d.env job_id (error, db)).1

-- One transaction after another.
unfoldable pub perform_all : Deployment → List Action → Db → Db
unfolding perform
perform_all d [] db = db
perform_all d (action ∷ actions) db = perform_all d actions (perform d action db)
