-- ===== src/System/Transactions.antt =====
-- An invariant of the operations holds after every list of transactions.
use evidence_flow.Prelude.{
  Option, none, some, List, [], ◌∷◌, Text, Result, ok, err, Bool-cases, inl, inr,
}
use evidence_flow.Domain.Failures.{Error, default_max_attempts}
use evidence_flow.Repositories.Models.{Document, Job, JobType, Db}
use evidence_flow.Repositories.Documents.{
  get_document, list_documents, create_document as repo_create_document,
}
use evidence_flow.Providers.Crm.{create_record}
use evidence_flow.Services.CrmWrite.{write_approved_record}
use evidence_flow.Services.Extraction.{ExtractionOutcome, extract_document}
use evidence_flow.Services.Validation.{validate_extraction}
use evidence_flow.Workflows.Queue.{get_job}
use evidence_flow.Workflows.Worker.{
  caught, validate_outcome, after_extraction, dispatch_type, dispatch_document, dispatch_job,
}
use evidence_flow.Api.Routes.{create_document, extract, approve, write, enqueue_job}
use evidence_flow.Api.Review.{approve as approve_page, write as write_page}
use evidence_flow.Seed.{seed_file, seed_files, seed_into, seed_documents}
use evidence_flow.Startup.{start, fixture_dirs}
use evidence_flow.System.{
  Deployment, Action, starts, posts_document, posts_extract, posts_approve, posts_write, posts_job,
  page_approves, page_writes, worker_claims, worker_dispatches, worker_finishes, worker_of,
  dispatch_session, perform, perform_all,
}
use evidence_flow.System.Invariant.{IsInvariant}
use evidence_flow.System.Services.{validate_extraction-P, extract_document-P}
use evidence_flow.System.Writes.{write_approved_record-P}
use evidence_flow.System.Queue.{claim_job-P, finish_job-P}
use evidence_flow.System.Requests.{
  request-P, create_document-Holds, extract-Holds, approve-Holds, write-Holds, enqueue_job-Holds,
  approve_page-Holds, write_page-Holds,
}

module _ (d : Deployment) (P : Db → Type 0) (inv : IsInvariant d.env P) where
  caught-P : {A : Type 0} (ran : Result Error A × Db) → P ran.1 → P (caught ran).1
  caught-P (ok a, db) h = h
  caught-P (err e, db) h = h

  validate_outcome-P :
      (document : Document) (outcome : ExtractionOutcome) (e : Option Error) (db : Db)
      → P db
      → P (validate_outcome d.env document outcome e db).1
  validate_outcome-P document outcome none db h =
      caught-P (validate_extraction d.env document outcome.extraction db)
        (validate_extraction-P d.env P inv document outcome.extraction db h)
  validate_outcome-P document outcome (some e) db h = h

  after_extraction-P :
      (document : Document) (ran : Result Error ExtractionOutcome × Db)
      → P ran.1
      → P (after_extraction d.env document ran).1
  after_extraction-P document (ok outcome, db) h =
      validate_outcome-P document outcome outcome.error db h
  after_extraction-P document (err e, db) h = h

  dispatch_type-P :
      (worker_id : Text) (document : Document) (type : JobType) (db : Db)
      → P db
      → P (dispatch_type d.env none (worker_of d worker_id) document type db).1
  unfolding dispatch_type
  dispatch_type-P worker_id document JobType.extract db h =
      after_extraction-P document
        (extract_document d.env d.intake d.allow_value_fallback document db)
        (extract_document-P d.env P inv d.intake d.allow_value_fallback document db h)
  dispatch_type-P worker_id document JobType.write db h =
      caught-P (write_approved_record d.env (create_record d.env) none document db)
        (write_approved_record-P d.env P inv document db h)

  dispatch_document-P :
      (worker_id : Text) (job : Job) (document : Option Document) (db : Db)
      → P db
      → P (dispatch_document d.env none (worker_of d worker_id) job document db).1
  unfolding dispatch_document
  dispatch_document-P worker_id job none db h = h
  dispatch_document-P worker_id job (some document) db h =
      dispatch_type-P worker_id document job.type db h

  dispatch_session-P :
      (worker_id : Text) (job : Option Job) (db : Db)
      → P db
      → P (dispatch_session d.env (worker_of d worker_id) job db).1
  unfolding dispatch_session dispatch_job
  dispatch_session-P worker_id none db h = h
  dispatch_session-P worker_id (some job) db h =
      dispatch_document-P worker_id job (get_document job.document_id db) db h

  seed_files-P :
      (files : List (Text × Text)) (db : Db) → P db → P (seed_files d.env d.uuid5 files db)
  unfolding seed_files seed_file
  seed_files-P [] db h = h
  seed_files-P ((name, text) ∷ files) db h =
      let created = repo_create_document d.env name text (some (d.uuid5 name)) db in
      seed_files-P files (seed_file d.env d.uuid5 name text db) (
        inv.job JobType.extract created.0.id none default_max_attempts created.1
          (inv.document name text (some (d.uuid5 name)) db h))

  seed_into-P :
      (files : List (Text × Text)) (present : List Document) (db : Db)
      → P db
      → P (seed_into d.env d.uuid5 files present db).1
  unfolding seed_into
  seed_into-P files [] db h = seed_files-P files db h
  seed_into-P files (document ∷ documents) db h = h

  start-P : (db : Db) → P db → P (start d.env d.uuid5 d.files d.settings db).1
  unfolding start seed_documents
  start-P db h = elim (Bool-cases d.settings.seed_on_start) [
    | inl seeded ↦
        rw seeded (seed_into-P (d.files (fixture_dirs d.settings)) (list_documents db) db h)
    | inr left ↦ rw left h
  ]

  perform-P : (action : Action) (db : Db) → P db → P (perform d action db)
  unfolding perform
  perform-P starts db = start-P db
  perform-P (posts_document body) db =
      request-P d P inv (create_document d.env body) (create_document-Holds d P inv body) db
  perform-P (posts_extract document_id) db =
      request-P d P inv (extract d.env d.intake document_id) (extract-Holds d P inv document_id) db
  perform-P (posts_approve actor document_id) db =
      request-P d P inv (approve d.env actor document_id) (approve-Holds d P inv actor document_id)
        db
  perform-P (posts_write document_id) db =
      request-P d P inv (write d.env (create_record d.env) none document_id)
        (write-Holds d P inv document_id) db
  perform-P (posts_job document_id body) db =
      request-P d P inv (enqueue_job d.env document_id body)
        (enqueue_job-Holds d P inv document_id body) db
  perform-P (page_approves actor document_id payload_hash) db =
      request-P d P inv (approve_page d.env actor document_id payload_hash)
        (approve_page-Holds d P inv actor document_id payload_hash) db
  perform-P (page_writes document_id) db =
      request-P d P inv (write_page d.env (create_record d.env) none document_id)
        (write_page-Holds d P inv document_id) db
  perform-P (worker_claims worker_id) db = claim_job-P d.env P inv (worker_of d worker_id) db
  perform-P (worker_dispatches worker_id job_id) db =
      dispatch_session-P worker_id (get_job job_id db) db
  perform-P (worker_finishes job_id error) db = finish_job-P d.env P inv job_id error db

  pub perform_all-P : (actions : List Action) (db : Db) → P db → P (perform_all d actions db)
  unfolding perform_all
  perform_all-P [] db h = h
  perform_all-P (action ∷ actions) db h =
      perform_all-P actions (perform d action db) (perform-P action db h)
