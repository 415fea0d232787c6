-- ===== src/System/Requests.antt =====
-- Every request and every session of a worker keeps what its operations keep.
use evidence_flow.Prelude.{
  false, Option, none, some, Text, ◌==◌, nat_eq, list_eq, option_eq, Result, ok, err, Exec,
  Bool-cases, inl, inr,
}
use evidence_flow.Domain.Failures.{
  Error, is_approval_error, is_crm_error, default_approval_ttl, default_max_attempts,
}
use evidence_flow.Repositories.Models.{Document, Extraction, Approval, JobType, Db}
use evidence_flow.Repositories.Documents.{get_document, latest_extraction}
use evidence_flow.Repositories.Session.{Session, in_session, close_session, session_scope, opened}
use evidence_flow.Providers.Crm.{create_record}
use evidence_flow.Services.Approval.{approve_extraction}
use evidence_flow.Services.CrmWrite.{WriteOutcome, write_approved_record}
use evidence_flow.Services.Extraction.{ExtractionOutcome, extract_document}
use evidence_flow.Services.Validation.{validate_extraction}
use evidence_flow.Api.Errors.{commit_refusal}
use evidence_flow.Api.Schemas.{DocumentCreate, JobCreate, is_document_create}
use evidence_flow.Api.Routes.{
  required, is_succeeded, view_after, after_extract, after_approve, approve_latest, after_write,
  job_type_of, enqueue_typed, create_document, extract, approve, write, enqueue_job,
}
use evidence_flow.Api.Review.{
  after_approve as after_approve_page, after_write as after_write_page, approve_shown,
  approve as approve_page, write as write_page,
}
use evidence_flow.System.{Deployment, request}
use evidence_flow.System.Invariant.{IsInvariant}
use evidence_flow.System.Services.{validate_extraction-P, approve_extraction-P, extract_document-P}
use evidence_flow.System.Writes.{write_approved_record-P}

module _ (d : Deployment) (P : Db → Type 0) (inv : IsInvariant d.env P) where
  -- Of a session: of what it has committed, and of what it sees.
  abbrev Holds : Session → Type 0
  Holds s = P s.committed × P s.db

  close_session-P :
      {A : Type 0} (ran : Result Error A × Session) → Holds ran.1 → P (close_session ran).1
  unfolding close_session
  close_session-P (ok a, s) h = h.1
  close_session-P (err e, s) h = inv.draws s.db.draws s.committed h.0

  pub request-P :
      {A : Type 0} (handler : Exec Session Error A)
      → ((s : Session) → Holds s → Holds (handler s).1)
      → (db : Db) → P db
      → P (request handler db)
  unfolding session_scope
  request-P handler keeps db h = close_session-P (handler (opened db)) (keeps (opened db) (h, h))

  required-Holds :
      {A : Type 0} (handler : Document → Exec Session Error A)
      → ((document : Document) (s : Session) → Holds s → Holds (handler document s).1)
      → (found : Option Document) (s : Session) → Holds s
      → Holds (required handler found s).1
  required-Holds handler keeps none s h = h
  required-Holds handler keeps (some document) s h = keeps document s h

  commit_refusal-Holds : (s : Session) → Holds s → Holds (commit_refusal s)
  unfolding commit_refusal
  commit_refusal-Holds s h = (h.1, h.1)

  pub create_document-Holds :
      (body : DocumentCreate) (s : Session) → Holds s → Holds (create_document d.env body s).1
  unfolding create_document
  create_document-Holds body s h = elim (Bool-cases (is_document_create body)) [
    | inl valid ↦ rw valid (h.0, inv.document body.filename body.text none s.db h.1)
    | inr invalid ↦ rw invalid h
  ]

  view_after-Holds :
      {A : Type 0} (x : Extraction) (ran : Result Error A × Session)
      → Holds ran.1
      → Holds (view_after x ran).1
  view_after-Holds x (ok a, s) h = h
  view_after-Holds x (err e, s) h = h

  after_extract-Holds :
      (document : Document) (ran : Result Error ExtractionOutcome × Session)
      → Holds ran.1
      → Holds (after_extract d.env document ran).1
  after_extract-Holds document (err e, s) h = h
  after_extract-Holds document (ok outcome, s) h =
      elim (Bool-cases (is_succeeded outcome.extraction.status)) [
        | inl succeeded ↦ rw succeeded (
            view_after-Holds outcome.extraction
              (in_session (validate_extraction d.env document outcome.extraction) s)
              (h.0, validate_extraction-P d.env P inv document outcome.extraction s.db h.1))
        | inr failed ↦ rw failed h
      ]

  pub extract-Holds :
      (document_id : Text) (s : Session) → Holds s → Holds (extract d.env d.intake document_id s).1
  unfolding extract
  extract-Holds document_id s =
      required-Holds _
        (λ document s h.
          after_extract-Holds document
            (in_session (extract_document d.env d.intake false document) s)
            (h.0, extract_document-P d.env P inv d.intake false document s.db h.1))
        (get_document document_id s.db) s

  after_approve-Holds :
      (ran : Result Error Approval × Session) → Holds ran.1 → Holds (after_approve ran).1
  after_approve-Holds (ok approval, s) h = h
  after_approve-Holds (err e, s) h = elim (Bool-cases (is_approval_error e)) [
    | inl refused ↦ rw refused (commit_refusal-Holds s h)
    | inr other ↦ rw other h
  ]

  approve_latest-Holds :
      (actor : Text) (document : Document) (latest : Option Extraction) (s : Session)
      → Holds s
      → Holds (approve_latest d.env actor document latest s).1
  approve_latest-Holds actor document none s h = h
  approve_latest-Holds actor document (some x) s h =
      after_approve-Holds
        (in_session (approve_extraction d.env document x actor default_approval_ttl) s)
        (h.0, approve_extraction-P d.env P inv document x actor default_approval_ttl s.db h.1)

  pub approve-Holds :
      (actor document_id : Text) (s : Session)
      → Holds s
      → Holds (approve d.env actor document_id s).1
  unfolding approve
  approve-Holds actor document_id s =
      required-Holds _
        (λ document s. approve_latest-Holds actor document (latest_extraction document_id s.db) s)
        (get_document document_id s.db) s

  after_write-Holds :
      (ran : Result Error WriteOutcome × Session) → Holds ran.1 → Holds (after_write ran).1
  after_write-Holds (ok outcome, s) h = h
  after_write-Holds (err e, s) h = elim (Bool-cases (is_approval_error e)) [
    | inl refused ↦ rw refused (commit_refusal-Holds s h)
    | inr other ↦ elim (Bool-cases (is_crm_error e)) [
      | inl failed ↦ rw (other, failed) h
      | inr unknown ↦ rw (other, unknown) h
    ]
  ]

  pub write-Holds :
      (document_id : Text) (s : Session)
      → Holds s
      → Holds (write d.env (create_record d.env) none document_id s).1
  unfolding write
  write-Holds document_id s =
      required-Holds _
        (λ document s h.
          after_write-Holds
            (in_session (write_approved_record d.env (create_record d.env) none document) s)
            (h.0, write_approved_record-P d.env P inv document s.db h.1))
        (get_document document_id s.db) s

  enqueue_typed-Holds :
      (document_id : Text) (type : Option JobType) (s : Session)
      → Holds s
      → Holds (enqueue_typed d.env document_id type s).1
  enqueue_typed-Holds document_id none s h = h
  enqueue_typed-Holds document_id (some type) s h =
      (h.0, inv.job type document_id none default_max_attempts s.db h.1)

  pub enqueue_job-Holds :
      (document_id : Text) (body : JobCreate) (s : Session)
      → Holds s
      → Holds (enqueue_job d.env document_id body s).1
  unfolding enqueue_job
  enqueue_job-Holds document_id body s =
      required-Holds _ (λ document s. enqueue_typed-Holds document_id (job_type_of body.type) s)
        (get_document document_id s.db) s

  -- The pages.
  after_approve_page-Holds :
      (document_id actor : Text) (ran : Result Error Approval × Session)
      → Holds ran.1
      → Holds (after_approve_page document_id actor ran).1
  after_approve_page-Holds document_id actor (ok approval, s) h = h
  after_approve_page-Holds document_id actor (err e, s) h =
      elim (Bool-cases (is_approval_error e)) [
        | inl refused ↦ rw refused (commit_refusal-Holds s h)
        | inr other ↦ rw other h
      ]

  approve_shown-Holds :
      (actor payload_hash : Text) (document : Document) (latest : Option Extraction) (s : Session)
      → Holds s
      → Holds (approve_shown d.env actor payload_hash document latest s).1
  approve_shown-Holds actor payload_hash document none s h = h
  approve_shown-Holds actor payload_hash document (some x) s h =
      elim (Bool-cases (x.payload_hash == some payload_hash)) [
        | inl shown ↦ rw shown (
            after_approve_page-Holds document.id actor
              (in_session (approve_extraction d.env document x actor default_approval_ttl) s)
              (
                h.0,
                approve_extraction-P d.env P inv document x actor default_approval_ttl s.db h.1,
              ))
        | inr stale ↦ rw stale h
      ]

  pub approve_page-Holds :
      (actor document_id payload_hash : Text) (s : Session)
      → Holds s
      → Holds (approve_page d.env actor document_id payload_hash s).1
  unfolding approve_page
  approve_page-Holds actor document_id payload_hash s =
      required-Holds _
        (λ document s.
          approve_shown-Holds actor payload_hash document (latest_extraction document_id s.db) s)
        (get_document document_id s.db) s

  after_write_page-Holds :
      (document_id : Text) (ran : Result Error WriteOutcome × Session)
      → Holds ran.1
      → Holds (after_write_page document_id ran).1
  after_write_page-Holds document_id (ok outcome, s) h = h
  after_write_page-Holds document_id (err e, s) h = elim (Bool-cases (is_approval_error e)) [
    | inl refused ↦ rw refused (commit_refusal-Holds s h)
    | inr other ↦ elim (Bool-cases (is_crm_error e)) [
      | inl failed ↦ rw (other, failed) h
      | inr unknown ↦ rw (other, unknown) h
    ]
  ]

  pub write_page-Holds :
      (document_id : Text) (s : Session)
      → Holds s
      → Holds (write_page d.env (create_record d.env) none document_id s).1
  unfolding write_page
  write_page-Holds document_id s =
      required-Holds _
        (λ document s h.
          after_write_page-Holds document_id
            (in_session (write_approved_record d.env (create_record d.env) none document) s)
            (h.0, write_approved_record-P d.env P inv document s.db h.1))
        (get_document document_id s.db) s
