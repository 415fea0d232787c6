-- ===== src/System/Services.antt =====
-- The services before the write keep what the changes of the tables keep.
use evidence_flow.Prelude.{
  refl, Bool, Option, none, some, List, [], ◌∷◌, ◌++◌, Text, ℕ, ◌+◌, ◌==◌, nat_eq, list_eq, filter,
  map, suc, Result, ok, err, Bool-cases, inl, inr,
}
use evidence_flow.Domain.Events.{
  EventType, DocumentStatus, validation_completed, validated, extracted, extraction_requested,
  evidence_verified, needs_review, document_status_eq,
}
use evidence_flow.Domain.Failures.{Error, is_provider_error}
use evidence_flow.Domain.Evidence.Results.{EvidenceResult, verified, verify_draft}
use evidence_flow.Domain.Schema.{InvoiceDraft}
use evidence_flow.Domain.Validation.{RuleResult, blocking, is_accepted}
use evidence_flow.Repositories.Models.{
  Document, Extraction, ValidationResult, Metadata, Env, Db, requested,
}
use evidence_flow.Repositories.Documents.{
  tick, append_event, set_document, record_validation, create_approval, latest_extraction,
}
use evidence_flow.Services.Approval.{
  grant_approval, approve_results, after_rules, approve_current, approve_extraction,
}
use evidence_flow.Services.Extraction.{
  Validated, valid, invalid, raised, read_payload, Intake, ProviderResult, add_extraction,
  failed_row, succeeded_row, fail_extraction, event_if_any, record_evidence_events, accept_draft,
  validate_payload, receive, extract_document,
}
use evidence_flow.Services.Validation.{
  record_results, validate_draft, validate_extraction, routed, system_actor,
}
use evidence_flow.System.Invariant.{IsInvariant}

module _ (env : Env) (P : Db → Type 0) (inv : IsInvariant env P) where
  record_validation-P :
      (extraction_id : Text) (results : List RuleResult) (db : Db)
      → P db
      → P (record_validation env extraction_id results db)
  unfolding record_validation
  record_validation-P extraction_id [] db h = h
  record_validation-P extraction_id (r ∷ rs) db h =
      let row : ValidationResult = record {
        id = env.uuid db.draws;
        extraction_id = extraction_id;
        result = r;
        created_at = env.clock db.draws;
      } in
      record_validation-P extraction_id rs
        (record db { draws = suc db.draws; validation_results = db.validation_results ++ row ∷ [] })
        (inv.validation row db h)

  record_results-P :
      (document : Document) (x : Extraction) (results : List RuleResult) (db : Db)
      → P db
      → P (record_results env document x results db)
  unfolding record_results set_document
  record_results-P document x results db h =
      let recorded = record_validation env x.id results (tick db) in
      let known = record_validation-P x.id results (tick db) (inv.draws (suc db.draws) db h) in
      inv.event document.id (some x.id) validation_completed system_actor _
        (set_document document.id (routed results) recorded)
        (elim (Bool-cases (is_accepted results)) [
          | inl accepted ↦ rw accepted (inv.status document.id validated recorded refl known)
          | inr blocked ↦ rw blocked (inv.status document.id needs_review recorded refl known)
        ])

  validate_draft-P :
      (document : Document) (x : Extraction) (draft : Option InvoiceDraft) (db : Db)
      → P db
      → P (validate_draft env document x draft db).1
  unfolding validate_draft
  validate_draft-P document x none db h = h
  validate_draft-P document x (some draft) db h = record_results-P document x _ db h

  pub validate_extraction-P :
      (document : Document) (x : Extraction) (db : Db)
      → P db
      → P (validate_extraction env document x db).1
  unfolding validate_extraction
  validate_extraction-P document x db = validate_draft-P document x x.draft db

  grant_approval-P :
      (document : Document) (x : Extraction) (actor : Text) (ttl : ℕ) (hash : Option Text) (db : Db)
      → P db
      → P (grant_approval env document x actor ttl hash db).1
  unfolding grant_approval create_approval
  grant_approval-P document x actor ttl none db h = h
  grant_approval-P document x actor ttl (some hash) db h =
      inv.grant document.id x.id hash actor (env.clock db.draws + ttl) (tick db)
        (inv.draws (suc db.draws) db h)

  approve_results-P :
      (document : Document) (x : Extraction) (actor : Text) (ttl : ℕ) (blocked : List RuleResult)
      (db : Db)
      → P db
      → P (approve_results env document x actor ttl blocked db).1
  unfolding approve_results
  approve_results-P document x actor ttl [] db h =
      grant_approval-P document x actor ttl x.payload_hash db h
  approve_results-P document x actor ttl (r ∷ rs) db h =
      inv.status document.id needs_review db refl h

  after_rules-P :
      (document : Document) (x : Extraction) (actor : Text) (ttl : ℕ)
      (ran : Result Error (List RuleResult) × Db)
      → P ran.1
      → P (after_rules env document x actor ttl ran).1
  after_rules-P document x actor ttl (err e, db) h = h
  after_rules-P document x actor ttl (ok results, db) h =
      approve_results-P document x actor ttl (filter blocking results) db h

  approve_current-P :
      (document : Document) (x : Extraction) (actor : Text) (ttl : ℕ) (current : Option Extraction)
      (db : Db)
      → P db
      → P (approve_current env document x actor ttl current db).1
  unfolding approve_current
  approve_current-P document x actor ttl none db h = h
  approve_current-P document x actor ttl (some current) db h =
      elim (Bool-cases (current.id == x.id)) [
        | inr other ↦ rw other h
        | inl same ↦ rw same (
            after_rules-P document x actor ttl (validate_extraction env document x db)
              (validate_extraction-P document x db h))
      ]

  pub approve_extraction-P :
      (document : Document) (x : Extraction) (actor : Text) (ttl : ℕ) (db : Db)
      → P db
      → P (approve_extraction env document x actor ttl db).1
  unfolding approve_extraction
  approve_extraction-P document x actor ttl db h =
      elim (Bool-cases (document.status == validated)) [
        | inr other ↦ rw other h
        | inl ready ↦
            rw ready
              (approve_current-P document x actor ttl (latest_extraction document.id db) db h)
      ]

  -- The extraction.
  event_if_any-P :
      (document : Document) (x : Extraction) (type : EventType) (found : List Text) (db : Db)
      → P db
      → P (event_if_any env document x type found db)
  unfolding event_if_any
  event_if_any-P document x type [] db h = h
  event_if_any-P document x type (name ∷ more) db h =
      inv.event document.id (some x.id) type system_actor _ db h

  record_evidence_events-P :
      (document : Document) (x : Extraction) (evidence : List EvidenceResult) (db : Db)
      → P db
      → P (record_evidence_events env document x evidence db)
  unfolding record_evidence_events
  record_evidence_events-P document x evidence db h =
      let found = map (λ (e : EvidenceResult). e.field) (filter verified evidence) in
      event_if_any-P document x _ _ (event_if_any env document x evidence_verified found db)
        (event_if_any-P document x evidence_verified found db h)

  fail_extraction-P :
      (document : Document) (e : Error) (raw : Option Text) (metadata : Option Metadata) (db : Db)
      → P db
      → P (fail_extraction env document e raw metadata db).1
  unfolding fail_extraction
  fail_extraction-P document e raw metadata db h =
      let x = failed_row env document.id e raw metadata db in
      let added = add_extraction x db in
      inv.event document.id (some x.id) _ system_actor _
        (set_document document.id (λ d. record d { status = DocumentStatus.extraction_failed })
          added)
        (inv.status document.id DocumentStatus.extraction_failed added refl
          (inv.extraction x db refl h))

  accept_draft-P :
      (document : Document) (fallback : Bool) (r : ProviderResult) (draft : InvoiceDraft) (db : Db)
      → P db
      → P (accept_draft env document fallback r draft db).1
  unfolding accept_draft
  accept_draft-P document fallback r draft db h =
      let evidence = verify_draft draft document.source_text fallback in
      let x = succeeded_row env document.id r draft evidence db in
      let recorded = record_evidence_events env document x evidence (add_extraction x db) in
      inv.event document.id (some x.id) _ system_actor _
        (set_document document.id
          (λ d. record d { status = extracted; approved_payload_hash = none }) recorded)
        (inv.revocation document.id recorded (
          record_evidence_events-P document x evidence (add_extraction x db)
            (inv.extraction x db refl h)))

  validate_payload-P :
      (document : Document) (fallback : Bool) (r : ProviderResult)
      (validated_draft : Result Text InvoiceDraft) (db : Db)
      → P db
      → P (validate_payload env document fallback r validated_draft db).1
  unfolding validate_payload
  validate_payload-P document fallback r (err summary) db h = fail_extraction-P document _ _ _ db h
  validate_payload-P document fallback r (ok draft) db h =
      accept_draft-P document fallback r draft db h

  read_payload-P :
      (document : Document) (fallback : Bool) (r : ProviderResult) (read : Validated) (db : Db)
      → P db
      → P (read_payload env document fallback r read db).1
  unfolding read_payload
  read_payload-P document fallback r (valid draft) db h =
      validate_payload-P document fallback r (ok draft) db h
  read_payload-P document fallback r (invalid summary) db h =
      validate_payload-P document fallback r (err summary) db h
  read_payload-P document fallback r (raised e) db h = h

  receive-P :
      (intake : Intake) (document : Document) (fallback : Bool)
      (answer : Result Error ProviderResult) (db : Db)
      → P db
      → P (receive env intake document fallback answer db).1
  unfolding receive
  receive-P intake document fallback (ok r) db h =
      read_payload-P document fallback r (intake.model_validate r.raw) db h
  receive-P intake document fallback (err e) db h = elim (Bool-cases (is_provider_error e)) [
    | inl known ↦ rw known (fail_extraction-P document e none none db h)
    | inr other ↦ rw other h
  ]

  pub extract_document-P :
      (intake : Intake) (fallback : Bool) (document : Document) (db : Db)
      → P db
      → P (extract_document env intake fallback document db).1
  unfolding extract_document
  extract_document-P intake fallback document db h =
      receive-P intake document fallback (intake.provide document.source_text)
        (append_event env document.id none extraction_requested system_actor requested db)
        (inv.event document.id none extraction_requested system_actor requested db h)
