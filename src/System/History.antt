-- ===== src/System/History.antt =====
-- What is stored for good, after the transactions of the whole program.
use evidence_flow.Prelude.{sym, subst, Distinct, ℕ, Option, none, some, List, Text}
use evidence_flow.Repositories.History.{
  Keeps, Keeps-refl, Keeps-trans, append_event-Keeps, add_extraction-Keeps, create_approval-Keeps,
  with_result, with_record, with_result-Keeps, with_record-Keeps, Distinct-append,
}
use evidence_flow.Repositories.Models.{CrmRecordRow, JobType, Env, Db}
use evidence_flow.Repositories.Documents.{
  append_event, create_document, create_approval, set_document, set_write, mark_written,
}
use evidence_flow.Providers.Crm.Uniqueness.{IsUnique}
use evidence_flow.Domain.Events.{approved}
use evidence_flow.Services.Extraction.{add_extraction}
use evidence_flow.Workflows.Queue.{enqueue, claim_update, reclaim_expired, succeed, fail, set_job}
use evidence_flow.System.{Deployment, Action, perform_all}
use evidence_flow.System.Invariant.{granted, IsInvariant}
use evidence_flow.System.Transactions.{perform_all-P}

enqueue-Keeps :
    (env : Env) (type : JobType) (document_id : Text) (run_at : Option ℕ) (max_attempts : ℕ)
    (db : Db)
    → Keeps env db (enqueue env type document_id run_at max_attempts db).1
unfolding enqueue
enqueue-Keeps env type document_id none max_attempts db = Keeps-refl env db
enqueue-Keeps env type document_id (some moment) max_attempts db = Keeps-refl env db

granted-Keeps :
    (env : Env) (id extraction_id hash actor : Text) (expires_at : ℕ) (db : Db)
    → Keeps env db (granted env id extraction_id hash actor expires_at db)
unfolding set_document
granted-Keeps env id extraction_id hash actor expires_at db =
    let created = (create_approval env id extraction_id hash actor expires_at db).1 in
    let marked =
      set_document id (λ d. record d { status = approved; approved_payload_hash = some hash })
        created in
    Keeps-trans env db created (granted env id extraction_id hash actor expires_at db)
      (create_approval-Keeps env id extraction_id hash actor expires_at db)
      (append_event-Keeps env id (some extraction_id) _ actor _ marked)

-- To have kept what was there at a start.
Keeps-IsInvariant : (env : Env) (start : Db) → IsInvariant env (Keeps env start)
unfolding set_document create_document create_approval set_write mark_written claim_update
    reclaim_expired succeed fail set_job
Keeps-IsInvariant env start = record {
  draws = λ n db h. h;
  event = λ document_id extraction_id type actor payload db h.
      Keeps-trans env start db (append_event env document_id extraction_id type actor payload db) h
        (append_event-Keeps env document_id extraction_id type actor payload db);
  document = λ filename text id db h. h;
  extraction = λ x db hashed h.
      Keeps-trans env start db (add_extraction x db) h (add_extraction-Keeps env x db hashed);
  validation =
      λ row db h. Keeps-trans env start db (with_result row db) h (with_result-Keeps env row db);
  status = λ id next db undecided h. h;
  revocation = λ id db h. h;
  grant = λ id extraction_id hash actor expires_at db h.
      Keeps-trans env start db (granted env id extraction_id hash actor expires_at db) h
        (granted-Keeps env id extraction_id hash actor expires_at db);
  write_claim = λ w db h. h;
  write_change = λ id change db h. h;
  landing = λ row db apart backed h.
      Keeps-trans env start db (with_record row db) h (with_record-Keeps env row db apart backed);
  completion = λ id hash db recorded h. h;
  job = λ type document_id run_at max_attempts db h.
      Keeps-trans env start db (enqueue env type document_id run_at max_attempts db).1 h
        (enqueue-Keeps env type document_id run_at max_attempts db);
  lease = λ worker_id lease moment job_id db h. h;
  reclaim = λ db h. h;
  success = λ job db h. h;
  failure = λ job error db h. h;
}

-- After any requests, starts and sessions of workers, in any order, the events, the extractions, the
-- approvals, the validation results and the records of the destination that were stored before are
-- stored after, in their order and unchanged, with the new ones behind them. Each new extraction has
-- the hash of its draft, or neither. Each new record has keys of its own, and an approval and an
-- extraction of one document and hash are stored whose key and draft are the record's.
pub perform_all-Keeps :
    (d : Deployment) (actions : List Action) (db : Db) → Keeps d.env db (perform_all d actions db)
perform_all-Keeps d actions db =
    perform_all-P d (Keeps d.env db) (Keeps-IsInvariant d.env db) actions db (Keeps-refl d.env db)

-- After any requests, starts and sessions of workers, in any order, no two records of the destination
-- share an idempotency key and no two share a business key, if that held before.
pub perform_all-IsUnique :
    (d : Deployment) (actions : List Action) (db : Db)
    → IsUnique db
    → IsUnique (perform_all d actions db)
perform_all-IsUnique d actions db u =
    let (events, (extractions, (approvals, (results, (more, (added, (fresh, backed))))))) =
      perform_all-Keeps d actions db in
    record {
      by_key = subst (Distinct (λ (r : CrmRecordRow). r.idempotency_key)) (sym added) (
          Distinct-append (λ r. r.idempotency_key) (λ row other h. h.0) db.crm_records more u.by_key
            fresh);
      by_business_key = subst (Distinct (λ (r : CrmRecordRow). r.business_key)) (sym added) (
          Distinct-append (λ r. r.business_key) (λ row other h. h.1) db.crm_records more
            u.by_business_key fresh);
    }
