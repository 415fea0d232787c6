-- ===== src/System/Truth/Kept.antt =====
-- What the documents claim, after the transactions of the whole program.
use mathlib.Core.List.{Memᴰ}
use mathlib.Core.List.Memᴰ
use evidence_flow.Prelude.{
  ◌≡◌, refl, sym, ap, ◌∙◌, true, All, All-append, All-map_of, Option, none, some, some_injective,
  List, [], ◌∷◌, ◌++◌, Text, ℕ, arith, ◌==◌, ==_iff, nat_eq, list_eq, option_eq,
}
use evidence_flow.Domain.Approval.{idempotency_key}
use evidence_flow.Domain.Events.{DocumentStatus, extracted, approved, written, document_status_eq}
use evidence_flow.Repositories.History.{Extends-refl}
use evidence_flow.Repositories.Models.{Document, Approval, CrmRecordRow, JobType, Env, Db}
use evidence_flow.Repositories.Documents.{
  append_event, create_document, create_approval, set_document, set_write, mark_written,
  is_writable,
}
use evidence_flow.Repositories.Documents.Rows.{All-update_where}
use evidence_flow.Workflows.Queue.{enqueue, claim_update, reclaim_expired, succeed, fail, set_job}
use evidence_flow.System.{Deployment, Action, perform_all}
use evidence_flow.System.Invariant.{HasRecord, granted, IsInvariant}
use evidence_flow.System.Transactions.{perform_all-P}
use evidence_flow.System.Truth.{
  IsTruthful, IsTrue, IsConsistent, Extends-IsTruthful, set_document-IsConsistent,
  set_undecided-IsConsistent,
}

-- An approval is stored with the claim that stands on it.
grant-IsConsistent :
    (env : Env) (id extraction_id hash actor : Text) (expires_at : ℕ) (db : Db)
    → IsConsistent env db
    → IsConsistent env (granted env id extraction_id hash actor expires_at db)
unfolding create_approval set_document append_event
grant-IsConsistent env id extraction_id hash actor expires_at db =
    let (approval, created) = create_approval env id extraction_id hash actor expires_at db in
    All-update_where (IsTrue env db.approvals db.crm_records)
      (IsTrue env created.approvals db.crm_records) (λ d. d.id == id)
      (λ d. record d { status = approved; approved_payload_hash = some hash })
      (λ d.
        Extends-IsTruthful env db.approvals created.approvals db.crm_records db.crm_records d.id
          d.status d.approved_payload_hash (approval ∷ [], refl) (Extends-refl db.crm_records))
      (λ d same h. (
        (
          approval,
          (Memᴰ.append_right db.approvals (Memᴰ.head refl), (sym ((==_iff d.id id).0 same), refl)),
        ),
        tt,
      ))
      db.documents

landing-IsConsistent :
    (env : Env) (row : CrmRecordRow) (db : Db)
    → IsConsistent env db
    → All (IsTrue env db.approvals (db.crm_records ++ row ∷ [])) db.documents
landing-IsConsistent env row db =
    All-map_of
      (λ (d : Document).
        Extends-IsTruthful env db.approvals db.approvals db.crm_records _ d.id d.status
          d.approved_payload_hash (Extends-refl db.approvals) (row ∷ [], refl))
      db.documents

module _ (env : Env) (document_id hash : Text) where
  -- The claim of a row that becomes written.
  written-IsTruthful :
      (approvals : List Approval) (records : List CrmRecordRow) (id : Text)
      (status : DocumentStatus) (approved_hash : Option Text)
      → id ≡ document_id
      → approved_hash ≡ some hash
      → HasRecord env records document_id hash
      → IsTruthful env approvals records id status approved_hash
      → IsTruthful env approvals records id written approved_hash
  written-IsTruthful approvals records id status none same of_hash recorded claim = absurd (cc)
  written-IsTruthful approvals records id status (some found) same of_hash (row, (m, keyed)) claim =
      (
        claim.0,
        (
          row,
          (
            m,
            keyed
                ∙ ap (λ i. idempotency_key env.sha256 i hash) (sym same)
                ∙ ap (idempotency_key env.sha256 id) (sym (some_injective of_hash)),
          ),
        ),
      )

  writable_row :
      (d : Document)
      → is_writable document_id hash d ≡ true
      → (d.id ≡ document_id) × (d.approved_payload_hash ≡ some hash)
  writable_row d test = (
    (==_iff d.id document_id).0 (ground arith),
    (==_iff d.approved_payload_hash (some hash)).0 (ground arith),
  )

  pub mark_written-IsConsistent :
      (db : Db)
      → HasRecord env db.crm_records document_id hash
      → IsConsistent env db
      → IsConsistent env (mark_written document_id hash db).1
  unfolding mark_written
  mark_written-IsConsistent db recorded =
      All-update_where (IsTrue env db.approvals db.crm_records)
        (IsTrue env db.approvals db.crm_records) (is_writable document_id hash)
        (λ d. record d { status = written }) (λ d h. h)
        (λ d test.
          let (same, of_hash) = writable_row d test in
          written-IsTruthful db.approvals db.crm_records d.id d.status d.approved_payload_hash same
            of_hash recorded)
        db.documents

enqueue-IsConsistent :
    (env : Env) (type : JobType) (document_id : Text) (run_at : Option ℕ) (max_attempts : ℕ)
    (db : Db)
    → IsConsistent env db
    → IsConsistent env (enqueue env type document_id run_at max_attempts db).1
unfolding enqueue
enqueue-IsConsistent env type document_id none max_attempts db h = h
enqueue-IsConsistent env type document_id (some moment) max_attempts db h = h

IsConsistent-IsInvariant : (env : Env) → IsInvariant env (IsConsistent env)
unfolding append_event create_document set_write claim_update reclaim_expired succeed fail set_job
IsConsistent-IsInvariant env = record {
  draws = λ n db h. h;
  event = λ document_id extraction_id type actor payload db h. h;
  document = λ filename text id db h.
      All-append (IsTrue env db.approvals db.crm_records) db.documents _ h (refl, tt);
  extraction = λ x db hashed h. h;
  validation = λ row db h. h;
  status = λ id next db undecided. set_undecided-IsConsistent env id next db undecided;
  revocation = λ id db.
      set_document-IsConsistent env id
        (λ d. record d { status = extracted; approved_payload_hash = none }) db (λ d claim. refl);
  grant = grant-IsConsistent env;
  write_claim = λ w db h. h;
  write_change = λ id change db h. h;
  landing = λ row db apart backed. landing-IsConsistent env row db;
  completion = mark_written-IsConsistent env;
  job = enqueue-IsConsistent env;
  lease = λ worker_id lease moment job_id db h. h;
  reclaim = λ db h. h;
  success = λ job db h. h;
  failure = λ job error db h. h;
}

-- After any requests, starts and sessions of workers, in any order, if that held before: a document
-- without an approved hash is neither approved nor written; of one with an approved hash, an approval
-- of the document with this hash is stored, and if the document is written, a record of the destination
-- has the key of the document and the hash.
pub perform_all-IsConsistent :
    (d : Deployment) (actions : List Action) (db : Db)
    → IsConsistent d.env db
    → IsConsistent d.env (perform_all d actions db)
perform_all-IsConsistent d = perform_all-P d (IsConsistent d.env) (IsConsistent-IsInvariant d.env)
