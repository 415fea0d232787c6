-- ===== src/System/Invariant.antt =====
-- What the primitive changes of the tables owe to an invariant of the database, so that every
-- transaction keeps it.
use mathlib.Core.List.{Memᴰ}
use evidence_flow.Prelude.{
  ◌≡◌, ℕ, suc, Bool, true, false, All, Option, none, some, List, [], ◌∷◌, ◌++◌, Text,
}
use evidence_flow.Domain.Approval.{idempotency_key}
use evidence_flow.Domain.Events.{
  EventType, approval_granted, DocumentStatus, extracted, approved, written,
}
use evidence_flow.Domain.Failures.{Error}
use evidence_flow.Repositories.Backing.{IsHashed, IsBacked}
use evidence_flow.Repositories.History.{IsApart}
use evidence_flow.Repositories.Models.{
  Extraction, CrmWrite, CrmRecordRow, ValidationResult, Payload, approval_payload, Job, JobType,
  Env, Db,
}
use evidence_flow.Repositories.Documents.{
  append_event, create_document, create_approval, set_document, set_write, mark_written,
}
use evidence_flow.Services.Extraction.{add_extraction}
use evidence_flow.Workflows.Queue.{enqueue, claim_update, reclaim_expired, succeed, fail}

-- The statuses behind an approval.
abbrev pub is_decided : DocumentStatus → Bool
is_decided approved = true
is_decided written = true
is_decided _ = false

-- A record has the key of a version of a document.
abbrev pub HasRecord : Env → List CrmRecordRow → Text → Text → Type 0
HasRecord env records id hash =
    (row : CrmRecordRow) × (Memᴰ row records
      × (row.idempotency_key ≡ idempotency_key env.sha256 id hash))

-- What `approve_extraction` does at its end.
abbrev pub granted : Env → Text → Text → Text → Text → ℕ → Db → Db
granted env id extraction_id hash actor expires_at db =
    append_event env id (some extraction_id) approval_granted actor
      (approval_payload (env.uuid db.draws) hash expires_at)
      (set_document id (λ d. record d { status = approved; approved_payload_hash = some hash })
        (create_approval env id extraction_id hash actor expires_at db).1)

pub record IsInvariant (env : Env) (P : Db → Type 0) : Type 0 where
  -- drawn identifiers and times
  pub draws : (n : ℕ) (db : Db) → P db → P (record db { draws = n })
  pub event :
      (document_id : Text) (extraction_id : Option Text) (type : EventType) (actor : Text)
      (payload : Payload) (db : Db)
      → P db
      → P (append_event env document_id extraction_id type actor payload db)
  pub document :
      (filename text : Text) (id : Option Text) (db : Db)
      → P db
      → P (create_document env filename text id db).1
  pub extraction : (x : Extraction) (db : Db) → IsHashed env x → P db → P (add_extraction x db)
  pub validation :
      (row : ValidationResult) (db : Db)
      → P db
      → P (record db {
        draws = suc db.draws;
        validation_results = db.validation_results ++ row ∷ [];
      })
  -- a document that is neither approved nor written from now on
  pub status :
      (id : Text) (next : DocumentStatus) (db : Db)
      → is_decided next ≡ false
      → P db
      → P (set_document id (λ d. record d { status = next }) db)
  pub revocation :
      (id : Text) (db : Db)
      → P db
      → P (set_document id (λ d. record d { status = extracted; approved_payload_hash = none }) db)
  -- an approval, the row of its document and its event
  pub grant :
      (id extraction_id hash actor : Text) (expires_at : ℕ) (db : Db)
      → P db
      → P (granted env id extraction_id hash actor expires_at db)
  pub write_claim :
      (w : CrmWrite) (db : Db)
      → P db
      → P (record db { draws = suc db.draws; crm_writes = db.crm_writes ++ w ∷ [] })
  pub write_change :
      (id : Text) (change : CrmWrite → CrmWrite) (db : Db) → P db → P (set_write id change db)
  -- a record with keys of its own, of what was approved
  pub landing :
      (row : CrmRecordRow) (db : Db)
      → All (IsApart row) db.crm_records
      → IsBacked env row.idempotency_key row.payload db.approvals db.extractions
      → P db
      → P (record db { draws = suc db.draws; crm_records = db.crm_records ++ row ∷ [] })
  -- a version that has a record
  pub completion :
      (id hash : Text) (db : Db)
      → HasRecord env db.crm_records id hash
      → P db
      → P (mark_written id hash db).1
  pub job :
      (type : JobType) (document_id : Text) (run_at : Option ℕ) (max_attempts : ℕ) (db : Db)
      → P db
      → P (enqueue env type document_id run_at max_attempts db).1
  pub lease :
      (worker_id : Text) (lease moment : ℕ) (job_id : Text) (db : Db)
      → P db
      → P (claim_update worker_id lease moment job_id db)
  pub reclaim : (db : Db) → P db → P (reclaim_expired env db).1
  pub success : (job : Job) (db : Db) → P db → P (succeed env job db)
  pub failure : (job : Job) (error : Error) (db : Db) → P db → P (fail env job error db)
