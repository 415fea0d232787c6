-- ===== src/System/Approved.antt =====
-- The records of the destination and the approvals, after the transactions of the whole program.
use mathlib.Core.List.{Memᴰ}
use mathlib.Core.List.Memᴰ
use evidence_flow.Prelude.{
  ◌≡◌, refl, sym, ◌∙◌, subst, inl, inr, All, All-map_of, All-append, ◌++◌, Option, none, some,
  some_injective, List, [], ◌∷◌, Text, map_option,
}
use evidence_flow.Domain.Approval.{idempotency_key}
use evidence_flow.Domain.Schema.{InvoiceDraft}
use evidence_flow.Repositories.Backing.{IsBacked-Extends, IsHashed, IsRecordBacked}
use evidence_flow.Repositories.Models.{Approval, CrmRecordRow, Env, Db, empty_db}
use evidence_flow.Services.Extraction.{payload_hash}
use evidence_flow.System.{Deployment, Action, perform_all}
use evidence_flow.System.History.{perform_all-Keeps}

-- A stored approval gives the key of the record, and is of the hash of the draft in the record.
pub record WasApproved (env : Env) (db : Db) (row : CrmRecordRow) : Type 0 where
  pub approval : Approval
  pub draft : InvoiceDraft
  pub stored : Memᴰ approval db.approvals
  pub of_payload : row.payload ≡ some draft
  pub of_hash : approval.payload_hash ≡ payload_hash env draft
  pub of_key :
      row.idempotency_key ≡ idempotency_key env.sha256 approval.document_id approval.payload_hash

pub All-Memᴰ : {A : Type 0} (P : A → Type 0) (x : A) (xs : List A) → Memᴰ x xs → All P xs → P x
All-Memᴰ P x [] m h = elim m [ ]
All-Memᴰ P x (y ∷ ys) m h = elim (Memᴰ.cases_cons m) [
  | inl e ↦ subst P (sym e) h.0
  | inr later ↦ All-Memᴰ P x ys later h.1
]

-- The draft behind a hash.
draft_of_hash :
    (env : Env) (payload : Option InvoiceDraft) (hash : Text)
    → some hash ≡ map_option (payload_hash env) payload
    → (draft : InvoiceDraft) × ((payload ≡ some draft) × (hash ≡ payload_hash env draft))
draft_of_hash env none hash e = absurd (cc)
draft_of_hash env (some draft) hash e = (draft, (refl, some_injective e))

backed-WasApproved :
    (env : Env) (db : Db) (row : CrmRecordRow)
    → All (IsHashed env) db.extractions
    → IsRecordBacked env db.approvals db.extractions row
    → WasApproved env db row
backed-WasApproved env db row hashed b =
    let hash : IsHashed env b.extraction =
      All-Memᴰ (IsHashed env) b.extraction db.extractions b.extracted hashed in
    let (draft, (same, of_hash)) =
      draft_of_hash env b.extraction.draft b.approval.payload_hash (sym b.of_version ∙ hash) in
    record {
      approval = b.approval;
      draft = draft;
      stored = b.approved;
      of_payload = sym b.of_payload ∙ same;
      of_hash = of_hash;
      of_key = b.of_key;
    }

-- From a database whose extractions have the hashes of their drafts, and whose records are backed.
pub perform_all-AllApproved :
    (d : Deployment) (actions : List Action) (db : Db)
    → All (IsHashed d.env) db.extractions
    → All (IsRecordBacked d.env db.approvals db.extractions) db.crm_records
    → All (WasApproved d.env (perform_all d actions db)) (perform_all d actions db).crm_records
perform_all-AllApproved d actions db old_hashed old_backed =
    let after = perform_all d actions db in
    let (
      events,
      ((xs, (grown, hashed)), (approvals, (results, (rows, (added, (fresh, backed)))))),
    ) =
      perform_all-Keeps d actions db in
    let all_hashed : All (IsHashed d.env) after.extractions =
      subst (All (IsHashed d.env)) (sym grown)
        (All-append (IsHashed d.env) db.extractions xs old_hashed hashed) in
    let kept =
      All-map_of
        (λ (row : CrmRecordRow).
          IsBacked-Extends d.env row.idempotency_key row.payload db.approvals after.approvals
            db.extractions after.extractions approvals (xs, grown))
        db.crm_records old_backed in
    subst (All (WasApproved d.env after)) (sym added) (
      All-map_of (λ row. backed-WasApproved d.env after row all_hashed) (db.crm_records ++ rows)
        (All-append (IsRecordBacked d.env after.approvals after.extractions) db.crm_records rows
          kept backed))

-- After any requests, starts and sessions of workers, in any order, from an empty database: for each
-- record of the destination an approval is stored that gives the record's key, and the record's draft
-- has the hash that was approved.
pub perform_all-WasApproved :
    (d : Deployment) (actions : List Action)
    → All
        (WasApproved d.env (perform_all d actions empty_db))
        (perform_all d actions empty_db).crm_records
perform_all-WasApproved d actions = perform_all-AllApproved d actions empty_db tt tt
