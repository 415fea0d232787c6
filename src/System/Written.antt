-- ===== src/System/Written.antt =====
-- A written document and its record, after the transactions of the whole program.
use mathlib.Core.List.{Memᴰ}
use evidence_flow.Prelude.{◌≡◌, refl, false, sym, ◌∙◌, subst, All, Option, none, some, List, Text}
use evidence_flow.Domain.Approval.{idempotency_key}
use evidence_flow.Domain.Approval.Framing.{idempotency_key_injective}
use evidence_flow.Domain.Events.{DocumentStatus, written}
use evidence_flow.Domain.Schema.{InvoiceDraft}
use evidence_flow.Repositories.Models.{Document, CrmRecordRow, Env, Db}
use evidence_flow.Repositories.Backing.{IsHashed, IsRecordBacked}
use evidence_flow.Services.Extraction.{payload_hash}
use evidence_flow.System.{Deployment, Action, perform_all}
use evidence_flow.System.Approved.{WasApproved, All-Memᴰ, perform_all-AllApproved}
use evidence_flow.System.Truth.{IsConsistent, IsRecorded, IsTruthful, IsTrue}
use evidence_flow.System.Invariant.{is_decided}
use evidence_flow.System.Truth.Kept.{perform_all-IsConsistent}

-- The approved hash of a document is that of the draft in a record with the key of the two.
pub record IsDelivered (env : Env) (records : List CrmRecordRow) (document : Document)
    : Type 0 where
  pub hash : Text
  pub row : CrmRecordRow
  pub draft : InvoiceDraft
  pub of_document : document.approved_payload_hash ≡ some hash
  pub stored : Memᴰ row records
  pub of_key : row.idempotency_key ≡ idempotency_key env.sha256 document.id hash
  pub of_payload : row.payload ≡ some draft
  pub of_hash : hash ≡ payload_hash env draft

written_hash :
    (env : Env) (db : Db) (id : Text) (status : DocumentStatus) (approved_hash : Option Text)
    → status ≡ written
    → IsTruthful env db.approvals db.crm_records id status approved_hash
    → (hash : Text) × ((approved_hash ≡ some hash)
        × ((row : CrmRecordRow) × (Memᴰ row db.crm_records
              × (row.idempotency_key ≡ idempotency_key env.sha256 id hash))))
written_hash env db id status none e claim =
    let undecided : is_decided written ≡ false = subst (λ s. is_decided s ≡ false) e claim in
    absurd (cc)
written_hash env db id status (some hash) e claim =
    (hash, (refl, subst (IsRecorded env db.crm_records id hash) e claim.1))

-- After any requests, starts and sessions of workers, in any order, if the digest has no collision, and
-- the database before was consistent, its extractions had the hashes of their drafts and its records an
-- approval and an extraction behind them: for a document that is written, a record of the destination
-- has the key of the document and its approved hash, and the draft in that record has this hash.
pub perform_all-IsDelivered :
    (d : Deployment) (actions : List Action) (db : Db) (document : Document)
    → ((s t : Text) → d.env.sha256 s ≡ d.env.sha256 t → s ≡ t)
    → IsConsistent d.env db
    → All (IsHashed d.env) db.extractions
    → All (IsRecordBacked d.env db.approvals db.extractions) db.crm_records
    → Memᴰ document (perform_all d actions db).documents
    → document.status ≡ written
    → IsDelivered d.env (perform_all d actions db).crm_records document
perform_all-IsDelivered d actions db document no_collision consistent hashed backed there
      is_written =
    let after = perform_all d actions db in
    let claim : IsTrue d.env after.approvals after.crm_records document =
      All-Memᴰ (IsTrue d.env after.approvals after.crm_records) document after.documents there
        (perform_all-IsConsistent d actions db consistent) in
    let (hash, (of_document, (row, (stored, keyed)))) =
      written_hash d.env after document.id document.status document.approved_payload_hash is_written
        claim in
    let approved : WasApproved d.env after row =
      All-Memᴰ (WasApproved d.env after) row after.crm_records stored
        (perform_all-AllApproved d actions db hashed backed) in
    let (same_document, same_hash) =
      idempotency_key_injective d.env.sha256 no_collision document.id approved.approval.document_id
        hash approved.approval.payload_hash (sym keyed ∙ approved.of_key) in
    record {
      hash = hash;
      row = row;
      draft = approved.draft;
      of_document = of_document;
      stored = stored;
      of_key = keyed;
      of_payload = approved.of_payload;
      of_hash = same_hash ∙ approved.of_hash;
    }
