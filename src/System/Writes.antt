-- ===== src/System/Writes.antt =====
-- A write keeps what the changes of the tables keep: what it gives the destination was approved, and
-- only what landed becomes written.
use mathlib.Core.List.{Memᴰ}
use mathlib.Core.Path.{ap₂}
use evidence_flow.Repositories.Backing.{IsBacked, latest_extraction_found, latest_approval_found}
use evidence_flow.Prelude.{
  ◌≡◌, refl, sym, ap, ◌∙◌, ==_iff, Bool, true, false, Option, none, some, Text, ◌==◌, nat_eq,
  list_eq, option_eq, leb, suc, ◌+◌, Result, ok, err, Bool-cases, inl, inr,
}
use evidence_flow.Domain.Approval.{idempotency_key}
use evidence_flow.Domain.Events.{write_attempted, WriteStatus, document_status_eq, write_status_eq}
use evidence_flow.Domain.Failures.{Error, is_crm_error}
use evidence_flow.Services.Validation.{system_actor}
use evidence_flow.Domain.Schema.{InvoiceDraft}
use evidence_flow.Repositories.Models.{
  attempt_payload, Document, Extraction, Approval, CrmWrite, Env, Db,
}
use evidence_flow.Repositories.Documents.{
  tick, append_event, latest_extraction, latest_approval, claim_write, claim_found, insert_write,
  set_write, mark_written, find_write,
}
use evidence_flow.Providers.Crm.{CrmRecord, create_record}
use evidence_flow.Services.CrmWrite.{
  begin_attempt, on_crm_error, confirm, finish_write, attempt_write, write_extraction,
  write_approval, write_found, write_version, write_approved_record, landed, attempted,
}
use evidence_flow.System.Invariant.{IsInvariant}
use evidence_flow.System.Landing.{
  IsOnRecord, claim_write-P, create_record-P, create_record-IsOnRecord,
}

-- The claim leaves what stands behind a record as it is.
claim_found-IsBacked :
    (env : Env) (document_id extraction_id key : Text) (payload : Option InvoiceDraft)
    (found : Option CrmWrite) (db : Db)
    → IsBacked env key payload db.approvals db.extractions
    → IsBacked env key payload
        (claim_found found env none document_id extraction_id key db).1.approvals
        (claim_found found env none document_id extraction_id key db).1.extractions
unfolding claim_found insert_write
claim_found-IsBacked env document_id extraction_id key payload (some existing) db backed = backed
claim_found-IsBacked env document_id extraction_id key payload none db backed = backed

module _ (env : Env) (P : Db → Type 0) (inv : IsInvariant env P) (document_id hash : Text) where
  abbrev key : Text
  key = idempotency_key env.sha256 document_id hash

  module _ (x : Extraction) (w : CrmWrite) where
    on_crm_error-P : (e : Error) (db : Db) → P db → P (on_crm_error env document_id x key w e db)
    unfolding on_crm_error
    on_crm_error-P e db h = elim (Bool-cases (is_crm_error e)) [
      | inr other ↦ rw other h
      | inl known ↦
          rw known
            (inv.event document_id (some x.id) _ system_actor _ _ (inv.write_change w.id _ db h))
    ]

    confirm-P :
        (made : CrmRecord) (marked : Bool × Db)
        → P marked.1
        → P (confirm env document_id x key w made marked).1
    unfolding confirm
    confirm-P made (false, db) h = h
    confirm-P made (true, db) h = inv.event document_id (some x.id) _ system_actor _ db h

    finish_write-P :
        (called : Result Error CrmRecord × Db)
        → IsOnRecord env document_id hash called
        → P called.1
        → P (finish_write env document_id hash x key w called).1
    unfolding finish_write set_write
    finish_write-P (err e, db) recorded h = on_crm_error-P e db h
    finish_write-P (ok made, db) recorded h =
        let stored = set_write w.id (landed made.external_id) db in
        confirm-P made (mark_written document_id hash stored) (
          inv.completion document_id hash stored recorded
            (inv.write_change w.id (landed made.external_id) db h))

  attempt_write-P :
      (x : Extraction) (claim : Result Error (CrmWrite × Bool) × Db)
      → IsBacked env key x.draft claim.1.approvals claim.1.extractions
      → P claim.1
      → P (attempt_write env (create_record env) document_id hash x key claim).1
  unfolding attempt_write begin_attempt set_write append_event
  attempt_write-P x (err e, db) backed h = h
  attempt_write-P x (ok (w, claimed), db) backed h =
      let begun = begin_attempt env document_id x key w claimed db in
      let told =
        append_event env document_id (some x.id) write_attempted system_actor
          (attempt_payload key (w.attempts + 1) claimed) db in
      finish_write-P x w (create_record env key x.draft begun)
        (create_record-IsOnRecord env document_id hash x.draft begun)
        (create_record-P env P inv key x.draft begun backed (
          inv.write_change w.id attempted told
            (inv.event document_id (some x.id) write_attempted system_actor _ db h)))

  -- With an approval of this version of the document in the database.
  module _ (a : Approval) (of_id : a.document_id ≡ document_id)
      (of_hash : a.payload_hash ≡ hash) where
    extraction-IsBacked :
        (x : Extraction) (db : Db)
        → Memᴰ a db.approvals
        → latest_extraction document_id db ≡ some x
        → x.payload_hash ≡ some hash
        → IsBacked env key x.draft db.approvals db.extractions
    extraction-IsBacked x db among e same =
        let (stored, of_document) = latest_extraction_found document_id x db e in
        record {
          approval = a;
          extraction = x;
          approved = among;
          extracted = stored;
          of_document = of_document ∙ sym of_id;
          of_version = same ∙ ap some (sym of_hash);
          of_payload = refl;
          of_key = ap₂ (idempotency_key env.sha256) (sym of_id) (sym of_hash);
        }

    write_extraction-P :
        (latest : Option Extraction) (db : Db)
        → Memᴰ a db.approvals
        → latest_extraction document_id db ≡ latest
        → P db
        → P (write_extraction env (create_record env) none document_id hash key latest db).1
    unfolding write_extraction claim_write
    write_extraction-P none db among e h = h
    write_extraction-P (some x) db among e h = elim (Bool-cases (x.payload_hash == some hash)) [
      | inr other ↦ rw other h
      | inl same ↦
          let backed =
            extraction-IsBacked x db among e ((==_iff x.payload_hash (some hash)).0 same) in
          rw same (
            attempt_write-P x (claim_write env none document_id x.id key db)
              (claim_found-IsBacked env document_id x.id key x.draft (find_write key db) db backed)
              (claim_write-P env P inv document_id x.id key db h))
    ]

  write_approval-P :
      (latest : Option Approval) (db : Db)
      → latest_approval document_id db ≡ latest
      → P db
      → P (write_approval env (create_record env) none document_id hash key latest db).1
  unfolding write_approval
  write_approval-P none db e h = h
  write_approval-P (some a) db e h =
      let drawn = inv.draws (suc db.draws) db h in
      elim (Bool-cases (a.payload_hash == hash)) [
        | inr other ↦ rw other h
        | inl same ↦ elim (Bool-cases (leb a.expires_at (env.clock db.draws))) [
          | inl expired ↦ rw (same, expired) drawn
          | inr live ↦
              let (among, of_document) = latest_approval_found document_id a db e in
              rw (same, live)
                (write_extraction-P a of_document ((==_iff a.payload_hash hash).0 same)
                  (latest_extraction document_id (tick db)) (tick db) among refl drawn)
        ]
      ]

module _ (env : Env) (P : Db → Type 0) (inv : IsInvariant env P) where
  write_found-P :
      (document : Document) (hash : Text) (found : Option CrmWrite) (db : Db)
      → P db
      → P
          (write_found env
            (create_record env)
            none
            document
            hash
            (idempotency_key env.sha256 document.id hash)
            found
            db).1
  unfolding write_found
  write_found-P document hash none db h =
      write_approval-P env P inv document.id hash (latest_approval document.id db) db refl h
  write_found-P document hash (some w) db h =
      elim (Bool-cases (w.status == WriteStatus.succeeded)) [
        | inl settled ↦ rw settled h
        | inr open_write ↦
            rw open_write (
              write_approval-P env P inv document.id hash (latest_approval document.id db) db refl
                h)
      ]

  write_version-P :
      (document : Document) (hash : Option Text) (db : Db)
      → P db
      → P (write_version env (create_record env) none document hash db).1
  unfolding write_version
  write_version-P document none db h = h
  write_version-P document (some hash) db h =
      write_found-P document hash (find_write (idempotency_key env.sha256 document.id hash) db) db h

  pub write_approved_record-P :
      (document : Document) (db : Db)
      → P db
      → P (write_approved_record env (create_record env) none document db).1
  unfolding write_approved_record
  write_approved_record-P document db = write_version-P document document.approved_payload_hash db
