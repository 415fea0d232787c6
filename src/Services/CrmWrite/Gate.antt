-- ===== src/Services/CrmWrite/Gate.antt =====
-- When `write_approved_record` calls the destination.
use evidence_flow.Prelude.{
  ◌<◌, ◌≡◌, refl, Option, none, some, Text, arith, ◌==◌, ==_iff, nat_eq, list_eq, option_eq, leb,
  Bool-cases, inl, inr, Result,
}
use evidence_flow.Domain.Approval.{idempotency_key}
use evidence_flow.Domain.Events.{WriteStatus, write_status_eq}
use evidence_flow.Domain.Failures.{Error}
use evidence_flow.Repositories.Models.{Document, Extraction, Approval, CrmWrite, Env, Db}
use evidence_flow.Repositories.Documents.{tick, latest_approval, latest_extraction}
use evidence_flow.Providers.Crm.{CrmClient}
use evidence_flow.Services.CrmWrite.{
  WriteOutcome, write_extraction, write_approval, write_found, write_version, write_approved_record,
}

-- The current version of a document may be written: the latest approval is of the approved hash and
-- has not expired, and the latest extraction has that hash.
pub record MayWrite (env : Env) (document : Document) (db : Db) : Type 0 where
  pub payload_hash : Text
  pub approved_hash : document.approved_payload_hash ≡ some payload_hash
  pub approval : Approval
  pub latest : latest_approval document.id db ≡ some approval
  pub same_hash : approval.payload_hash ≡ payload_hash
  pub live : env.clock db.draws < approval.expires_at
  pub extraction : Extraction
  pub current : latest_extraction document.id (tick db) ≡ some extraction
  pub unchanged : extraction.payload_hash ≡ some payload_hash

-- The result is not that of a call of the destination, whatever the client is.
abbrev NoCall : (CrmClient → Result Error WriteOutcome × Db) → Type 0
NoCall f = (crm crm' : CrmClient) → f crm ≡ f crm'

module _ (env : Env) (conflict : Option Db) (document : Document) (db : Db)
    (refused : ¬ (MayWrite env document db)) where
  extraction-NoCall :
      (h : Text) (a : Approval) (x : Option Extraction)
      → document.approved_payload_hash ≡ some h
      → latest_approval document.id db ≡ some a
      → a.payload_hash ≡ h
      → env.clock db.draws < a.expires_at
      → latest_extraction document.id (tick db) ≡ x
      → NoCall (λ crm.
        write_extraction env crm conflict document.id h
          (idempotency_key env.sha256 document.id h)
          x
          (tick db))
  unfolding write_extraction
  extraction-NoCall h a none eh ea same live ex crm crm' = refl
  extraction-NoCall h a (some x) eh ea same live ex crm crm' =
      elim (Bool-cases (x.payload_hash == some h)) [
        | inl hit ↦ absurd (
            refused (record {
              payload_hash = h;
              approved_hash = eh;
              approval = a;
              latest = ea;
              same_hash = same;
              live = live;
              extraction = x;
              current = ex;
              unchanged = (==_iff x.payload_hash (some h)).0 hit;
            }))
        | inr miss ↦ rw miss refl
      ]

  approval-NoCall :
      (h : Text) (a : Option Approval)
      → document.approved_payload_hash ≡ some h
      → latest_approval document.id db ≡ a
      → NoCall (λ crm.
        write_approval env crm conflict document.id h
          (idempotency_key env.sha256 document.id h)
          a
          db)
  unfolding write_approval
  approval-NoCall h none eh ea crm crm' = refl
  approval-NoCall h (some a) eh ea crm crm' = elim (Bool-cases (a.payload_hash == h)) [
    | inr other ↦ rw other refl
    | inl same ↦ elim (Bool-cases (leb a.expires_at (env.clock db.draws))) [
      | inl late ↦ rw (same, late) refl
      | inr live ↦
          rw (same, live)
            (extraction-NoCall h a _ eh ea ((==_iff a.payload_hash h).0 same) (ground arith) refl
              crm crm')
    ]
  ]

  found-NoCall :
      (h : Text) (w : Option CrmWrite)
      → document.approved_payload_hash ≡ some h
      → NoCall (λ crm.
        write_found env crm conflict document h (idempotency_key env.sha256 document.id h) w db)
  unfolding write_found
  found-NoCall h none eh crm crm' = approval-NoCall h _ eh refl crm crm'
  found-NoCall h (some w) eh crm crm' = elim (Bool-cases (w.status == WriteStatus.succeeded)) [
    | inl done ↦ rw done refl
    | inr open_ ↦ rw open_ (approval-NoCall h _ eh refl crm crm')
  ]

  version-NoCall :
      (h : Option Text)
      → document.approved_payload_hash ≡ h
      → NoCall (λ crm. write_version env crm conflict document h db)
  unfolding write_version
  version-NoCall none eh crm crm' = refl
  version-NoCall (some h) eh crm crm' = found-NoCall h _ eh crm crm'

-- Unless the latest approval is of the document's approved hash and still runs, and the latest
-- extraction has that hash, the destination is not called: the result and the database are the same
-- whatever the destination would do.
pub write_needs_approval :
    (env : Env) (conflict : Option Db) (document : Document) (db : Db) (crm crm' : CrmClient)
    → ¬ (MayWrite env document db)
    → write_approved_record env crm conflict document db
      ≡ write_approved_record env crm' conflict document db
unfolding write_approved_record
write_needs_approval env conflict document db crm crm' refused =
    version-NoCall env conflict document db refused document.approved_payload_hash refl crm crm'
