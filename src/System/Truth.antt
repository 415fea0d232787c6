-- ===== src/System/Truth.antt =====
-- What the status and the approved hash of a document claim: of the approvals that are stored and of the
-- records of the destination.
pub mod Kept
use mathlib.Core.List.{Memᴰ}
use mathlib.Core.List.Memᴰ
use evidence_flow.Prelude.{
  ◌≡◌, refl, sym, subst, Bool, true, false, All, All-append, Option, none, some, List, [], ◌∷◌,
  ◌++◌, map, Text, ◌==◌, nat_eq, list_eq, Bool-cases, inl, inr,
}
use evidence_flow.Domain.Approval.{idempotency_key}
use evidence_flow.Domain.Events.{
  DocumentStatus, received, extracted, validated, approved, written, extraction_failed,
  needs_review,
}
use evidence_flow.System.Invariant.{is_decided, HasRecord}
use evidence_flow.Repositories.Backing.{Extends, Memᴰ-Extends}
use evidence_flow.Repositories.Models.{Document, Approval, CrmRecordRow, Env, Db}
use evidence_flow.Repositories.Documents.Rows.{All-update_where}
use evidence_flow.Repositories.Documents.{update_where, set_document}

-- A written version of a document is among the records.
abbrev pub IsRecorded : Env → List CrmRecordRow → Text → Text → DocumentStatus → Type 0
IsRecorded env records id hash written =
    (row : CrmRecordRow) × (Memᴰ row records
      × (row.idempotency_key ≡ idempotency_key env.sha256 id hash))
IsRecorded env records id hash _ = Unit {0}

abbrev pub IsApproval : List Approval → Text → Text → Type 0
IsApproval approvals id hash =
    (a : Approval) × (Memᴰ a approvals × ((a.document_id ≡ id) × (a.payload_hash ≡ hash)))

-- Of a document's identifier, status and approved hash.
abbrev pub IsTruthful :
    Env → List Approval → List CrmRecordRow → Text → DocumentStatus → Option Text → Type 0
IsTruthful env approvals records id status none = is_decided status ≡ false
IsTruthful env approvals records id status (some hash) =
    IsApproval approvals id hash × IsRecorded env records id hash status

abbrev pub IsTrue : Env → List Approval → List CrmRecordRow → Document → Type 0
IsTrue env approvals records d =
    IsTruthful env approvals records d.id d.status d.approved_payload_hash

abbrev pub IsConsistent : Env → Db → Type 0
IsConsistent env db = All (IsTrue env db.approvals db.crm_records) db.documents

-- A status that claims nothing.
undecided-IsRecorded :
    (env : Env) (records : List CrmRecordRow) (id hash : Text) (status : DocumentStatus)
    → is_decided status ≡ false
    → IsRecorded env records id hash status
undecided-IsRecorded env records id hash received e = tt
undecided-IsRecorded env records id hash extracted e = tt
undecided-IsRecorded env records id hash validated e = tt
undecided-IsRecorded env records id hash approved e = absurd (cc)
undecided-IsRecorded env records id hash written e = absurd (cc)
undecided-IsRecorded env records id hash DocumentStatus.extraction_failed e = tt
undecided-IsRecorded env records id hash needs_review e = tt

pub undecided-IsTruthful :
    (env : Env) (approvals : List Approval) (records : List CrmRecordRow) (id : Text)
    (status : DocumentStatus) (hash : Option Text) (next : DocumentStatus)
    → is_decided next ≡ false
    → IsTruthful env approvals records id status hash
    → IsTruthful env approvals records id next hash
undecided-IsTruthful env approvals records id status none next e h = e
undecided-IsTruthful env approvals records id status (some hash) next e h =
    (h.0, undecided-IsRecorded env records id hash next e)

-- More approvals and more records.
Extends-IsRecorded :
    (env : Env) (records more : List CrmRecordRow) (id hash : Text) (status : DocumentStatus)
    → Extends records more
    → IsRecorded env records id hash status
    → IsRecorded env more id hash status
Extends-IsRecorded env records more id hash received e h = tt
Extends-IsRecorded env records more id hash extracted e h = tt
Extends-IsRecorded env records more id hash validated e h = tt
Extends-IsRecorded env records more id hash approved e h = tt
Extends-IsRecorded env records more id hash written e (row, (m, k)) =
    (row, (Memᴰ-Extends row records more e m, k))
Extends-IsRecorded env records more id hash DocumentStatus.extraction_failed e h = tt
Extends-IsRecorded env records more id hash needs_review e h = tt

pub Extends-IsTruthful :
    (env : Env) (approvals more_approvals : List Approval) (records more : List CrmRecordRow)
    (id : Text) (status : DocumentStatus) (hash : Option Text)
    → Extends approvals more_approvals
    → Extends records more
    → IsTruthful env approvals records id status hash
    → IsTruthful env more_approvals more id status hash
Extends-IsTruthful env approvals more_approvals records more id status none e f h = h
Extends-IsTruthful env approvals more_approvals records more id status (some hash) e f
      ((a, (m, same)), recorded) =
    (
      (a, (Memᴰ-Extends a approvals more_approvals e m, same)),
      Extends-IsRecorded env records more id hash status f recorded,
    )

pub set_document-IsConsistent :
    (env : Env) (id : Text) (change : Document → Document) (db : Db)
    → ((d : Document)
        → IsTrue env db.approvals db.crm_records d
        → IsTrue env db.approvals db.crm_records (change d))
    → IsConsistent env db
    → IsConsistent env (set_document id change db)
unfolding set_document
set_document-IsConsistent env id change db keeps =
    All-update_where (IsTrue env db.approvals db.crm_records)
      (IsTrue env db.approvals db.crm_records) (λ d. d.id == id) change (λ d h. h)
      (λ d same h. keeps d h) db.documents

-- A document gets a status that claims nothing.
pub set_undecided-IsConsistent :
    (env : Env) (id : Text) (status : DocumentStatus) (db : Db)
    → is_decided status ≡ false
    → IsConsistent env db
    → IsConsistent env (set_document id (λ d. record d { status = status }) db)
set_undecided-IsConsistent env id status db e =
    set_document-IsConsistent env id (λ d. record d { status = status }) db
      (λ d.
        undecided-IsTruthful env db.approvals db.crm_records d.id d.status d.approved_payload_hash
          status e)
