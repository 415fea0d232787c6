-- ===== src/Services/Extraction/Revocation.antt =====
-- An extraction takes back what was approved before it.
use evidence_flow.Prelude.{
  ◌≡◌, refl, sym, ap, ◌∙◌, Bool, Option, none, some, List, [], ◌∷◌, Text, arith, ◌==◌, nat_eq,
  list_eq, Bool-cases, inl, inr, Result, ok, err, map_option, find,
}
use evidence_flow.Domain.Events.{EventType, extracted}
use evidence_flow.Domain.Evidence.Results.{EvidenceResult, verify_draft}
use evidence_flow.Domain.Failures.{Error, no_approval_recorded, is_provider_error}
use evidence_flow.Domain.Schema.{InvoiceDraft}
use evidence_flow.Repositories.Models.{Document, Extraction, Env, Db}
use evidence_flow.Repositories.Documents.{get_document, append_event}
use evidence_flow.Repositories.Documents.Rows.{get-set_document}
use evidence_flow.Providers.Crm.{CrmClient}
use evidence_flow.Services.CrmWrite.{write_version, write_approved_record}
use evidence_flow.Services.Extraction.{
  Validated, valid, invalid, raised, read_payload, ProviderResult, Intake, ExtractionOutcome,
  succeeded_row, add_extraction, fail_extraction, record_evidence_events, event_if_any,
  accept_draft, validate_payload, receive, extract_document,
}

-- The row of a document after a successful extraction.
abbrev pub extracted_anew : Document → Document
extracted_anew d = record d { status = extracted; approved_payload_hash = none }

event_if_any-documents :
    (env : Env) (document : Document) (x : Extraction) (type : EventType) (l : List Text) (db : Db)
    → (event_if_any env document x type l db).documents ≡ db.documents
unfolding event_if_any append_event
event_if_any-documents env document x type [] db = refl
event_if_any-documents env document x type (n ∷ ns) db = refl

record_evidence_events-documents :
    (env : Env) (document : Document) (x : Extraction) (evidence : List EvidenceResult) (db : Db)
    → (record_evidence_events env document x evidence db).documents ≡ db.documents
unfolding record_evidence_events
record_evidence_events-documents env document x evidence db = simp event_if_any-documents

accepted_row :
    (env : Env) (document : Document) (fallback : Bool) (result : ProviderResult)
    (draft : InvoiceDraft) (db : Db)
    → get_document document.id (accept_draft env document fallback result draft db).1
      ≡ map_option extracted_anew (get_document document.id db)
unfolding accept_draft get_document append_event
accepted_row env document fallback result draft db =
    let evidence = verify_draft draft document.source_text fallback in
    let x = succeeded_row env document.id result draft evidence db in
    get-set_document document.id extracted_anew (λ d. refl)
      (record_evidence_events env document x evidence (add_extraction x db))
    ∙ ap (λ rows. map_option extracted_anew (find (λ d. d.id == document.id) rows))
        (record_evidence_events-documents env document x evidence (add_extraction x db))

-- The document is extracted in `after` and has no approved version there.
abbrev pub Extracted : Document → Db → Db → Type 0
Extracted document db after =
    get_document document.id after ≡ map_option extracted_anew (get_document document.id db)

payload-Extracted :
    (env : Env) (document : Document) (fallback : Bool) (result : ProviderResult)
    (read : Result Text InvoiceDraft) (db : Db)
    → (validate_payload env document fallback result read db).0.error ≡ none
    → Extracted document db (validate_payload env document fallback result read db).1
unfolding validate_payload fail_extraction
payload-Extracted env document fallback result (err summary) db e = absurd (cc)
payload-Extracted env document fallback result (ok draft) db e =
    accepted_row env document fallback result draft db

outcome_same :
    {a b : ExtractionOutcome}
    → ◌≡◌ {A = Result Error ExtractionOutcome} (ok a) (ok b)
    → a.error ≡ b.error
outcome_same h = ground arith

read-Extracted :
    (env : Env) (document : Document) (fallback : Bool) (result : ProviderResult) (read : Validated)
    (db : Db) (o : ExtractionOutcome)
    → (read_payload env document fallback result read db).0 ≡ ok o
    → o.error ≡ none
    → Extracted document db (read_payload env document fallback result read db).1
unfolding read_payload
read-Extracted env document fallback result (raised e) db o h fine = absurd (cc)
read-Extracted env document fallback result (invalid summary) db o h fine =
    payload-Extracted env document fallback result (err summary) db (outcome_same h ∙ fine)
read-Extracted env document fallback result (valid draft) db o h fine =
    payload-Extracted env document fallback result (ok draft) db (outcome_same h ∙ fine)

receive-Extracted :
    (env : Env) (intake : Intake) (document : Document) (fallback : Bool)
    (answer : Result Error ProviderResult) (db : Db) (o : ExtractionOutcome)
    → (receive env intake document fallback answer db).0 ≡ ok o
    → o.error ≡ none
    → Extracted document db (receive env intake document fallback answer db).1
unfolding receive fail_extraction
receive-Extracted env intake document fallback (err e) db o h fine =
    elim (Bool-cases (is_provider_error e)) [
      | inl known ↦ absurd (ground arith)
      | inr other ↦ absurd (ground arith)
    ]
receive-Extracted env intake document fallback (ok result) db o h fine =
    read-Extracted env document fallback result (intake.model_validate result.raw) db o h fine

-- A successful extraction leaves its document extracted, with no approved version.
pub extract_document-Extracted :
    (env : Env) (intake : Intake) (fallback : Bool) (document : Document) (db : Db)
    (o : ExtractionOutcome)
    → (extract_document env intake fallback document db).0 ≡ ok o
    → o.error ≡ none
    → Extracted document db (extract_document env intake fallback document db).1
unfolding extract_document append_event get_document
extract_document-Extracted env intake fallback document db o h fine =
    receive-Extracted env intake document fallback (intake.provide document.source_text) _ o h fine

revoked :
    (found : Option Document) (later : Document)
    → map_option extracted_anew found ≡ some later
    → later.approved_payload_hash ≡ none
revoked none later h = absurd (cc)
revoked (some d) later h = ground arith

-- After a successful extraction a write of the document is refused before anything is looked up, and
-- changes nothing, whatever was approved before: the new version needs an approval of its own.
pub write_after_extraction :
    (env : Env) (intake : Intake) (fallback : Bool) (crm : CrmClient) (conflict : Option Db)
    (document later : Document) (db : Db) (o : ExtractionOutcome)
    → (extract_document env intake fallback document db).0 ≡ ok o
    → o.error ≡ none
    → get_document document.id (extract_document env intake fallback document db).1 ≡ some later
    → write_approved_record env crm conflict later
        (extract_document env intake fallback document db).1
      ≡ (err no_approval_recorded, (extract_document env intake fallback document db).1)
unfolding write_approved_record
write_after_extraction env intake fallback crm conflict document later db o h fine found =
    let after = (extract_document env intake fallback document db).1 in
    let none_left =
      revoked (get_document document.id db) later
        (sym (extract_document-Extracted env intake fallback document db o h fine) ∙ found) in
    ap (λ hash. write_version env crm conflict later hash after) none_left
    ∙ (unfold write_version in refl)
