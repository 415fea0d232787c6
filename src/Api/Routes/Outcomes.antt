-- ===== src/Api/Routes/Outcomes.antt =====
-- What a request to the JSON routes leaves committed when a service raises.
use evidence_flow.Prelude.{◌≡◌, refl, true, false, Option, some, Text, arith, err}
use evidence_flow.Domain.Failures.{
  Error, http_refusal, is_approval_error, is_crm_error, default_approval_ttl,
}
use evidence_flow.Repositories.Models.{Document, Extraction, Env, Db}
use evidence_flow.Repositories.Documents.{get_document, latest_extraction}
use evidence_flow.Repositories.Session.{session_scope}
use evidence_flow.Providers.Crm.{CrmClient}
use evidence_flow.Services.Approval.{approve_extraction}
use evidence_flow.Services.CrmWrite.{write_approved_record}
use evidence_flow.Api.Errors.{as_http_error, commit_refusal}
use evidence_flow.Api.Routes.{approve, write}

pub crm_error_not_approval : (e : Error) → is_crm_error e ≡ true → is_approval_error e ≡ false
unfolding is_crm_error is_approval_error
crm_error_not_approval e h = ground arith

-- A write through the API that the destination refuses is answered 502, and the database is as it
-- was before the request, but for the identifiers and times that were drawn: the failed row of
-- `crm_write` and the events of the attempt are lost.
pub write_crm_error :
    (env : Env) (crm : CrmClient) (conflict : Option Db) (document_id : Text) (db after : Db)
    (document : Document) (e : Error)
    → get_document document_id db ≡ some document
    → write_approved_record env crm conflict document db ≡ (err e, after)
    → is_crm_error e ≡ true
    → session_scope (write env crm conflict document_id) db
      ≡ (err (http_refusal 502 e), record db { draws = after.draws })
unfolding session_scope write
write_crm_error env crm conflict document_id db after document e found raised known =
    rw (found, raised, crm_error_not_approval e known, known) refl

-- A write that the approval step refuses is answered as an HTTP error, and what the service has
-- recorded by then is committed.
pub write_refusal :
    (env : Env) (crm : CrmClient) (conflict : Option Db) (document_id : Text) (db after : Db)
    (document : Document) (e : Error)
    → get_document document_id db ≡ some document
    → write_approved_record env crm conflict document db ≡ (err e, after)
    → is_approval_error e ≡ true
    → session_scope (write env crm conflict document_id) db ≡ (err (as_http_error e), after)
unfolding session_scope write commit_refusal
write_refusal env crm conflict document_id db after document e found raised known =
    rw (found, raised, known) refl

-- A refused approval is answered as an HTTP error, and the route that the rules gave the document is
-- committed with the events.
pub approve_refusal :
    (env : Env) (actor document_id : Text) (db after : Db) (document : Document) (x : Extraction)
    (e : Error)
    → get_document document_id db ≡ some document
    → latest_extraction document_id db ≡ some x
    → approve_extraction env document x actor default_approval_ttl db ≡ (err e, after)
    → is_approval_error e ≡ true
    → session_scope (approve env actor document_id) db ≡ (err (as_http_error e), after)
unfolding session_scope approve commit_refusal
approve_refusal env actor document_id db after document x e found latest raised known =
    rw (found, latest, raised, known) refl
