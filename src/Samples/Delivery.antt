-- ===== src/Samples/Delivery.antt =====
-- An approved document is written by a request.
use evidence_flow.Providers.Crm.{create_record}
use evidence_flow.Services.CrmWrite.{write_approved_record}
use evidence_flow.Repositories.Documents.{
  get_document, find_write, latest_approval, latest_extraction, claim_write, business_key,
  set_write, append_event, mark_written,
}
use evidence_flow.Api.Routes.{write}
use evidence_flow.Repositories.Session.{session_scope}
use mathlib.Core.List.{Memᴰ}
use evidence_flow.Prelude.{◌≡◌, refl, sym, subst, List, [], ◌∷◌, All, codes, list_beq}
use evidence_flow.Domain.Events.{written}
use evidence_flow.Repositories.Backing.{IsHashed}
use evidence_flow.Services.Extraction.{payload_hash}
use evidence_flow.Repositories.Models.{Document, Db}
use evidence_flow.System.{Action, posts_write, perform_all}
use evidence_flow.System.Truth.{IsConsistent}
use evidence_flow.System.Written.{IsDelivered, perform_all-IsDelivered}
use evidence_flow.Samples.World.{env, approved_document, approval, approved_db}
use evidence_flow.Samples.History.{deployment}

abbrev requests : List Action
requests = posts_write (codes "d") ∷ []

abbrev delivered : Db
delivered = perform_all deployment requests approved_db

abbrev written_document : Document
written_document = record approved_document { status = written }

delivered_documents : delivered.documents ≡ written_document ∷ []
unfolding perform_all session_scope write get_document list_beq write_approved_record find_write
    latest_approval latest_extraction claim_write create_record business_key set_write append_event
    mark_written
delivered_documents = refl

consistent : IsConsistent env approved_db
consistent = (((approval, (Memᴰ.head refl, (refl, refl))), tt), tt)

extractions-AreHashed : All (IsHashed env) approved_db.extractions
unfolding payload_hash
extractions-AreHashed = (refl, tt)

perform_all-IsDelivered_example : IsDelivered env delivered.crm_records written_document
perform_all-IsDelivered_example =
    perform_all-IsDelivered deployment requests approved_db written_document (λ s t e. e) consistent
      extractions-AreHashed tt
      (subst (Memᴰ written_document) (sym delivered_documents) (Memᴰ.head refl)) refl
