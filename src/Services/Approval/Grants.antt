-- ===== src/Services/Approval/Grants.antt =====
-- When an approval is granted.
use evidence_flow.Prelude.{
  ℕ, ◌≡◌, ◌↔◌, refl, some, List, [], ◌∷◌, filter, Text, ==_iff, list_eq, nat_eq, All, ok,
}
use evidence_flow.Domain.Events.{validated, document_status_eq}
use evidence_flow.Domain.Schema.{InvoiceDraft}
use evidence_flow.Domain.Validation.{RuleResult, pass, blocking, validate}
use evidence_flow.Repositories.Models.{Document, Extraction, Approval, Env, Db}
use evidence_flow.Repositories.Documents.{latest_extraction}
use evidence_flow.Services.Validation.{validation_input, validate_draft, validate_extraction}
use evidence_flow.Services.Approval.{
  grant_approval, approve_results, approve_current, approve_extraction,
}
use evidence_flow.Services.Approval.Outcomes.{Passes, approve_extraction-IsGranted}

none_blocking :
    (results : List RuleResult) → All (λ r. r.outcome ≡ pass) results → filter blocking results ≡ []
none_blocking [] h = refl
none_blocking (r ∷ rs) h = rw h.0 (none_blocking rs h.1)

pub approve_extraction_grants :
    (env : Env) (document : Document) (x current : Extraction) (actor : Text) (ttl : ℕ) (db : Db)
    (draft : InvoiceDraft) (payload_hash : Text)
    → document.status ≡ validated
    → latest_extraction document.id db ≡ some current
    → current.id ≡ x.id
    → x.draft ≡ some draft
    → x.payload_hash ≡ some payload_hash
    → Passes env document x draft db
    → (a : Approval) × ((approve_extraction env document x actor ttl db).0 ≡ ok a)
unfolding approve_extraction approve_current validate_extraction validate_draft approve_results
    grant_approval
approve_extraction_grants env document x current actor ttl db draft payload_hash v l s d h passes =
    let clear =
      none_blocking (validate env.unicode (validation_input env document x draft db)) passes in
    rw ((==_iff document.status validated).1 v)
      (rw l (rw ((==_iff current.id x.id).1 s) (rw d (rw clear (rw h (_, refl))))))

-- A document that may be approved in the extraction that is given: it is validated, that is its
-- latest extraction, it has a draft and a hash, and every rule passes on the draft.
pub record IsReady (env : Env) (document : Document) (x : Extraction) (db : Db) : Type 0 where
  pub was_validated : document.status ≡ validated
  pub current : Extraction
  pub latest : latest_extraction document.id db ≡ some current
  pub same : current.id ≡ x.id
  pub draft : InvoiceDraft
  pub has_draft : x.draft ≡ some draft
  pub hash : Text
  pub has_hash : x.payload_hash ≡ some hash
  pub passes : Passes env document x draft db

-- An approval is returned exactly if the document is validated, its latest extraction is the one that
-- is given, which has a draft and a hash, and every rule passes on the draft.
pub approve_extraction-IsReady :
    (env : Env) (document : Document) (x : Extraction) (actor : Text) (ttl : ℕ) (db : Db)
    → ((a : Approval) × ((approve_extraction env document x actor ttl db).0 ≡ ok a))
      ↔ IsReady env document x db
approve_extraction-IsReady env document x actor ttl db = (
  λ granted.
      let g = approve_extraction-IsGranted env document x actor ttl db granted.0 granted.1 in
      record {
        was_validated = g.was_validated;
        current = g.current;
        latest = g.latest;
        same = g.same;
        draft = g.draft;
        has_draft = g.has_draft;
        hash = granted.0.payload_hash;
        has_hash = g.of_hash;
        passes = g.passes;
      },
  λ ready.
      approve_extraction_grants env document x ready.current actor ttl db ready.draft ready.hash
        ready.was_validated ready.latest ready.same ready.has_draft ready.has_hash ready.passes,
)
