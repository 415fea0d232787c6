-- ===== src/Services/Approval/Outcomes.antt =====
-- What a granted approval needs and does.
use evidence_flow.Prelude.{
  ℕ, ◌+◌, ◌≡◌, refl, sym, ap, ◌∙◌, true, Option, none, some, List, [], ◌∷◌, ◌++◌, filter, Text,
  arith, ◌==◌, ==_iff, nat_eq, list_eq, All, find, Bool-cases, inl, inr, ok, map_option,
}
use evidence_flow.Domain.Events.{validated, approved, document_status_eq}
use evidence_flow.Domain.Schema.{InvoiceDraft}
use evidence_flow.Domain.Validation.{RuleOutcome, RuleResult, pass, is_pass, blocking, validate}
use evidence_flow.Repositories.Models.{Document, Extraction, Approval, Env, Db}
use evidence_flow.Repositories.Documents.{
  tick, record_validation, get_document, latest_extraction, create_approval, set_document,
  append_event,
}
use evidence_flow.Repositories.Documents.Rows.{
  get-set_document, record_validation-documents, record_validation-approvals,
}
use evidence_flow.Services.Validation.{
  routed, validation_input, record_results, validate_draft, validate_extraction,
}
use evidence_flow.Services.Approval.{
  grant_approval, approve_results, after_rules, approve_current, approve_extraction,
}

-- The row of an approved document.
abbrev pub approved_as : Text → Document → Document
approved_as payload_hash d = record d {
  status = approved;
  approved_payload_hash = some payload_hash;
}

-- Every rule passes on the stored draft, at the time and against the records of `db`.
abbrev pub Passes : Env → Document → Extraction → InvoiceDraft → Db → Type 0
Passes env document extraction draft db =
    All (λ r. r.outcome ≡ pass)
      (validate env.unicode (validation_input env document extraction draft db))

pub record IsGranted (env : Env) (document : Document) (extraction : Extraction) (db after : Db)
    (a : Approval) : Type 0 where
  pub was_validated : document.status ≡ validated
  pub current : Extraction
  pub latest : latest_extraction document.id db ≡ some current
  pub same : current.id ≡ extraction.id
  pub draft : InvoiceDraft
  pub has_draft : extraction.draft ≡ some draft
  pub passes : Passes env document extraction draft db
  pub of_hash : extraction.payload_hash ≡ some a.payload_hash
  pub of_document : a.document_id ≡ document.id
  pub stored : after.approvals ≡ db.approvals ++ a ∷ []
  pub marked :
      get_document document.id after
      ≡ map_option (approved_as a.payload_hash) (get_document document.id db)

pass_of : (o : RuleOutcome) → is_pass o ≡ true → o ≡ pass
pass_of o h = ground arith

no_blocking :
    (results : List RuleResult) → filter blocking results ≡ [] → All (λ r. r.outcome ≡ pass) results
no_blocking [] h = tt
no_blocking (r ∷ rs) h = elim (Bool-cases (is_pass r.outcome)) [
  | inl e ↦ (pass_of r.outcome e, no_blocking rs (ground arith))
  | inr e ↦ absurd (ground arith)
]

-- A grant, from the database that the rules left.
record Grants (document : Document) (hash : Option Text) (db after : Db) (a : Approval)
    : Type 0 where
  of_hash : hash ≡ some a.payload_hash
  of_document : a.document_id ≡ document.id
  stored : after.approvals ≡ db.approvals ++ a ∷ []
  marked :
      get_document document.id after
      ≡ map_option (approved_as a.payload_hash) (get_document document.id db)

grants :
    (env : Env) (document : Document) (x : Extraction) (actor : Text) (ttl : ℕ) (hash : Option Text)
    (db : Db) (a : Approval)
    → (grant_approval env document x actor ttl hash db).0 ≡ ok a
    → Grants document hash db (grant_approval env document x actor ttl hash db).1 a
unfolding grant_approval create_approval append_event get_document
grants env document x actor ttl none db a h = absurd (cc)
grants env document x actor ttl (some hash) db a h =
    let (made, created) =
      create_approval env document.id x.id hash actor (env.clock db.draws + ttl) (tick db) in
    let same : made ≡ a = ground arith in
    let hash_of : hash ≡ a.payload_hash = ap (λ (b : Approval). b.payload_hash) same in
    record {
      of_hash = ap some hash_of;
      of_document = sym (ap (λ (b : Approval). b.document_id) same);
      stored = unfold set_document in ap (λ (b : Approval). db.approvals ++ b ∷ []) same;
      marked =
          get-set_document document.id (approved_as hash) (λ d. refl) created
          ∙ ap (λ t. map_option (approved_as t) (get_document document.id db)) hash_of;
    }

status_forgotten :
    (hash : Text) (s : Document → Document) (found : Option Document)
    → ((d : Document) → approved_as hash (s d) ≡ approved_as hash d)
    → map_option (approved_as hash) (map_option s found) ≡ map_option (approved_as hash) found
status_forgotten hash s none same = refl
status_forgotten hash s (some d) same = ap some (same d)

-- What storing the results of the rules leaves for the approval.
record_results-approvals :
    (env : Env) (document : Document) (x : Extraction) (results : List RuleResult) (db : Db)
    → (record_results env document x results db).approvals ≡ db.approvals
unfolding record_results append_event set_document
record_results-approvals env document x results db =
    record_validation-approvals env x.id results (tick db)

pub record_results-document :
    (env : Env) (document : Document) (x : Extraction) (results : List RuleResult) (db : Db)
    → get_document document.id (record_results env document x results db)
      ≡ map_option (routed results) (get_document document.id db)
unfolding record_results append_event get_document
record_results-document env document x results db =
    get-set_document document.id (routed results) (λ d. refl)
      (record_validation env x.id results (tick db))
    ∙ ap (λ rows. map_option (routed results) (find (λ d. d.id == document.id) rows))
        (record_validation-documents env x.id results (tick db))

module _ (env : Env) (document : Document) (x : Extraction) (actor : Text) (ttl : ℕ) where
  results_granted :
      (blocked : List RuleResult) (db : Db) (a : Approval)
      → (approve_results env document x actor ttl blocked db).0 ≡ ok a
      → (blocked ≡ [])
        × Grants document x.payload_hash db
            (approve_results env document x actor ttl blocked db).1
            a
  unfolding approve_results
  results_granted [] db a h = (refl, grants env document x actor ttl x.payload_hash db a h)
  results_granted (r ∷ rs) db a h = absurd (cc)

  rules-IsGranted :
      (draft : Option InvoiceDraft) (current : Extraction) (db : Db) (a : Approval)
      → document.status ≡ validated
      → latest_extraction document.id db ≡ some current
      → current.id ≡ x.id
      → x.draft ≡ draft
      → (after_rules env document x actor ttl (validate_draft env document x draft db)).0 ≡ ok a
      → IsGranted env document x db
          (after_rules env document x actor ttl (validate_draft env document x draft db)).1
          a
  unfolding validate_draft
  rules-IsGranted none current db a v l s d h = absurd (cc)
  rules-IsGranted (some draft) current db a v l s d h =
      let results = validate env.unicode (validation_input env document x draft db) in
      let recorded = record_results env document x results db in
      let (clear, g) = results_granted (filter blocking results) recorded a h in
      record {
        was_validated = v;
        current = current;
        latest = l;
        same = s;
        draft = draft;
        has_draft = d;
        passes = no_blocking results clear;
        of_hash = g.of_hash;
        of_document = g.of_document;
        stored =
            g.stored ∙ ap (λ l. l ++ a ∷ []) (record_results-approvals env document x results db);
        marked =
            g.marked
            ∙ ap (map_option (approved_as a.payload_hash))
                (record_results-document env document x results db)
            ∙ status_forgotten a.payload_hash _ (get_document document.id db) (λ d. refl);
      }

  current-IsGranted :
      (current : Option Extraction) (db : Db) (a : Approval)
      → document.status ≡ validated
      → latest_extraction document.id db ≡ current
      → (approve_current env document x actor ttl current db).0 ≡ ok a
      → IsGranted env document x db (approve_current env document x actor ttl current db).1 a
  unfolding approve_current validate_extraction
  current-IsGranted none db a v l h = absurd (cc)
  current-IsGranted (some current) db a v l h = elim (Bool-cases (current.id == x.id)) [
    | inr other ↦ absurd (ground arith)
    | inl same ↦ rw same (
        rules-IsGranted x.draft current db a v l ((==_iff current.id x.id).0 same) refl
          (rw same at h))
  ]

  -- An approval is returned only for a validated document whose latest extraction is the one that the
  -- reviewer read, when every rule passes again on its draft. It is stored, it has the extraction's
  -- hash, and the document's row becomes approved for that hash.
  pub approve_extraction-IsGranted :
      (db : Db) (a : Approval)
      → (approve_extraction env document x actor ttl db).0 ≡ ok a
      → IsGranted env document x db (approve_extraction env document x actor ttl db).1 a
  unfolding approve_extraction
  approve_extraction-IsGranted db a h = elim (Bool-cases (document.status == validated)) [
    | inr other ↦ absurd (ground arith)
    | inl v ↦ rw v (
        current-IsGranted (latest_extraction document.id db) db a
          ((==_iff document.status validated).0 v) refl (rw v at h))
  ]
