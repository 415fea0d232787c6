-- ===== src/Repositories/Documents/Rows.antt =====
-- What an assignment to a document's attribute does to its row and to the others.
use evidence_flow.Prelude.{
  Bool, true, All, ◌≡◌, refl, ◌∙◌, Option, none, some, List, [], ◌∷◌, map, Text, ◌==◌, nat_eq,
  list_eq, find, find-test, find-map, map_option, map_column, Bool-cases, inl, inr, if◌then◌else◌,
}
use evidence_flow.Domain.Validation.{RuleResult}
use evidence_flow.Repositories.Models.{Document, Env, Db}
use evidence_flow.Repositories.Documents.{
  get_document, update_where, set_document, record_validation,
}

abbrev if_id : Text → (Document → Document) → Document → Document
if_id id change d = if d.id == id then change d else d

module _ (id : Text) (change : Document → Document)
    (same : (d : Document) → (change d).id ≡ d.id) where
  if_id-id : (d : Document) → ((if_id id change d).id == id) ≡ (d.id == id)
  if_id-id d = elim (Bool-cases (d.id == id)) [ inl e ↦ rw e (rw (same d) e) | inr e ↦ rw e e ]

  found_changed :
      (found : Option Document) (rows : List Document)
      → find (λ d. d.id == id) rows ≡ found
      → map_option (if_id id change) found ≡ map_option change found
  found_changed none rows e = refl
  found_changed (some d) rows e = rw (find-test (λ d. d.id == id) rows d e) refl

  -- The row of the document is changed.
  pub get-set_document :
      (db : Db)
      → get_document id (set_document id change db) ≡ map_option change (get_document id db)
  unfolding get_document set_document
  get-set_document db =
      find-map (λ d. d.id == id) (if_id id change) if_id-id db.documents
      ∙ found_changed (find (λ d. d.id == id) db.documents) db.documents refl

  -- A column that the change leaves alone stays as it was in every row.
  pub column-set_document {κ} :
      {B : Type κ} (column : Document → B) (db : Db)
      → ((d : Document) → column (change d) ≡ column d)
      → map column (set_document id change db).documents ≡ map column db.documents
  unfolding set_document
  column-set_document column db keep =
      map_column column (if_id id change)
        (λ d. elim (Bool-cases (d.id == id)) [ inl e ↦ rw e (keep d) | inr e ↦ rw e refl ])
        db.documents

-- A change of the rows that a test picks.
pub All-update_where :
    {A : Type 0} (P Q : A → Type 0) (test : A → Bool) (change : A → A)
    → ((x : A) → P x → Q x)
    → ((x : A) → test x ≡ true → P x → Q (change x))
    → (xs : List A) → All P xs
    → All Q (update_where test change xs)
All-update_where P Q test change left changed [] h = tt
All-update_where P Q test change left changed (x ∷ xs) h =
    let rest = All-update_where P Q test change left changed xs h.1 in
    elim (Bool-cases (test x)) [
      | inl hit ↦ rw hit (changed x hit h.0, rest)
      | inr miss ↦ rw miss (left x h.0, rest)
    ]

-- Storing the results of the rules touches neither the documents nor the approvals.
pub record_validation-documents :
    (env : Env) (extraction_id : Text) (results : List RuleResult) (db : Db)
    → (record_validation env extraction_id results db).documents ≡ db.documents
unfolding record_validation
record_validation-documents env x [] db = refl
record_validation-documents env x (r ∷ rs) db = record_validation-documents env x rs _

pub record_validation-approvals :
    (env : Env) (extraction_id : Text) (results : List RuleResult) (db : Db)
    → (record_validation env extraction_id results db).approvals ≡ db.approvals
unfolding record_validation
record_validation-approvals env x [] db = refl
record_validation-approvals env x (r ∷ rs) db = record_validation-approvals env x rs _
