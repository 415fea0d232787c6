-- ===== src/Repositories/Backing.antt =====
-- What stands behind a record of the destination: an approval, and the extraction that was approved.
use mathlib.Core.List.{Memᴰ}
use mathlib.Core.List.Memᴰ
use evidence_flow.Prelude.{
  ◌≡◌, refl, sym, subst, Bool, true, Option, none, some, some_injective, List, [], ◌∷◌, ◌++◌, Text,
  ◌==◌, ==_iff, nat_eq, list_eq, filter, map_option, Bool-cases, inl, inr, ℕ,
}
use evidence_flow.Domain.Approval.{idempotency_key}
use evidence_flow.Domain.Schema.{InvoiceDraft}
use evidence_flow.Repositories.Models.{Extraction, Approval, CrmRecordRow, Env, Db}
use evidence_flow.Repositories.Documents.{newest, is_newer, latest_extraction, latest_approval}
use evidence_flow.Services.Extraction.{payload_hash}

-- The draft that an extraction stores has the hash that it stores, and one that stores none has none.
abbrev pub IsHashed : Env → Extraction → Type 0
IsHashed env x = x.payload_hash ≡ map_option (payload_hash env) x.draft

-- Among these approvals and extractions there are an approval that gives this key, and an extraction of
-- its document and its hash that stores this payload.
pub record IsBacked (env : Env) (key : Text) (payload : Option InvoiceDraft)
    (approvals : List Approval) (extractions : List Extraction) : Type 0 where
  pub approval : Approval
  pub extraction : Extraction
  pub approved : Memᴰ approval approvals
  pub extracted : Memᴰ extraction extractions
  pub of_document : extraction.document_id ≡ approval.document_id
  pub of_version : extraction.payload_hash ≡ some approval.payload_hash
  pub of_payload : extraction.draft ≡ payload
  pub of_key : key ≡ idempotency_key env.sha256 approval.document_id approval.payload_hash

abbrev pub IsRecordBacked : Env → List Approval → List Extraction → CrmRecordRow → Type 0
IsRecordBacked env approvals extractions row =
    IsBacked env row.idempotency_key row.payload approvals extractions

abbrev pub Extends : {A : Type 0} → List A → List A → Type 0
Extends {A} xs ys = (more : List A) × (ys ≡ xs ++ more)

pub Memᴰ-Extends : {A : Type 0} (a : A) (xs ys : List A) → Extends xs ys → Memᴰ a xs → Memᴰ a ys
Memᴰ-Extends a xs ys (more, e) m = subst (Memᴰ a) (sym e) (Memᴰ.append_left more m)

-- What stands behind a record stays there.
pub IsBacked-Extends :
    (env : Env) (key : Text) (payload : Option InvoiceDraft)
    (approvals more_approvals : List Approval) (extractions more_extractions : List Extraction)
    → Extends approvals more_approvals
    → Extends extractions more_extractions
    → IsBacked env key payload approvals extractions
    → IsBacked env key payload more_approvals more_extractions
IsBacked-Extends env key payload approvals more_approvals extractions more_extractions e f b =
    record {
      approval = b.approval;
      extraction = b.extraction;
      approved = Memᴰ-Extends b.approval approvals more_approvals e b.approved;
      extracted = Memᴰ-Extends b.extraction extractions more_extractions f b.extracted;
      of_document = b.of_document;
      of_version = b.of_version;
      of_payload = b.of_payload;
      of_key = b.of_key;
    }

Memᴰ-filter :
    {A : Type 0} (p : A → Bool) (a : A) (xs : List A)
    → Memᴰ a (filter p xs)
    → Memᴰ a xs × (p a ≡ true)
Memᴰ-filter p a [] m = elim m [ ]
Memᴰ-filter p a (x ∷ xs) m = elim (Bool-cases (p x)) [
  | inl hit ↦ elim (Memᴰ.cases_cons (rw hit at m)) [
    | inl e ↦ (Memᴰ.head e, subst (λ y. p y ≡ true) (sym e) hit)
    | inr later ↦ let (among, passes) = Memᴰ-filter p a xs later in (Memᴰ.tail among, passes)
  ]
  | inr miss ↦ let (among, passes) = Memᴰ-filter p a xs (rw miss at m) in (Memᴰ.tail among, passes)
]

-- The row that a query with an order and a limit of one finds is one of the table's.
module _ {A : Type 0} (created_at : A → ℕ) (id : A → Text) where
  newest_among :
      (a x : A) (xs : List A) (rest : Option A)
      → newest created_at id xs ≡ rest
      → newest created_at id (x ∷ xs) ≡ some a
      → ((y : A) → rest ≡ some y → Memᴰ y xs)
      → Memᴰ a (x ∷ xs)
  newest_among a x xs none r e ih = Memᴰ.head (sym (some_injective (rw r at e)))
  newest_among a x xs (some y) r e ih = elim (Bool-cases (is_newer created_at id x y)) [
    | inl newer ↦ Memᴰ.head (sym (some_injective (rw (r, newer) at e)))
    | inr older ↦ Memᴰ.tail (Memᴰ.cast (sym (some_injective (rw (r, older) at e))) (ih y refl))
  ]

  newest-Memᴰ : (a : A) (xs : List A) → newest created_at id xs ≡ some a → Memᴰ a xs
  newest-Memᴰ a [] e = cc
  newest-Memᴰ a (x ∷ xs) e =
      newest_among a x xs (newest created_at id xs) refl e (λ y. newest-Memᴰ y xs)

pub latest_extraction_found :
    (document_id : Text) (x : Extraction) (db : Db)
    → latest_extraction document_id db ≡ some x
    → Memᴰ x db.extractions × (x.document_id ≡ document_id)
unfolding latest_extraction
latest_extraction_found document_id x db e =
    let (among, passes) =
      Memᴰ-filter (λ (y : Extraction). y.document_id == document_id) x db.extractions
        (newest-Memᴰ (λ y. y.created_at) (λ y. y.id) x _ e) in
    (among, (==_iff x.document_id document_id).0 passes)

pub latest_approval_found :
    (document_id : Text) (a : Approval) (db : Db)
    → latest_approval document_id db ≡ some a
    → Memᴰ a db.approvals × (a.document_id ≡ document_id)
unfolding latest_approval
latest_approval_found document_id a db e =
    let (among, passes) =
      Memᴰ-filter (λ (y : Approval). y.document_id == document_id) a db.approvals
        (newest-Memᴰ (λ y. y.created_at) (λ y. y.id) a _ e) in
    (among, (==_iff a.document_id document_id).0 passes)
