-- ===== src/Repositories/History.antt =====
-- The tables of the database that are a record of what happened: rows are added at the end of them, and
-- none is changed or taken away.
use evidence_flow.Prelude.{
  ◌≡◌, ◌≢◌, refl, sym, ap, ◌∙◌, ℕ, subst, All, All-map_of, Distinct, Distinct-snoc, All-append,
  Option, List, [], ◌∷◌, ◌++◌, Text, suc,
}
use evidence_flow.Domain.Events.{EventType}
use evidence_flow.Repositories.Backing.{
  Extends, IsHashed, IsBacked, IsRecordBacked, IsBacked-Extends,
}
use evidence_flow.Repositories.Models.{
  Approval, Extraction, Payload, Env, Db, ValidationResult, CrmRecordRow,
}
use evidence_flow.Services.Extraction.{add_extraction}
use evidence_flow.Repositories.Documents.{create_approval, append_event}

-- A record whose two keys no other one of a list has.
abbrev pub IsApart : CrmRecordRow → CrmRecordRow → Type 0
IsApart row other =
    (other.idempotency_key ≢ row.idempotency_key) × (other.business_key ≢ row.business_key)

-- Records that are added one after another, each with keys of its own.
abbrev pub Fresh : List CrmRecordRow → List CrmRecordRow → Type 0
Fresh xs [] = Unit {0}
Fresh xs (row ∷ more) = All (IsApart row) xs × Fresh (xs ++ row ∷ []) more

-- Extractions that are added, each with the hash of its draft.
abbrev pub GrowsHashed : Env → List Extraction → List Extraction → Type 0
GrowsHashed env xs ys = (more : List Extraction) × ((ys ≡ xs ++ more) × All (IsHashed env) more)

-- Records that are added to those of a database, each with an approval and an extraction behind it in the
-- lists given.
abbrev pub Grows :
    Env → List CrmRecordRow → List CrmRecordRow → List Approval → List Extraction → Type 0
Grows env xs ys approvals extractions =
    (more : List CrmRecordRow) × ((ys ≡ xs ++ more)
      × (Fresh xs more × All (IsRecordBacked env approvals extractions) more))

abbrev pub Keeps : Env → Db → Db → Type 0
Keeps env before after =
    Extends before.events after.events
    × (GrowsHashed env before.extractions after.extractions
        × (Extends before.approvals after.approvals
            × (Extends before.validation_results after.validation_results
                × Grows env before.crm_records after.crm_records after.approvals
                    after.extractions)))

append_nil : {A : Type 0} (xs : List A) → xs ++ [] ≡ xs
append_nil [] = refl
append_nil (x ∷ xs) = ap (λ l. x ∷ l) (append_nil xs)

append_assoc : {A : Type 0} (xs ys zs : List A) → (xs ++ ys) ++ zs ≡ xs ++ (ys ++ zs)
append_assoc [] ys zs = refl
append_assoc (x ∷ xs) ys zs = ap (λ l. x ∷ l) (append_assoc xs ys zs)

pub Extends-refl : {A : Type 0} (xs : List A) → Extends xs xs
Extends-refl xs = ([], sym (append_nil xs))

Extends-trans : {A : Type 0} (xs ys zs : List A) → Extends xs ys → Extends ys zs → Extends xs zs
Extends-trans xs ys zs (more, e) (later, f) =
    (more ++ later, f ∙ ap (λ l. l ++ later) e ∙ append_assoc xs more later)

GrowsHashed-refl : (env : Env) (xs : List Extraction) → GrowsHashed env xs xs
GrowsHashed-refl env xs = ([], (sym (append_nil xs), tt))

GrowsHashed-trans :
    (env : Env) (xs ys zs : List Extraction)
    → GrowsHashed env xs ys
    → GrowsHashed env ys zs
    → GrowsHashed env xs zs
GrowsHashed-trans env xs ys zs (more, (e, h)) (later, (f, k)) = (
  more ++ later,
  (
    f ∙ ap (λ l. l ++ later) e ∙ append_assoc xs more later,
    All-append (IsHashed env) more later h k,
  ),
)

GrowsHashed-Extends : (env : Env) (xs ys : List Extraction) → GrowsHashed env xs ys → Extends xs ys
GrowsHashed-Extends env xs ys (more, (e, h)) = (more, e)

pub Grows-refl :
    (env : Env) (xs : List CrmRecordRow) (approvals : List Approval) (extractions : List Extraction)
    → Grows env xs xs approvals extractions
Grows-refl env xs approvals extractions = ([], (sym (append_nil xs), (tt, tt)))

Fresh-append :
    (xs more later : List CrmRecordRow)
    → Fresh xs more
    → Fresh (xs ++ more) later
    → Fresh xs (more ++ later)
Fresh-append xs [] later f g = subst (λ l. Fresh l later) (append_nil xs) g
Fresh-append xs (row ∷ more) later f g = (
  f.0,
  Fresh-append (xs ++ row ∷ []) more later f.1
      (subst (λ l. Fresh l later) (sym (append_assoc xs (row ∷ []) more)) g),
)

Grows-trans :
    (env : Env) (xs ys zs : List CrmRecordRow) (approvals more_approvals : List Approval)
    (extractions more_extractions : List Extraction)
    → Extends approvals more_approvals
    → Extends extractions more_extractions
    → Grows env xs ys approvals extractions
    → Grows env ys zs more_approvals more_extractions
    → Grows env xs zs more_approvals more_extractions
Grows-trans env xs ys zs ap1 ap2 ex1 ex2 a x (more, (e, (f, b))) (later, (e2, (g, c))) = (
  more ++ later,
  (
    e2 ∙ ap (λ l. l ++ later) e ∙ append_assoc xs more later,
    (
      Fresh-append xs more later f (subst (λ l. Fresh l later) e g),
      All-append (IsRecordBacked env ap2 ex2) more later
          (All-map_of
            (λ row. IsBacked-Extends env row.idempotency_key row.payload ap1 ap2 ex1 ex2 a x) more
            b)
          c,
    ),
  ),
)

-- Keys that differ still differ when fresh records are added.
module _ (key : CrmRecordRow → Text)
    (differs : (row other : CrmRecordRow) → IsApart row other → key other ≢ key row) where
  pub Distinct-append :
      (xs more : List CrmRecordRow) → Distinct key xs → Fresh xs more → Distinct key (xs ++ more)
  Distinct-append xs [] d f = subst (Distinct key) (sym (append_nil xs)) d
  Distinct-append xs (row ∷ more) d f = subst (Distinct key) (append_assoc xs (row ∷ []) more) (
      Distinct-append (xs ++ row ∷ []) more
        (Distinct-snoc key xs row d (All-map_of (λ r h. differs row r h) xs f.0)) f.1)

pub Keeps-refl : (env : Env) (db : Db) → Keeps env db db
Keeps-refl env db = (
  Extends-refl db.events,
  (
    GrowsHashed-refl env db.extractions,
    (
      Extends-refl db.approvals,
      (
        Extends-refl db.validation_results,
        Grows-refl env db.crm_records db.approvals db.extractions,
      ),
    ),
  ),
)

pub Keeps-trans : (env : Env) (a b c : Db) → Keeps env a b → Keeps env b c → Keeps env a c
Keeps-trans env a b c (e, (x, (p, (v, r)))) (e2, (x2, (p2, (v2, r2)))) = (
  Extends-trans a.events b.events c.events e e2,
  (
    GrowsHashed-trans env a.extractions b.extractions c.extractions x x2,
    (
      Extends-trans a.approvals b.approvals c.approvals p p2,
      (
        Extends-trans a.validation_results b.validation_results c.validation_results v v2,
        Grows-trans env a.crm_records b.crm_records c.crm_records b.approvals c.approvals
            b.extractions c.extractions p2 (GrowsHashed-Extends env b.extractions c.extractions x2)
            r r2,
      ),
    ),
  ),
)

pub append_event-Keeps :
    (env : Env) (document_id : Text) (extraction_id : Option Text) (type : EventType) (actor : Text)
    (payload : Payload) (db : Db)
    → Keeps env db (append_event env document_id extraction_id type actor payload db)
unfolding append_event
append_event-Keeps env document_id extraction_id type actor payload db =
    let (e, rest) = Keeps-refl env db in ((_, refl), rest)

pub add_extraction-Keeps :
    (env : Env) (x : Extraction) (db : Db) → IsHashed env x → Keeps env db (add_extraction x db)
add_extraction-Keeps env x db hashed =
    let (es, (xs, (p, (v, r)))) = Keeps-refl env db in
    (es, ((x ∷ [], (refl, (hashed, tt))), (p, (v, Grows-refl env db.crm_records db.approvals _))))

pub create_approval-Keeps :
    (env : Env) (id extraction_id hash actor : Text) (expires_at : ℕ) (db : Db)
    → Keeps env db (create_approval env id extraction_id hash actor expires_at db).1
unfolding create_approval
create_approval-Keeps env id extraction_id hash actor expires_at db =
    let (es, (xs, (p, (v, r)))) = Keeps-refl env db in
    (es, (xs, ((_, refl), (v, Grows-refl env db.crm_records _ db.extractions))))

-- The database with one more validation result, and with one more record.
abbrev pub with_result : ValidationResult → Db → Db
with_result row db = record db {
  draws = suc db.draws;
  validation_results = db.validation_results ++ row ∷ [];
}

abbrev pub with_record : CrmRecordRow → Db → Db
with_record row db = record db { draws = suc db.draws; crm_records = db.crm_records ++ row ∷ [] }

pub with_result-Keeps :
    (env : Env) (row : ValidationResult) (db : Db) → Keeps env db (with_result row db)
with_result-Keeps env row db =
    let (es, (xs, (p, (v, r)))) = Keeps-refl env db in (es, (xs, (p, ((row ∷ [], refl), r))))

pub with_record-Keeps :
    (env : Env) (row : CrmRecordRow) (db : Db)
    → All (IsApart row) db.crm_records
    → IsBacked env row.idempotency_key row.payload db.approvals db.extractions
    → Keeps env db (with_record row db)
with_record-Keeps env row db apart backed =
    let (es, (xs, (p, (v, r)))) = Keeps-refl env db in
    (es, (xs, (p, (v, (row ∷ [], (refl, ((apart, tt), (backed, tt))))))))
