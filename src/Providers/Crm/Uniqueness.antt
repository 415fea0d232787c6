-- ===== src/Providers/Crm/Uniqueness.antt =====
-- The unique constraints of the destination, and that a call repeated with its key changes nothing.
use evidence_flow.Prelude.{
  ◌≡◌, refl, sym, subst, ◌≢◌, Bool, true, false, Option, none, some, List, [], ◌∷◌, ◌++◌, Text,
  arith, ◌==◌, ==_iff, nat_eq, list_eq, any, find, All, All-of_any, All-map_of, Distinct,
  Distinct-snoc, Bool-cases, inl, inr, ok, Result,
}
use evidence_flow.Domain.Failures.{Error}
use evidence_flow.Domain.Schema.{InvoiceDraft}
use evidence_flow.Repositories.Models.{CrmRecordRow, Env, Db}
use evidence_flow.Repositories.Documents.{business_key}
use evidence_flow.Providers.Crm.{
  CrmRecord, join_key, clashes, find_record, on_clash, insert_record, create_under, create_record,
}

-- What the two constraints promise.
pub record IsUnique (db : Db) : Type 0 where
  pub by_key : Distinct (λ r. r.idempotency_key) db.crm_records
  pub by_business_key : Distinct (λ r. r.business_key) db.crm_records

pub not_clash :
    (key joined : Text) (row : CrmRecordRow)
    → clashes key joined row ≡ false
    → (row.idempotency_key ≢ key) × (row.business_key ≢ joined)
not_clash key joined row h = (
  λ e. ground (arith, ==_iff row.idempotency_key key),
  λ e. ground (arith, ==_iff row.business_key joined),
)

on_clash-db :
    (found : Option CrmRecordRow) (number : Text) (db : Db) → (on_clash found number db).1 ≡ db
unfolding on_clash
on_clash-db none number db = refl
on_clash-db (some row) number db = refl

insert_record_free :
    (env : Env) (key : Text) (payload : Option InvoiceDraft) (pair : Text × Text) (db : Db)
    → any (clashes key (join_key pair)) db.crm_records ≡ false
    → IsUnique db
    → IsUnique (insert_record env key payload pair db).1
unfolding insert_record
insert_record_free env key payload pair db free u =
    let apart = All-of_any (clashes key (join_key pair)) db.crm_records free in
    rw free (record {
      by_key =
          Distinct-snoc (λ r. r.idempotency_key) db.crm_records _ u.by_key
            (All-map_of (λ r h. (not_clash key (join_key pair) r h).0) db.crm_records apart);
      by_business_key =
          Distinct-snoc (λ r. r.business_key) db.crm_records _ u.by_business_key
            (All-map_of (λ r h. (not_clash key (join_key pair) r h).1) db.crm_records apart);
    })

insert_record_clash :
    (env : Env) (key : Text) (payload : Option InvoiceDraft) (pair : Text × Text) (db : Db)
    → any (clashes key (join_key pair)) db.crm_records ≡ true
    → (insert_record env key payload pair db).1 ≡ db
unfolding insert_record
insert_record_clash env key payload pair db clash =
    rw clash (on_clash-db (find_record key db) pair.1 db)

insert_record-IsUnique :
    (env : Env) (key : Text) (payload : Option InvoiceDraft) (pair : Text × Text) (db : Db)
    → IsUnique db
    → IsUnique (insert_record env key payload pair db).1
insert_record-IsUnique env key payload pair db u =
    elim (Bool-cases (any (clashes key (join_key pair)) db.crm_records)) [
      | inl clash ↦ subst IsUnique (sym (insert_record_clash env key payload pair db clash)) u
      | inr free ↦ insert_record_free env key payload pair db free u
    ]

create_under-IsUnique :
    (env : Env) (key : Text) (payload : Option InvoiceDraft) (pair : Option (Text × Text)) (db : Db)
    → IsUnique db
    → IsUnique (create_under env key payload pair db).1
unfolding create_under
create_under-IsUnique env key payload none db u = u
create_under-IsUnique env key payload (some pair) db u =
    insert_record-IsUnique env key payload pair db u

-- Whatever a call returns or raises, no two records share an idempotency key and no two share a
-- business key, if that held before.
pub create_record-IsUnique :
    (env : Env) (key : Text) (payload : Option InvoiceDraft) (db : Db)
    → IsUnique db
    → IsUnique (create_record env key payload db).1
unfolding create_record
create_record-IsUnique env key payload db u =
    create_under-IsUnique env key payload (business_key env.unicode payload) db u

-- A record stands in the list that it was added to, if no earlier one has its key.
find_snoc :
    (key : Text) (rows : List CrmRecordRow) (row : CrmRecordRow)
    → row.idempotency_key ≡ key
    → All (λ r. (r.idempotency_key == key) ≡ false) rows
    → find (λ r. r.idempotency_key == key) (rows ++ row ∷ []) ≡ some row
find_snoc key [] row e h = rw ((==_iff row.idempotency_key key).1 e)
find_snoc key (r ∷ rows) row e h = rw h.0 (find_snoc key rows row e h.1)

any_snoc :
    (p : CrmRecordRow → Bool) (rows : List CrmRecordRow) (row : CrmRecordRow)
    → p row ≡ true
    → any p (rows ++ row ∷ []) ≡ true
any_snoc p [] row h = rw h
any_snoc p (r ∷ rows) row h = ground (arith, any_snoc p rows row h)

any_of_find :
    (key joined : Text) (rows : List CrmRecordRow) (row : CrmRecordRow)
    → find (λ r. r.idempotency_key == key) rows ≡ some row
    → any (clashes key joined) rows ≡ true
any_of_find key joined [] row h = cc
any_of_find key joined (r ∷ rows) row h = ground (arith, any_of_find key joined rows row)

-- What a call that returns leaves behind: a record under its key, with the identifier returned.
pub record Recorded (key : Text) (external_id : Text) (db : Db) : Type 0 where
  pub row : CrmRecordRow
  pub stored : find_record key db ≡ some row
  pub same_id : row.external_id ≡ external_id

on_clash-Recorded :
    (found : Option CrmRecordRow) (key number : Text) (db : Db) (r : CrmRecord)
    → find_record key db ≡ found
    → (on_clash found number db).0 ≡ ok r
    → Recorded key r.external_id (on_clash found number db).1
unfolding on_clash
on_clash-Recorded none key number db r e h = absurd (cc)
on_clash-Recorded (some row) key number db r e h = record {
  row = row;
  stored = e;
  same_id = ground arith;
}

ok_id :
    {a b : CrmRecord}
    → ◌≡◌ {A = Result Error CrmRecord} (ok a) (ok b)
    → a.external_id ≡ b.external_id
ok_id h = ground arith

not_same_key :
    (key joined : Text) (row : CrmRecordRow)
    → clashes key joined row ≡ false
    → (row.idempotency_key == key) ≡ false
not_same_key key joined row h = ground arith

insert_record-Recorded :
    (env : Env) (key : Text) (payload : Option InvoiceDraft) (pair : Text × Text) (db : Db)
    (r : CrmRecord)
    → (insert_record env key payload pair db).0 ≡ ok r
    → Recorded key r.external_id (insert_record env key payload pair db).1
unfolding insert_record
insert_record-Recorded env key payload pair db r h =
    elim (Bool-cases (any (clashes key (join_key pair)) db.crm_records)) [
      | inl clash ↦
          rw clash (on_clash-Recorded (find_record key db) key pair.1 db r refl (rw clash at h))
      | inr free ↦
          let apart =
            All-map_of (not_same_key key (join_key pair)) db.crm_records
              (All-of_any (clashes key (join_key pair)) db.crm_records free) in
          rw free (record {
            row = _;
            stored = find_snoc key db.crm_records _ refl apart;
            same_id = ok_id (rw free at h);
          })
    ]

create_under-Recorded :
    (env : Env) (key : Text) (payload : Option InvoiceDraft) (pair : Option (Text × Text)) (db : Db)
    (r : CrmRecord)
    → (create_under env key payload pair db).0 ≡ ok r
    → Recorded key r.external_id (create_under env key payload pair db).1
unfolding create_under
create_under-Recorded env key payload none db r h = absurd (cc)
create_under-Recorded env key payload (some pair) db r h =
    insert_record-Recorded env key payload pair db r h

-- A call that returns leaves a record under its key, with the identifier that it returned.
pub create_record-Recorded :
    (env : Env) (key : Text) (payload : Option InvoiceDraft) (db : Db) (r : CrmRecord)
    → (create_record env key payload db).0 ≡ ok r
    → Recorded key r.external_id (create_record env key payload db).1
unfolding create_record
create_record-Recorded env key payload db r h =
    create_under-Recorded env key payload (business_key env.unicode payload) db r h

-- What a call gives under a key that is recorded already.
abbrev pub repeated : Text → Db → Result Error CrmRecord × Db
repeated external_id db = (ok (record { external_id = external_id; created = false }), db)

insert_record-Recorded' :
    (env : Env) (key : Text) (payload : Option InvoiceDraft) (pair : Text × Text) (db : Db)
    (external_id : Text)
    → Recorded key external_id db
    → insert_record env key payload pair db ≡ repeated external_id db
unfolding insert_record find_record on_clash
insert_record-Recorded' env key payload pair db external_id rec =
    rw (any_of_find key (join_key pair) db.crm_records rec.row rec.stored)
      (rw rec.stored (ground (arith, rec.same_id)))

create_under-Recorded' :
    (env : Env) (key : Text) (payload : Option InvoiceDraft) (pair : Option (Text × Text)) (db : Db)
    (external_id : Text)
    → pair ≢ none
    → Recorded key external_id db
    → create_under env key payload pair db ≡ repeated external_id db
unfolding create_under
create_under-Recorded' env key payload none db external_id keyed rec = absurd (keyed refl)
create_under-Recorded' env key payload (some pair) db external_id keyed rec =
    insert_record-Recorded' env key payload pair db external_id rec

create_under_keyed :
    (env : Env) (key : Text) (payload : Option InvoiceDraft) (pair : Option (Text × Text)) (db : Db)
    (r : CrmRecord)
    → (create_under env key payload pair db).0 ≡ ok r
    → pair ≢ none
unfolding create_under
create_under_keyed env key payload none db r h e = cc
create_under_keyed env key payload (some pair) db r h e = cc

-- After a call that returned, the same call again returns the same identifier, says that it created
-- nothing, and changes nothing.
pub create_record_again :
    (env : Env) (key : Text) (payload : Option InvoiceDraft) (db : Db) (r : CrmRecord)
    → (create_record env key payload db).0 ≡ ok r
    → create_record env key payload (create_record env key payload db).1
      ≡ repeated r.external_id (create_record env key payload db).1
unfolding create_record
create_record_again env key payload db r h =
    let pair = business_key env.unicode payload in
    create_under-Recorded' env key payload pair _ r.external_id
      (create_under_keyed env key payload pair db r h)
      (create_under-Recorded env key payload pair db r h)
