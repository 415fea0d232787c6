-- ===== src/System/Landing.antt =====
-- The claim of a write and the call of the program's own destination: what they keep of the tables, and
-- the record that a call leaves.
use mathlib.Core.List.{Memᴰ}
use evidence_flow.Prelude.{
  ◌≡◌, refl, sym, Bool, All-map_of, All-of_any, Option, none, some, some_injective, List, [], ◌∷◌,
  Text, ◌==◌, ==_iff, nat_eq, list_eq, find, find-test, any, Result, ok, err, Bool-cases, inl, inr,
}
use evidence_flow.Domain.Approval.{idempotency_key}
use evidence_flow.Domain.Failures.{Error}
use evidence_flow.Domain.Schema.{InvoiceDraft}
use evidence_flow.Repositories.Backing.{IsBacked}
use evidence_flow.Repositories.Models.{CrmWrite, CrmRecordRow, Env, Db}
use evidence_flow.Repositories.Documents.{
  claim_write, claim_found, insert_write, new_write, find_write, business_key,
}
use evidence_flow.Providers.Crm.{
  CrmRecord, create_record, create_under, external_id_for, insert_record, on_clash, clashes,
  join_key, find_record,
}
use evidence_flow.Providers.Crm.Uniqueness.{Recorded, create_record-Recorded, not_clash}
use evidence_flow.System.Invariant.{HasRecord, IsInvariant}

module _ (env : Env) (P : Db → Type 0) (inv : IsInvariant env P) where
  claim_found-P :
      (document_id extraction_id key : Text) (found : Option CrmWrite) (db : Db)
      → P db
      → P (claim_found found env none document_id extraction_id key db).1
  unfolding claim_found insert_write
  claim_found-P document_id extraction_id key (some existing) db h = h
  claim_found-P document_id extraction_id key none db h =
      inv.write_claim (new_write env document_id extraction_id key db) db h

  pub claim_write-P :
      (document_id extraction_id key : Text) (db : Db)
      → P db
      → P (claim_write env none document_id extraction_id key db).1
  unfolding claim_write
  claim_write-P document_id extraction_id key db =
      claim_found-P document_id extraction_id key (find_write key db) db

  on_clash-P :
      (found : Option CrmRecordRow) (number : Text) (db : Db)
      → P db
      → P (on_clash found number db).1
  unfolding on_clash
  on_clash-P none number db h = h
  on_clash-P (some row) number db h = h

  create_under-P :
      (key : Text) (payload : Option InvoiceDraft) (pair : Option (Text × Text)) (db : Db)
      → IsBacked env key payload db.approvals db.extractions
      → P db
      → P (create_under env key payload pair db).1
  unfolding create_under insert_record
  create_under-P key payload none db backed h = h
  create_under-P key payload (some pair) db backed h =
      elim (Bool-cases (any (clashes key (join_key pair)) db.crm_records)) [
        | inl clash ↦ rw clash (on_clash-P (find_record key db) pair.1 db h)
        | inr free ↦
            let row : CrmRecordRow = record {
              id = env.uuid db.draws;
              idempotency_key = key;
              business_key = join_key pair;
              external_id = external_id_for key;
              payload = payload;
              created_at = env.clock db.draws;
            } in
            let apart =
              All-map_of (λ r h. not_clash key (join_key pair) r h) db.crm_records
                (All-of_any (clashes key (join_key pair)) db.crm_records free) in
            rw free (inv.landing row db apart backed h)
      ]

  pub create_record-P :
      (key : Text) (payload : Option InvoiceDraft) (db : Db)
      → IsBacked env key payload db.approvals db.extractions
      → P db
      → P (create_record env key payload db).1
  unfolding create_record
  create_record-P key payload db = create_under-P key payload (business_key env.unicode payload) db

find-Memᴰ : {A : Type 0} (p : A → Bool) (xs : List A) (a : A) → find p xs ≡ some a → Memᴰ a xs
find-Memᴰ p [] a e = absurd (cc)
find-Memᴰ p (x ∷ xs) a e = elim (Bool-cases (p x)) [
  | inl hit ↦ Memᴰ.head (sym (some_injective (rw hit at e)))
  | inr miss ↦ Memᴰ.tail (find-Memᴰ p xs a (rw miss at e))
]

-- What a call leaves that returned.
module _ (env : Env) (document_id hash : Text) where
  abbrev pub IsOnRecord : Result Error CrmRecord × Db → Type 0
  IsOnRecord (err e, db) = Unit {0}
  IsOnRecord (ok made, db) = HasRecord env db.crm_records document_id hash

  called-IsOnRecord :
      (called : Result Error CrmRecord × Db)
      → ((made : CrmRecord)
          → called.0 ≡ ok made
          → Recorded (idempotency_key env.sha256 document_id hash) made.external_id called.1)
      → IsOnRecord called
  unfolding find_record
  called-IsOnRecord (err e, db) recorded = tt
  called-IsOnRecord (ok made, db) recorded =
      let key = idempotency_key env.sha256 document_id hash in
      let r = recorded made refl in
      let test : CrmRecordRow → Bool = λ row. row.idempotency_key == key in
      (
        r.row,
        (
          find-Memᴰ test db.crm_records r.row r.stored,
          (==_iff r.row.idempotency_key key).0 (find-test test db.crm_records r.row r.stored),
        ),
      )

  pub create_record-IsOnRecord :
      (payload : Option InvoiceDraft) (db : Db)
      → IsOnRecord (create_record env (idempotency_key env.sha256 document_id hash) payload db)
  create_record-IsOnRecord payload db =
      let key = idempotency_key env.sha256 document_id hash in
      called-IsOnRecord (create_record env key payload db)
        (create_record-Recorded env key payload db)
