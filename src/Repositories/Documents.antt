-- ===== src/Repositories/Documents.antt =====
-- app/repositories/documents.py: the queries and the inserts. Each insert draws an identifier and the
-- time of creation. `ORDER BY created_at DESC, id DESC LIMIT 1` is a maximum.
pub mod Rows
use evidence_flow.Prelude.{
  ℕ, suc, ◌+◌, Bool, true, false, ◌&&◌, ◌||◌, Option, none, some, List, [], ◌∷◌, ◌++◌, map, Text,
  codes, ltb, nat_beq, ◌==◌, nat_eq, list_eq, option_eq, find, filter, if◌then◌else◌, Result, ok,
  err, Exec, any, not, length,
}
use evidence_flow.Domain.Events.{
  EventType, DocumentStatus, WriteStatus, received, approved, written, document_status_eq,
}
use evidence_flow.Domain.Evidence.{strip}
use evidence_flow.Domain.Failures.{Error, no_result_found}
use evidence_flow.Domain.Schema.{InvoiceDraft}
use evidence_flow.Domain.Validation.{RuleResult, normalize_supplier}
use evidence_flow.Domain.Validation.Dates.{Unicode}
use evidence_flow.Repositories.Models.{
  Document, Extraction, Approval, CrmWrite, ValidationResult, Payload, Event, Env, Db,
}

-- `a < b` on two strings
unfoldable pub text_before : Text → Text → Bool
text_before [] [] = false
text_before [] (y ∷ ys) = true
text_before (x ∷ xs) [] = false
text_before (x ∷ xs) (y ∷ ys) = ltb x y || (nat_beq x y && text_before xs ys)

-- The row that `ORDER BY created_at DESC, id DESC` puts first.
module _ {A : Type 0} (created_at : A → ℕ) (id : A → Text) where
  abbrev pub is_newer : A → A → Bool
  is_newer a b =
      ltb (created_at b) (created_at a)
      || (nat_beq (created_at a) (created_at b) && text_before (id b) (id a))

  abbrev pub newest : List A → Option A
  newest [] = none
  newest (x ∷ xs) = elim (newest xs) [
    | none ↦ some x
    | some y ↦ if is_newer x y then some x else some y
  ]

unfoldable pub get_document : Text → Db → Option Document
get_document document_id db = find (λ d. d.id == document_id) db.documents

unfoldable pub latest_extraction : Text → Db → Option Extraction
latest_extraction document_id db =
    newest (λ x. x.created_at) (λ x. x.id)
      (filter (λ x. x.document_id == document_id) db.extractions)

unfoldable pub latest_approval : Text → Db → Option Approval
latest_approval document_id db =
    newest (λ x. x.created_at) (λ x. x.id) (filter (λ x. x.document_id == document_id) db.approvals)

unfoldable pub find_write : Text → Db → Option CrmWrite
find_write key db = find (λ w. w.idempotency_key == key) db.crm_writes

-- The write, or another change, of the rows that a test picks.
abbrev pub update_where : {A : Type 0} → (A → Bool) → (A → A) → List A → List A
update_where test change rows = map (λ r. if test r then change r else r) rows

-- An assignment to an attribute of the loaded document, flushed to its row.
unfoldable pub set_document : Text → (Document → Document) → Db → Db
set_document document_id change db = record db {
  documents = update_where (λ d. d.id == document_id) change db.documents;
}

unfoldable pub set_write : Text → (CrmWrite → CrmWrite) → Db → Db
set_write write_id change db = record db {
  crm_writes = update_where (λ w. w.id == write_id) change db.crm_writes;
}

unfoldable pub business_key : Unicode → Option InvoiceDraft → Option (Text × Text)
business_key unicode none = none
business_key unicode (some draft) =
    let supplier = draft.supplier.value in
    let number = draft.invoice_number.value in
    if supplier == [] || number == []
    then none
    else some (normalize_supplier unicode supplier, strip number)

-- In SQL a comparison with NULL does not hold.
abbrev sql_eq : Option Text → Option Text → Bool
sql_eq (some a) (some b) = a == b
sql_eq _ _ = false

-- The conditions of `committed_invoice_numbers` on an extraction joined with its document.
abbrev is_committed : Text → Extraction → Document → Bool
is_committed excluded x d =
    d.id == x.document_id
    && not (d.id == excluded)
    && (d.status == approved || d.status == written)
    && sql_eq x.payload_hash d.approved_payload_hash

abbrev add_key : Option (Text × Text) → List (Text × Text) → List (Text × Text)
add_key none pairs = pairs
add_key (some pair) pairs = pair ∷ pairs

-- A row joins with each document that the conditions accept. The result is a set of pairs.
abbrev join_keys : Unicode → Text → List Document → List Extraction → List (Text × Text)
join_keys unicode excluded docs [] = []
join_keys unicode excluded docs (x ∷ xs) =
    let rest = join_keys unicode excluded docs xs in
    if any (is_committed excluded x) docs then add_key (business_key unicode x.draft) rest else rest

unfoldable pub committed_invoice_numbers : Unicode → Text → Db → List (Text × Text)
unfolding business_key
committed_invoice_numbers unicode exclude_document_id db =
    join_keys unicode exclude_document_id db.documents db.extractions

-- One more draw, after `env.clock db.draws` has been read.
abbrev pub tick : Db → Db
tick db = record db { draws = suc db.draws }

unfoldable pub append_event : Env → Text → Option Text → EventType → Text → Payload → Db → Db
append_event env document_id extraction_id type actor payload db = record db {
  draws = suc db.draws;
  events =
      db.events
      ++ record {
        id = env.uuid db.draws;
        document_id = document_id;
        extraction_id = extraction_id;
        type = type;
        actor = actor;
        payload = payload;
        created_at = env.clock db.draws;
      }
        ∷ [];
}

-- `document_id` is given for a seeded document.
unfoldable pub create_document : Env → Text → Text → Option Text → Db → Document × Db
create_document env filename source_text document_id db =
    let document : Document = record {
      id = elim document_id [ none ↦ env.uuid db.draws | some given ↦ given ];
      filename = filename;
      source_text = source_text;
      status = received;
      approved_payload_hash = none;
      created_at = env.clock db.draws;
    } in
    (document, record db { draws = suc db.draws; documents = db.documents ++ document ∷ [] })

unfoldable pub record_validation : Env → Text → List RuleResult → Db → Db
record_validation env extraction_id [] db = db
record_validation env extraction_id (r ∷ rs) db =
    record_validation env extraction_id rs (record db {
      draws = suc db.draws;
      validation_results =
          db.validation_results
          ++ record {
            id = env.uuid db.draws;
            extraction_id = extraction_id;
            result = r;
            created_at = env.clock db.draws;
          }
            ∷ [];
    })

unfoldable pub create_approval : Env → Text → Text → Text → Text → ℕ → Db → Approval × Db
create_approval env document_id extraction_id payload_hash actor expires_at db =
    let approval : Approval = record {
      id = env.uuid db.draws;
      document_id = document_id;
      extraction_id = extraction_id;
      payload_hash = payload_hash;
      actor = actor;
      expires_at = expires_at;
      created_at = env.clock db.draws;
    } in
    (approval, record db { draws = suc db.draws; approvals = db.approvals ++ approval ∷ [] })

unfoldable pub new_write : Env → Text → Text → Text → Db → CrmWrite
new_write env document_id extraction_id key db = record {
  id = env.uuid db.draws;
  document_id = document_id;
  extraction_id = extraction_id;
  idempotency_key = key;
  status = WriteStatus.pending;
  external_id = none;
  attempts = 0;
  last_error = none;
  created_at = env.clock db.draws;
}

-- The end of `claim_write`'s handler: `.one()` on the row with the key.
unfoldable pub existing_write : Option CrmWrite → Exec Db Error (CrmWrite × Bool)
existing_write none db = (err no_result_found, db)
existing_write (some existing) db = (ok (existing, false), db)

-- What follows the first lookup of `claim_write`. `conflict` says whether the flush meets the unique
-- constraint because another session has committed a row with this key since the lookup: then the
-- session rolls back, and `conflict` holds the database that it sees from there on.
unfoldable pub insert_write : Env → Option Db → Text → Text → Text → Exec Db Error (CrmWrite × Bool)
unfolding new_write existing_write find_write
insert_write env none document_id extraction_id key db =
    let write = new_write env document_id extraction_id key db in
    (ok (write, true), record db { draws = suc db.draws; crm_writes = db.crm_writes ++ write ∷ [] })
insert_write env (some seen) document_id extraction_id key db =
    existing_write (find_write key seen) seen

unfoldable pub claim_found :
    Option CrmWrite → Env → Option Db → Text → Text → Text → Exec Db Error (CrmWrite × Bool)
unfolding insert_write
claim_found (some existing) env conflict document_id extraction_id key db =
    (ok (existing, false), db)
claim_found none env conflict document_id extraction_id key db =
    insert_write env conflict document_id extraction_id key db

unfoldable pub claim_write : Env → Option Db → Text → Text → Text → Exec Db Error (CrmWrite × Bool)
unfolding claim_found
claim_write env conflict document_id extraction_id key db =
    claim_found (find_write key db) env conflict document_id extraction_id key db

abbrev pub is_writable : Text → Text → Document → Bool
is_writable document_id payload_hash d =
    d.id == document_id && d.status == approved && d.approved_payload_hash == some payload_hash

-- The UPDATE and whether it changed one row.
unfoldable pub mark_written : Text → Text → Db → Bool × Db
mark_written document_id payload_hash db =
    let test = is_writable document_id payload_hash in
    (
      nat_beq (length (filter test db.documents)) 1,
      record db { documents = update_where test (λ d. record d { status = written }) db.documents },
    )

-- The rows of a listing by `created_at, id`.
module _ {A : Type 0} (created_at : A → ℕ) (id : A → Text) where
  abbrev pub insert_row : A → List A → List A
  insert_row x [] = x ∷ []
  insert_row x (y ∷ ys) =
      let rest = insert_row x ys in if is_newer created_at id x y then y ∷ rest else x ∷ y ∷ ys

  abbrev pub by_age : List A → List A
  by_age [] = []
  by_age (x ∷ xs) = insert_row x (by_age xs)

unfoldable pub list_documents : Db → List Document
list_documents db = by_age (λ x. x.created_at) (λ x. x.id) db.documents

unfoldable pub list_events : Text → Db → List Event
list_events document_id db =
    by_age (λ x. x.created_at) (λ x. x.id) (filter (λ e. e.document_id == document_id) db.events)

unfoldable pub list_validation_results : Text → Db → List ValidationResult
list_validation_results extraction_id db =
    by_age (λ x. x.created_at) (λ x. x.id)
      (filter (λ v. v.extraction_id == extraction_id) db.validation_results)
