-- ===== src/Services/CrmWrite/Replay.antt =====
-- A version that was written is not written again.
use evidence_flow.Prelude.{
  ◌≡◌, refl, ap, ◌∙◌, subst, leb, option_eq, Bool, true, false, Option, none, some, Text, arith,
  ◌==◌, ==_iff, nat_eq, list_eq, List, [], ◌∷◌, ◌++◌, find, Bool-cases, inl, inr, Result, ok, err,
  if◌then◌else◌, map,
}
use evidence_flow.Domain.Approval.{idempotency_key}
use evidence_flow.Domain.Events.{WriteStatus, write_status_eq, written, document_status_eq}
use evidence_flow.Domain.Failures.{Error, already_written}
use evidence_flow.Domain.Schema.{InvoiceDraft}
use evidence_flow.Repositories.Models.{Document, Extraction, Approval, CrmWrite, Env, Db}
use evidence_flow.Repositories.Documents.{
  tick, find_write, set_write, claim_write, claim_found, insert_write, existing_write, new_write,
  append_event, mark_written,
}
use evidence_flow.Providers.Crm.{CrmClient, CrmRecord}
use evidence_flow.Services.CrmWrite.{
  WriteOutcome, attempted, landed, begin_attempt, finish_write, confirm, attempt_write,
  write_extraction, write_approval, settled_outcome, write_found, write_version,
  write_approved_record,
}

-- A change that leaves the keys alone changes the row that is found, and only that one.
abbrev if_id : Text → (CrmWrite → CrmWrite) → CrmWrite → CrmWrite
if_id id change w = if w.id == id then change w else w

abbrev mapped : (CrmWrite → CrmWrite) → Option CrmWrite → Option CrmWrite
mapped f none = none
mapped f (some w) = some (f w)

if_id-key :
    (id : Text) (change : CrmWrite → CrmWrite) (w : CrmWrite)
    → ((w : CrmWrite) → (change w).idempotency_key ≡ w.idempotency_key)
    → (if_id id change w).idempotency_key ≡ w.idempotency_key
if_id-key id change w same = elim (Bool-cases (w.id == id)) [ inl e ↦ rw e (same w) | inr e ↦ rw e ]

find_updated :
    (key id : Text) (change : CrmWrite → CrmWrite) (rows : List CrmWrite)
    → ((w : CrmWrite) → (change w).idempotency_key ≡ w.idempotency_key)
    → find (λ w. w.idempotency_key == key) (map (if_id id change) rows)
      ≡ mapped (if_id id change) (find (λ w. w.idempotency_key == key) rows)
find_updated key id change [] same = refl
find_updated key id change (w ∷ rows) same =
    rw (if_id-key id change w same) (elim (Bool-cases (w.idempotency_key == key)) [
      | inl hit ↦ rw hit refl
      | inr miss ↦ rw miss (find_updated key id change rows same)
    ])

-- A row that was just added is found, if none was found before.
find_added :
    (key : Text) (rows : List CrmWrite) (w : CrmWrite)
    → find (λ w. w.idempotency_key == key) rows ≡ none
    → w.idempotency_key ≡ key
    → find (λ w. w.idempotency_key == key) (rows ++ w ∷ []) ≡ some w
find_added key [] w h e = rw ((==_iff w.idempotency_key key).1 e)
find_added key (r ∷ rows) w h e = elim (Bool-cases (r.idempotency_key == key)) [
  | inl hit ↦ absurd (ground arith)
  | inr miss ↦ rw miss (find_added key rows w (ground arith) e)
]

-- The write that `claim_write` returns is the one that is found under the key from there on.
existing-found :
    (found : Option CrmWrite) (key : Text) (seen : Db) (w : CrmWrite) (b : Bool)
    → find_write key seen ≡ found
    → (existing_write found seen).0 ≡ ok (w, b)
    → find_write key (existing_write found seen).1 ≡ some w
unfolding existing_write
existing-found none key seen w b e h = absurd (cc)
existing-found (some x) key seen w b e h = e ∙ ap some (ground arith)

insert-found :
    (env : Env) (conflict : Option Db) (document_id extraction_id key : Text) (db : Db)
    (w : CrmWrite) (b : Bool)
    → find_write key db ≡ none
    → (insert_write env conflict document_id extraction_id key db).0 ≡ ok (w, b)
    → find_write key (insert_write env conflict document_id extraction_id key db).1 ≡ some w
unfolding insert_write find_write
insert-found env none document_id extraction_id key db w b e h =
    find_added key db.crm_writes (new_write env document_id extraction_id key db) e
      (unfold new_write in refl)
    ∙ ap some (ground arith)
insert-found env (some seen) document_id extraction_id key db w b e h =
    existing-found (find_write key seen) key seen w b refl h

claim-found :
    (found : Option CrmWrite) (env : Env) (conflict : Option Db)
    (document_id extraction_id key : Text) (db : Db) (w : CrmWrite) (b : Bool)
    → find_write key db ≡ found
    → (claim_found found env conflict document_id extraction_id key db).0 ≡ ok (w, b)
    → find_write key (claim_found found env conflict document_id extraction_id key db).1 ≡ some w
unfolding claim_found
claim-found none env conflict document_id extraction_id key db w b e h =
    insert-found env conflict document_id extraction_id key db w b e h
claim-found (some x) env conflict document_id extraction_id key db w b e h =
    e ∙ ap some (ground arith)

-- The row of a write that is found, after a change to the row with its id.
found_changed :
    (key : Text) (change : CrmWrite → CrmWrite) (db : Db) (w : CrmWrite) (id : Text)
    → ((w : CrmWrite) → (change w).idempotency_key ≡ w.idempotency_key)
    → find_write key db ≡ some w
    → w.id ≡ id
    → find_write key (set_write id change db) ≡ some (change w)
unfolding find_write set_write
found_changed key change db w id same e i =
    find_updated key id change db.crm_writes same
    ∙ ap (mapped (if_id id change)) e
    ∙ (rw ((==_iff w.id id).1 i) refl)

-- The destination leaves the rows of `crm_write` alone.
abbrev pub KeepsWrites : CrmClient → Type 0
KeepsWrites crm =
    (key : Text) (payload : Option InvoiceDraft) (db : Db)
    → (crm key payload db).1.crm_writes ≡ db.crm_writes

-- What stands under a key once its version is written.
pub record IsWritten (key : Text) (w : CrmWrite) (db : Db) : Type 0 where
  pub found : find_write key db ≡ some w
  pub succeeded : w.status ≡ WriteStatus.succeeded

settled_write :
    (document : Document) (w : CrmWrite) (o : WriteOutcome)
    → settled_outcome document w ≡ ok o
    → w ≡ o.write
unfolding settled_outcome
settled_write document w o h = ground arith

module _ (env : Env) (document_id payload_hash key : Text) (x : Extraction) (w : CrmWrite) where
  confirm-IsWritten :
      (made : CrmRecord) (marked : Bool × Db) (o : WriteOutcome)
      → find_write key marked.1 ≡ some (landed made.external_id (attempted w))
      → (confirm env document_id x key w made marked).0 ≡ ok o
      → IsWritten key o.write (confirm env document_id x key w made marked).1
  unfolding confirm find_write append_event
  confirm-IsWritten made (false, db) o e h = absurd (cc)
  confirm-IsWritten made (true, db) o e h = record {
    found = e ∙ ap some (ground arith);
    succeeded = ground arith;
  }

  found_marked :
      (db : Db) → find_write key (mark_written document_id payload_hash db).1 ≡ find_write key db
  unfolding mark_written find_write
  found_marked db = refl

  finish-IsWritten :
      (called : Result Error CrmRecord × Db) (o : WriteOutcome)
      → find_write key called.1 ≡ some (attempted w)
      → (finish_write env document_id payload_hash x key w called).0 ≡ ok o
      → IsWritten key o.write (finish_write env document_id payload_hash x key w called).1
  unfolding finish_write
  finish-IsWritten (err e, db) o f h = absurd (cc)
  finish-IsWritten (ok made, db) o f h =
      confirm-IsWritten made
        (mark_written document_id payload_hash (set_write w.id (landed made.external_id) db)) o
        (found_marked (set_write w.id (landed made.external_id) db)
          ∙ found_changed key (landed made.external_id) db (attempted w) w.id (λ v. refl) f refl)
        h

module _ (env : Env) (crm : CrmClient) (keeps : KeepsWrites crm)
    (document_id payload_hash key : Text) where
  begun_found :
      (x : Extraction) (w : CrmWrite) (b : Bool) (db : Db)
      → find_write key db ≡ some w
      → find_write key (begin_attempt env document_id x key w b db) ≡ some (attempted w)
  unfolding begin_attempt append_event find_write
  begun_found x w b db e = found_changed key attempted _ w w.id (λ v. refl) e refl

  called_found :
      (x : Extraction) (db : Db) (w : CrmWrite)
      → find_write key db ≡ some w
      → find_write key (crm key x.draft db).1 ≡ some w
  unfolding find_write
  called_found x db w e = rw (keeps key x.draft db) e

  attempt-IsWritten :
      (x : Extraction) (claimed : Result Error (CrmWrite × Bool) × Db) (o : WriteOutcome)
      → ((w : CrmWrite) (b : Bool) → claimed.0 ≡ ok (w, b) → find_write key claimed.1 ≡ some w)
      → (attempt_write env crm document_id payload_hash x key claimed).0 ≡ ok o
      → IsWritten key o.write (attempt_write env crm document_id payload_hash x key claimed).1
  unfolding attempt_write
  attempt-IsWritten x (err e, db) o f h = absurd (cc)
  attempt-IsWritten x (ok (w, b), db) o f h =
      finish-IsWritten env document_id payload_hash key x w _ o
        (called_found x _ (attempted w) (begun_found x w b db (f w b refl))) h

  module _ (conflict : Option Db) where
    extraction-IsWritten :
        (x : Option Extraction) (db : Db) (o : WriteOutcome)
        → (write_extraction env crm conflict document_id payload_hash key x db).0 ≡ ok o
        → IsWritten key o.write
            (write_extraction env crm conflict document_id payload_hash key x db).1
    unfolding write_extraction claim_write
    extraction-IsWritten none db o h = absurd (cc)
    extraction-IsWritten (some x) db o h = elim (Bool-cases (x.payload_hash == some payload_hash)) [
      | inr miss ↦ absurd (ground arith)
      | inl hit ↦ rw hit (
          attempt-IsWritten x _ o
            (λ w b. claim-found (find_write key db) env conflict document_id x.id key db w b refl)
            (rw hit at h))
    ]

    approval-IsWritten :
        (a : Option Approval) (db : Db) (o : WriteOutcome)
        → (write_approval env crm conflict document_id payload_hash key a db).0 ≡ ok o
        → IsWritten key o.write
            (write_approval env crm conflict document_id payload_hash key a db).1
    unfolding write_approval
    approval-IsWritten none db o h = absurd (cc)
    approval-IsWritten (some a) db o h = elim (Bool-cases (a.payload_hash == payload_hash)) [
      | inr miss ↦ absurd (ground arith)
      | inl hit ↦ elim (Bool-cases (leb a.expires_at (env.clock db.draws))) [
        | inl late ↦ absurd (ground arith)
        | inr live ↦ rw (hit, live) (extraction-IsWritten _ (tick db) o (rw (hit, live) at h))
      ]
    ]

found-IsWritten :
    (env : Env) (crm : CrmClient) (conflict : Option Db) (document : Document)
    (payload_hash key : Text) (settled : Option CrmWrite) (db : Db) (o : WriteOutcome)
    → KeepsWrites crm
    → find_write key db ≡ settled
    → (write_found env crm conflict document payload_hash key settled db).0 ≡ ok o
    → IsWritten key o.write (write_found env crm conflict document payload_hash key settled db).1
unfolding write_found
found-IsWritten env crm conflict document payload_hash key none db o keeps e h =
    approval-IsWritten env crm keeps document.id payload_hash key conflict _ db o h
found-IsWritten env crm conflict document payload_hash key (some w) db o keeps e h =
    elim (Bool-cases (w.status == WriteStatus.succeeded)) [
      | inr open_ ↦ rw open_ (
          approval-IsWritten env crm keeps document.id payload_hash key conflict _ db o
            (rw open_ at h))
      | inl done ↦ rw done (record {
        found = e ∙ ap some (settled_write document w o (rw done at h));
        succeeded =
            subst (λ (v : CrmWrite). v.status ≡ WriteStatus.succeeded)
              (settled_write document w o (rw done at h))
              ((==_iff w.status WriteStatus.succeeded).0 done);
      })
    ]

-- What a version that was written gives, and to what database.
abbrev pub replayed : Document → CrmWrite → Db → Result Error WriteOutcome × Db
replayed document w db = (
  if document.status == written
      then ok (record { write = w; called_destination = false })
      else err (already_written w.external_id),
  db,
)

found_replayed :
    (env : Env) (crm : CrmClient) (conflict : Option Db) (document : Document)
    (payload_hash key : Text) (settled : Option CrmWrite) (w : CrmWrite) (db : Db)
    → settled ≡ some w
    → w.status ≡ WriteStatus.succeeded
    → write_found env crm conflict document payload_hash key settled db ≡ replayed document w db
unfolding write_found settled_outcome
found_replayed env crm conflict document payload_hash key none w db e h = absurd (cc)
found_replayed env crm conflict document payload_hash key (some v) w db e h =
    let v_is_w : v ≡ w = ground arith in
    rw v_is_w (rw ((==_iff w.status WriteStatus.succeeded).1 h) refl)

version_again :
    (env : Env) (crm crm' : CrmClient) (conflict conflict' : Option Db) (document later : Document)
    (payload_hash : Option Text) (db : Db) (o : WriteOutcome)
    → KeepsWrites crm
    → (write_version env crm conflict document payload_hash db).0 ≡ ok o
    → later.id ≡ document.id
    → write_version env crm' conflict' later payload_hash
        (write_version env crm conflict document payload_hash db).1
      ≡ replayed later o.write (write_version env crm conflict document payload_hash db).1
unfolding write_version
version_again env crm crm' conflict conflict' document later none db o keeps h same = absurd (cc)
version_again env crm crm' conflict conflict' document later (some payload_hash) db o keeps h same =
    let key = idempotency_key env.sha256 document.id payload_hash in
    let done =
      found-IsWritten env crm conflict document payload_hash key (find_write key db) db o keeps refl
        h in
    let after = (write_version env crm conflict document (some payload_hash) db).1 in
    found_replayed env crm' conflict' later payload_hash
      (idempotency_key env.sha256 later.id payload_hash) _ o.write after
      (ap (λ id. find_write (idempotency_key env.sha256 id payload_hash) after) same ∙ done.found)
      done.succeeded

-- Once a write through a destination that leaves the rows of `crm_write` alone has returned, writing
-- the same version of the document again does not call the destination, whatever it would do, and
-- changes nothing: a written document gets the outcome with the recorded identifier, any other
-- document the error that the record exists.
pub write_again :
    (env : Env) (crm crm' : CrmClient) (conflict conflict' : Option Db) (document later : Document)
    (db : Db) (o : WriteOutcome)
    → KeepsWrites crm
    → (write_approved_record env crm conflict document db).0 ≡ ok o
    → later.id ≡ document.id
    → later.approved_payload_hash ≡ document.approved_payload_hash
    → write_approved_record env crm' conflict' later
        (write_approved_record env crm conflict document db).1
      ≡ replayed later o.write (write_approved_record env crm conflict document db).1
unfolding write_approved_record
write_again env crm crm' conflict conflict' document later db o keeps h same hash = rw hash (
    version_again env crm crm' conflict conflict' document later document.approved_payload_hash db o
      keeps h same)
