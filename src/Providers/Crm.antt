-- ===== src/Providers/Crm.antt =====
-- app/providers/crm.py: the destination that stores its records in the database, under two unique
-- constraints.
pub mod Uniqueness
use evidence_flow.Prelude.{
  ℕ, suc, ◌-◌, Bool, true, false, ◌&&◌, ◌||◌, Option, none, some, List, [], ◌∷◌, ◌++◌, map, Text,
  codes, leb, ◌==◌, nat_eq, list_eq, find, any, take, if◌then◌else◌, Result, ok, err, Exec,
}
use evidence_flow.Domain.Failures.{Error, no_business_key, already_recorded}
use evidence_flow.Domain.Schema.{InvoiceDraft}
use evidence_flow.Repositories.Models.{CrmRecordRow, Env, Db}
use evidence_flow.Repositories.Documents.{business_key}

pub record CrmRecord : Type 0 where
  pub external_id : Text
  pub created : Bool

-- The protocol `CrmClient`: one call, which may raise.
abbrev pub CrmClient : Type 0
CrmClient = Text → Option InvoiceDraft → Exec Db Error CrmRecord

-- `str.upper` on an ASCII letter; the keys are hexadecimal.
upper : ℕ → ℕ
upper c = if leb b'a' c && leb c b'z' then c - 32 else c

unfoldable pub external_id_for : Text → Text
unfolding upper
external_id_for idempotency_key = codes "CRM-" ++ map upper (take 10 idempotency_key)

-- `":".join(key)`
unfoldable pub join_key : Text × Text → Text
join_key (supplier, number) = supplier ++ b':' ∷ number

abbrev pub clashes : Text → Text → CrmRecordRow → Bool
clashes idempotency_key joined row =
    row.idempotency_key == idempotency_key || row.business_key == joined

unfoldable pub find_record : Text → Db → Option CrmRecordRow
find_record key db = find (λ r. r.idempotency_key == key) db.crm_records

-- The handler of the IntegrityError, given the row that the lookup finds; the savepoint has been
-- rolled back.
unfoldable pub on_clash : Option CrmRecordRow → Text → Exec Db Error CrmRecord
on_clash none number db = (err (already_recorded number), db)
on_clash (some existing) number db =
    (ok (record { external_id = existing.external_id; created = false }), db)

unfoldable pub insert_record :
    Env → Text → Option InvoiceDraft → Text × Text → Exec Db Error CrmRecord
unfolding external_id_for join_key on_clash find_record
insert_record env idempotency_key payload key db =
    let external_id = external_id_for idempotency_key in
    let row : CrmRecordRow = record {
      id = env.uuid db.draws;
      idempotency_key = idempotency_key;
      business_key = join_key key;
      external_id = external_id;
      payload = payload;
      created_at = env.clock db.draws;
    } in
    if any (clashes idempotency_key (join_key key)) db.crm_records
    then on_clash (find_record idempotency_key db) key.1 db
    else (
      ok (record { external_id = external_id; created = true }),
      record db { draws = suc db.draws; crm_records = db.crm_records ++ row ∷ [] },
    )

-- `create_record` once the business key is known.
unfoldable pub create_under :
    Env → Text → Option InvoiceDraft → Option (Text × Text) → Exec Db Error CrmRecord
unfolding insert_record
create_under env idempotency_key payload none db = (err no_business_key, db)
create_under env idempotency_key payload (some key) db =
    insert_record env idempotency_key payload key db

unfoldable pub create_record : Env → CrmClient
unfolding create_under
create_record env idempotency_key payload =
    create_under env idempotency_key payload (business_key env.unicode payload)
