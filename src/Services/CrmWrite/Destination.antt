-- ===== src/Services/CrmWrite/Destination.antt =====
-- The program's own destination, `DatabaseCrm` of app/providers/crm.py, seen from a write.
use evidence_flow.Prelude.{◌≡◌, refl, Option, none, some, Text, Bool-cases, inl, inr, any}
use evidence_flow.Domain.Schema.{InvoiceDraft}
use evidence_flow.Repositories.Models.{CrmRecordRow, Env, Db}
use evidence_flow.Repositories.Documents.{business_key}
use evidence_flow.Providers.Crm.{
  join_key, clashes, find_record, on_clash, insert_record, create_under, create_record,
}
use evidence_flow.Services.CrmWrite.Replay.{KeepsWrites}

on_clash-crm_writes :
    (found : Option CrmRecordRow) (number : Text) (db : Db)
    → (on_clash found number db).1.crm_writes ≡ db.crm_writes
unfolding on_clash
on_clash-crm_writes none number db = refl
on_clash-crm_writes (some row) number db = refl

create_under-crm_writes :
    (env : Env) (key : Text) (payload : Option InvoiceDraft) (pair : Option (Text × Text)) (db : Db)
    → (create_under env key payload pair db).1.crm_writes ≡ db.crm_writes
unfolding create_under insert_record
create_under-crm_writes env key payload none db = refl
create_under-crm_writes env key payload (some pair) db =
    elim (Bool-cases (any (clashes key (join_key pair)) db.crm_records)) [
      | inl clash ↦ rw clash (on_clash-crm_writes (find_record key db) pair.1 db)
      | inr free ↦ rw free refl
    ]

pub create_record-KeepsWrites : (env : Env) → KeepsWrites (create_record env)
unfolding create_record
create_record-KeepsWrites env key payload db =
    create_under-crm_writes env key payload (business_key env.unicode payload) db
