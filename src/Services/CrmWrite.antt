-- ===== src/Services/CrmWrite.antt =====
-- app/services/crm_write.py
pub mod Gate
pub mod Replay
pub mod Destination
use evidence_flow.Prelude.{
  ℕ, ◌+◌, Bool, true, false, Option, none, some, Text, ◌==◌, nat_eq, list_eq, option_eq, leb,
  if◌then◌else◌, Result, ok, err, Exec,
}
use evidence_flow.Domain.Approval.{idempotency_key}
use evidence_flow.Domain.Events.{
  WriteStatus, written, document_status_eq, write_status_eq, write_attempted, write_succeeded,
  write_failed,
}
use evidence_flow.Domain.Failures.{
  Error, no_approval_recorded, no_matching_approval, approval_expired, changed_after_approval,
  left_approved, already_written, is_crm_error,
}
use evidence_flow.Repositories.Models.{
  Document, Extraction, Approval, CrmWrite, Env, Db, attempt_payload, write_error, write_payload,
}
use evidence_flow.Repositories.Documents.{
  tick, find_write, latest_approval, latest_extraction, claim_write, set_write, append_event,
  mark_written,
}
use evidence_flow.Providers.Crm.{CrmClient, CrmRecord}
use evidence_flow.Services.Validation.{system_actor}

pub record WriteOutcome : Type 0 where
  pub write : CrmWrite
  pub called_destination : Bool

abbrev pub attempted : CrmWrite → CrmWrite
attempted w = record w { attempts = w.attempts + 1 }

abbrev failed_with : Error → CrmWrite → CrmWrite
failed_with e w = record w { status = WriteStatus.failed; last_error = some e }

abbrev pub landed : Text → CrmWrite → CrmWrite
landed external_id w = record w {
  status = WriteStatus.succeeded;
  external_id = some external_id;
  last_error = none;
}

-- The event of an attempt, and the count of attempts.
unfoldable pub begin_attempt : Env → Text → Extraction → Text → CrmWrite → Bool → Db → Db
begin_attempt env document_id extraction key write claimed db = set_write write.id attempted (
    append_event env document_id (some extraction.id) write_attempted system_actor
      (attempt_payload key (write.attempts + 1) claimed) db)

-- `except CrmError`; any other exception passes.
unfoldable pub on_crm_error : Env → Text → Extraction → Text → CrmWrite → Error → Db → Db
on_crm_error env document_id extraction key write e db =
    if is_crm_error e
    then append_event env document_id (some extraction.id) write_failed system_actor
        (write_error key e) (set_write write.id (failed_with e) db)
    else db

-- After the record landed: the document must still be approved in this version.
unfoldable pub confirm :
    Env
    → Text
    → Extraction
    → Text
    → CrmWrite
    → CrmRecord
    → Bool × Db
    → Result Error WriteOutcome × Db
confirm env document_id extraction key write made (false, db) = (err left_approved, db)
confirm env document_id extraction key write made (true, db) = (
  ok (record { write = landed made.external_id (attempted write); called_destination = true }),
  append_event env document_id (some extraction.id) write_succeeded system_actor
      (write_payload key made.external_id made.created) db,
)

-- After the call of the destination.
unfoldable pub finish_write :
    Env
    → Text
    → Text
    → Extraction
    → Text
    → CrmWrite
    → Result Error CrmRecord × Db
    → Result Error WriteOutcome × Db
unfolding on_crm_error confirm
finish_write env document_id payload_hash extraction key write (err e, db) =
    (err e, on_crm_error env document_id extraction key write e db)
finish_write env document_id payload_hash extraction key write (ok made, db) =
    confirm env document_id extraction key write made
      (mark_written document_id payload_hash (set_write write.id (landed made.external_id) db))

-- After the claim.
unfoldable pub attempt_write :
    Env
    → CrmClient
    → Text
    → Text
    → Extraction
    → Text
    → Result Error (CrmWrite × Bool) × Db
    → Result Error WriteOutcome × Db
unfolding begin_attempt finish_write
attempt_write env crm document_id payload_hash extraction key (err e, db) = (err e, db)
attempt_write env crm document_id payload_hash extraction key (ok (write, claimed), db) =
    finish_write env document_id payload_hash extraction key write
      (crm key extraction.draft (begin_attempt env document_id extraction key write claimed db))

-- With a live approval: the latest extraction must be what was approved.
unfoldable pub write_extraction :
    Env
    → CrmClient
    → Option Db
    → Text
    → Text
    → Text
    → Option Extraction
    → Exec Db Error WriteOutcome
unfolding attempt_write
write_extraction env crm conflict document_id payload_hash key none db =
    (err changed_after_approval, db)
write_extraction env crm conflict document_id payload_hash key (some x) db =
    if x.payload_hash == some payload_hash
    then attempt_write env crm document_id payload_hash x key
        (claim_write env conflict document_id x.id key db)
    else (err changed_after_approval, db)

-- The latest approval must be of this version and not have expired.
unfoldable pub write_approval :
    Env → CrmClient → Option Db → Text → Text → Text → Option Approval → Exec Db Error WriteOutcome
unfolding write_extraction
write_approval env crm conflict document_id payload_hash key none db =
    (err no_matching_approval, db)
write_approval env crm conflict document_id payload_hash key (some approval) db =
    if approval.payload_hash == payload_hash
    then if leb approval.expires_at (env.clock db.draws)
      then (err (approval_expired approval.expires_at), tick db)
      else write_extraction env crm conflict document_id payload_hash key
          (latest_extraction document_id (tick db)) (tick db)
    else (err no_matching_approval, db)

-- A version that was written before is not written again.
unfoldable pub settled_outcome : Document → CrmWrite → Result Error WriteOutcome
settled_outcome document w =
    if document.status == written
    then ok (record { write = w; called_destination = false })
    else err (already_written w.external_id)

-- After the lookup of an earlier write under the key.
unfoldable pub write_found :
    Env
    → CrmClient
    → Option Db
    → Document
    → Text
    → Text
    → Option CrmWrite
    → Exec Db Error WriteOutcome
unfolding settled_outcome write_approval
write_found env crm conflict document payload_hash key none db =
    write_approval env crm conflict document.id payload_hash key (latest_approval document.id db) db
write_found env crm conflict document payload_hash key (some settled) db =
    if settled.status == WriteStatus.succeeded
    then (settled_outcome document settled, db)
    else write_approval env crm conflict document.id payload_hash key
        (latest_approval document.id db) db

unfoldable pub write_version :
    Env → CrmClient → Option Db → Document → Option Text → Exec Db Error WriteOutcome
unfolding write_found
write_version env crm conflict document none db = (err no_approval_recorded, db)
write_version env crm conflict document (some payload_hash) db =
    let key = idempotency_key env.sha256 document.id payload_hash in
    write_found env crm conflict document payload_hash key (find_write key db) db

unfoldable pub write_approved_record :
    Env → CrmClient → Option Db → Document → Exec Db Error WriteOutcome
unfolding write_version
write_approved_record env crm conflict document =
    write_version env crm conflict document document.approved_payload_hash
