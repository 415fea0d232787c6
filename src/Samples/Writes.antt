-- ===== src/Samples/Writes.antt =====
-- Runs of the extraction, the approval and the write.
use evidence_flow.Prelude.{
  ◌≡◌, ◌↔◌, refl, true, false, none, some, codes, Result, ok, err, str_of_int, list_beq,
}
use evidence_flow.Domain.Approval.{idempotency_key}
use evidence_flow.Domain.Events.{WriteStatus}
use evidence_flow.Domain.Failures.{Error, crm_unavailable, no_approval_recorded}
use evidence_flow.Repositories.Models.{Extraction, Approval, CrmWrite, Db, empty_db}
use evidence_flow.Repositories.Documents.{
  find_write, latest_approval, latest_extraction, claim_write, business_key, set_write,
  append_event, mark_written, get_document,
}
use evidence_flow.Providers.Crm.{CrmClient, create_record}
use evidence_flow.Providers.Crm.Uniqueness.{repeated, create_record_again}
use evidence_flow.Services.CrmWrite.{write_approved_record}
use evidence_flow.Services.CrmWrite.Gate.{MayWrite, write_needs_approval}
use evidence_flow.Services.CrmWrite.Replay.{replayed, write_again}
use evidence_flow.Services.CrmWrite.Destination.{create_record-KeepsWrites}
use evidence_flow.Services.Approval.{approve_extraction}
use evidence_flow.Services.Approval.Outcomes.{IsGranted, approve_extraction-IsGranted}
use evidence_flow.Services.Extraction.{ExtractionOutcome, extract_document}
use evidence_flow.Services.Extraction.Revocation.{
  extracted_anew, extract_document-Extracted, write_after_extraction,
}
use evidence_flow.Services.Approval.Grants.{
  approve_extraction_grants, IsReady, approve_extraction-IsReady,
}
use evidence_flow.Samples.Rules.{sample-Passes}
use evidence_flow.Samples.World.{
  env, intake, document, draft, received_db, approved_document, approved_db, extraction,
  validated_document, validated_db,
}

-- A destination that is down.
abbrev down : CrmClient
down key payload db = (err (crm_unavailable (codes "down")), db)

unapproved : ¬ (MayWrite env document received_db)
unapproved m = let e = m.approved_hash in absurd (cc)

write_needs_approval_example :
    write_approved_record env (create_record env) none document received_db
    ≡ write_approved_record env down none document received_db
write_needs_approval_example =
    write_needs_approval env none document received_db (create_record env) down unapproved

abbrev after_write : Db
after_write = (write_approved_record env (create_record env) none approved_document approved_db).1

abbrev landed_write : CrmWrite
landed_write = record {
  id = codes "11";
  document_id = codes "d";
  extraction_id = codes "x";
  idempotency_key = idempotency_key env.sha256 (codes "d") (codes "inv-7");
  status = WriteStatus.succeeded;
  external_id = some (codes "CRM-1:D5:INV-7");
  attempts = 1;
  last_error = none;
  created_at = 11;
}

first_write :
    (write_approved_record env (create_record env) none approved_document approved_db).0
    ≡ ok (record { write = landed_write; called_destination = true })
unfolding write_approved_record create_record idempotency_key str_of_int find_write latest_approval
    latest_extraction list_beq claim_write business_key set_write append_event mark_written
first_write = refl

write_again_example :
    write_approved_record env down none approved_document after_write
    ≡ replayed approved_document landed_write after_write
write_again_example =
    write_again env (create_record env) down none none approved_document approved_document
      approved_db _ (create_record-KeepsWrites env) first_write refl refl

-- The destination under one key, called on an empty table.
abbrev first_record : Db
first_record = (create_record env (codes "k") (some draft) empty_db).1

first_call :
    (create_record env (codes "k") (some draft) empty_db).0
    ≡ ok (record { external_id = codes "CRM-K"; created = true })
unfolding create_record business_key list_beq
first_call = refl

create_record_again_example :
    create_record env (codes "k") (some draft) first_record ≡ repeated (codes "CRM-K") first_record
create_record_again_example = create_record_again env (codes "k") (some draft) empty_db _ first_call

-- An extraction of the invoice, whose document had been approved.
abbrev extraction_run : Result Error ExtractionOutcome × Db
extraction_run = extract_document env intake false approved_document approved_db

abbrev outcome_found : Result Error ExtractionOutcome → Extraction
outcome_found (ok o) = o.extraction
outcome_found (err e) = extraction

extraction_fine :
    extraction_run.0 ≡ ok (record { extraction = outcome_found extraction_run.0; error = none })
unfolding extract_document
extraction_fine = refl

extraction_marked :
    get_document approved_document.id extraction_run.1 ≡ some (extracted_anew approved_document)
unfolding get_document list_beq
extraction_marked =
    extract_document-Extracted env intake false approved_document approved_db _ extraction_fine refl

write_after_extraction_example :
    write_approved_record env down none (extracted_anew approved_document) extraction_run.1
    ≡ (err no_approval_recorded, extraction_run.1)
write_after_extraction_example =
    write_after_extraction env intake false down none approved_document
      (extracted_anew approved_document) approved_db _ extraction_fine refl extraction_marked

-- The approval of the validated document.
abbrev approval_run : Result Error Approval × Db
approval_run = approve_extraction env validated_document extraction (codes "r") 50 validated_db

abbrev Granted : Type 0
Granted = (a : Approval) × (approval_run.0 ≡ ok a)

approval_granted : Granted
unfolding latest_extraction list_beq
approval_granted =
    approve_extraction_grants env validated_document extraction extraction (codes "r") 50
      validated_db draft (codes "inv-7") refl refl refl refl refl sample-Passes

approve_extraction-IsReady_example :
    Granted ↔ IsReady env validated_document extraction validated_db
approve_extraction-IsReady_example =
    approve_extraction-IsReady env validated_document extraction (codes "r") 50 validated_db

approve_extraction-IsGranted_example :
    IsGranted env validated_document extraction validated_db approval_run.1 approval_granted.0
approve_extraction-IsGranted_example =
    approve_extraction-IsGranted env validated_document extraction (codes "r") 50 validated_db
      approval_granted.0 approval_granted.1
