-- ===== src/Services/Validation.antt =====
-- app/services/validation.py
use evidence_flow.Prelude.{
  suc, Option, none, some, List, map, filter, Text, codes, if◌then◌else◌, ok, err, Exec,
}
use evidence_flow.Domain.Events.{validated, needs_review, validation_completed}
use evidence_flow.Domain.Evidence.Results.{EvidenceRow, from_row}
use evidence_flow.Domain.Failures.{Error, draft_invalid}
use evidence_flow.Domain.Schema.{InvoiceDraft}
use evidence_flow.Domain.Validation.{RuleResult, ValidationInput, blocking, validate, is_accepted}
use evidence_flow.Repositories.Models.{Document, Extraction, Env, Db, validation_payload}
use evidence_flow.Repositories.Documents.{
  committed_invoice_numbers, record_validation, set_document, append_event,
}

abbrev pub system_actor : Text
system_actor = codes "system"

abbrev pub rows_or_empty : Option (List EvidenceRow) → List EvidenceRow
rows_or_empty none = List.[]
rows_or_empty (some rows) = rows

-- What the rules read: the draft, the source, the stored evidence, what other documents have
-- committed, and today's date.
unfoldable pub validation_input : Env → Document → Extraction → InvoiceDraft → Db → ValidationInput
validation_input env document extraction draft db = record {
  draft = draft;
  source = document.source_text;
  evidence = map from_row (rows_or_empty extraction.evidence);
  known_invoice_numbers = committed_invoice_numbers env.unicode document.id db;
  today = env.today db.draws;
}

-- The route that the results give a document.
abbrev pub routed : List RuleResult → Document → Document
routed results d = record d { status = if is_accepted results then validated else needs_review }

-- Everything after the rules have run.
unfoldable pub record_results : Env → Document → Extraction → List RuleResult → Db → Db
record_results env document extraction results db =
    let accepted = is_accepted results in
    let recorded =
      record_validation env extraction.id results (record db { draws = suc db.draws }) in
    let marked = set_document document.id (routed results) recorded in
    append_event env document.id (some extraction.id) validation_completed system_actor
      (validation_payload accepted (filter blocking results)) marked

unfoldable pub validate_draft :
    Env → Document → Extraction → Option InvoiceDraft → Exec Db Error (List RuleResult)
unfolding validation_input record_results
validate_draft env document extraction none db = (err draft_invalid, db)
validate_draft env document extraction (some draft) db =
    let results = validate env.unicode (validation_input env document extraction draft db) in
    (ok results, record_results env document extraction results db)

unfoldable pub validate_extraction : Env → Document → Extraction → Exec Db Error (List RuleResult)
unfolding validate_draft
validate_extraction env document extraction =
    validate_draft env document extraction extraction.draft
