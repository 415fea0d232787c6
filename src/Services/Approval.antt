-- ===== src/Services/Approval.antt =====
-- app/services/approval.py
pub mod Outcomes
pub mod Grants
use evidence_flow.Prelude.{
  ℕ, ◌+◌, Bool, true, false, Option, none, some, List, [], ◌∷◌, filter, Text, ◌==◌, nat_eq, list_eq,
  if◌then◌else◌, Result, ok, err, Exec,
}
use evidence_flow.Domain.Events.{
  validated, approved, needs_review, approval_granted, document_status_eq,
}
use evidence_flow.Domain.Failures.{
  Error, not_validated, newer_extraction, rules_block, integrity_error,
}
use evidence_flow.Domain.Validation.{RuleResult, blocking}
use evidence_flow.Repositories.Models.{Document, Extraction, Approval, Env, Db, approval_payload}
use evidence_flow.Repositories.Documents.{
  tick, latest_extraction, create_approval, set_document, append_event,
}
use evidence_flow.Services.Validation.{validate_extraction}

-- The approval of a version whose rules have all passed. An approval's hash cannot be NULL.
unfoldable pub grant_approval :
    Env → Document → Extraction → Text → ℕ → Option Text → Exec Db Error Approval
grant_approval env document extraction actor ttl none db = (err integrity_error, db)
grant_approval env document extraction actor ttl (some payload_hash) db =
    let moment = env.clock db.draws in
    let (approval, created) =
      create_approval env document.id extraction.id payload_hash actor (moment + ttl) (tick db) in
    let marked =
      set_document document.id
        (λ d. record d { status = approved; approved_payload_hash = some payload_hash }) created in
    (
      ok approval,
      append_event env document.id (some extraction.id) approval_granted actor
          (approval_payload approval.id approval.payload_hash approval.expires_at) marked,
    )

-- What follows the rules.
unfoldable pub approve_results :
    Env → Document → Extraction → Text → ℕ → List RuleResult → Exec Db Error Approval
unfolding grant_approval
approve_results env document extraction actor ttl [] db =
    grant_approval env document extraction actor ttl extraction.payload_hash db
approve_results env document extraction actor ttl (r ∷ rs) db = (
  err (rules_block (r ∷ rs)),
  set_document document.id (λ d. record d { status = needs_review }) db,
)

abbrev pub after_rules :
    Env
    → Document
    → Extraction
    → Text
    → ℕ
    → Result Error (List RuleResult) × Db
    → Result Error Approval × Db
after_rules env document extraction actor ttl (err e, db) = (err e, db)
after_rules env document extraction actor ttl (ok results, db) =
    approve_results env document extraction actor ttl (filter blocking results) db

-- What follows the lookup of the current extraction.
unfoldable pub approve_current :
    Env → Document → Extraction → Text → ℕ → Option Extraction → Exec Db Error Approval
unfolding approve_results
approve_current env document extraction actor ttl none db = (err newer_extraction, db)
approve_current env document extraction actor ttl (some current) db =
    if current.id == extraction.id
    then after_rules env document extraction actor ttl
        (validate_extraction env document extraction db)
    else (err newer_extraction, db)

unfoldable pub approve_extraction : Env → Document → Extraction → Text → ℕ → Exec Db Error Approval
unfolding approve_current
approve_extraction env document extraction actor ttl db =
    if document.status == validated
    then approve_current env document extraction actor ttl (latest_extraction document.id db) db
    else (err (not_validated document.status), db)
