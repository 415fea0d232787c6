-- ===== src/Domain/Failures.antt =====
-- The exceptions that the pipeline raises: app/domain/approval.py, app/providers/base.py and
-- app/providers/crm.py, with the values that their messages interpolate, and those of other code that
-- are caught by their base class. `is_transient` and `backoff` of app/domain/jobs.py.
use evidence_flow.Prelude.{
  ℕ, ◌-◌, ◌*◌, ◌^◌, Bool, true, false, Option, none, some, List, Text, codes,
}
use evidence_flow.Domain.Events.{DocumentStatus}
use evidence_flow.Domain.Validation.{RuleResult}

pub data Error : Type 0 where
  -- NotReadyForApproval
  not_validated : DocumentStatus → Error
  rules_block : List RuleResult → Error
  -- ExtractionSupersededError
  newer_extraction changed_after_approval left_approved : Error
  -- ApprovalMissing
  no_approval_recorded no_matching_approval : Error
  -- ApprovalExpired
  approval_expired : ℕ → Error
  -- AlreadyWritten
  already_written : Option Text → Error
  -- ProviderError and its subclasses
  provider_error provider_timeout provider_refusal malformed_output : Text → Error
  -- CrmError and its subclasses
  crm_error crm_unavailable : Text → Error
  no_business_key : Error
  already_recorded : Text → Error
  -- sqlalchemy.exc.IntegrityError and NoResultFound, pydantic.ValidationError
  integrity_error no_result_found draft_invalid : Error
  -- LookupError of the worker
  document_gone unknown_job_type : Text → Error
  -- AttributeError on a None, and TypeError
  missing_row type_error : Error
  -- another exception of the code that a provider or the extraction calls, by its type and message
  client_error : Text → Text → Error
  -- fastapi.HTTPException
  http_error : ℕ → Text → Error
  -- the same, with the code and the message of another exception as its detail
  http_refusal : ℕ → Error → Error

-- The `code` attribute, which only the program's own exceptions have.
unfoldable pub error_code : Error → Option Text
error_code (not_validated _) = some (codes "not_ready_for_approval")
error_code (rules_block _) = some (codes "not_ready_for_approval")
error_code newer_extraction = some (codes "extraction_superseded")
error_code changed_after_approval = some (codes "extraction_superseded")
error_code left_approved = some (codes "extraction_superseded")
error_code no_approval_recorded = some (codes "approval_missing")
error_code no_matching_approval = some (codes "approval_missing")
error_code (approval_expired _) = some (codes "approval_expired")
error_code (already_written _) = some (codes "already_written")
error_code (provider_error _) = some (codes "provider_error")
error_code (provider_timeout _) = some (codes "provider_timeout")
error_code (provider_refusal _) = some (codes "provider_refusal")
error_code (malformed_output _) = some (codes "malformed_provider_output")
error_code (crm_error _) = some (codes "crm_error")
error_code (crm_unavailable _) = some (codes "crm_unavailable")
error_code no_business_key = some (codes "crm_rejected")
error_code (already_recorded _) = some (codes "crm_rejected")
error_code integrity_error = none
error_code no_result_found = none
error_code draft_invalid = none
error_code (document_gone _) = none
error_code (unknown_job_type _) = none
error_code (http_error _ _) = none
error_code (http_refusal _ _) = none
error_code missing_row = none
error_code (client_error _ _) = none
error_code type_error = none

-- `isinstance(error, ApprovalError)`
unfoldable pub is_approval_error : Error → Bool
is_approval_error (not_validated _) = true
is_approval_error (rules_block _) = true
is_approval_error newer_extraction = true
is_approval_error changed_after_approval = true
is_approval_error left_approved = true
is_approval_error no_approval_recorded = true
is_approval_error no_matching_approval = true
is_approval_error (approval_expired _) = true
is_approval_error (already_written _) = true
is_approval_error _ = false

-- `isinstance(error, ApprovalMissing)`
unfoldable pub is_approval_missing : Error → Bool
is_approval_missing no_approval_recorded = true
is_approval_missing no_matching_approval = true
is_approval_missing _ = false

-- `isinstance(error, ProviderError)`
unfoldable pub is_provider_error : Error → Bool
is_provider_error (provider_error _) = true
is_provider_error (provider_timeout _) = true
is_provider_error (provider_refusal _) = true
is_provider_error (malformed_output _) = true
is_provider_error _ = false

-- `isinstance(error, CrmError)`
unfoldable pub is_crm_error : Error → Bool
is_crm_error (crm_error _) = true
is_crm_error (crm_unavailable _) = true
is_crm_error no_business_key = true
is_crm_error (already_recorded _) = true
is_crm_error _ = false

-- Both of the later branches of the source return False.
unfoldable pub is_transient : Error → Bool
is_transient (provider_timeout _) = true
is_transient (crm_unavailable _) = true
is_transient _ = false

-- Times are in microseconds.
abbrev pub default_max_attempts : ℕ
default_max_attempts = 4

abbrev pub default_base_backoff : ℕ
default_base_backoff = 2000000

abbrev pub default_lease : ℕ
default_lease = 60000000

abbrev pub default_approval_ttl : ℕ
default_approval_ttl = 1800000000

-- `base * (2 ** max(attempts - 1, 0))`; subtraction on ℕ stops at 0.
unfoldable pub backoff : ℕ → ℕ → ℕ
backoff attempts base = base * 2 ^ (attempts - 1)
