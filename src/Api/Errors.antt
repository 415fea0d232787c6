-- ===== src/Api/Errors.antt =====
-- app/api/errors.py
use evidence_flow.Prelude.{codes, if◌then◌else◌}
use evidence_flow.Domain.Failures.{Error, http_error, http_refusal, is_approval_missing}
use evidence_flow.Repositories.Session.{Session, commit}

-- A refusal is a recorded outcome: the session is committed before the exception goes on.
unfoldable pub commit_refusal : Session → Session
unfolding commit
commit_refusal s = commit s

unfoldable pub as_http_error : Error → Error
as_http_error e = http_refusal (if is_approval_missing e then 404 else 409) e

-- `HTTPException(404, "document not found")`
abbrev pub document_not_found : Error
document_not_found = http_error 404 (codes "document not found")
