-- ===== src/Samples/Pages.antt =====
-- Requests to the JSON routes and to the pages of the reviewer.
use evidence_flow.Prelude.{◌≡◌, refl, none, some, codes, Result, ok, err, list_beq}
use evidence_flow.Domain.Failures.{
  Error, crm_unavailable, http_refusal, is_crm_error, default_approval_ttl,
}
use evidence_flow.Repositories.Models.{Approval, Db}
use evidence_flow.Repositories.Documents.{
  get_document, latest_extraction, find_write, latest_approval, claim_write,
}
use evidence_flow.Repositories.Session.{session_scope}
use evidence_flow.Providers.Crm.{CrmClient}
use evidence_flow.Services.Approval.{approve_extraction}
use evidence_flow.Services.CrmWrite.{WriteOutcome, write_approved_record}
use evidence_flow.Api.Routes
use evidence_flow.Api.Routes.Outcomes.{write_crm_error}
use evidence_flow.Api.Review
use evidence_flow.Api.Review.{back, stale_page, refusal, approved_by}
use evidence_flow.Api.Review.Outcomes.{Approves, ApprovedAs, approve-ApprovedAs}
use evidence_flow.Services.Approval.Grants.{approve_extraction_grants}
use evidence_flow.Samples.Rules.{sample-Passes}
use evidence_flow.Samples.World.{
  env, draft, approved_document, approved_db, extraction, validated_document, validated_db,
}

-- A destination that is down, and one that no write reaches.
abbrev down : CrmClient
down key payload db = (err (crm_unavailable (codes "down")), db)

abbrev failed_write : Result Error WriteOutcome × Db
failed_write = write_approved_record env down none approved_document approved_db

write_failed : failed_write.0 ≡ err (crm_unavailable (codes "down"))
unfolding write_approved_record find_write latest_approval list_beq latest_extraction claim_write
write_failed = refl

approved_found : get_document (codes "d") approved_db ≡ some approved_document
unfolding get_document list_beq
approved_found = refl

write_crm_error_example : session_scope (Routes.write env down none (codes "d")) approved_db ≡ (
  err (http_refusal 502 (crm_unavailable (codes "down"))),
  record approved_db { draws = failed_write.1.draws },
)
unfolding is_crm_error
write_crm_error_example =
    write_crm_error env down none (codes "d") approved_db failed_write.1 approved_document
      (crm_unavailable (codes "down")) approved_found (λ i. (write_failed i, failed_write.1)) refl

validated_latest : latest_extraction (codes "d") validated_db ≡ some extraction
unfolding latest_extraction list_beq
validated_latest = refl

abbrev ApprovedPage : Type 0
ApprovedPage =
    Approves (codes "r")
      (session_scope (Review.approve env (codes "r") (codes "d") (codes "inv-7")) validated_db).0

page_grants :
    (a : Approval) × ((approve_extraction env validated_document extraction
        (codes "r")
        default_approval_ttl
        validated_db).0
      ≡ ok a)
unfolding latest_extraction list_beq
page_grants =
    approve_extraction_grants env validated_document extraction extraction (codes "r")
      default_approval_ttl validated_db draft (codes "inv-7") refl refl refl refl refl sample-Passes

page_approved : ApprovedPage
unfolding session_scope Review.approve get_document latest_extraction list_beq
page_approved = (codes "d", rw page_grants.1 refl)

approve-ApprovedAs_example :
    ApprovedAs
      (codes "d")
      (codes "inv-7")
      validated_db
      (session_scope (Review.approve env (codes "r") (codes "d") (codes "inv-7")) validated_db).1
approve-ApprovedAs_example =
    approve-ApprovedAs env (codes "r") (codes "d") (codes "inv-7") validated_db page_approved
