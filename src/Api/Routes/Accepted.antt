-- ===== src/Api/Routes/Accepted.antt =====
-- The flag `accepted` in the view of an extraction.
use evidence_flow.Prelude.{◌≡◌, Bool, some, map_option, List, Text, ◌==◌, nat_eq, list_eq, filter}
use evidence_flow.Domain.Validation.{RuleResult, is_pass, is_accepted}
use evidence_flow.Repositories.Models.{Document, Extraction, ValidationResult, Db}
use evidence_flow.Repositories.Documents.{get_document}
use evidence_flow.Services.Validation.{routed}
use evidence_flow.Api.Routes.Views.{extraction_view}

abbrev passes : ValidationResult → Bool
passes row = is_pass row.result.outcome

-- The rows of an extraction after its results are recorded.
abbrev pub rows_of : Text → Db → List ValidationResult
rows_of extraction_id db = filter (λ v. v.extraction_id == extraction_id) db.validation_results

-- What the rules have decided is what the view and the document's row say.
pub record Agrees (document : Document) (x : Extraction) (results : List RuleResult) (db after : Db)
    : Type 0 where
  pub shown : (extraction_view after x).accepted ≡ some (is_accepted results)
  pub row :
      get_document document.id after ≡ map_option (routed results) (get_document document.id db)
