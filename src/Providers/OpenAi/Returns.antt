-- ===== src/Providers/OpenAi/Returns.antt =====
-- An extraction through the API ends with a stored row.
use evidence_flow.Prelude.{◌≡◌, true, [], ◌∷◌, ◌++◌, Result, ok, err}
use evidence_flow.Domain.Failures.{Error, is_provider_error}
use evidence_flow.Repositories.Models.{Extraction, Db}
use evidence_flow.Services.Extraction.{
  Validated, valid, invalid, raised, ProviderResult, ExtractionOutcome,
}
use evidence_flow.Providers.OpenAi.{
  LoadFailure, not_json, load_raised, Failure, Response, Loaded, is_timeout,
}

-- A result, or a ProviderError.
abbrev pub IsHandled : Result Error ProviderResult → Type 0
IsHandled (ok r) = Unit {0}
IsHandled (err e) = is_provider_error e ≡ true

-- The call of the client returned, or raised a timeout.
abbrev pub Answers : Result Failure Response → Type 0
Answers (ok response) = Unit {0}
Answers (err f) = is_timeout f ≡ true

-- `json.loads` returned, or raised a JSONDecodeError.
abbrev pub Parses : Result LoadFailure Loaded → Type 0
Parses (ok loaded) = Unit {0}
Parses (err (not_json message)) = Unit {0}
Parses (err (load_raised type_name message)) = ⊥

-- pydantic returned a draft, or raised a ValidationError.
abbrev pub IsChecked : Validated → Type 0
IsChecked (valid draft) = Unit {0}
IsChecked (invalid summary) = Unit {0}
IsChecked (raised e) = ⊥

-- An outcome came back, and its row is the last of the table.
pub record Stores (db : Db) (answer : Result Error ExtractionOutcome × Db) : Type 0 where
  pub outcome : ExtractionOutcome
  pub returned : answer.0 ≡ ok outcome
  pub stored : answer.1.extractions ≡ db.extractions ++ outcome.extraction ∷ []
