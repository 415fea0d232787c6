-- ===== src/Samples/Texts.antt =====
-- Runs of the search for evidence, of the idempotency key, of the page and of the rate limit.
use evidence_flow.Prelude.{
  ◌≡◌, ◌≢◌, ℕ, refl, arith, true, false, some, List, [], ◌∷◌, ◌++◌, map, Text, codes, All, is_space,
}
use evidence_flow.Domain.Approval.Framing.{idempotency_key_injective}
use evidence_flow.Domain.Evidence.{Span, normalize_quote, find_span}
use evidence_flow.Domain.Evidence.Spans.{Supports, find_span-Supports}
use evidence_flow.Domain.Evidence.Verbatim.{find_span_verbatim}
use evidence_flow.Domain.Evidence.Results.{
  EvidenceResult, EvidenceRow, to_row, from_row, verify_draft,
}
use evidence_flow.Domain.Evidence.Backing.{BacksQuote, verify_draft-BacksQuote, from_row-to_row}
use evidence_flow.Api.Highlight.{segments}
use evidence_flow.Api.Highlight.Cover.{Covers, page-Covers}
use evidence_flow.Api.Limits.Window.{run, ideal, fresh_window, no_logs, run-eq-ideal}
use evidence_flow.Samples.World.{draft, source}

abbrev page : Text
page = codes " Total  due:\n 42.00 GBP"

abbrev due : Text
due = codes "due: 42.00"

abbrev due_span : Span
due_span = record { start = 8; end = 19; line = 1 }

found_due : find_span page due ≡ some due_span
unfolding find_span is_space
found_due = refl

find_span-Supports_example : Supports page due due_span
find_span-Supports_example = find_span-Supports page due due_span found_due

worded : normalize_quote due ≢ []
unfolding normalize_quote is_space
worded e = cc

find_span_verbatim_example :
    (span : Span) × (find_span (codes "pay " ++ (due ++ codes " now")) due ≡ some span)
find_span_verbatim_example = find_span_verbatim (codes "pay ") due (codes " now") worded

verify_draft-BacksQuote_example : All (BacksQuote source) (verify_draft draft source false)
verify_draft-BacksQuote_example = verify_draft-BacksQuote draft source

abbrev due_result : EvidenceResult
due_result = record {
  field = codes "total";
  quote = due;
  span = some due_span;
  derived_from_value = false;
}

from_row-to_row_example : from_row (to_row due_result) ≡ due_result
from_row-to_row_example = from_row-to_row due_result

idempotency_key_injective_example : (codes "d" ≡ codes "d") × (codes "h" ≡ codes "h")
idempotency_key_injective_example =
    idempotency_key_injective (λ t. t) (λ s t e. e) (codes "d") (codes "d") (codes "h") (codes "h")
      refl

-- Two overlapping rows, the second one past the end of the source.
abbrev rows : List EvidenceRow
rows =
    record {
      field = codes "a";
      quote = due;
      verified = true;
      start = some 8;
      end = some 19;
      line = some 1;
      derived_from_value = false;
    }
    ∷ record {
      field = codes "b";
      quote = due;
      verified = true;
      start = some 20;
      end = some 90;
      line = some 1;
      derived_from_value = false;
    }
    ∷ []

page-Covers_example : Covers source (segments source (map to_row (verify_draft draft source true)))
page-Covers_example = page-Covers draft source true

abbrev requests : List (Text × ℕ)
requests = (codes "c", 1) ∷ (codes "c", 2) ∷ (codes "e", 2) ∷ (codes "c", 11) ∷ []

run-eq-ideal_example : run (fresh_window 1 10) requests ≡ ideal 1 10 no_logs requests
run-eq-ideal_example =
    run-eq-ideal 1 10 requests (omega arith, (omega arith, (omega arith, (omega arith, tt))))
