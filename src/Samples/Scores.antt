-- ===== src/Samples/Scores.antt =====
-- Rows of an evaluation.
use evidence_flow.Prelude.{◌≡◌, ◌↔◌, true, none, List, [], ◌∷◌, codes}
use evidence_flow.Domain.Validation.{Rule, fail, pass, empty}
use evidence_flow.Repositories.Models.{ValidationResult}
use evidence_flow.Evals.Rows.{Routing, Split, Entry, new_row, routing, blocking_of}
use evidence_flow.Evals.Percentiles.{IsOrderStatistic, percentile-IsOrderStatistic}
use evidence_flow.Evals.Agreement.{label_iff_validated}
use evidence_flow.Evals.Replay.{Run}
use evidence_flow.Evals.Summary.{exit_code}
use evidence_flow.Evals.Summary.Totals.{ChecksOut, exit_code-ChecksOut}
use evidence_flow.Labels.{label_blocking_rules}

-- An entry whose truth has one right field, one wrong one, and nothing on the others.
abbrev entry : Entry
entry = record {
  id = codes "e1";
  split = Split.dev;
  difficulty = codes "easy";
  notes = [];
  document = codes "f";
  source_text = codes "acme";
  expected_outcome = Routing.validated;
  expected_rules = [];
  expected_label = none;
  ground_truth = (codes "supplier", codes "acme") ∷ (codes "currency", codes "EUR") ∷ [];
}

percentile-IsOrderStatistic_example : IsOrderStatistic (30 ∷ 10 ∷ 20 ∷ []) 95 100
percentile-IsOrderStatistic_example = percentile-IsOrderStatistic 30 (10 ∷ 20 ∷ []) 95 100

-- One rule has passed, and one has failed.
abbrev results : List ValidationResult
results =
    record {
      id = codes "1";
      extraction_id = codes "x";
      result = record { rule = Rule.evidence_verified; outcome = pass; message = empty };
      created_at = 1;
    }
    ∷ record {
      id = codes "2";
      extraction_id = codes "x";
      result = record { rule = Rule.line_item_arithmetic; outcome = fail; message = empty };
      created_at = 2;
    }
    ∷ []

label_iff_validated_example :
    (label_blocking_rules (blocking_of results) ≡ none) ↔ (routing results ≡ Routing.validated)
label_iff_validated_example = label_iff_validated results

-- A run over two documents, of which one was written and one failed.
abbrev replayed : Run
replayed = record {
  name = codes "baseline";
  rows =
      record (new_row entry) { outcome = Routing.validated; accepted = true }
      ∷ record (new_row entry) { split = Split.held_out; outcome = Routing.failed }
      ∷ [];
  destination_records = 1;
  destination_calls = 1;
}

exit_code-ChecksOut_example : (exit_code true replayed ≡ 0) ↔ ChecksOut replayed
exit_code-ChecksOut_example = exit_code-ChecksOut replayed
