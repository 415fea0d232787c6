-- ===== src/Domain/Evidence/Results.antt =====
-- app/domain/evidence.py: the evidence of a draft's fields, and its rows in the database.
use evidence_flow.Prelude.{ℕ, Bool, true, false, Option, none, some, List, map, Text}
use evidence_flow.Domain.Schema.{InvoiceDraft, AnyField, evidenced_fields, str_value}
use evidence_flow.Domain.Evidence.{Span, find_span}

pub record EvidenceResult : Type 0 where
  pub field : Text
  pub quote : Text
  pub span : Option Span
  pub derived_from_value : Bool

abbrev pub is_some {ℓ} : {A : Type ℓ} → Option A → Bool
is_some none = false
is_some (some a) = true

unfoldable pub verified : EvidenceResult → Bool
verified e = is_some e.span

-- A row: the JSON object that `to_row` builds.
pub record EvidenceRow : Type 0 where
  pub field : Text
  pub quote : Text
  pub verified : Bool
  pub start : Option ℕ
  pub end : Option ℕ
  pub line : Option ℕ
  pub derived_from_value : Bool

unfoldable pub to_row : EvidenceResult → EvidenceRow
unfolding verified
to_row e = record {
  field = e.field;
  quote = e.quote;
  verified = verified e;
  start = elim e.span [ none ↦ none | some s ↦ some s.start ];
  end = elim e.span [ none ↦ none | some s ↦ some s.end ];
  line = elim e.span [ none ↦ none | some s ↦ some s.line ];
  derived_from_value = e.derived_from_value;
}

-- The span of a row with a start. A row that lacks the end or the line, which `to_row` does not
-- write, is taken for one with no span.
pub span_of_row : Option ℕ → Option ℕ → Option ℕ → Option Span
span_of_row (some start) (some end) (some line) =
    some (record { start = start; end = end; line = line })
span_of_row _ _ _ = none

unfoldable pub from_row : EvidenceRow → EvidenceResult
unfolding span_of_row
from_row row = record {
  field = row.field;
  quote = row.quote;
  span = span_of_row row.start row.end row.line;
  derived_from_value = row.derived_from_value;
}

-- `_resolve` after the first lookup.
unfoldable pub resolve_with : Text → AnyField → Text → Bool → Option Span → EvidenceResult
resolve_with name f source allow_value_fallback (some span) = record {
  field = name;
  quote = f.quote;
  span = some span;
  derived_from_value = false;
}
resolve_with name f source false none = record {
  field = name;
  quote = f.quote;
  span = none;
  derived_from_value = false;
}
resolve_with name f source true none =
    let fallback = find_span source (str_value f.value) in
    record { field = name; quote = f.quote; span = fallback; derived_from_value = is_some fallback }

unfoldable pub resolve : Text → AnyField → Text → Bool → EvidenceResult
unfolding resolve_with
resolve name f source allow_value_fallback =
    resolve_with name f source allow_value_fallback (find_span source f.quote)

unfoldable pub verify_draft : InvoiceDraft → Text → Bool → List EvidenceResult
unfolding resolve
verify_draft draft source allow_value_fallback =
    map (λ p. resolve p.0 p.1 source allow_value_fallback) (evidenced_fields draft)
