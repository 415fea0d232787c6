-- ===== src/Domain/Evidence/Backing.antt =====
-- What `verify_draft` promises of each field, and that a stored result is read back.
use evidence_flow.Prelude.{
  ◌≡◌, refl, ap, Bool, true, false, Option, none, some, List, [], ◌∷◌, map, Text, All,
}
use evidence_flow.Domain.Schema.{InvoiceDraft, AnyField, evidenced_fields, str_value}
use evidence_flow.Domain.Evidence.{Span, find_span}
use evidence_flow.Domain.Evidence.Results.{
  EvidenceResult, is_some, to_row, from_row, span_of_row, resolve_with, resolve, verify_draft,
}
use evidence_flow.Domain.Evidence.Spans.{Supports, find_span-Supports}

-- A span stands for a place that reads as the quote, or, if the result is derived from the value, as
-- some other text.
abbrev pub BackedBy : Text → Text → Bool → Option Span → Type 0
BackedBy source quote derived none = derived ≡ false
BackedBy source quote false (some span) = Supports source quote span
BackedBy source quote true (some span) = (other : Text) × Supports source other span

abbrev pub IsBacked : Text → EvidenceResult → Type 0
IsBacked source e = BackedBy source e.quote e.derived_from_value e.span

fallback_backed :
    (source quote sought : Text) (found : Option Span)
    → find_span source sought ≡ found
    → BackedBy source quote (is_some found) found
fallback_backed source quote sought none h = refl
fallback_backed source quote sought (some span) h =
    (sought, find_span-Supports source sought span h)

resolve_with-IsBacked :
    (name : Text) (f : AnyField) (source : Text) (fallback : Bool) (found : Option Span)
    → find_span source f.quote ≡ found
    → IsBacked source (resolve_with name f source fallback found)
unfolding resolve_with
resolve_with-IsBacked name f source fallback (some span) h =
    find_span-Supports source f.quote span h
resolve_with-IsBacked name f source false none h = refl
resolve_with-IsBacked name f source true none h =
    fallback_backed source f.quote (str_value f.value) _ refl

resolved-IsBacked :
    (source : Text) (fallback : Bool) (named : List (Text × AnyField))
    → All (IsBacked source) (map (λ p. resolve p.0 p.1 source fallback) named)
unfolding resolve
resolved-IsBacked source fallback [] = tt
resolved-IsBacked source fallback ((name, f) ∷ named) =
    (resolve_with-IsBacked name f source fallback _ refl, resolved-IsBacked source fallback named)

-- Every span in a draft's evidence lies in the source, and the source reads there as the field's
-- quote, or, in a result that is marked as derived from the value, as another text that was sought.
pub verify_draft-IsBacked :
    (draft : InvoiceDraft) (source : Text) (fallback : Bool)
    → All (IsBacked source) (verify_draft draft source fallback)
unfolding verify_draft
verify_draft-IsBacked draft source fallback =
    resolved-IsBacked source fallback (evidenced_fields draft)

-- A result that is not derived from the value: its span, if it has one, backs its quote.
abbrev pub BacksQuote : Text → EvidenceResult → Type 0
BacksQuote source e = (e.derived_from_value ≡ false) × BackedBy source e.quote false e.span

strict-BacksQuote :
    (name : Text) (f : AnyField) (source : Text) (found : Option Span)
    → find_span source f.quote ≡ found
    → BacksQuote source (resolve_with name f source false found)
unfolding resolve_with
strict-BacksQuote name f source none h = (refl, refl)
strict-BacksQuote name f source (some found) h = (refl, find_span-Supports source f.quote found h)

resolved-BacksQuote :
    (source : Text) (named : List (Text × AnyField))
    → All (BacksQuote source) (map (λ p. resolve p.0 p.1 source false) named)
unfolding resolve
resolved-BacksQuote source [] = tt
resolved-BacksQuote source ((name, f) ∷ named) =
    (strict-BacksQuote name f source _ refl, resolved-BacksQuote source named)

-- Without the fallback, which is off in production, every span in a draft's evidence lies in the
-- source and the source reads there as the field's own quote.
pub verify_draft-BacksQuote :
    (draft : InvoiceDraft) (source : Text)
    → All (BacksQuote source) (verify_draft draft source false)
unfolding verify_draft
verify_draft-BacksQuote draft source = resolved-BacksQuote source (evidenced_fields draft)

row_span :
    (found : Option Span)
    → span_of_row
        (elim found [ none ↦ none | some s ↦ some s.start ])
        (elim found [ none ↦ none | some s ↦ some s.end ])
        (elim found [ none ↦ none | some s ↦ some s.line ])
      ≡ found
unfolding from_row
row_span none = refl
row_span (some s) = refl

-- A result that is stored in its row is read back as it was.
pub from_row-to_row : (e : EvidenceResult) → from_row (to_row e) ≡ e
unfolding from_row to_row
from_row-to_row e = ap (λ s. record e { span = s }) (row_span e.span)
