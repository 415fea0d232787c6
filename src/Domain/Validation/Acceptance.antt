-- ===== src/Domain/Validation/Acceptance.antt =====
-- What it takes for the rules of app/domain/validation.py to accept a draft.
use evidence_flow.Prelude.{◌≡◌, ◌≢◌, ◌↔◌, refl, true, none, List, [], ◌∷◌, map, arith, All}
use evidence_flow.Domain.Decimal.{add, zero_decimal, sum_from}
use evidence_flow.Domain.Decimal.Exact.{Same}
use evidence_flow.Domain.Evidence.Results.{EvidenceResult}
use evidence_flow.Domain.Schema.{LineItem}
use evidence_flow.Domain.Validation.{
  RuleResult, is_pass, ValidationInput, validate, is_accepted, supported_currencies,
  currency_symbols,
}
use evidence_flow.Domain.Validation.Dates.{Unicode, search_date}
use evidence_flow.Domain.Validation.Verdicts.{
  Among, HasContent, Multiplies, required_fields_rule-Passed, line_item_rule-Passed,
  subtotal_rule-Passed, total_rule-Passed,
}
use evidence_flow.Domain.Validation.Verdicts.Fields.{
  SymbolFits, IsPlausible, ReadsOneWay, invoice_key, IsConsistent, currency_rule-Passed,
  symbol_rule-Passed, plausible_rule-Passed, unambiguous_rule-Passed, duplicate_rule-Passed,
  evidence_rule-Passed, credit_note_rule-Passed,
}

-- A draft in order: it has its names and lines; each line multiplies out, the lines sum to the
-- subtotal, and the subtotal and the tax to the total, where each product and sum is rounded to 28
-- digits and then compared to the last digit; the currency is supported
-- and fits the symbols in the source; the date is plausible and reads one way; the number is new for
-- the supplier; every field has a span in the source; and a credit note has no positive line.
pub record IsAcceptable (unicode : Unicode) (input : ValidationInput) : Type 0 where
  pub content : HasContent input.draft
  pub lines : All Multiplies input.draft.line_items
  pub subtotal :
      Same
        (sum_from zero_decimal (map (λ (i : LineItem). i.amount) input.draft.line_items))
        input.draft.subtotal.value
  pub total : Same (add input.draft.subtotal.value input.draft.tax.value) input.draft.total.value
  pub currency : Among input.draft.currency.value supported_currencies
  pub symbols : All (SymbolFits input.source input.draft.currency.value) currency_symbols
  pub dated : IsPlausible input.today input.draft.issue_date.value
  pub one_way : ReadsOneWay (search_date unicode input.draft.issue_date.quote)
  pub fresh : ¬ (Among (invoice_key unicode input.draft) input.known_invoice_numbers)
  pub evidenced : All (λ (e : EvidenceResult). e.span ≢ none) input.evidence
  pub consistent : IsConsistent input.draft

abbrev IsPassing : RuleResult → Type 0
IsPassing r = is_pass r.outcome ≡ true

is_accepted-All : (results : List RuleResult) → (is_accepted results ≡ true) ↔ All IsPassing results
unfolding is_accepted
is_accepted-All [] = (λ h. tt, λ h. refl)
is_accepted-All (r ∷ rs) =
    let (to, back) = is_accepted-All rs in
    (λ h. (ground arith, to (ground arith)), λ h. let a = h.0 in let b = back h.1 in ground arith)

-- A draft is accepted exactly if it has its names and lines, its amounts agree (each product and sum,
-- rounded to the 28 digits of the context, equals the amount that the draft gives), its currency is supported and fits the symbols of the source, its date is plausible and reads
-- one way, its number is new for the supplier, every result of its evidence has a span, and a
-- negative total comes with no positive line.
pub validate-IsAcceptable :
    (unicode : Unicode) (input : ValidationInput)
    → (is_accepted (validate unicode input) ≡ true) ↔ IsAcceptable unicode input
unfolding validate
validate-IsAcceptable unicode input =
    let (to, back) = is_accepted-All (validate unicode input) in
    (
      λ h.
          let (a, (b, (c, (d, (e, (f, (g, (i, (j, (k, (l, rest))))))))))) = to h in
          record {
            content = (required_fields_rule-Passed input).0 a;
            lines = (line_item_rule-Passed input).0 b;
            subtotal = (subtotal_rule-Passed input).0 c;
            total = (total_rule-Passed input).0 d;
            currency = (currency_rule-Passed input).0 e;
            symbols = (symbol_rule-Passed input).0 f;
            dated = (plausible_rule-Passed input).0 g;
            one_way = (unambiguous_rule-Passed unicode input).0 i;
            fresh = (duplicate_rule-Passed unicode input).0 j;
            evidenced = (evidence_rule-Passed input).0 k;
            consistent = (credit_note_rule-Passed input).0 l;
          },
      λ q. back (
        (required_fields_rule-Passed input).1 q.content,
        (
          (line_item_rule-Passed input).1 q.lines,
          (
            (subtotal_rule-Passed input).1 q.subtotal,
            (
              (total_rule-Passed input).1 q.total,
              (
                (currency_rule-Passed input).1 q.currency,
                (
                  (symbol_rule-Passed input).1 q.symbols,
                  (
                    (plausible_rule-Passed input).1 q.dated,
                    (
                      (unambiguous_rule-Passed unicode input).1 q.one_way,
                      (
                        (duplicate_rule-Passed unicode input).1 q.fresh,
                        (
                          (evidence_rule-Passed input).1 q.evidenced,
                          ((credit_note_rule-Passed input).1 q.consistent, tt),
                        ),
                      ),
                    ),
                  ),
                ),
              ),
            ),
          ),
        ),
      ),
    )
