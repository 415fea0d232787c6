-- ===== src/Labels.antt =====
-- evals/labels.py: the earliest causal error of a failed run.
pub mod Earliest
use evidence_flow.Prelude.{
  ℕ, Bool, true, false, ◌||◌, Option, none, some, List, [], ◌∷◌, ◌++◌, Text, codes, any, nat_beq,
  if◌then◌else◌,
}
use evidence_flow.Domain.Evidence.{find_sub}
use evidence_flow.Domain.Validation.{
  Rule, required_fields_present, line_item_arithmetic, line_items_sum_to_subtotal,
  subtotal_plus_tax_equals_total, supported_currency, currency_agrees_with_source,
  issue_date_plausible, issue_date_unambiguous, invoice_number_not_duplicate, evidence_verified,
  credit_note_consistent,
}
use evidence_flow.Domain.Validation.Dates.{Unicode}

pub data CausalLabel : Type 0 where
  selection completeness truthfulness postcondition : CausalLabel

-- The order of the rules in which a root cause is looked for.
abbrev pub rule_precedence : List (Rule × CausalLabel)
rule_precedence =
    (evidence_verified, truthfulness)
    ∷ (required_fields_present, completeness)
    ∷ (credit_note_consistent, postcondition)
    ∷ (supported_currency, postcondition)
    ∷ (invoice_number_not_duplicate, postcondition)
    ∷ (currency_agrees_with_source, postcondition)
    ∷ (issue_date_unambiguous, postcondition)
    ∷ (issue_date_plausible, postcondition)
    ∷ (line_item_arithmetic, selection)
    ∷ (line_items_sum_to_subtotal, selection)
    ∷ (subtotal_plus_tax_equals_total, postcondition)
    ∷ []

abbrev rule_rank : Rule → ℕ
rule_rank evidence_verified = 0
rule_rank required_fields_present = 1
rule_rank credit_note_consistent = 2
rule_rank supported_currency = 3
rule_rank invoice_number_not_duplicate = 4
rule_rank currency_agrees_with_source = 5
rule_rank issue_date_unambiguous = 6
rule_rank issue_date_plausible = 7
rule_rank line_item_arithmetic = 8
rule_rank line_items_sum_to_subtotal = 9
rule_rank subtotal_plus_tax_equals_total = 10

abbrev pub is_rule : Rule → Rule → Bool
is_rule a b = nat_beq (rule_rank a) (rule_rank b)

abbrev pub first_label : List Rule → List (Rule × CausalLabel) → Option CausalLabel
first_label blocking [] = none
first_label blocking ((rule, label) ∷ more) =
    let rest = first_label blocking more in if any (is_rule rule) blocking then some label else rest

unfoldable pub label_blocking_rules : List Rule → Option CausalLabel
label_blocking_rules rules = first_label rules rule_precedence

-- `marker in text`
abbrev is_found {ℓ} : {A : Type ℓ} → Option A → Bool
is_found none = false
is_found (some a) = true

abbrev lower_all : Unicode → Text → Text
lower_all unicode [] = []
lower_all unicode (c ∷ cs) = unicode.lower c ++ lower_all unicode cs

unfoldable pub label_extraction_failure : Unicode → Text → CausalLabel
label_extraction_failure unicode error_detail =
    let lowered = lower_all unicode error_detail in
    if is_found (find_sub (codes "field required") lowered)
      || is_found (find_sub (codes "missing") lowered)
    then completeness
    else selection
