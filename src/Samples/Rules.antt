-- ===== src/Samples/Rules.antt =====
-- A run of the rules.
use evidence_flow.Repositories.Documents.{committed_invoice_numbers}
use evidence_flow.Domain.Validation.Dates.{search_date}
use evidence_flow.Domain.Evidence.{strip}
use evidence_flow.Domain.Decimal.{Decimal, is_zero, abs_decimal, sub, mul, add, is_negative}
use evidence_flow.Domain.Validation.Acceptance.{IsAcceptable, validate-IsAcceptable}
use evidence_flow.Prelude.{
  ◌≡◌, ◌↔◌, ◌+◌, ◌^◌, pos, true, refl, abs, ◌*ℤ◌, ◌+ℤ◌, list_beq, is_space, contains,
}
use evidence_flow.Domain.Schema.{date_before}
use evidence_flow.Domain.Validation.{
  pass, run, required_fields_present, line_item_arithmetic, line_items_sum_to_subtotal,
  subtotal_plus_tax_equals_total, supported_currency, currency_agrees_with_source,
  issue_date_plausible, issue_date_unambiguous, invoice_number_not_duplicate, evidence_verified,
  credit_note_consistent, required_fields_rule, line_item_rule, subtotal_rule, total_rule,
  currency_rule, symbol_rule, plausible_rule, unambiguous_rule, duplicate_rule, evidence_rule,
  credit_note_rule, validate, is_accepted, ValidationInput,
}
use evidence_flow.Services.Validation.{validation_input}
use evidence_flow.Services.Approval.Outcomes.{Passes}
use evidence_flow.Samples.World.{env, money, draft, extraction, validated_document, validated_db}

abbrev input : ValidationInput
input = validation_input env validated_document extraction draft validated_db

required_fields_rule_passes :
    (run required_fields_present (required_fields_rule input)).outcome ≡ pass
unfolding required_fields_rule validation_input list_beq strip is_space
required_fields_rule_passes = refl

line_item_rule_passes : (run line_item_arithmetic (line_item_rule input)).outcome ≡ pass
unfolding line_item_rule validation_input is_zero abs_decimal abs sub ◌*ℤ◌ mul
line_item_rule_passes = refl

subtotal_rule_passes : (run line_items_sum_to_subtotal (subtotal_rule input)).outcome ≡ pass
unfolding subtotal_rule validation_input is_zero abs_decimal abs sub ◌*ℤ◌ ◌+ℤ◌
subtotal_rule_passes = refl

total_rule_passes : (run subtotal_plus_tax_equals_total (total_rule input)).outcome ≡ pass
unfolding total_rule validation_input is_zero abs_decimal abs sub ◌*ℤ◌ add ◌+ℤ◌
total_rule_passes = refl

currency_rule_passes : (run supported_currency (currency_rule input)).outcome ≡ pass
unfolding currency_rule validation_input contains list_beq
currency_rule_passes = refl

symbol_rule_passes : (run currency_agrees_with_source (symbol_rule input)).outcome ≡ pass
unfolding symbol_rule validation_input contains
symbol_rule_passes = refl

plausible_rule_passes : (run issue_date_plausible (plausible_rule input)).outcome ≡ pass
unfolding plausible_rule validation_input date_before
plausible_rule_passes = refl

unambiguous_rule_passes :
    (run issue_date_unambiguous (unambiguous_rule env.unicode input)).outcome ≡ pass
unfolding unambiguous_rule validation_input search_date
unambiguous_rule_passes = refl

duplicate_rule_passes :
    (run invoice_number_not_duplicate (duplicate_rule env.unicode input)).outcome ≡ pass
unfolding duplicate_rule validation_input contains committed_invoice_numbers list_beq
duplicate_rule_passes = refl

evidence_rule_passes : (run evidence_verified (evidence_rule input)).outcome ≡ pass
unfolding evidence_rule validation_input
evidence_rule_passes = refl

credit_note_rule_passes : (run credit_note_consistent (credit_note_rule input)).outcome ≡ pass
unfolding credit_note_rule validation_input is_negative
credit_note_rule_passes = refl

pub sample-Passes : Passes env validated_document extraction draft validated_db
unfolding validate
sample-Passes = (
  required_fields_rule_passes,
  (
    line_item_rule_passes,
    (
      subtotal_rule_passes,
      (
        total_rule_passes,
        (
          currency_rule_passes,
          (
            symbol_rule_passes,
            (
              plausible_rule_passes,
              (
                unambiguous_rule_passes,
                (duplicate_rule_passes, (evidence_rule_passes, (credit_note_rule_passes, tt))),
              ),
            ),
          ),
        ),
      ),
    ),
  ),
)

-- A product that rounds to its amount, of a quantity that is not one: the difference is no more there.
abbrev one_and_a_bit : Decimal
one_and_a_bit = record { mantissa = pos (10 ^ 28 + 1); scale = 28 }

mul_rounds : is_zero (abs_decimal (sub (mul one_and_a_bit (money 100)) (money 100))) ≡ true
unfolding is_zero abs_decimal abs sub ◌*ℤ◌ mul
mul_rounds = refl

validate-IsAcceptable_example :
    (is_accepted (validate env.unicode input) ≡ true) ↔ IsAcceptable env.unicode input
validate-IsAcceptable_example = validate-IsAcceptable env.unicode input
