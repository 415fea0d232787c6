-- ===== src/Domain/Validation.antt =====
-- app/domain/validation.py: the eleven rules, in the order in which they are registered. The text of
-- a message is kept as the values that the f-string interpolates.
pub mod Dates
pub mod Verdicts
pub mod Acceptance
use evidence_flow.Prelude.{
  ℕ, suc, Bool, true, false, not, ◌&&◌, ◌||◌, Option, none, some, List, [], ◌∷◌, ◌++◌, map, Text,
  codes, ltb, leb, nat_beq, ◌==◌, nat_eq, list_eq, pair_eq, contains, any, filter, if◌then◌else◌,
  pos,
}
use evidence_flow.Domain.Decimal.{
  Decimal, sub, add, mul, abs_decimal, leb_decimal, is_zero, is_negative, is_positive, zero_decimal,
  sum_from,
}
use evidence_flow.Domain.Schema.{Date, date_before, InvoiceDraft, LineItem}
use evidence_flow.Domain.Evidence.{strip}
use evidence_flow.Domain.Evidence.Results.{EvidenceResult, verified}
use Dates.{Unicode, DateMatch, search_date}

pub data RuleOutcome : Type 0 where
  pass fail needs_review : RuleOutcome

pub data Rule : Type 0 where
  required_fields_present line_item_arithmetic line_items_sum_to_subtotal : Rule
  subtotal_plus_tax_equals_total supported_currency currency_agrees_with_source : Rule
  issue_date_plausible issue_date_unambiguous invoice_number_not_duplicate : Rule
  evidence_verified credit_note_consistent : Rule

pub data Message : Type 0 where
  empty no_line_items negative_total : Message
  blank unverified_evidence : List Text → Message
  line_mismatches : List (ℕ × LineItem) → Message
  sum_mismatch : Decimal → Decimal → Message
  total_mismatch : Decimal → Decimal → Decimal → Message
  unsupported_currency already_recorded ambiguous_date : Text → Message
  symbol_mismatch : ℕ → Text → Message
  in_the_future implausibly_old : Date → Message

pub record RuleResult : Type 0 where
  pub rule : Rule
  pub outcome : RuleOutcome
  pub message : Message

abbrev pub is_pass : RuleOutcome → Bool
is_pass pass = true
is_pass fail = false
is_pass needs_review = false

abbrev pub blocking : RuleResult → Bool
blocking r = not (is_pass r.outcome)

pub record ValidationInput : Type 0 where
  pub draft : InvoiceDraft
  pub source : Text
  pub evidence : List EvidenceResult
  pub known_invoice_numbers : List (Text × Text)
  pub today : Date

abbrev pub Verdict : Type 0
Verdict = Option (RuleOutcome × Message)

abbrev money_tolerance : Decimal
money_tolerance = record { mantissa = pos 1; scale = 2 }

abbrev pub supported_currencies : List Text
supported_currencies = codes "GBP" ∷ codes "EUR" ∷ codes "USD" ∷ []

abbrev pub earliest_plausible_date : Date
earliest_plausible_date = record { year = 2000; month = 1; day = 1 }

abbrev pub currency_symbols : List (ℕ × List Text)
currency_symbols =
    (0xa3, codes "GBP" ∷ [])
    ∷ (0x20ac, codes "EUR" ∷ [])
    ∷ (b'$', codes "USD" ∷ codes "CAD" ∷ codes "AUD" ∷ codes "NZD" ∷ [])
    ∷ []

unfoldable pub money_outcome : Decimal → RuleOutcome
money_outcome difference =
    if is_zero difference
    then pass
    else if leb_decimal difference money_tolerance
    then needs_review
    else fail

unfoldable pub is_key_char : ℕ → Bool
is_key_char c = (leb b'a' c && leb c b'z') || (leb b'0' c && leb c b'9')

-- `re.sub(r"[^a-z0-9]+", "", name.lower())`
unfoldable pub normalize_supplier : Unicode → Text → Text
unfolding is_key_char
normalize_supplier unicode [] = []
normalize_supplier unicode (c ∷ name) =
    filter is_key_char (unicode.lower c) ++ normalize_supplier unicode name

abbrev is_blank : Text → Bool
is_blank value = strip value == []

abbrev blank_names : InvoiceDraft → List Text
blank_names draft =
    map (λ (p : Text × Text). p.0)
      (filter (λ (p : Text × Text). is_blank p.1)
        ((codes "invoice_number", draft.invoice_number.value)
          ∷ (codes "supplier", draft.supplier.value)
          ∷ []))

abbrev blank_verdict : List Text → List LineItem → Verdict
blank_verdict (name ∷ names) items = some (fail, blank (name ∷ names))
blank_verdict [] [] = some (fail, no_line_items)
blank_verdict [] (item ∷ items) = none

unfoldable pub required_fields_rule : ValidationInput → Verdict
required_fields_rule input = blank_verdict (blank_names input.draft) input.draft.line_items

unfoldable pub line_outcome : LineItem → RuleOutcome
unfolding money_outcome
line_outcome item =
    money_outcome (abs_decimal (sub (mul item.quantity item.unit_price) item.amount))

-- `if outcome is FAIL or worst is PASS: worst = outcome`, for an outcome that is not a pass.
abbrev pub worsen : RuleOutcome → RuleOutcome → RuleOutcome
worsen worst pass = worst
worsen worst fail = fail
worsen pass needs_review = needs_review
worsen fail needs_review = fail
worsen needs_review needs_review = needs_review

-- The loop over the lines: the worst outcome so far, and the lines that do not pass.
unfoldable pub check_lines : ℕ → RuleOutcome → List LineItem → RuleOutcome × List (ℕ × LineItem)
unfolding line_outcome
check_lines index worst [] = (worst, [])
check_lines index worst (item ∷ items) =
    let outcome = line_outcome item in
    let (final, messages) = check_lines (suc index) (worsen worst outcome) items in
    (final, if is_pass outcome then messages else (index, item) ∷ messages)

unfoldable pub line_item_rule : ValidationInput → Verdict
unfolding check_lines
line_item_rule input =
    let (worst, messages) = check_lines 1 pass input.draft.line_items in
    if is_pass worst then none else some (worst, line_mismatches messages)

-- A verdict of a difference of amounts.
abbrev money_verdict : Decimal → Message → Verdict
money_verdict difference message =
    let outcome = money_outcome difference in
    if is_pass outcome then none else some (outcome, message)

unfoldable pub subtotal_rule : ValidationInput → Verdict
unfolding money_outcome sum_from
subtotal_rule input =
    let summed = sum_from zero_decimal (map (λ (i : LineItem). i.amount) input.draft.line_items) in
    let subtotal = input.draft.subtotal.value in
    money_verdict (abs_decimal (sub summed subtotal)) (sum_mismatch summed subtotal)

unfoldable pub total_rule : ValidationInput → Verdict
unfolding money_outcome
total_rule input =
    let draft = input.draft in
    money_verdict (abs_decimal (sub (add draft.subtotal.value draft.tax.value) draft.total.value))
      (total_mismatch draft.subtotal.value draft.tax.value draft.total.value)

unfoldable pub currency_rule : ValidationInput → Verdict
currency_rule input =
    let code = input.draft.currency.value in
    if contains code supported_currencies then none else some (fail, unsupported_currency code)

abbrev check_symbols : Text → Text → List (ℕ × List Text) → Verdict
check_symbols source code [] = none
check_symbols source code ((symbol, allowed) ∷ rest) =
    let later = check_symbols source code rest in
    if contains symbol source && not (contains code allowed)
    then some (needs_review, symbol_mismatch symbol code)
    else later

unfoldable pub symbol_rule : ValidationInput → Verdict
symbol_rule input = check_symbols input.source input.draft.currency.value currency_symbols

unfoldable pub plausible_rule : ValidationInput → Verdict
plausible_rule input =
    let issued = input.draft.issue_date.value in
    if date_before input.today issued
    then some (fail, in_the_future issued)
    else if date_before issued earliest_plausible_date
    then some (fail, implausibly_old issued)
    else none

abbrev ambiguous_verdict : Option DateMatch → Verdict
ambiguous_verdict none = none
ambiguous_verdict (some m) =
    if not (nat_beq m.first m.second) && leb m.first 12 && leb m.second 12
    then some (needs_review, ambiguous_date m.matched)
    else none

unfoldable pub unambiguous_rule : Unicode → ValidationInput → Verdict
unambiguous_rule unicode input =
    ambiguous_verdict (search_date unicode input.draft.issue_date.quote)

unfoldable pub duplicate_rule : Unicode → ValidationInput → Verdict
duplicate_rule unicode input =
    let supplier = normalize_supplier unicode input.draft.supplier.value in
    let number = strip input.draft.invoice_number.value in
    if contains (supplier, number) input.known_invoice_numbers
    then some (fail, already_recorded number)
    else none

abbrev unverified_verdict : List EvidenceResult → Verdict
unverified_verdict [] = none
unverified_verdict (e ∷ es) =
    some (needs_review, unverified_evidence (map (λ (x : EvidenceResult). x.field) (e ∷ es)))

unfoldable pub evidence_rule : ValidationInput → Verdict
unfolding verified
evidence_rule input = unverified_verdict (filter (λ e. not (verified e)) input.evidence)

unfoldable pub credit_note_rule : ValidationInput → Verdict
credit_note_rule input =
    let draft = input.draft in
    if is_negative draft.total.value && any (λ i. is_positive i.amount) draft.line_items
    then some (fail, negative_total)
    else none

-- `fn(data) or (PASS, "")`
abbrev pub run : Rule → Verdict → RuleResult
run rule none = record { rule = rule; outcome = pass; message = empty }
run rule (some (outcome, message)) = record { rule = rule; outcome = outcome; message = message }

-- `validate`: every rule, in the order of `RULES`.
unfoldable pub validate : Unicode → ValidationInput → List RuleResult
validate unicode input =
    run required_fields_present (required_fields_rule input)
    ∷ run line_item_arithmetic (line_item_rule input)
    ∷ run line_items_sum_to_subtotal (subtotal_rule input)
    ∷ run subtotal_plus_tax_equals_total (total_rule input)
    ∷ run supported_currency (currency_rule input)
    ∷ run currency_agrees_with_source (symbol_rule input)
    ∷ run issue_date_plausible (plausible_rule input)
    ∷ run issue_date_unambiguous (unambiguous_rule unicode input)
    ∷ run invoice_number_not_duplicate (duplicate_rule unicode input)
    ∷ run evidence_verified (evidence_rule input)
    ∷ run credit_note_consistent (credit_note_rule input)
    ∷ []

unfoldable pub is_accepted : List RuleResult → Bool
is_accepted results = not (any blocking results)
