-- ===== src/Domain/Validation/Verdicts.antt =====
-- When the rules on the content and the amounts of a draft pass.
pub mod Fields
use evidence_flow.Prelude.{
  ℕ, suc, ◌≤◌, ◌<◌, ◌≡◌, ◌≢◌, ◌↔◌, ◌⊎◌, refl, sym, ap, ◌∙◌, Bool, true, false, not, ◌&&◌, ◌||◌,
  Option, none, some, List, [], ◌∷◌, map, Text, arith, codes, leb, ltb, nat_beq, ◌==◌, ==_iff,
  nat_eq, list_eq, pair_eq, contains, Eq, any, all, filter, if◌then◌else◌, All, Bool-cases, inl,
  inr, pos_part, neg_part,
}
use evidence_flow.Domain.Decimal.{
  Decimal, sub, add, mul, abs_decimal, is_zero, is_negative, is_positive, zero_decimal, sum_from,
  leb_decimal,
}
use evidence_flow.Domain.Decimal.Exact.{Same, is_zero-sub}
use evidence_flow.Domain.Evidence.{strip}
use evidence_flow.Domain.Evidence.Results.{EvidenceResult, verified}
use evidence_flow.Domain.Schema.{Date, LineItem, InvoiceDraft, date_before}
use evidence_flow.Domain.Validation.{
  RuleOutcome, pass, fail, needs_review, Rule, Verdict, Message, ValidationInput, run, is_pass,
  blocking, money_outcome, money_verdict, normalize_supplier, blank_names, is_blank, blank_verdict,
  required_fields_rule, line_outcome, worsen, check_lines, line_item_rule, subtotal_rule,
  total_rule, currency_rule, supported_currencies, check_symbols, currency_symbols, symbol_rule,
  plausible_rule, earliest_plausible_date, ambiguous_verdict, unambiguous_rule, duplicate_rule,
  unverified_verdict, evidence_rule, credit_note_rule, validate, is_accepted,
}
use evidence_flow.Domain.Validation.Dates.{Unicode, DateMatch, search_date}

-- A rule passes.
abbrev pub Passed : Rule → Verdict → Type 0
Passed rule verdict = is_pass (run rule verdict).outcome ≡ true

money_outcome-pass :
    (a b : Decimal) → (is_pass (money_outcome (abs_decimal (sub a b))) ≡ true) ↔ Same a b
unfolding money_outcome
money_outcome-pass a b = elim (Bool-cases (is_zero (abs_decimal (sub a b)))) [
  | inl none_left ↦ rw none_left (λ h. (is_zero-sub a b).0 none_left, λ h. refl)
  | inr left ↦ (
    λ h. absurd (let g = rw left at h in ground arith),
    λ h. absurd (let g = (is_zero-sub a b).1 h in ground arith),
  )
]

-- `outcome is PASS`, or the outcome with its message.
pub verdict-Passed :
    (rule : Rule) (outcome : RuleOutcome) (message : Message)
    → is_pass (run rule (if is_pass outcome then none else some (outcome, message))).outcome
      ≡ is_pass outcome
verdict-Passed rule pass message = refl
verdict-Passed rule fail message = refl
verdict-Passed rule needs_review message = refl

money_verdict-Passed :
    (rule : Rule) (a b : Decimal) (message : Message)
    → Passed rule (money_verdict (abs_decimal (sub a b)) message) ↔ Same a b
money_verdict-Passed rule a b message =
    rw (verdict-Passed rule (money_outcome (abs_decimal (sub a b))) message)
      (money_outcome-pass a b)

-- A rule that fails with a message if a test holds.
pub test-Passed :
    (rule : Rule) (test : Bool) (verdict : RuleOutcome × Message)
    → is_pass verdict.0 ≡ false
    → is_pass (run rule (if test then some verdict else none)).outcome ≡ not test
test-Passed rule true verdict h = h
test-Passed rule false verdict h = refl

-- `a in xs`
abbrev pub Among : {A : Type 0} → A → List A → Type 0
Among a [] = ⊥
Among a (x ∷ xs) = (a ≡ x) ⊎ Among a xs

pub contains-Among :
    {A : Type 0} ⦃e : Eq A⦄ (a : A) (xs : List A) → (contains a xs ≡ true) ↔ Among a xs
unfolding contains
contains-Among a [] = (λ h. absurd (cc), λ h. absurd h)
contains-Among a (x ∷ xs) = elim (Bool-cases (a == x)) [
  | inl same ↦ rw same (λ h. inl ((==_iff a x).0 same), λ h. refl)
  | inr other ↦ rw other (
    λ h. inr ((contains-Among a xs).0 h),
    λ h. elim h [
      | inl same ↦ absurd (let g = (==_iff a x).1 same in cc)
      | inr later ↦ (contains-Among a xs).1 later
    ],
  )
]

pub all-All :
    {A : Type 0} (P : A → Type 0) (p : A → Bool) (h : (a : A) → (p a ≡ true) ↔ P a) (xs : List A)
    → (all p xs ≡ true) ↔ All P xs
all-All P p h [] = (λ e. tt, λ e. refl)
all-All P p h (x ∷ xs) = elim (Bool-cases (p x)) [
  | inl good ↦ rw good (λ e. ((h x).0 good, (all-All P p h xs).0 e), λ q. (all-All P p h xs).1 q.1)
  | inr bad ↦ rw bad (λ e. absurd (cc), λ q. absurd (let g = (h x).1 q.0 in cc))
]

-- The lines.
worsen-pass :
    (worst outcome : RuleOutcome)
    → is_pass (worsen worst outcome) ≡ is_pass worst && is_pass outcome
worsen-pass worst outcome = ground arith

check_lines-pass :
    (index : ℕ) (worst : RuleOutcome) (items : List LineItem)
    → is_pass (check_lines index worst items).0
      ≡ is_pass worst && all (λ i. is_pass (line_outcome i)) items
unfolding check_lines
check_lines-pass index worst [] = ground arith
check_lines-pass index worst (item ∷ items) =
    check_lines-pass (suc index) (worsen worst (line_outcome item)) items
    ∙ ground (arith, worsen-pass worst (line_outcome item))

-- The quantity of a line times its price is its amount.
abbrev pub Multiplies : LineItem → Type 0
Multiplies item = Same (mul item.quantity item.unit_price) item.amount

line_outcome-pass : (item : LineItem) → (is_pass (line_outcome item) ≡ true) ↔ Multiplies item
unfolding line_outcome
line_outcome-pass item = money_outcome-pass (mul item.quantity item.unit_price) item.amount

pub line_item_rule-Passed :
    (input : ValidationInput)
    → Passed Rule.line_item_arithmetic (line_item_rule input)
      ↔ All Multiplies input.draft.line_items
unfolding line_item_rule
line_item_rule-Passed input =
    let items = input.draft.line_items in
    rw
      (
        verdict-Passed Rule.line_item_arithmetic (check_lines 1 pass items).0
            (Message.line_mismatches (check_lines 1 pass items).1),
        check_lines-pass 1 pass items,
      )
      (all-All Multiplies (λ i. is_pass (line_outcome i)) line_outcome-pass items)

-- The names and the lines are there.
pub record HasContent (draft : InvoiceDraft) : Type 0 where
  pub number : strip draft.invoice_number.value ≢ []
  pub supplier : strip draft.supplier.value ≢ []
  pub items : draft.line_items ≢ []

blank_verdict-Passed :
    (items : List LineItem)
    → Passed Rule.required_fields_present (blank_verdict [] items) ↔ (items ≢ [])
blank_verdict-Passed [] = (λ h. absurd (cc), λ h. absurd (h refl))
blank_verdict-Passed (item ∷ items) = (λ h e. cc, λ h. refl)

is_blank-nil : (t : Text) → (is_blank t ≡ false) → strip t ≢ []
is_blank-nil t h e = absurd (let g = (==_iff (strip t) []).1 e in cc)

pub required_fields_rule-Passed :
    (input : ValidationInput)
    → Passed Rule.required_fields_present (required_fields_rule input) ↔ HasContent input.draft
unfolding required_fields_rule
required_fields_rule-Passed input =
    let number = input.draft.invoice_number.value in
    let supplier = input.draft.supplier.value in
    elim (Bool-cases (is_blank number)) [
      | inl blank ↦
          rw blank (λ h. absurd (cc), λ c. absurd (c.number ((==_iff (strip number) []).0 blank)))
      | inr present ↦ elim (Bool-cases (is_blank supplier)) [
        | inl blank ↦
            rw (present, blank)
              (λ h. absurd (cc), λ c. absurd (c.supplier ((==_iff (strip supplier) []).0 blank)))
        | inr named ↦
            rw (present, named)
              (
                λ h. record {
                  number = is_blank-nil number present;
                  supplier = is_blank-nil supplier named;
                  items = (blank_verdict-Passed input.draft.line_items).0 h;
                },
                λ c. (blank_verdict-Passed input.draft.line_items).1 c.items,
              )
      ]
    ]

pub subtotal_rule-Passed :
    (input : ValidationInput)
    → Passed Rule.line_items_sum_to_subtotal (subtotal_rule input)
      ↔ Same
          (sum_from zero_decimal (map (λ (i : LineItem). i.amount) input.draft.line_items))
          input.draft.subtotal.value
unfolding subtotal_rule
subtotal_rule-Passed input = money_verdict-Passed Rule.line_items_sum_to_subtotal _ _ _

pub total_rule-Passed :
    (input : ValidationInput)
    → Passed Rule.subtotal_plus_tax_equals_total (total_rule input)
      ↔ Same (add input.draft.subtotal.value input.draft.tax.value) input.draft.total.value
unfolding total_rule
total_rule-Passed input = money_verdict-Passed Rule.subtotal_plus_tax_equals_total _ _ _
