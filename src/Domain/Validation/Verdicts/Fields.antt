-- ===== src/Domain/Validation/Verdicts/Fields.antt =====
-- When the rules on single fields of a draft pass.
use evidence_flow.Prelude.{
  ℕ, ◌<◌, ◌≡◌, ◌≢◌, ◌↔◌, ◌⊎◌, refl, true, not, ◌&&◌, Option, none, some, List, [], ◌∷◌, Text, arith,
  leb, nat_beq, nat_eq, list_eq, pair_eq, contains, any, all, filter, All, Bool-cases, inl, inr,
  pos_part, neg_part,
}
use evidence_flow.Domain.Decimal.{is_negative, is_positive}
use evidence_flow.Domain.Evidence.{strip}
use evidence_flow.Domain.Evidence.Results.{EvidenceResult, verified, is_some}
use evidence_flow.Domain.Schema.{Date, LineItem, InvoiceDraft, date_before}
use evidence_flow.Domain.Validation.{
  fail, needs_review, Rule, Message, ValidationInput, run, is_pass, normalize_supplier,
  currency_rule, supported_currencies, check_symbols, currency_symbols, symbol_rule, plausible_rule,
  earliest_plausible_date, ambiguous_verdict, unambiguous_rule, duplicate_rule, unverified_verdict,
  evidence_rule, credit_note_rule,
}
use evidence_flow.Domain.Validation.Dates.{Unicode, DateMatch, search_date}
use evidence_flow.Domain.Validation.Verdicts.{Passed, test-Passed, Among, contains-Among, all-All}

pub currency_rule-Passed :
    (input : ValidationInput)
    → Passed Rule.supported_currency (currency_rule input)
      ↔ Among input.draft.currency.value supported_currencies
unfolding currency_rule
currency_rule-Passed input =
    let code = input.draft.currency.value in
    elim (Bool-cases (contains code supported_currencies)) [
      | inl known ↦ rw known (λ h. (contains-Among code supported_currencies).0 known, λ h. refl)
      | inr other ↦ rw other (
        λ h. absurd (cc),
        λ h. absurd (let g = (contains-Among code supported_currencies).1 h in cc),
      )
    ]

-- A currency's symbol does not stand in the source, or the code is one that it may mean.
abbrev pub SymbolFits : Text → Text → ℕ × List Text → Type 0
SymbolFits source code (symbol, allowed) = (¬ (Among symbol source)) ⊎ Among code allowed

symbol_fits :
    (source code : Text) (entry : ℕ × List Text)
    → (not (contains entry.0 source && not (contains code entry.1)) ≡ true)
      ↔ SymbolFits source code entry
symbol_fits source code (symbol, allowed) = elim (Bool-cases (contains symbol source)) [
  | inr absent ↦
      rw absent
        (λ h. inl (λ m. absurd (let g = (contains-Among symbol source).1 m in cc)), λ h. refl)
  | inl present ↦ elim (Bool-cases (contains code allowed)) [
    | inl fits ↦ rw (present, fits) (λ h. inr ((contains-Among code allowed).0 fits), λ h. refl)
    | inr other ↦
        rw (present, other)
          (
            λ h. absurd (cc),
            λ h. elim h [
              | inl absent ↦ absurd (absent ((contains-Among symbol source).0 present))
              | inr fits ↦ absurd (let g = (contains-Among code allowed).1 fits in cc)
            ],
          )
  ]
]

check_symbols-pass :
    (source code : Text) (table : List (ℕ × List Text))
    → is_pass (run Rule.currency_agrees_with_source (check_symbols source code table)).outcome
      ≡ all (λ e. not (contains e.0 source && not (contains code e.1))) table
check_symbols-pass source code [] = refl
check_symbols-pass source code ((symbol, allowed) ∷ rest) =
    elim (Bool-cases (contains symbol source && not (contains code allowed))) [
      | inl wrong ↦ rw wrong refl
      | inr fine ↦ rw fine (check_symbols-pass source code rest)
    ]

pub symbol_rule-Passed :
    (input : ValidationInput)
    → Passed Rule.currency_agrees_with_source (symbol_rule input)
      ↔ All (SymbolFits input.source input.draft.currency.value) currency_symbols
unfolding symbol_rule
symbol_rule-Passed input =
    let code = input.draft.currency.value in
    rw (check_symbols-pass input.source code currency_symbols)
      (all-All (SymbolFits input.source code) _ (symbol_fits input.source code) currency_symbols)

-- One day before another, by year, month and day.
abbrev pub Before : Date → Date → Type 0
Before a b =
    (a.year < b.year)
    ⊎ ((a.year ≡ b.year) × ((a.month < b.month) ⊎ ((a.month ≡ b.month) × (a.day < b.day))))

date_before-Before : (a b : Date) → (date_before a b ≡ true) ↔ Before a b
unfolding date_before
date_before-Before a b = (λ h. ground arith, λ h. ground arith)

-- Not in the future, and not before the year 2000.
pub record IsPlausible (today issued : Date) : Type 0 where
  pub past : ¬ (Before today issued)
  pub recent : ¬ (Before issued earliest_plausible_date)

pub plausible_rule-Passed :
    (input : ValidationInput)
    → Passed Rule.issue_date_plausible (plausible_rule input)
      ↔ IsPlausible input.today input.draft.issue_date.value
unfolding plausible_rule
plausible_rule-Passed input =
    let issued = input.draft.issue_date.value in
    let (future_to, future_back) = date_before-Before input.today issued in
    let (old_to, old_back) = date_before-Before issued earliest_plausible_date in
    elim (Bool-cases (date_before input.today issued)) [
      | inl future ↦ rw future (λ h. absurd (cc), λ p. absurd (p.past (future_to future)))
      | inr past ↦ elim (Bool-cases (date_before issued earliest_plausible_date)) [
        | inl old ↦ rw (past, old) (λ h. absurd (cc), λ p. absurd (p.recent (old_to old)))
        | inr recent ↦
            rw (past, recent)
              (
                λ h. record {
                  past = λ b. absurd (let g = future_back b in cc);
                  recent = λ b. absurd (let g = old_back b in cc);
                },
                λ p. refl,
              )
      ]
    ]

-- A date that the quote shows can be read in one way only.
abbrev pub ReadsOneWay : Option DateMatch → Type 0
ReadsOneWay none = Unit {0}
ReadsOneWay (some m) = (m.first ≡ m.second) ⊎ ((12 < m.first) ⊎ (12 < m.second))

ambiguous_verdict-Passed :
    (found : Option DateMatch)
    → Passed Rule.issue_date_unambiguous (ambiguous_verdict found) ↔ ReadsOneWay found
ambiguous_verdict-Passed none = (λ h. tt, λ h. refl)
ambiguous_verdict-Passed (some m) =
    rw
      (test-Passed Rule.issue_date_unambiguous
        (not (nat_beq m.first m.second) && leb m.first 12 && leb m.second 12)
        (needs_review, Message.ambiguous_date m.matched) refl)
      (λ h. ground arith, λ h. ground arith)

pub unambiguous_rule-Passed :
    (unicode : Unicode) (input : ValidationInput)
    → Passed Rule.issue_date_unambiguous (unambiguous_rule unicode input)
      ↔ ReadsOneWay (search_date unicode input.draft.issue_date.quote)
unfolding unambiguous_rule
unambiguous_rule-Passed unicode input =
    ambiguous_verdict-Passed (search_date unicode input.draft.issue_date.quote)

-- The supplier and the number that the rule looks up.
abbrev pub invoice_key : Unicode → InvoiceDraft → Text × Text
invoice_key unicode draft =
    (normalize_supplier unicode draft.supplier.value, strip draft.invoice_number.value)

pub duplicate_rule-Passed :
    (unicode : Unicode) (input : ValidationInput)
    → Passed Rule.invoice_number_not_duplicate (duplicate_rule unicode input)
      ↔ ¬ (Among (invoice_key unicode input.draft) input.known_invoice_numbers)
unfolding duplicate_rule
duplicate_rule-Passed unicode input =
    let key = invoice_key unicode input.draft in
    let (to, back) = contains-Among key input.known_invoice_numbers in
    elim (Bool-cases (contains key input.known_invoice_numbers)) [
      | inl known ↦ rw known (λ h. absurd (cc), λ h. absurd (h (to known)))
      | inr fresh ↦ rw fresh (λ h m. absurd (let g = back m in cc), λ h. refl)
    ]

is_some_iff : {A : Type 0} (o : Option A) → (is_some o ≡ true) ↔ (o ≢ none)
is_some_iff none = (λ h. absurd (cc), λ h. absurd (h refl))
is_some_iff (some a) = (λ h e. cc, λ h. refl)

unverified_verdict-Passed :
    (evidence : List EvidenceResult)
    → Passed Rule.evidence_verified (unverified_verdict (filter (λ e. not (verified e)) evidence))
      ↔ All (λ e. e.span ≢ none) evidence
unfolding verified
unverified_verdict-Passed [] = (λ h. tt, λ h. refl)
unverified_verdict-Passed (e ∷ es) = elim (Bool-cases (verified e)) [
  | inl found ↦ rw found (
    λ h. ((is_some_iff e.span).0 found, (unverified_verdict-Passed es).0 h),
    λ h. (unverified_verdict-Passed es).1 h.1,
  )
  | inr lost ↦ rw lost (λ h. absurd (cc), λ h. absurd (let g = (is_some_iff e.span).1 h.0 in cc))
]

pub evidence_rule-Passed :
    (input : ValidationInput)
    → Passed Rule.evidence_verified (evidence_rule input)
      ↔ All (λ (e : EvidenceResult). e.span ≢ none) input.evidence
unfolding evidence_rule
evidence_rule-Passed input = unverified_verdict-Passed input.evidence

-- A total that is not negative, or no line with a positive amount.
abbrev pub IsConsistent : InvoiceDraft → Type 0
IsConsistent draft =
    (neg_part draft.total.value.mantissa ≡ 0)
    ⊎ All (λ (i : LineItem). pos_part i.amount.mantissa ≡ 0) draft.line_items

any_positive :
    (items : List LineItem)
    → (not (any (λ i. is_positive i.amount) items) ≡ true)
      ↔ All (λ (i : LineItem). pos_part i.amount.mantissa ≡ 0) items
unfolding is_positive
any_positive [] = (λ h. tt, λ h. refl)
any_positive (i ∷ items) =
    let (to, back) = any_positive items in
    (λ h. (ground arith, to (ground arith)), λ h. let g = back h.1 in let z = h.0 in ground arith)

pub credit_note_rule-Passed :
    (input : ValidationInput)
    → Passed Rule.credit_note_consistent (credit_note_rule input) ↔ IsConsistent input.draft
unfolding credit_note_rule is_negative
credit_note_rule-Passed input =
    let draft = input.draft in
    let (to, back) = any_positive draft.line_items in
    rw
      (test-Passed Rule.credit_note_consistent
        (is_negative draft.total.value && any (λ i. is_positive i.amount) draft.line_items)
        (fail, Message.negative_total) refl)
      (elim (Bool-cases (is_negative draft.total.value)) [
        | inr fine ↦ rw fine (λ h. inl (ground arith), λ h. refl)
        | inl negative ↦ rw negative (
          λ h. inr (to h),
          λ h. elim h [ inl none_below ↦ absurd (ground arith) | inr none_above ↦ back none_above ],
        )
      ])
