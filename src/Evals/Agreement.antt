-- ===== src/Evals/Agreement.antt =====
-- The route of a document and its label agree.
use evidence_flow.Prelude.{
  ◌≡◌, ◌↔◌, refl, ap, ◌∙◌, Bool, true, false, ◌||◌, not, none, List, [], ◌∷◌, arith, any, all, All,
  Bool-cases, inl, inr,
}
use evidence_flow.Domain.Validation.{Rule, RuleOutcome, is_pass}
use evidence_flow.Repositories.Models.{ValidationResult}
use evidence_flow.Labels.{CausalLabel, first_label, is_rule, rule_precedence, label_blocking_rules}
use evidence_flow.Evals.Rows.{validated, routing, blocking_of, is_fail, is_review}

abbrev pub passes : ValidationResult → Bool
passes row = is_pass row.result.outcome

-- An outcome is a pass exactly if it is neither of the others.
outcome_cases : (o : RuleOutcome) → is_pass o ≡ not (is_fail o || is_review o)
outcome_cases o = ground arith

routing_of :
    (rows : List ValidationResult)
    → (any (λ r. is_fail r.result.outcome) rows || any (λ r. is_review r.result.outcome) rows)
      ≡ not (all passes rows)
routing_of [] = refl
routing_of (row ∷ rows) = ground (arith, outcome_cases row.result.outcome, routing_of rows)

routing_lem : (rows : List ValidationResult) → (routing rows ≡ validated) ↔ (all passes rows ≡ true)
unfolding routing
routing_lem rows = (λ h. ground (arith, routing_of rows), λ h. ground (arith, routing_of rows))

blocking_of-nil :
    (rows : List ValidationResult) → (blocking_of rows ≡ []) ↔ (all passes rows ≡ true)
unfolding blocking_of
blocking_of-nil [] = (λ h. refl, λ h. refl)
blocking_of-nil (row ∷ rows) = elim (Bool-cases (passes row)) [
  | inl good ↦ rw good (blocking_of-nil rows)
  | inr bad ↦ rw bad (λ h. absurd (cc), λ h. absurd (cc))
]

first_label-none :
    (blocking : List Rule) (order : List (Rule × CausalLabel))
    → first_label blocking order ≡ none
    → All (λ p. any (is_rule p.0) blocking ≡ false) order
first_label-none blocking [] h = tt
first_label-none blocking ((r, l) ∷ more) h = elim (Bool-cases (any (is_rule r) blocking)) [
  | inl hit ↦ absurd (let e = rw hit at h in cc)
  | inr miss ↦ (miss, first_label-none blocking more (rw miss at h))
]

-- The order of precedence has every rule.
precedence_total :
    (P : Rule → Type 0) → All (λ (p : Rule × CausalLabel). P p.0) rule_precedence → (r : Rule) → P r
precedence_total P h Rule.evidence_verified = h.0
precedence_total P h Rule.required_fields_present = h.1.0
precedence_total P h Rule.credit_note_consistent = h.1.1.0
precedence_total P h Rule.supported_currency = h.1.1.1.0
precedence_total P h Rule.invoice_number_not_duplicate = h.1.1.1.1.0
precedence_total P h Rule.currency_agrees_with_source = h.1.1.1.1.1.0
precedence_total P h Rule.issue_date_unambiguous = h.1.1.1.1.1.1.0
precedence_total P h Rule.issue_date_plausible = h.1.1.1.1.1.1.1.0
precedence_total P h Rule.line_item_arithmetic = h.1.1.1.1.1.1.1.1.0
precedence_total P h Rule.line_items_sum_to_subtotal = h.1.1.1.1.1.1.1.1.1.0
precedence_total P h Rule.subtotal_plus_tax_equals_total = h.1.1.1.1.1.1.1.1.1.1.0

is_rule_self : (r : Rule) → is_rule r r ≡ true
is_rule_self r = ground arith

label_none : (blocking : List Rule) → label_blocking_rules blocking ≡ none → blocking ≡ []
unfolding label_blocking_rules
label_none [] h = refl
label_none (r ∷ rs) h =
    let absent =
      precedence_total (λ q. any (is_rule q) (r ∷ rs) ≡ false)
        (first_label-none (r ∷ rs) rule_precedence h) r in
    absurd (let e = rw (is_rule_self r) at absent in cc)

label_nil : label_blocking_rules [] ≡ none
unfolding label_blocking_rules
label_nil = refl

-- A document gets no label exactly if its results route it to validated: whatever blocks a
-- document, the order of precedence has a label for it.
pub label_iff_validated :
    (rows : List ValidationResult)
    → (label_blocking_rules (blocking_of rows) ≡ none) ↔ (routing rows ≡ validated)
label_iff_validated rows = (
  λ h. (routing_lem rows).1 ((blocking_of-nil rows).0 (label_none (blocking_of rows) h)),
  λ h. ap label_blocking_rules ((blocking_of-nil rows).1 ((routing_lem rows).0 h)) ∙ label_nil,
)
