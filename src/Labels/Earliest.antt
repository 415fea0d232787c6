-- ===== src/Labels/Earliest.antt =====
-- The label of several blocking rules is that of the first of them in the order of precedence.
use evidence_flow.Prelude.{
  ◌≡◌, ap, true, false, some, List, [], ◌∷◌, ◌++◌, All, any, Bool-cases, inl, inr, some_injective,
}
use evidence_flow.Domain.Validation.{Rule}
use evidence_flow.Labels.{CausalLabel, is_rule, first_label, rule_precedence, label_blocking_rules}

-- The label stands in the list beside a rule that blocks, and no rule before that one blocks.
pub record IsEarliest (blocking : List Rule) (label : CausalLabel)
    (order : List (Rule × CausalLabel)) : Type 0 where
  pub rule : Rule
  pub earlier : List (Rule × CausalLabel)
  pub later : List (Rule × CausalLabel)
  pub splits : order ≡ earlier ++ (rule, label) ∷ later
  pub blocks : any (is_rule rule) blocking ≡ true
  pub first : All (λ (p : Rule × CausalLabel). any (is_rule p.0) blocking ≡ false) earlier

first_label-IsEarliest :
    (blocking : List Rule) (label : CausalLabel) (order : List (Rule × CausalLabel))
    → first_label blocking order ≡ some label
    → IsEarliest blocking label order
first_label-IsEarliest blocking label [] h = absurd (cc)
first_label-IsEarliest blocking label ((r, l) ∷ more) h =
    elim (Bool-cases (any (is_rule r) blocking)) [
      | inl hit ↦
          let same : l ≡ label = some_injective (rw hit at h) in
          record {
            rule = r;
            earlier = [];
            later = more;
            splits = ap (λ k. (r, k) ∷ more) same;
            blocks = hit;
            first = tt;
          }
      | inr miss ↦
          let e = first_label-IsEarliest blocking label more (rw miss at h) in
          record {
            rule = e.rule;
            earlier = (r, l) ∷ e.earlier;
            later = e.later;
            splits = ap (λ o. (r, l) ∷ o) e.splits;
            blocks = e.blocks;
            first = (miss, e.first);
          }
    ]

-- The label that `label_blocking_rules` gives belongs to a rule that blocks, and no rule that comes
-- before it in the order of precedence blocks.
pub label_blocking_rules-IsEarliest :
    (rules : List Rule) (label : CausalLabel)
    → label_blocking_rules rules ≡ some label
    → IsEarliest rules label rule_precedence
unfolding label_blocking_rules
label_blocking_rules-IsEarliest rules label h = first_label-IsEarliest rules label rule_precedence h
