-- ===== src/Samples/Runs.antt =====
-- A run of the labels.
use evidence_flow.Prelude.{◌≡◌, refl, some, List, [], ◌∷◌}
use evidence_flow.Domain.Validation.{Rule, line_item_arithmetic, supported_currency}
use evidence_flow.Labels.{postcondition, rule_precedence, label_blocking_rules}
use evidence_flow.Labels.Earliest.{IsEarliest, label_blocking_rules-IsEarliest}

abbrev blocked : List Rule
blocked = line_item_arithmetic ∷ supported_currency ∷ []

labelled : label_blocking_rules blocked ≡ some postcondition
unfolding label_blocking_rules
labelled = refl

label_blocking_rules-IsEarliest_example : IsEarliest blocked postcondition rule_precedence
label_blocking_rules-IsEarliest_example =
    label_blocking_rules-IsEarliest blocked postcondition labelled
