-- ===== src/Evals/Rows.antt =====
-- evals/run.py: the rows of an evaluation, and how one document is routed and scored.
use evidence_flow.Prelude.{
  ℕ, ◌+◌, ◌-◌, ◌*◌, ◌/◌, Bool, true, false, not, Option, none, some, List, [], ◌∷◌, ◌++◌, map,
  filter, any, Text, ◌==◌, nat_eq, list_eq, option_eq, nat_beq, leb, length, get_elem?,
  if◌then◌else◌, neg_part, pos_part, ltb,
}
use Prim.Native.Nat.{min}
use evidence_flow.Domain.Decimal.{Decimal}
use evidence_flow.Domain.Schema.{
  InvoiceDraft, AnyField, FieldValue, text_value, date_value, money_value, evidenced_fields,
  isoformat, plain_digits,
}
use evidence_flow.Domain.Validation.{Rule, RuleOutcome, is_pass, fail}
use evidence_flow.Repositories.Models.{ValidationResult}
use evidence_flow.Labels.{CausalLabel, selection, completeness, truthfulness, postcondition}

-- The outcome of a document. `unrouted` is the empty default.
pub data Routing : Type 0 where
  unrouted extraction_failed failed needs_review validated : Routing

pub data Split : Type 0 where
  dev held_out : Split

-- A field that is not as the truth says.
pub record Wrong : Type 0 where
  pub name : Text
  pub got : Text
  pub truth : Text

-- A line of the evaluation set, with the text of its document.
pub record Entry : Type 0 where
  pub id : Text
  pub split : Split
  pub difficulty : Text
  pub notes : Text
  pub document : Text
  pub source_text : Text
  pub expected_outcome : Routing
  pub expected_rules : List Rule
  pub expected_label : Option CausalLabel
  pub ground_truth : List (Text × Text)

pub record Trajectory : Type 0 where
  pub id : Text
  pub split : Split
  pub difficulty : Text
  pub notes : Text
  pub expected_outcome : Routing
  pub expected_rules : List Rule
  pub expected_label : Option CausalLabel
  pub outcome : Routing
  pub blocking_rules : List Rule
  pub label : Option CausalLabel
  pub correct_fields : ℕ
  pub scored_fields : ℕ
  pub wrong : List Wrong
  pub unscorable : List Text
  pub latency_ms : ℕ
  pub input_tokens : ℕ
  pub output_tokens : ℕ
  pub attempts : ℕ
  pub jobs : ℕ
  pub accepted : Bool
  pub external_id : Option Text
  pub error : Option (Option Text × Option Text)

abbrev pub new_row : Entry → Trajectory
new_row entry = record {
  id = entry.id;
  split = entry.split;
  difficulty = entry.difficulty;
  notes = entry.notes;
  expected_outcome = entry.expected_outcome;
  expected_rules = entry.expected_rules;
  expected_label = entry.expected_label;
  outcome = unrouted;
  blocking_rules = [];
  label = none;
  correct_fields = 0;
  scored_fields = 0;
  wrong = [];
  unscorable = [];
  latency_ms = 0;
  input_tokens = 0;
  output_tokens = 0;
  attempts = 0;
  jobs = 0;
  accepted = false;
  external_id = none;
  error = none;
}

abbrev pub routing_rank : Routing → ℕ
routing_rank unrouted = 0
routing_rank extraction_failed = 1
routing_rank failed = 2
routing_rank needs_review = 3
routing_rank validated = 4

abbrev pub label_rank : Option CausalLabel → ℕ
label_rank none = 0
label_rank (some selection) = 1
label_rank (some completeness) = 2
label_rank (some truthfulness) = 3
label_rank (some postcondition) = 4

-- `max(attempts - jobs, 0)`
unfoldable pub retries : Trajectory → ℕ
retries row = row.attempts - row.jobs

abbrev pub routed_as_expected : Trajectory → Bool
routed_as_expected row = nat_beq (routing_rank row.outcome) (routing_rank row.expected_outcome)

abbrev pub labelled_as_expected : Trajectory → Bool
labelled_as_expected row = nat_beq (label_rank row.label) (label_rank row.expected_label)

abbrev pub needs_a_person : Trajectory → Bool
needs_a_person row = not row.accepted

abbrev pub is_fail : RuleOutcome → Bool
is_fail fail = true
is_fail _ = false

abbrev pub is_review : RuleOutcome → Bool
is_review RuleOutcome.needs_review = true
is_review _ = false

-- `_routing`
unfoldable pub routing : List ValidationResult → Routing
routing rows =
    if any (λ r. is_fail r.result.outcome) rows
    then failed
    else if any (λ r. is_review r.result.outcome) rows
    then needs_review
    else validated

-- `[r.rule for r in results if r.outcome != "pass"]`
unfoldable pub blocking_of : List ValidationResult → List Rule
blocking_of rows =
    map (λ (r : ValidationResult). r.result.rule)
      (filter (λ r. not (is_pass r.result.outcome)) rows)

-- `format(d, "f")`, by which a draft's amounts are serialized.
fixed_decimal : Decimal → Text
fixed_decimal d =
    let shown = plain_digits (pos_part d.mantissa + neg_part d.mantissa) d.scale in
    if ltb 0 (neg_part d.mantissa) then b'-' ∷ shown else shown

-- `draft[name]["value"]`: every scored field is a text in the JSON dump of a draft.
pub json_value : FieldValue → Text
unfolding fixed_decimal
json_value (text_value t) = t
json_value (date_value d) = isoformat d
json_value (money_value d) = fixed_decimal d

-- `SCORED_FIELDS` are the names of the evidenced fields, in their order.
abbrev pub scored_values : InvoiceDraft → List (Text × Text)
scored_values draft =
    map (λ (p : Text × AnyField). (p.0, json_value p.1.value)) (evidenced_fields draft)

-- `truth.get(name)`
unfoldable pub truth_of : Text → List (Text × Text) → Option Text
truth_of name [] = none
truth_of name ((key, value) ∷ rest) =
    let later = truth_of name rest in if key == name then some value else later

-- One turn of the loop of `_score`.
unfoldable pub score_field : Text → Text → Option Text → Trajectory → Trajectory
score_field name got none row = record row { unscorable = row.unscorable ++ name ∷ [] }
score_field name got (some expected) row =
    if got == expected
    then record row {
      scored_fields = row.scored_fields + 1;
      correct_fields = row.correct_fields + 1;
    }
    else record row {
      scored_fields = row.scored_fields + 1;
      wrong = row.wrong ++ record { name = name; got = got; truth = expected } ∷ [];
    }

unfoldable pub score_fields : List (Text × Text) → List (Text × Text) → Trajectory → Trajectory
unfolding truth_of score_field
score_fields truth [] row = row
score_fields truth ((name, got) ∷ rest) row =
    score_fields truth rest (score_field name got (truth_of name truth) row)

-- `_score`
unfoldable pub score : Trajectory → InvoiceDraft → List (Text × Text) → Trajectory
unfolding score_fields
score row draft truth = score_fields truth (scored_values draft) row

unfoldable pub insert_value : ℕ → List ℕ → List ℕ
insert_value x [] = x ∷ []
insert_value x (y ∷ ys) = let rest = insert_value x ys in if leb x y then x ∷ y ∷ ys else y ∷ rest

-- `sorted(values)`
unfoldable pub sort_values : List ℕ → List ℕ
unfolding insert_value
sort_values [] = []
sort_values (x ∷ xs) = insert_value x (sort_values xs)

-- `_percentile` at the fraction `num / den`, whose product the source takes in floats. `none` is an
-- IndexError.
unfoldable pub percentile : List ℕ → ℕ → ℕ → Option ℕ
unfolding sort_values
percentile [] num den = some 0
percentile (x ∷ xs) num den =
    let ordered = sort_values (x ∷ xs) in
    get_elem? ordered (min (num * length ordered / den) (length ordered - 1))
