-- ===== src/Evals/Summary.antt =====
-- evals/run.py: the figures of the report, and the exit code of `main`. The report's prose is left out.
pub mod Totals
use evidence_flow.Prelude.{
  ℕ, ◌+◌, ◌*◌, Bool, true, false, ◌&&◌, ◌||◌, not, Option, none, some, List, [], ◌∷◌, map, filter,
  Text, ◌==◌, nat_eq, list_eq, nat_beq, length, if◌then◌else◌, ℤ, pos, ◌-ℤ◌, pos_part, neg_part,
}
use evidence_flow.Evals.Cost.{Amount, CostModel, model_cost, reviewer_cost}
use evidence_flow.Evals.Rows.{
  Split, dev, held_out, Trajectory, retries, routed_as_expected, labelled_as_expected,
  needs_a_person, percentile, routing_rank, label_rank,
}
use evidence_flow.Evals.Replay.{Run}
use evidence_flow.Labels.{CausalLabel}

-- `sum(f(row) for row in rows)`, of numbers and of truth values.
abbrev pub total : (Trajectory → ℕ) → List Trajectory → ℕ
total f [] = 0
total f (row ∷ rows) = f row + total f rows

abbrev pub how_many : (Trajectory → Bool) → List Trajectory → ℕ
how_many test = total (λ row. if test row then 1 else 0)

-- `accepted` and `duplicate_writes` of a run.
unfoldable pub accepted : Run → ℕ
accepted r = how_many (λ row. row.accepted) r.rows

unfoldable pub duplicate_writes : Run → ℤ
unfolding accepted ◌-ℤ◌
duplicate_writes r = pos r.destination_records -ℤ pos (accepted r)

abbrev pub add_amount : Amount → Amount → Amount
add_amount a b = record {
  numerator = a.numerator * b.denominator + b.numerator * a.denominator;
  denominator = a.denominator * b.denominator;
}

-- `total / n if n else Decimal("0")`
abbrev pub per : Amount → ℕ → Amount
per a n =
    if nat_beq n 0
    then record { numerator = 0; denominator = 1 }
    else record { numerator = a.numerator; denominator = a.denominator * n }

pub record Headline : Type 0 where
  pub documents : ℕ
  pub development : ℕ
  pub held : ℕ
  pub written : ℕ
  pub correct : ℕ
  pub scored : ℕ
  pub routed : ℕ
  pub labelled : ℕ
  pub duplicates : ℤ
  pub retried : ℕ
  pub p50 : Option ℕ
  pub p95 : Option ℕ
  pub tokens_in : ℕ
  pub tokens_out : ℕ
  pub reviewed : ℕ
  pub model : Amount
  pub reviewer : Amount
  pub cost : Amount
  pub per_accepted : Amount

abbrev pub in_split : Split → Trajectory → Bool
in_split dev row = elim row.split [ dev ↦ true | held_out ↦ false ]
in_split held_out row = elim row.split [ dev ↦ false | held_out ↦ true ]

-- The figures at the head of `report`, and the costs.
unfoldable pub headline : Run → CostModel → Headline
unfolding duplicate_writes accepted retries percentile model_cost reviewer_cost
headline r costs =
    let latencies = map (λ (row : Trajectory). row.latency_ms) r.rows in
    let tokens_in = total (λ row. row.input_tokens) r.rows in
    let tokens_out = total (λ row. row.output_tokens) r.rows in
    let reviewed = how_many needs_a_person r.rows in
    let model = model_cost costs tokens_in tokens_out in
    let reviewer = reviewer_cost costs reviewed in
    record {
      documents = length r.rows;
      development = how_many (in_split dev) r.rows;
      held = how_many (in_split held_out) r.rows;
      written = accepted r;
      correct = total (λ row. row.correct_fields) r.rows;
      scored = total (λ row. row.scored_fields) r.rows;
      routed = how_many routed_as_expected r.rows;
      labelled = how_many labelled_as_expected r.rows;
      duplicates = duplicate_writes r;
      retried = total retries r.rows;
      p50 = percentile latencies 50 100;
      p95 = percentile latencies 95 100;
      tokens_in = tokens_in;
      tokens_out = tokens_out;
      reviewed = reviewed;
      model = model;
      reviewer = reviewer;
      cost = add_amount model reviewer;
      per_accepted = per (add_amount model reviewer) (accepted r);
    }

-- A line of the tables by split and by difficulty; a subset with no rows has none.
pub record CohortLine : Type 0 where
  pub documents : ℕ
  pub correct : ℕ
  pub scored : ℕ
  pub routed : ℕ
  pub labelled : ℕ
  pub written : ℕ
  pub reviewed : ℕ

unfoldable pub cohort_line : List Trajectory → CohortLine
cohort_line subset = record {
  documents = length subset;
  correct = total (λ row. row.correct_fields) subset;
  scored = total (λ row. row.scored_fields) subset;
  routed = how_many routed_as_expected subset;
  labelled = how_many labelled_as_expected subset;
  written = how_many (λ row. row.accepted) subset;
  reviewed = how_many needs_a_person subset;
}

abbrev pub line_of : List Trajectory → Option CohortLine
line_of [] = none
line_of (row ∷ rows) = some (cohort_line (row ∷ rows))

unfoldable pub split_line : Run → Split → Option CohortLine
unfolding cohort_line
split_line r split = line_of (filter (in_split split) r.rows)

unfoldable pub difficulty_line : Run → Text → Option CohortLine
unfolding cohort_line
difficulty_line r cohort = line_of (filter (λ row. row.difficulty == cohort) r.rows)

-- `counts[label]`
unfoldable pub label_count : CausalLabel → Run → ℕ
label_count label r =
    how_many (λ row. nat_beq (label_rank row.label) (label_rank (some label))) r.rows

abbrev pub is_mismatch : Trajectory → Bool
is_mismatch row = not (routed_as_expected row) || not (labelled_as_expected row)

unfoldable pub mismatches : Run → List Trajectory
mismatches r = filter is_mismatch r.rows

abbrev pub is_nonzero : ℤ → Bool
is_nonzero z = not (nat_beq (pos_part z) 0 && nat_beq (neg_part z) 0)

abbrev pub is_nonempty {ℓ} : {A : Type ℓ} → List A → Bool
is_nonempty [] = false
is_nonempty (x ∷ xs) = true

-- The value of `main`. `check` is the flag `--check`.
unfoldable pub exit_code : Bool → Run → ℕ
unfolding mismatches duplicate_writes
exit_code check r =
    if check && (is_nonempty (mismatches r) || is_nonzero (duplicate_writes r)) then 1 else 0

-- `zip(before, after, strict=True)`; `none` is the ValueError on lists of different lengths.
abbrev pairs : List Trajectory → List Trajectory → Option (List (Trajectory × Trajectory))
pairs [] [] = some []
pairs [] (b ∷ bs) = none
pairs (a ∷ as_) [] = none
pairs (a ∷ as_) (b ∷ bs) = elim (pairs as_ bs) [ none ↦ none | some rest ↦ some ((a, b) ∷ rest) ]

abbrev changed_outcome : Trajectory × Trajectory → Bool
changed_outcome p = not (nat_beq (routing_rank p.0.outcome) (routing_rank p.1.outcome))

-- `_improvement_section`: the rows whose outcome a variant changes, and those it newly accepts.
unfoldable pub changed_rows : Run → Run → Option (List (Trajectory × Trajectory))
changed_rows baseline variant = elim (pairs baseline.rows variant.rows) [
  | none ↦ none
  | some both ↦ some (filter changed_outcome both)
]

unfoldable pub derived_ids : List (Trajectory × Trajectory) → List Text
derived_ids changed =
    map (λ (p : Trajectory × Trajectory). p.1.id)
      (filter (λ (p : Trajectory × Trajectory). p.1.accepted) changed)
