-- ===== src/Evals/Summary/Totals.antt =====
-- evals/run.py: when `main` ends in success, and how the report's tables and its head agree.
use evidence_flow.Prelude.{
  ℕ, ◌+◌, ◌≡◌, ◌↔◌, refl, sym, ap, ◌∙◌, Bool, true, false, ◌&&◌, ◌||◌, Option, none, some, List, [],
  ◌∷◌, filter, arith, length, if◌then◌else◌, All, Bool-cases, inl, inr, ◌-ℤ◌,
}
use evidence_flow.Evals.Cost.{CostModel}
use evidence_flow.Evals.Rows.{
  Routing, dev, held_out, Trajectory, routed_as_expected, labelled_as_expected, routing_rank,
  label_rank,
}
use evidence_flow.Evals.Replay.{Run}
use evidence_flow.Evals.Summary.{
  total, accepted, duplicate_writes, in_split, CohortLine, cohort_line, line_of, split_line,
  is_mismatch, mismatches, is_nonzero, is_nonempty, exit_code, Headline, headline,
}
use evidence_flow.Labels.{CausalLabel}

routing_rank_injective : (a b : Routing) → routing_rank a ≡ routing_rank b → a ≡ b
routing_rank_injective a b h = ground arith

label_rank_injective : (a b : Option CausalLabel) → label_rank a ≡ label_rank b → a ≡ b
label_rank_injective a b h = ground arith

-- A row went where the evaluation set says, and got the label that it says.
pub record AsExpected (row : Trajectory) : Type 0 where
  pub routed : row.outcome ≡ row.expected_outcome
  pub labelled : row.label ≡ row.expected_label

is_mismatch-AsExpected : (row : Trajectory) → is_mismatch row ≡ false → AsExpected row
is_mismatch-AsExpected row h = record {
  routed = routing_rank_injective row.outcome row.expected_outcome (ground arith);
  labelled = label_rank_injective row.label row.expected_label (ground arith);
}

AsExpected-is_mismatch : (row : Trajectory) → AsExpected row → is_mismatch row ≡ false
AsExpected-is_mismatch row e =
    let a : routing_rank row.outcome ≡ routing_rank row.expected_outcome =
      ap routing_rank e.routed in
    let b : label_rank row.label ≡ label_rank row.expected_label = ap label_rank e.labelled in
    ground arith

filter-is_mismatch :
    (rows : List Trajectory) → (is_nonempty (filter is_mismatch rows) ≡ false) ↔ All AsExpected rows
filter-is_mismatch [] = (λ h. tt, λ h. refl)
filter-is_mismatch (row ∷ rows) = elim (Bool-cases (is_mismatch row)) [
  | inl wrong ↦
      rw wrong (λ h. absurd (cc), λ h. absurd (let e = AsExpected-is_mismatch row h.0 in cc))
  | inr right ↦ rw right (
    λ h. (is_mismatch-AsExpected row right, (filter-is_mismatch rows).0 h),
    λ h. (filter-is_mismatch rows).1 h.1,
  )
]

duplicates-none :
    (r : Run) → (is_nonzero (duplicate_writes r) ≡ false) ↔ (r.destination_records ≡ accepted r)
unfolding duplicate_writes ◌-ℤ◌
duplicates-none r = (λ h. ground arith, λ h. ground arith)

-- What `--check` asks of a run.
pub record ChecksOut (r : Run) : Type 0 where
  pub rows : All AsExpected r.rows
  pub destination : r.destination_records ≡ accepted r

or-exit :
    (a b : Bool) → (◌≡◌ {A = ℕ} (if true && (a || b) then 1 else 0) 0) ↔ (a ≡ false) × (b ≡ false)
or-exit a b = (λ h. (ground arith, ground arith), λ h. ground arith)

-- With `--check`, `main` returns 0 exactly if every row has the outcome and the label that the
-- evaluation set says, and the destination holds as many records as documents were accepted.
pub exit_code-ChecksOut : (r : Run) → (exit_code true r ≡ 0) ↔ ChecksOut r
unfolding exit_code mismatches
exit_code-ChecksOut r =
    let flags = or-exit (is_nonempty (mismatches r)) (is_nonzero (duplicate_writes r)) in
    (
      λ h. record {
        rows = (filter-is_mismatch r.rows).0 (flags.0 h).0;
        destination = (duplicates-none r).0 (flags.0 h).1;
      },
      λ c. flags.1 ((filter-is_mismatch r.rows).1 c.rows, (duplicates-none r).1 c.destination),
    )

-- A sum over the rows is the sum over its two splits.
total-in_split :
    (f : Trajectory → ℕ) (rows : List Trajectory)
    → total f (filter (in_split dev) rows) + total f (filter (in_split held_out) rows)
      ≡ total f rows
total-in_split f [] = refl
total-in_split f (row ∷ rows) = ground (arith, total-in_split f rows)

length-in_split :
    (rows : List Trajectory)
    → length (filter (in_split dev) rows) + length (filter (in_split held_out) rows) ≡ length rows
length-in_split [] = refl
length-in_split (row ∷ rows) = ground (arith, length-in_split rows)

-- A figure of a line, where a split without rows has no line.
abbrev pub figure : (CohortLine → ℕ) → Option CohortLine → ℕ
figure f none = 0
figure f (some line) = f line

-- The two lines of the table by split add up to the figures at the head.
pub record SplitsAddUp (r : Run) (h : Headline) (dev_line held_line : Option CohortLine)
    : Type 0 where
  pub documents :
      figure (λ l. l.documents) dev_line + figure (λ l. l.documents) held_line ≡ h.documents
  pub correct : figure (λ l. l.correct) dev_line + figure (λ l. l.correct) held_line ≡ h.correct
  pub scored : figure (λ l. l.scored) dev_line + figure (λ l. l.scored) held_line ≡ h.scored
  pub routed : figure (λ l. l.routed) dev_line + figure (λ l. l.routed) held_line ≡ h.routed
  pub labelled : figure (λ l. l.labelled) dev_line + figure (λ l. l.labelled) held_line ≡ h.labelled
  pub written : figure (λ l. l.written) dev_line + figure (λ l. l.written) held_line ≡ h.written

-- A line that is left out would have had zeros.
figure-line_of :
    (f : CohortLine → ℕ) (rows : List Trajectory)
    → f (cohort_line []) ≡ 0
    → figure f (line_of rows) ≡ f (cohort_line rows)
figure-line_of f [] h = sym h
figure-line_of f (row ∷ rows) h = refl

split-figure :
    (f : CohortLine → ℕ) (r : Run)
    → f (cohort_line []) ≡ 0
    → figure f (split_line r dev) + figure f (split_line r held_out)
      ≡ f (cohort_line (filter (in_split dev) r.rows))
        + f (cohort_line (filter (in_split held_out) r.rows))
unfolding split_line
split-figure f r h =
    let a = figure-line_of f (filter (in_split dev) r.rows) h in
    let b = figure-line_of f (filter (in_split held_out) r.rows) h in omega (arith, a, b)

-- Of every run, each figure that the table by split and the head of the report both show is in the
-- head the sum of its two values in the table.
pub headline-SplitsAddUp :
    (r : Run) (costs : CostModel)
    → SplitsAddUp r (headline r costs) (split_line r dev) (split_line r held_out)
unfolding headline accepted cohort_line
headline-SplitsAddUp r costs = record {
  documents = split-figure (λ l. l.documents) r refl ∙ length-in_split r.rows;
  correct =
      split-figure (λ l. l.correct) r refl ∙ total-in_split (λ row. row.correct_fields) r.rows;
  scored = split-figure (λ l. l.scored) r refl ∙ total-in_split (λ row. row.scored_fields) r.rows;
  routed =
      split-figure (λ l. l.routed) r refl
      ∙ total-in_split (λ row. if routed_as_expected row then 1 else 0) r.rows;
  labelled =
      split-figure (λ l. l.labelled) r refl
      ∙ total-in_split (λ row. if labelled_as_expected row then 1 else 0) r.rows;
  written =
      split-figure (λ l. l.written) r refl
      ∙ total-in_split (λ row. if row.accepted then 1 else 0) r.rows;
}
