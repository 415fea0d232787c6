-- ===== src/Evals/Scores.antt =====
-- The scores of an evaluation add up.
use evidence_flow.Prelude.{
  ℕ, ◌+◌, ◌≡◌, Option, none, some, List, [], ◌∷◌, Text, arith, ◌==◌, nat_eq, list_eq, length,
  length-append, Bool-cases, inl, inr,
}
use evidence_flow.Domain.Schema.{InvoiceDraft, evidenced_fields}
use evidence_flow.Evals.Rows.{
  Entry, Trajectory, Wrong, new_row, truth_of, score_field, score_fields, score, scored_values,
}

-- What the loop adds to the counts of a row.
record Tallies (n : ℕ) (before after : Trajectory) : Type 0 where
  scored :
      after.scored_fields + length after.unscorable
      ≡ before.scored_fields + length before.unscorable + n
  correct :
      after.correct_fields + length after.wrong + before.scored_fields
      ≡ before.correct_fields + length before.wrong + after.scored_fields

score_field-Tallies :
    (name got : Text) (truth : Option Text) (row : Trajectory)
    → Tallies 1 row (score_field name got truth row)
unfolding score_field
score_field-Tallies name got none row = record {
  scored = omega (arith, length-append {A = Text} row.unscorable (name ∷ []));
  correct = omega arith;
}
score_field-Tallies name got (some expected) row = elim (Bool-cases (got == expected)) [
  | inl hit ↦ rw hit (record { scored = omega arith; correct = omega arith })
  | inr miss ↦ rw miss (record {
    scored = omega arith;
    correct = omega (arith, length-append {A = Wrong} row.wrong (_ ∷ []));
  })
]

score_fields-Tallies :
    (truth values : List (Text × Text)) (row : Trajectory)
    → Tallies (length values) row (score_fields truth values row)
unfolding score_fields
score_fields-Tallies truth [] row = record { scored = omega arith; correct = omega arith }
score_fields-Tallies truth ((name, got) ∷ rest) row =
    let next = score_field name got (truth_of name truth) row in
    let t = score_field-Tallies name got (truth_of name truth) row in
    let ts = score_fields-Tallies truth rest next in
    record {
      scored = omega (arith, t.scored, ts.scored);
      correct = omega (arith, t.correct, ts.correct);
    }

-- Every one of the seven fields is scored or has no truth, and every scored one is right or wrong.
pub record IsTallied (row : Trajectory) : Type 0 where
  pub scored : row.scored_fields + length row.unscorable ≡ 7
  pub correct : row.correct_fields + length row.wrong ≡ row.scored_fields

-- A new row that is scored accounts for each of the seven fields once, whatever the truth holds.
pub score-IsTallied :
    (entry : Entry) (draft : InvoiceDraft) (truth : List (Text × Text))
    → IsTallied (score (new_row entry) draft truth)
unfolding score evidenced_fields
score-IsTallied entry draft truth =
    let t = score_fields-Tallies truth (scored_values draft) (new_row entry) in
    record { scored = omega (arith, t.scored); correct = omega (arith, t.correct) }
