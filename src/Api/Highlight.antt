-- ===== src/Api/Highlight.antt =====
-- app/api/highlight.py: the source text cut into plain and marked segments.
pub mod Cover
use evidence_flow.Prelude.{
  ℕ, Bool, ◌&&◌, ◌||◌, Option, none, some, List, [], ◌∷◌, ◌++◌, Text, ltb, leb, nat_beq, length,
  slice, if◌then◌else◌,
}
use evidence_flow.Domain.Evidence.Results.{EvidenceRow}

pub record Segment : Type 0 where
  pub text : Text
  pub field : Option Text

-- A row whose start is not None. The sort key negates the end, so a missing one is a TypeError.
pub record Mark : Type 0 where
  pub start : ℕ
  pub end : ℕ
  pub field : Text

mark_of : Text → Option ℕ → Option ℕ → Option (List Mark) → Option (List Mark)
mark_of field none end rest = rest
mark_of field (some start) none rest = none
mark_of field (some start) (some end) none = none
mark_of field (some start) (some end) (some marks) =
    some (record { start = start; end = end; field = field } ∷ marks)

unfoldable pub marks_of : List EvidenceRow → Option (List Mark)
unfolding mark_of
marks_of [] = some []
marks_of (row ∷ rows) = mark_of row.field row.start row.end (marks_of rows)

-- `a` goes before `b` by the key `(start, -end)`, or has the same key.
sorts_before : Mark → Mark → Bool
sorts_before a b = ltb a.start b.start || (nat_beq a.start b.start && leb b.end a.end)

-- `sorted` is stable: a mark goes in front of those that came later with its key.
insert_mark : Mark → List Mark → List Mark
insert_mark m [] = m ∷ []
insert_mark m (n ∷ ns) =
    let behind = n ∷ insert_mark m ns in if sorts_before m n then m ∷ n ∷ ns else behind

sort_marks : List Mark → List Mark
unfolding insert_mark sorts_before
sort_marks [] = []
sort_marks (m ∷ ms) = insert_mark m (sort_marks ms)

-- `Segment(source[cursor:start])`, if that is not empty.
abbrev gap : Text → ℕ → ℕ → List Segment
gap source cursor start =
    if ltb cursor start then record { text = slice source cursor start; field = none } ∷ [] else []

-- The loop over the sorted spans, and the rest of the text behind it.
walk : Text → ℕ → List Mark → List Segment
walk source cursor [] = gap source cursor (length source)
walk source cursor (m ∷ ms) =
    let skipped = walk source cursor ms in
    let marked =
      gap source cursor m.start
      ++ (record { text = slice source m.start m.end; field = some m.field }
          ∷ walk source m.end ms) in
    if ltb m.start cursor then skipped else marked

walk_marks : Text → Option (List Mark) → Option (List Segment)
unfolding walk
walk_marks source none = none
walk_marks source (some marks) = some (walk source 0 (sort_marks marks))

-- `none` is the TypeError.
unfoldable pub segments : Text → List EvidenceRow → Option (List Segment)
unfolding walk_marks marks_of sort_marks
segments source evidence = walk_marks source (marks_of evidence)
