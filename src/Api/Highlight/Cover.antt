-- ===== src/Api/Highlight/Cover.antt =====
-- The segments of a page put together are the source text.
use mathlib.Core.List.{append_assoc, append-nil}
use evidence_flow.Prelude.{
  ℕ, ◌≤◌, ◌≡◌, refl, sym, ap, ◌∙◌, Bool, true, false, Option, none, some, List, [], ◌∷◌, ◌++◌, map,
  Text, arith, ltb, length, slice, drop, slice-append-drop, drop-length, drop_past, All, Bool-cases,
  inl, inr,
}
use evidence_flow.Domain.Schema.{InvoiceDraft}
use evidence_flow.Domain.Evidence.{Span}
use evidence_flow.Domain.Evidence.Results.{EvidenceRow, EvidenceResult, to_row, verify_draft}
use evidence_flow.Domain.Evidence.Backing.{BackedBy, IsBacked, verify_draft-IsBacked}
use evidence_flow.Api.Highlight.{
  Segment, Mark, mark_of, marks_of, sorts_before, insert_mark, sort_marks, gap, walk, walk_marks,
  segments,
}

-- The text of a page.
abbrev pub text_of : List Segment → Text
text_of [] = []
text_of (s ∷ ss) = s.text ++ text_of ss

text_of-append : (a b : List Segment) → text_of (a ++ b) ≡ text_of a ++ text_of b
text_of-append [] b = refl
text_of-append (s ∷ a) b =
    ap (λ l. s.text ++ l) (text_of-append a b) ∙ sym (append_assoc s.text (text_of a) (text_of b))

-- A span with its ends in order.
abbrev Ordered : Mark → Type 0
Ordered m = m.start ≤ m.end

insert_mark-Ordered :
    (m : Mark) (ms : List Mark) → Ordered m → All Ordered ms → All Ordered (insert_mark m ms)
unfolding insert_mark
insert_mark-Ordered m [] h k = (h, tt)
insert_mark-Ordered m (n ∷ ns) h k = elim (Bool-cases (sorts_before m n)) [
  | inl e ↦ rw e (h, k)
  | inr e ↦ rw e (k.0, insert_mark-Ordered m ns h k.1)
]

sort_marks-Ordered : (ms : List Mark) → All Ordered ms → All Ordered (sort_marks ms)
unfolding sort_marks
sort_marks-Ordered [] h = tt
sort_marks-Ordered (m ∷ ms) h =
    insert_mark-Ordered m (sort_marks ms) h.0 (sort_marks-Ordered ms h.1)

gap-append-drop : (t : Text) (a b : ℕ) → a ≤ b → text_of (gap t a b) ++ drop b t ≡ drop a t
gap-append-drop t a b h = elim (Bool-cases (ltb a b)) [
  | inl e ↦ rw e (ap (λ l. l ++ drop b t) (append-nil (slice t a b)) ∙ slice-append-drop t a b h)
  | inr e ↦ rw e (let same : b ≡ a = ground arith in ap (λ n. drop n t) same)
]

text_of-gap_end : (t : Text) (c : ℕ) → text_of (gap t c (length t)) ≡ drop c t
text_of-gap_end t c = elim (Bool-cases (ltb c (length t))) [
  | inl e ↦
      sym (append-nil _)
      ∙ ap (λ l. text_of (gap t c (length t)) ++ l) (sym (drop-length t))
      ∙ gap-append-drop t c (length t) (ground arith)
  | inr e ↦ rw e (sym (drop_past t c (ground arith)))
]

text_of-walk :
    (t : Text) (c : ℕ) (ms : List Mark) → All Ordered ms → text_of (walk t c ms) ≡ drop c t
unfolding walk
text_of-walk t c [] h = text_of-gap_end t c
text_of-walk t c (m ∷ ms) h = elim (Bool-cases (ltb m.start c)) [
  | inl before ↦ rw before (text_of-walk t c ms h.1)
  | inr after ↦ rw after (
      text_of-append (gap t c m.start) _
      ∙ ap (λ l. text_of (gap t c m.start) ++ (slice t m.start m.end ++ l))
          (text_of-walk t m.end ms h.1)
      ∙ ap (λ l. text_of (gap t c m.start) ++ l) (slice-append-drop t m.start m.end h.0)
      ∙ gap-append-drop t c m.start (ground arith))
]

-- A start that is there comes with an end that is not before it.
abbrev EndAfter : Option ℕ → Option ℕ → Type 0
EndAfter none end = Unit {0}
EndAfter (some start) none = ⊥
EndAfter (some start) (some end) = start ≤ end

abbrev pub EndsAfter : EvidenceRow → Type 0
EndsAfter row = EndAfter row.start row.end

-- The marks of such rows are all there, and have their ends in order.
abbrev AllOrdered : Option (List Mark) → Type 0
AllOrdered none = ⊥
AllOrdered (some ms) = All Ordered ms

mark_of-AllOrdered :
    (field : Text) (start end : Option ℕ) (rest : Option (List Mark))
    → EndAfter start end
    → AllOrdered rest
    → AllOrdered (mark_of field start end rest)
unfolding mark_of
mark_of-AllOrdered field none end rest h k = k
mark_of-AllOrdered field (some start) none rest h k = absurd h
mark_of-AllOrdered field (some start) (some end) none h k = absurd k
mark_of-AllOrdered field (some start) (some end) (some ms) h k = (h, k)

marks_of-AllOrdered : (rows : List EvidenceRow) → All EndsAfter rows → AllOrdered (marks_of rows)
unfolding marks_of
marks_of-AllOrdered [] h = tt
marks_of-AllOrdered (row ∷ rows) h =
    mark_of-AllOrdered row.field row.start row.end (marks_of rows) h.0
      (marks_of-AllOrdered rows h.1)

-- The page shows the source and nothing else.
abbrev pub Covers : Text → Option (List Segment) → Type 0
Covers source page = (ss : List Segment) × (page ≡ some ss) × (text_of ss ≡ source)

walk_marks-Covers :
    (source : Text) (marks : Option (List Mark))
    → AllOrdered marks
    → Covers source (walk_marks source marks)
unfolding walk_marks
walk_marks-Covers source none h = absurd h
walk_marks-Covers source (some ms) h = (
  walk source 0 (sort_marks ms),
  refl,
  text_of-walk source 0 (sort_marks ms) (sort_marks-Ordered ms h),
)

-- If the ends are in order, the texts of the segments, put together, are the source, however the
-- spans overlap or repeat, and wherever they end.
pub segments-Covers :
    (source : Text) (rows : List EvidenceRow)
    → All EndsAfter rows
    → Covers source (segments source rows)
unfolding segments
segments-Covers source rows h =
    walk_marks-Covers source (marks_of rows) (marks_of-AllOrdered rows h)

-- What is stored of a backed result.
to_row-EndsAfter :
    (source field quote : Text) (derived : Bool) (span : Option Span)
    → BackedBy source quote derived span
    → EndsAfter (
        to_row (record { field = field; quote = quote; span = span; derived_from_value = derived }))
unfolding to_row
to_row-EndsAfter source field quote derived none b = tt
to_row-EndsAfter source field quote false (some span) b = omega (arith, b.nonempty)
to_row-EndsAfter source field quote true (some span) (other, b) = omega (arith, b.nonempty)

rows-EndsAfter :
    (source : Text) (results : List EvidenceResult)
    → All (IsBacked source) results
    → All EndsAfter (map to_row results)
rows-EndsAfter source [] h = tt
rows-EndsAfter source (e ∷ es) h = (
  to_row-EndsAfter source e.field e.quote e.derived_from_value e.span h.0,
  rows-EndsAfter source es h.1,
)

-- The page of a document whose evidence was stored by an extraction shows exactly its source.
pub page-Covers :
    (draft : InvoiceDraft) (source : Text) (fallback : Bool)
    → Covers source (segments source (map to_row (verify_draft draft source fallback)))
page-Covers draft source fallback = segments-Covers source _ (
    rows-EndsAfter source (verify_draft draft source fallback)
      (verify_draft-IsBacked draft source fallback))
