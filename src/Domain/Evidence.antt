-- ===== src/Domain/Evidence.antt =====
-- app/domain/evidence.py: `find_span` looks a quote up in the source text, with every run of
-- whitespace read as one space, and gives the place in the original text. A text is the list of its
-- code points.
mod Normal
mod Matches
pub mod Spans
pub mod Verbatim
pub mod Results
pub mod Backing
use Prim.Native.Nat.{min}
use evidence_flow.Prelude.{
  ℕ, zero, suc, ◌+◌, ◌-◌, Bool, true, false, ◌&&◌, ◌||◌, not, Option, none, some, List, [], ◌∷◌,
  map, Text, is_space, length, take, drop, filter, get_elem?, if◌then◌else◌, ◌==◌, nat_eq, nat_beq,
}

pub record Span : Type 0 where
  pub start : ℕ
  pub end : ℕ
  pub line : ℕ

-- A character of the collapsed text with its index in the original. The two lists that
-- `_collapse_whitespace` returns are the two columns.
abbrev pub Mapped : Type 0
Mapped = List (ℕ × ℕ)

abbrev pub chars : Mapped → Text
chars = map (λ p. p.0)

abbrev pub offsets : Mapped → List ℕ
offsets = map (λ p. p.1)

-- The loop of `_collapse_whitespace` from index `i` on; `started` is the truth of `chars`.
pub collapse_from : ℕ → Bool → Bool → Text → Mapped
collapse_from i in_run started [] = []
collapse_from i in_run started (ch ∷ rest) =
    let skipped = collapse_from (suc i) true started rest in
    let spaced = (32, i) ∷ collapse_from (suc i) true started rest in
    let kept = (ch, i) ∷ collapse_from (suc i) false true rest in
    if is_space ch then (if not in_run && started then spaced else skipped) else kept

pub collapse_whitespace : Text → Mapped
unfolding collapse_from
collapse_whitespace text = collapse_from 0 false false text

-- `_WHITESPACE.sub(" ", text)`; `in_run` says whether the match that is being replaced goes on.
pub squeeze : Bool → Text → Text
squeeze in_run [] = []
squeeze in_run (ch ∷ rest) =
    let inside = squeeze true rest in
    let opened = 32 ∷ squeeze true rest in
    let kept = ch ∷ squeeze false rest in
    if is_space ch then (if in_run then inside else opened) else kept

-- `text.strip()`
pub lstrip : Text → Text
lstrip [] = []
lstrip (ch ∷ rest) = let shorter = lstrip rest in if is_space ch then shorter else ch ∷ rest

pub rstrip_cons : ℕ → Text → Text
rstrip_cons ch [] = if is_space ch then [] else ch ∷ []
rstrip_cons ch (next ∷ rest) = ch ∷ next ∷ rest

pub rstrip : Text → Text
unfolding rstrip_cons
rstrip [] = []
rstrip (ch ∷ rest) = rstrip_cons ch (rstrip rest)

unfoldable pub strip : Text → Text
unfolding lstrip rstrip
strip text = rstrip (lstrip text)

unfoldable pub normalize_quote : Text → Text
unfolding strip squeeze
normalize_quote quote = strip (squeeze false quote)

pub is_prefix : Text → Text → Bool
is_prefix [] text = true
is_prefix (c ∷ cs) [] = false
is_prefix (c ∷ cs) (d ∷ ds) = nat_beq c d && is_prefix cs ds

-- `text.find(needle)`, `none` for -1.
pub find_sub : Text → Text → Option ℕ
unfolding is_prefix
find_sub needle [] = if is_prefix needle [] then some 0 else none
find_sub needle (d ∷ ds) =
    let later = find_sub needle ds in
    if is_prefix needle (d ∷ ds) then some 0 else elim later [ none ↦ none | some k ↦ some (suc k) ]

-- `source.count("\n", 0, start)`
pub count_newlines : Text → ℕ
count_newlines [] = 0
count_newlines (c ∷ cs) = if nat_beq c 10 then suc (count_newlines cs) else count_newlines cs

-- `Span(start=…, end=…, line=…)` from `offsets[index]` and `offsets[index + size - 1]`. An index out
-- of range, Python's IndexError, is `none`.
pub span_between : Text → Option ℕ → Option ℕ → Option Span
unfolding count_newlines
span_between source (some start) (some last) =
    some (record { start = start; end = last + 1; line = count_newlines (take start source) + 1 })
span_between source _ _ = none

-- From `index = normalized_source.find(normalized_quote)` on, for a quote of `size` characters.
pub span_from : Text → List ℕ → ℕ → Option ℕ → Option Span
unfolding span_between
span_from source offsets size none = none
span_from source offsets size (some index) =
    span_between source (get_elem? offsets index) (get_elem? offsets (index + size - 1))

-- The body of `find_span`, given the normalised quote.
pub search_span : Text → Text → Option Span
unfolding collapse_whitespace find_sub span_from
search_span source [] = none
search_span source (c ∷ cs) =
    let mapped = collapse_whitespace source in
    span_from source (offsets mapped) (length (c ∷ cs)) (find_sub (c ∷ cs) (chars mapped))

unfoldable pub find_span : Text → Text → Option Span
unfolding normalize_quote search_span
find_span source quote = search_span source (normalize_quote quote)
