-- ===== src/Domain/Validation/Dates.antt =====
-- The regular expression of app/domain/validation.py that looks for a date written with numbers,
-- `\b(\d{1,2})[/.-](\d{1,2})[/.-](\d{2,4})\b`, as a backtracking matcher.
use evidence_flow.Prelude.{
  ℕ, zero, suc, ◌+◌, ◌*◌, Bool, true, false, not, ◌&&◌, ◌||◌, Option, none, some, [], ◌∷◌, ◌++◌,
  Text, nat_beq, if◌then◌else◌,
}

-- What `re`, `int` and `str.lower` read in the Unicode character database.
pub record Unicode : Type 0 where
  -- `\d`, with the digit's value
  pub digit_value : ℕ → Option ℕ
  -- `\w`
  pub is_word : ℕ → Bool
  -- `str.lower` of one character
  pub lower : ℕ → Text

-- `first` and `second` are the two groups as ints, `matched` is `match.group(0)`.
pub record DateMatch : Type 0 where
  pub first : ℕ
  pub second : ℕ
  pub matched : Text

module _ (unicode : Unicode) where
  -- Whether the text begins with a word character.
  word_next : Text → Bool
  word_next [] = false
  word_next (c ∷ cs) = unicode.is_word c

  -- `\b`, between a character that may be of a word and the rest.
  boundary : Bool → Text → Bool
  unfolding word_next
  boundary before rest = not (before && word_next rest) && (before || word_next rest)

  -- `\d{n}`: its value, its characters, and what follows.
  digits : ℕ → ℕ → Text → Option (ℕ × Text × Text)
  digits zero acc text = some (acc, [], text)
  digits (suc n) acc [] = none
  digits (suc n) acc (c ∷ cs) = elim (unicode.digit_value c) [
    | none ↦ none
    | some d ↦ elim (digits n (acc * 10 + d) cs) [
      | none ↦ none
      | some (v, used, rest) ↦ some (v, c ∷ used, rest)
    ]
  ]

  separator : Text → Option (ℕ × Text)
  separator [] = none
  separator (c ∷ cs) =
      if nat_beq c b'/' || nat_beq c b'.' || nat_beq c b'-' then some (c, cs) else none

  infixl 10 ◌>>=◌
  abbrev ◌>>=◌ : {A B : Type 0} → Option A → (A → Option B) → Option B
  none >>= f = none
  some a >>= f = f a

  -- The whole pattern with groups of the given sizes.
  match_sizes : (n m k : ℕ) → Bool → Text → Option DateMatch
  unfolding boundary digits separator
  match_sizes n m k before text =
      if boundary before text
      then (do
        (a, as_text, r1) ← digits n 0 text
        (s, r2) ← separator r1
        (b, bs, r3) ← digits m 0 r2
        (t, r4) ← separator r3
        (c, cs, r5) ← digits k 0 r4
        if boundary true r5
            then some (record { first = a; second = b; matched = as_text ++ s ∷ (bs ++ t ∷ cs) })
            else none)
      else none

  abbrev or_else : {A : Type 0} → Option A → Option A → Option A
  or_else (some a) other = some a
  or_else none other = other

  -- A match at the front of the text: the longer groups first.
  match_here : Bool → Text → Option DateMatch
  unfolding match_sizes
  match_here before text =
      let try_third = λ (n m : ℕ).
        or_else (match_sizes n m 4 before text)
          (or_else (match_sizes n m 3 before text) (match_sizes n m 2 before text)) in
      or_else (try_third 2 2) (or_else (try_third 2 1) (or_else (try_third 1 2) (try_third 1 1)))

  search_from : Bool → Text → Option DateMatch
  unfolding match_here
  search_from before [] = match_here before []
  search_from before (c ∷ cs) =
      or_else (match_here before (c ∷ cs)) (search_from (unicode.is_word c) cs)

  -- `AMBIGUOUS_DATE.search(text)`
  unfoldable pub search_date : Text → Option DateMatch
  unfolding search_from
  search_date text = search_from false text
