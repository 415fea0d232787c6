-- ===== src/Domain/Evidence/Matches.antt =====
-- A match in the collapsed text, and the part of the original text that it stands for.
use evidence_flow.Prelude.{
  ℕ, zero, suc, ◌+◌, ◌<◌, ◌≡◌, refl, sym, ap, ◌∙◌, Bool, true, false, some, [], ◌∷◌, arith, Text,
  is_space, length, take, drop, drop-nil, get_elem?, Bool-cases, inl, inr,
}
use mathlib.Core.Path.{ap₂}
use evidence_flow.Domain.Evidence.{chars, offsets, collapse_from, squeeze, is_prefix, find_sub}
use evidence_flow.Domain.Evidence.Normal.{EndsSolid}

-- `find` gives a place at which the needle stands.
pub find_sub_sound :
    (needle hay : Text) (k : ℕ)
    → find_sub needle hay ≡ some k
    → is_prefix needle (drop k hay) ≡ true
unfolding find_sub
find_sub_sound needle [] zero h = ground arith
find_sub_sound needle [] (suc k) h = ground arith
find_sub_sound needle (d ∷ ds) zero h = ground arith
find_sub_sound needle (d ∷ ds) (suc k) h = ground (arith, find_sub_sound needle ds k)

-- A needle with a solid end that stands at the front of a collapsed text ends at some original
-- character, and the original up to there squeezes to the needle.
pub record Ends (j : ℕ) (r : Bool) (t : Text) (c : ℕ) (cs : Text) : Type 0 where
  pub last : ℕ
  pub found : get_elem? (offsets (collapse_from j r true t)) (length cs) ≡ some (j + last)
  pub inside : last < length t
  pub reads : squeeze r (take (suc last) t) ≡ c ∷ cs

pub collapse_kept :
    (x j : ℕ) (r s : Bool) (t : Text)
    → is_space x ≡ false
    → collapse_from j r s (x ∷ t) ≡ (x, j) ∷ collapse_from (suc j) false true t
unfolding collapse_from
collapse_kept x j r s t h = rw h

pub collapse_skipped :
    (x j : ℕ) (s : Bool) (t : Text)
    → is_space x ≡ true
    → collapse_from j true s (x ∷ t) ≡ collapse_from (suc j) true s t
unfolding collapse_from
collapse_skipped x j s t h = rw h

pub collapse_spaced :
    (x j : ℕ) (t : Text)
    → is_space x ≡ true
    → collapse_from j false true (x ∷ t) ≡ (32, j) ∷ collapse_from (suc j) true true t
unfolding collapse_from
collapse_spaced x j t h = rw h

squeeze_kept :
    (x : ℕ) (r : Bool) (t : Text) → is_space x ≡ false → squeeze r (x ∷ t) ≡ x ∷ squeeze false t
unfolding squeeze
squeeze_kept x r t h = rw h

squeeze_skipped : (x : ℕ) (t : Text) → is_space x ≡ true → squeeze true (x ∷ t) ≡ squeeze true t
unfolding squeeze
squeeze_skipped x t h = rw h

squeeze_spaced :
    (x : ℕ) (t : Text) → is_space x ≡ true → squeeze false (x ∷ t) ≡ 32 ∷ squeeze true t
unfolding squeeze
squeeze_spaced x t h = rw h

Ends-skipped :
    (x j : ℕ) (t : Text) (c : ℕ) (cs : Text)
    → is_space x ≡ true
    → Ends (suc j) true t c cs
    → Ends j true (x ∷ t) c cs
Ends-skipped x j t c cs h e = record {
  last = suc e.last;
  found = rw collapse_skipped (e.found ∙ ap some (omega arith));
  inside = omega arith;
  reads = squeeze_skipped x (take (suc e.last) t) h ∙ e.reads;
}

Ends-spaced :
    (x j : ℕ) (t : Text) (c : ℕ) (cs : Text)
    → is_space x ≡ true
    → Ends (suc j) true t c cs
    → Ends j false (x ∷ t) 32 (c ∷ cs)
Ends-spaced x j t c cs h e = record {
  last = suc e.last;
  found = rw (collapse_spaced, h) (e.found ∙ ap some (omega arith));
  inside = omega arith;
  reads = squeeze_spaced x (take (suc e.last) t) h ∙ ap (λ l. 32 ∷ l) e.reads;
}

Ends-kept :
    (x j : ℕ) (r : Bool) (t : Text) (c : ℕ) (cs : Text)
    → is_space x ≡ false
    → Ends (suc j) false t c cs
    → Ends j r (x ∷ t) x (c ∷ cs)
Ends-kept x j r t c cs h e = record {
  last = suc e.last;
  found = rw (collapse_kept, h) (e.found ∙ ap some (omega arith));
  inside = omega arith;
  reads = squeeze_kept x r (take (suc e.last) t) h ∙ ap (λ l. x ∷ l) e.reads;
}

Ends-last : (x j : ℕ) (r : Bool) (t : Text) → is_space x ≡ false → Ends j r (x ∷ t) x []
Ends-last x j r t h = record {
  last = 0;
  found = rw (collapse_kept, h) (ap some (omega arith));
  inside = omega arith;
  reads = squeeze_kept x r [] h ∙ (unfold squeeze in refl);
}

-- What a match at the front of a pair list says.
is_prefix-cons :
    (c d : ℕ) (cs ds : Text)
    → is_prefix (c ∷ cs) (d ∷ ds) ≡ true
    → (c ≡ d) × (is_prefix cs ds ≡ true)
unfolding is_prefix
is_prefix-cons c d cs ds h = ground arith

32-is_space : is_space 32 ≡ true
unfolding is_space
32-is_space = refl

-- Each match in the collapsed text from `j` on, and where it ends.
abbrev pub Placed : ℕ → Text → Type 0
Placed j t =
    (r : Bool) (c : ℕ) (cs : Text)
    → EndsSolid (c ∷ cs)
    → is_prefix (c ∷ cs) (chars (collapse_from j r true t)) ≡ true
    → Ends j r t c cs

kept-Placed : (x j : ℕ) (t : Text) → is_space x ≡ false → Placed (suc j) t → Placed j (x ∷ t)
kept-Placed x j t kept ih r c [] solid h =
    let (e, _) = is_prefix-cons c x [] _ (rw (collapse_kept x j r true t kept) at h) in
    rw e (Ends-last x j r t kept)
kept-Placed x j t kept ih r c (d ∷ ds) solid h =
    let (e, more) = is_prefix-cons c x (d ∷ ds) _ (rw (collapse_kept x j r true t kept) at h) in
    rw e (Ends-kept x j r t d ds kept (ih false d ds solid more))

space-Placed : (x j : ℕ) (t : Text) → is_space x ≡ true → Placed (suc j) t → Placed j (x ∷ t)
space-Placed x j t space ih true c cs solid h =
    Ends-skipped x j t c cs space (ih true c cs solid (rw (collapse_skipped x j true t space) at h))
space-Placed x j t space ih false c [] solid h =
    let (e, _) = is_prefix-cons c 32 [] _ (rw (collapse_spaced x j t space) at h) in
    cc (32-is_space)
space-Placed x j t space ih false c (d ∷ ds) solid h =
    let (e, more) = is_prefix-cons c 32 (d ∷ ds) _ (rw (collapse_spaced x j t space) at h) in
    rw e (Ends-spaced x j t d ds space (ih true d ds solid more))

pub all-Placed : (t : Text) (j : ℕ) → Placed j t
all-Placed [] j = λ r c cs solid h. unfold is_prefix collapse_from in cc
all-Placed (x ∷ t) j = elim (Bool-cases (is_space x)) [
  | inl space ↦ space-Placed x j t space (all-Placed t (suc j))
  | inr kept ↦ kept-Placed x j t kept (all-Placed t (suc j))
]

-- The characters from one collapsed index on are the collapsed text of a part of the original.
pub record Starts (j : ℕ) (r s : Bool) (t : Text) (k c : ℕ) : Type 0 where
  pub skip : ℕ
  pub rest : Text
  pub at : drop skip t ≡ c ∷ rest
  pub here :
      drop k (collapse_from j r s t)
      ≡ (c, j + skip) ∷ collapse_from (suc (j + skip)) false true rest

-- Each match that begins with a solid character, and where it starts.
abbrev pub Begun : ℕ → Text → Type 0
Begun j t =
    (r s : Bool) (k c : ℕ) (cs : Text)
    → is_space c ≡ false
    → is_prefix (c ∷ cs) (drop k (chars (collapse_from j r s t))) ≡ true
    → Starts j r s t k c

suc_shift : (j m : ℕ) → suc j + m ≡ j + suc m
suc_shift j m = omega arith

-- One character further on in the original.
Starts-later :
    (x j : ℕ) (r s r' s' : Bool) (t : Text) (k k' c : ℕ)
    → drop k (collapse_from j r s (x ∷ t)) ≡ drop k' (collapse_from (suc j) r' s' t)
    → Starts (suc j) r' s' t k' c
    → Starts j r s (x ∷ t) k c
Starts-later x j r s r' s' t k k' c e st = record {
  skip = suc st.skip;
  rest = st.rest;
  at = st.at;
  here =
      e
      ∙ st.here
      ∙ ap (λ m. (c, m) ∷ collapse_from (suc m) false true st.rest) (suc_shift j st.skip);
}

kept-Begun : (x j : ℕ) (t : Text) → is_space x ≡ false → Begun (suc j) t → Begun j (x ∷ t)
kept-Begun x j t kept ih r s zero c cs solid h =
    let (e, more) = is_prefix-cons c x cs _ (rw (collapse_kept x j r s t kept) at h) in
    let z : j ≡ j + 0 = omega arith in
    record {
      skip = 0;
      rest = t;
      at = cc;
      here =
          collapse_kept x j r s t kept
          ∙ ap₂ (λ d m. (d, m) ∷ collapse_from (suc m) false true t) (sym e) z;
    }
kept-Begun x j t kept ih r s (suc k) c cs solid h =
    Starts-later x j r s false true t (suc k) k c (ap (drop (suc k)) (collapse_kept x j r s t kept))
      (ih false true k c cs solid (rw (collapse_kept x j r s t kept) at h))

skip-Begun :
    (x j : ℕ) (r s : Bool) (t : Text) (k c : ℕ) (cs : Text)
    → collapse_from j r s (x ∷ t) ≡ collapse_from (suc j) true s t
    → Begun (suc j) t
    → is_space c ≡ false
    → is_prefix (c ∷ cs) (drop k (chars (collapse_from j r s (x ∷ t)))) ≡ true
    → Starts j r s (x ∷ t) k c
skip-Begun x j r s t k c cs e ih solid h =
    Starts-later x j r s true s t k k c (ap (drop k) e) (ih true s k c cs solid (rw e at h))

pub collapse_leading :
    (x j : ℕ) (r : Bool) (t : Text)
    → is_space x ≡ true
    → collapse_from j r false (x ∷ t) ≡ collapse_from (suc j) true false t
unfolding collapse_from
collapse_leading x j true t h = rw h
collapse_leading x j false t h = rw h

space-Begun : (x j : ℕ) (t : Text) → is_space x ≡ true → Begun (suc j) t → Begun j (x ∷ t)
space-Begun x j t space ih true s k c cs solid h =
    skip-Begun x j true s t k c cs (collapse_skipped x j s t space) ih solid h
space-Begun x j t space ih false false k c cs solid h =
    skip-Begun x j false false t k c cs (collapse_leading x j false t space) ih solid h
space-Begun x j t space ih false true zero c cs solid h =
    let (e, _) = is_prefix-cons c 32 cs _ (rw (collapse_spaced x j t space) at h) in cc 32-is_space
space-Begun x j t space ih false true (suc k) c cs solid h =
    Starts-later x j false true true true t (suc k) k c
      (ap (drop (suc k)) (collapse_spaced x j t space))
      (ih true true k c cs solid (rw (collapse_spaced x j t space) at h))

pub all-Begun : (t : Text) (j : ℕ) → Begun j t
all-Begun [] j = λ r s k c cs solid h. unfold is_prefix collapse_from in cc (drop-nil k)
all-Begun (x ∷ t) j = elim (Bool-cases (is_space x)) [
  | inl space ↦ space-Begun x j t space (all-Begun t (suc j))
  | inr kept ↦ kept-Begun x j t kept (all-Begun t (suc j))
]
