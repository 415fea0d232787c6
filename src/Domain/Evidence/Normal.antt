-- ===== src/Domain/Evidence/Normal.antt =====
-- `strip` and the normalised quote: neither end is whitespace, and such a text is its own `strip`.
use evidence_flow.Prelude.{ℕ, ◌≡◌, refl, false, [], ◌∷◌, Text, is_space, Bool-cases, inl, inr}
use evidence_flow.Domain.Evidence.{squeeze, lstrip, rstrip_cons, rstrip, strip, normalize_quote}

-- The last character, if there is one, is no whitespace.
abbrev pub EndsSolid : Text → Type 0
EndsSolid [] = Unit {0}
EndsSolid (c ∷ []) = is_space c ≡ false
EndsSolid (c ∷ d ∷ ds) = EndsSolid (d ∷ ds)

-- Neither end is whitespace.
abbrev pub StartsSolid : Text → Type 0
StartsSolid [] = Unit {0}
StartsSolid (c ∷ cs) = is_space c ≡ false

rstrip_cons-EndsSolid : (c : ℕ) (t : Text) → EndsSolid t → EndsSolid (rstrip_cons c t)
unfolding rstrip_cons
rstrip_cons-EndsSolid c [] h = elim (Bool-cases (is_space c)) [ inl e ↦ rw e tt | inr e ↦ rw e e ]
rstrip_cons-EndsSolid c (d ∷ ds) h = h

rstrip-EndsSolid : (t : Text) → EndsSolid (rstrip t)
unfolding rstrip
rstrip-EndsSolid [] = tt
rstrip-EndsSolid (c ∷ t) = rstrip_cons-EndsSolid c (rstrip t) (rstrip-EndsSolid t)

lstrip-StartsSolid : (t : Text) → StartsSolid (lstrip t)
unfolding lstrip
lstrip-StartsSolid [] = tt
lstrip-StartsSolid (c ∷ t) = elim (Bool-cases (is_space c)) [
  | inl e ↦ rw e (lstrip-StartsSolid t)
  | inr e ↦ rw e e
]

rstrip_cons-StartsSolid : (c : ℕ) (t : Text) → is_space c ≡ false → StartsSolid (rstrip_cons c t)
unfolding rstrip_cons
rstrip_cons-StartsSolid c [] h = rw h h
rstrip_cons-StartsSolid c (d ∷ ds) h = h

rstrip-StartsSolid : (t : Text) → StartsSolid t → StartsSolid (rstrip t)
unfolding rstrip
rstrip-StartsSolid [] h = tt
rstrip-StartsSolid (c ∷ t) h = rstrip_cons-StartsSolid c (rstrip t) h

-- A text with solid ends is its own `strip`.
lstrip_solid : (t : Text) → StartsSolid t → lstrip t ≡ t
unfolding lstrip
lstrip_solid [] h = refl
lstrip_solid (c ∷ t) h = rw h

rstrip_solid : (t : Text) → EndsSolid t → rstrip t ≡ t
unfolding rstrip rstrip_cons
rstrip_solid [] h = refl
rstrip_solid (c ∷ []) h = rw h
rstrip_solid (c ∷ d ∷ ds) h = rw (rstrip_solid (d ∷ ds) h)

pub strip_solid : (t : Text) → StartsSolid t → EndsSolid t → strip t ≡ t
unfolding strip
strip_solid t s e = rw (lstrip_solid t s) (rstrip_solid t e)

pub normalize_quote-StartsSolid : (q : Text) → StartsSolid (normalize_quote q)
normalize_quote-StartsSolid q =
    unfold normalize_quote strip in rstrip-StartsSolid _ (lstrip-StartsSolid (squeeze false q))

pub normalize_quote-EndsSolid : (q : Text) → EndsSolid (normalize_quote q)
normalize_quote-EndsSolid q =
    unfold normalize_quote strip in rstrip-EndsSolid (lstrip (squeeze false q))
