-- ===== src/Domain/Evidence/Verbatim.antt =====
-- A quote that stands in the source is found.
use mathlib.Core.List.{append_assoc}
use evidence_flow.Prelude.{
  ℕ, zero, suc, ◌≡◌, ◌≢◌, refl, sym, ap, ◌∙◌, Bool, true, false, some, [], ◌∷◌, ◌++◌, arith, Text,
  is_space, drop, drop-nil, drop-map, Bool-cases, ◌⊎◌, inl, inr, subst,
}
use evidence_flow.Domain.Evidence.{
  Span, chars, collapse_from, collapse_whitespace, squeeze, lstrip, rstrip, rstrip_cons, strip,
  normalize_quote, is_prefix, find_sub, search_span, find_span,
}
use evidence_flow.Domain.Evidence.Normal.{EndsSolid, normalize_quote-EndsSolid}
use evidence_flow.Domain.Evidence.Matches.{
  collapse_kept, collapse_skipped, collapse_leading, collapse_spaced,
}
use evidence_flow.Domain.Evidence.Spans.{here, search_span_hit}

is_prefix-append : (xs ys : Text) → is_prefix xs (xs ++ ys) ≡ true
unfolding is_prefix
is_prefix-append [] ys = refl
is_prefix-append (x ∷ xs) ys = ground (arith, is_prefix-append xs ys)

find_sub_complete :
    (needle hay : Text) (k : ℕ)
    → is_prefix needle (drop k hay) ≡ true
    → (m : ℕ) × (find_sub needle hay ≡ some m)
unfolding find_sub
find_sub_complete needle [] k h = (0, rw (rw drop-nil at h))
find_sub_complete needle (d ∷ ds) zero h = (0, rw h)
find_sub_complete needle (d ∷ ds) (suc k) h = elim (Bool-cases (is_prefix needle (d ∷ ds))) [
  | inl now ↦ (0, rw now)
  | inr later ↦ let (m, e) = find_sub_complete needle ds k h in (suc m, rw later (rw e))
]

-- The collapsed text behind a part of the original.
record Behind (j : ℕ) (r s : Bool) (a t : Text) : Type 0 where
  index : ℕ
  offset : ℕ
  run : Bool
  started : Bool
  splits : drop index (collapse_from j r s (a ++ t)) ≡ collapse_from offset run started t

Behind-same :
    (x j : ℕ) (r s : Bool) (a t : Text) (r' s' : Bool)
    → collapse_from j r s (x ∷ (a ++ t)) ≡ collapse_from (suc j) r' s' (a ++ t)
    → Behind (suc j) r' s' a t
    → Behind j r s (x ∷ a) t
Behind-same x j r s a t r' s' e b = record {
  index = b.index;
  offset = b.offset;
  run = b.run;
  started = b.started;
  splits = ap (drop b.index) e ∙ b.splits;
}

Behind-more :
    (x j : ℕ) (r s : Bool) (a t : Text) (d : ℕ) (r' s' : Bool)
    → collapse_from j r s (x ∷ (a ++ t)) ≡ (d, j) ∷ collapse_from (suc j) r' s' (a ++ t)
    → Behind (suc j) r' s' a t
    → Behind j r s (x ∷ a) t
Behind-more x j r s a t d r' s' e b = record {
  index = suc b.index;
  offset = b.offset;
  run = b.run;
  started = b.started;
  splits = ap (drop (suc b.index)) e ∙ b.splits;
}

space-Behind :
    (x j : ℕ) (r s : Bool) (a t : Text)
    → is_space x ≡ true
    → ((s : Bool) → Behind (suc j) true s a t)
    → Behind j r s (x ∷ a) t
space-Behind x j true s a t h ih =
    Behind-same x j true s a t true s (collapse_skipped x j s (a ++ t) h) (ih s)
space-Behind x j false false a t h ih =
    Behind-same x j false false a t true false (collapse_leading x j false (a ++ t) h) (ih false)
space-Behind x j false true a t h ih =
    Behind-more x j false true a t 32 true true (collapse_spaced x j (a ++ t) h) (ih true)

behind : (a t : Text) (j : ℕ) (r s : Bool) → Behind j r s a t
behind [] t j r s = record { index = 0; offset = j; run = r; started = s; splits = refl }
behind (x ∷ a) t j r s = elim (Bool-cases (is_space x)) [
  | inl space ↦ space-Behind x j r s a t space (behind a t (suc j) true)
  | inr kept ↦
      Behind-more x j r s a t x false true (collapse_kept x j r s (a ++ t) kept)
        (behind a t (suc j) false true)
]

-- Once a character is kept, the collapsed text is the squeezed text.
chars-collapse_from : (t : Text) (j : ℕ) (r : Bool) → chars (collapse_from j r true t) ≡ squeeze r t
unfolding collapse_from squeeze
chars-collapse_from [] j r = refl
chars-collapse_from (x ∷ t) j r =
    ground (arith, chars-collapse_from t (suc j) true, chars-collapse_from t (suc j) false)

squeeze-append :
    (q b : Text) (r : Bool) → (rest : Text) × (squeeze r (q ++ b) ≡ squeeze r q ++ rest)
unfolding squeeze
squeeze-append [] b r = (squeeze r b, refl)
squeeze-append (x ∷ q) b r = elim (Bool-cases (is_space x)) [
  | inl space ↦ let (u, e) = squeeze-append q b true in (u, rw (space, e) (ground arith))
  | inr kept ↦ let (u, e) = squeeze-append q b false in (u, rw (kept, e))
]

rstrip_cons-append : (x : ℕ) (t u : Text) → (rest : Text) × (x ∷ (t ++ u) ≡ rstrip_cons x t ++ rest)
unfolding rstrip_cons
rstrip_cons-append x [] u = elim (Bool-cases (is_space x)) [
  | inl e ↦ (x ∷ u, rw e)
  | inr e ↦ (u, rw e)
]
rstrip_cons-append x (y ∷ t) u = (u, refl)

rstrip-append : (t : Text) → (rest : Text) × (t ≡ rstrip t ++ rest)
unfolding rstrip
rstrip-append [] = ([], refl)
rstrip-append (x ∷ t) =
    let (u, e) = rstrip-append t in
    let (v, f) = rstrip_cons-append x (rstrip t) u in (v, ap (λ l. x ∷ l) e ∙ f)

-- The first character of a quote that is no whitespace.
record Head (r : Bool) (q : Text) : Type 0 where
  lead : Text
  first : ℕ
  more : Text
  splits : q ≡ lead ++ first ∷ more
  solid : is_space first ≡ false
  strips : lstrip (squeeze r q) ≡ first ∷ squeeze false more

lstrip-squeeze_space :
    (x : ℕ) (r : Bool) (q : Text)
    → is_space x ≡ true
    → lstrip (squeeze r (x ∷ q)) ≡ lstrip (squeeze true q)
unfolding squeeze lstrip is_space
lstrip-squeeze_space x r q h = ground arith

lstrip-squeeze_kept :
    (x : ℕ) (r : Bool) (q : Text)
    → is_space x ≡ false
    → lstrip (squeeze r (x ∷ q)) ≡ x ∷ squeeze false q
unfolding squeeze lstrip
lstrip-squeeze_kept x r q h = rw (h, h)

find-Head : (q : Text) (r : Bool) → (lstrip (squeeze r q) ≡ []) ⊎ Head r q
find-Head [] r = inl (unfold squeeze lstrip in refl)
find-Head (x ∷ q) r = elim (Bool-cases (is_space x)) [
  | inr kept ↦ inr (record {
    lead = [];
    first = x;
    more = q;
    splits = refl;
    solid = kept;
    strips = lstrip-squeeze_kept x r q kept;
  })
  | inl space ↦ elim (find-Head q true) [
    | inl e ↦ inl (lstrip-squeeze_space x r q space ∙ e)
    | inr h ↦ inr (record {
      lead = x ∷ h.lead;
      first = h.first;
      more = h.more;
      splits = ap (λ l. x ∷ l) h.splits;
      solid = h.solid;
      strips = lstrip-squeeze_space x r q space ∙ h.strips;
    })
  ]
]

rstrip_solid_head : (c : ℕ) (t : Text) → is_space c ≡ false → rstrip (c ∷ t) ≡ c ∷ rstrip t
unfolding rstrip
rstrip_solid_head c t h = go (rstrip t)
  where
    go : (u : Text) → rstrip_cons c u ≡ c ∷ u
    go [] = unfold rstrip_cons in rw h
    go (d ∷ u) = unfold rstrip_cons in refl

module _ (a q b : Text) (h : Head false q) where
  normalize_head : normalize_quote q ≡ h.first ∷ rstrip (squeeze false h.more)
  unfolding normalize_quote strip
  normalize_head = ap rstrip h.strips ∙ rstrip_solid_head h.first (squeeze false h.more) h.solid

  source_split : a ++ (q ++ b) ≡ (a ++ h.lead) ++ (h.first ∷ (h.more ++ b))
  source_split =
      ap (λ l. a ++ (l ++ b)) h.splits
      ∙ ap (λ l. a ++ l) (append_assoc h.lead (h.first ∷ h.more) b)
      ∙ sym (append_assoc a h.lead (h.first ∷ (h.more ++ b)))

  site : Behind 0 false false (a ++ h.lead) (h.first ∷ (h.more ++ b))
  site = behind (a ++ h.lead) (h.first ∷ (h.more ++ b)) 0 false false

  after_site :
      chars
        (drop site.index (collapse_from 0 false false ((a ++ h.lead) ++ (h.first ∷ (h.more ++ b)))))
      ≡ h.first ∷ squeeze false (h.more ++ b)
  after_site =
      ap chars site.splits
      ∙ ap chars (collapse_kept h.first site.offset site.run site.started (h.more ++ b) h.solid)
      ∙ ap (λ l. h.first ∷ l) (chars-collapse_from (h.more ++ b) (suc site.offset) false)

  is_prefix_head :
      is_prefix (h.first ∷ rstrip (squeeze false h.more)) (h.first ∷ squeeze false (h.more ++ b))
      ≡ true
  is_prefix_head =
      let (u, e) = squeeze-append h.more b false in
      let (v, f) = rstrip-append (squeeze false h.more) in
      let regroup = ap (λ l. l ++ u) f ∙ append_assoc (rstrip (squeeze false h.more)) v u in
      rw (e ∙ regroup) (is_prefix-append (h.first ∷ rstrip (squeeze false h.more)) (v ++ u))

  found_head :
      (m : ℕ) × (find_sub
          (h.first ∷ rstrip (squeeze false h.more))
          (chars (collapse_whitespace (a ++ (q ++ b))))
        ≡ some m)
  unfolding collapse_whitespace
  found_head =
      find_sub_complete _ _ site.index
        (rw source_split (rw drop-map (rw after_site is_prefix_head)))

  find_span_head : (span : Span) × (find_span (a ++ (q ++ b)) q ≡ some span)
  unfolding find_span
  find_span_head =
      let (m, hit) = found_head in
      let last = subst EndsSolid normalize_head (normalize_quote-EndsSolid q) in
      (
        here (a ++ (q ++ b)) h.first (rstrip (squeeze false h.more)) m h.solid last hit,
        ap (search_span (a ++ (q ++ b))) normalize_head
            ∙ search_span_hit (a ++ (q ++ b)) h.first (rstrip (squeeze false h.more)) m h.solid last
                hit,
      )

-- A quote that is not all whitespace and stands verbatim in the source gets a span.
pub find_span_verbatim :
    (a q b : Text)
    → normalize_quote q ≢ []
    → (span : Span) × (find_span (a ++ (q ++ b)) q ≡ some span)
find_span_verbatim a q b worded = elim (find-Head q false) [
  | inl blank ↦ absurd (worded (unfold normalize_quote strip rstrip in ap rstrip blank))
  | inr h ↦ find_span_head a q b h
]
