-- ===== src/Domain/Evidence/Spans.antt =====
-- The span of `find_span` lies in the source, and the source says there what the quote says.
use evidence_flow.Prelude.{
  ℕ, suc, ◌+◌, ◌-◌, ◌≤◌, ◌<◌, ◌≡◌, refl, sym, ap, ◌∙◌, subst, true, false, some, [], ◌∷◌, arith,
  Text, is_space, length, take, drop, slice, get_elem?, get_elem?-drop, drop-map, length-drop,
  Option-cases, some_injective, inl, inr,
}
use mathlib.Core.Path.{ap₂}
use evidence_flow.Domain.Evidence.{
  Span, Mapped, chars, offsets, collapse_from, collapse_whitespace, strip, normalize_quote,
  find_sub, span_between, span_from, search_span, find_span, count_newlines,
}
use evidence_flow.Domain.Evidence.Normal.{
  EndsSolid, StartsSolid, strip_solid, normalize_quote-StartsSolid, normalize_quote-EndsSolid,
}
use evidence_flow.Domain.Evidence.Matches.{
  Starts, Ends, all-Begun, all-Placed, collapse_kept, find_sub_sound,
}

-- The part of the source that a span stands for reads as the quote, up to whitespace.
pub record Supports (source quote : Text) (span : Span) : Type 0 where
  pub nonempty : span.start < span.end
  pub inside : span.end ≤ length source
  pub reads : normalize_quote (slice source span.start span.end) ≡ normalize_quote quote

-- The mapped characters from `k` on, by their two columns.
module _ (mapped : Mapped) (k m : ℕ) where
  offset_at : get_elem? (offsets mapped) (k + m) ≡ get_elem? (offsets (drop k mapped)) m
  offset_at =
      sym (get_elem?-drop k m (offsets mapped))
      ∙ ap (λ l. get_elem? l m) (drop-map (λ p. p.1) k mapped)

module _ (source : Text) (c : ℕ) (cs : Text) (k : ℕ) (first : is_space c ≡ false)
    (last : EndsSolid (c ∷ cs))
    (hit : find_sub (c ∷ cs) (chars (collapse_whitespace source)) ≡ some k) where
  pub starts : Starts 0 false false source k c
  unfolding collapse_whitespace
  starts = all-Begun source 0 false false k c cs first (find_sub_sound (c ∷ cs) _ k hit)

  tail_eq :
      drop k (collapse_whitespace source)
      ≡ collapse_from (0 + starts.skip) false true (c ∷ starts.rest)
  unfolding collapse_whitespace
  tail_eq = starts.here ∙ sym (collapse_kept c (0 + starts.skip) false true starts.rest first)

  pub ends : Ends (0 + starts.skip) false (c ∷ starts.rest) c cs
  ends = all-Placed (c ∷ starts.rest) (0 + starts.skip) false c cs last (
      rw (← tail_eq) (
        rw (← drop-map (λ p. p.0) k (collapse_whitespace source))
          (find_sub_sound (c ∷ cs) _ k hit)))

  pub here : Span
  here = record {
    start = 0 + starts.skip;
    end = 0 + starts.skip + ends.last + 1;
    line = count_newlines (take (0 + starts.skip) source) + 1;
  }

  start_offset : get_elem? (offsets (collapse_whitespace source)) k ≡ some (0 + starts.skip)
  unfolding collapse_whitespace
  start_offset =
      ap (get_elem? (offsets (collapse_whitespace source))) (let e : k ≡ k + 0 = omega arith in e)
      ∙ offset_at (collapse_whitespace source) k 0
      ∙ ap (λ (l : Mapped). get_elem? (offsets l) 0) starts.here

  end_offset :
      get_elem? (offsets (collapse_whitespace source)) (k + length (c ∷ cs) - 1)
      ≡ some (0 + starts.skip + ends.last)
  end_offset =
      ap (get_elem? (offsets (collapse_whitespace source)))
        (let e : k + suc (length cs) - 1 ≡ k + length cs = omega arith in e)
      ∙ offset_at (collapse_whitespace source) k (length cs)
      ∙ ap (λ (l : Mapped). get_elem? (offsets l) (length cs)) tail_eq
      ∙ ends.found

  -- No index is out of range.
  pub search_span_hit : search_span source (c ∷ cs) ≡ some here
  unfolding search_span span_from here
  search_span_hit =
      ap (span_from source (offsets (collapse_whitespace source)) (length (c ∷ cs))) hit
      ∙ ap₂ (span_between source) start_offset end_offset
      ∙ (unfold span_between in refl)

  slice_here : slice source here.start here.end ≡ take (suc ends.last) (c ∷ starts.rest)
  unfolding here
  slice_here =
      ap (λ n. take n (drop (0 + starts.skip) source))
        (let e : 0 + starts.skip + ends.last + 1 - (0 + starts.skip) ≡ suc ends.last =
            omega arith in
          e)
      ∙ ap (λ n. take (suc ends.last) (drop n source))
          (let e : 0 + starts.skip ≡ starts.skip = omega arith in e)
      ∙ ap (take (suc ends.last)) starts.at

  normalize_slice : normalize_quote (take (suc ends.last) (c ∷ starts.rest)) ≡ c ∷ cs
  unfolding normalize_quote
  normalize_slice = ap strip ends.reads ∙ strip_solid (c ∷ cs) first last

  here-Supports : (quote : Text) → normalize_quote quote ≡ c ∷ cs → Supports source quote here
  unfolding here
  here-Supports quote e = record {
    nonempty = omega arith;
    inside =
        omega (arith, ends.inside, ap (length {A = ℕ}) starts.at, length-drop starts.skip source);
    reads = ap normalize_quote slice_here ∙ normalize_slice ∙ sym e;
  }

search_span_sound :
    (source quote : Text) (n : Text) (span : Span)
    → normalize_quote quote ≡ n
    → search_span source n ≡ some span
    → Supports source quote span
unfolding search_span span_from
search_span_sound source quote [] span e h = absurd (cc)
search_span_sound source quote (c ∷ cs) span e h =
    elim (Option-cases (find_sub (c ∷ cs) (chars (collapse_whitespace source)))) [
      | inl miss ↦
          absurd (
            cc
              (ap (span_from source (offsets (collapse_whitespace source)) (length (c ∷ cs))) miss))
      | inr (k, hit) ↦
          let first = subst StartsSolid e (normalize_quote-StartsSolid quote) in
          let last = subst EndsSolid e (normalize_quote-EndsSolid quote) in
          subst (Supports source quote)
            (some_injective (sym (search_span_hit source c cs k first last hit) ∙ h))
            (here-Supports source c cs k first last hit quote e)
    ]

-- A span that `find_span` returns is not empty and lies in the source, and the source says there
-- what the quote says, up to whitespace at the ends and the width of whitespace inside.
pub find_span-Supports :
    (source quote : Text) (span : Span)
    → find_span source quote ≡ some span
    → Supports source quote span
unfolding find_span
find_span-Supports source quote span h =
    search_span_sound source quote (normalize_quote quote) span refl h
