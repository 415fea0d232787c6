-- ===== src/Domain/Decimal/Rounding.antt =====
-- The context's rounding: it keeps 28 digits, leaves what has no more, and never gives a zero for
-- another number.
use native.Mathlib.Nat.{
  one-le-pow, div-div-eq-div-mul, le-div_iff_mul-le, pow-succ', zero-div, zero-mod, zero-mul,
  mul-pos,
}
use evidence_flow.Prelude.{
  ℕ, zero, suc, ◌+◌, ◌-◌, ◌*◌, ◌/◌, ◌^◌, ◌≤◌, ◌<◌, ◌≡◌, refl, sym, ap, subst, ◌∙◌, arith, ltb,
  Bool-cases, inl, inr, ℤ, pos, negsuc, pos_part, neg_part, ◌-ℤ◌,
}
use evidence_flow.Domain.Decimal.{Decimal, excess, half_even, shortened, rounded, is_zero}

-- With enough fuel, 28 digits are left.
pub excess-fits : (fuel n : ℕ) → n ≤ fuel → n / 10 ^ excess fuel n < 10 ^ 28
unfolding excess
excess-fits zero n h = omega arith
excess-fits (suc fuel) n h = elim (Bool-cases (ltb n (10 ^ 28))) [
  | inl small ↦ rw (excess, small) (let under : n < 10 ^ 28 = ground arith in omega arith)
  | inr big ↦
      rw (excess, big)
        (let e = excess fuel (n / 10) in
          let split : n / 10 / 10 ^ e ≡ n / 10 ^ suc e =
            div-div-eq-div-mul n 10 (10 ^ e) ∙ ap (λ d. n / d) (sym (pow-succ' 10 e)) in
          rw (sym split) (excess-fits fuel (n / 10) (omega arith)))
]

-- The digits that are dropped are digits of the number.
excess-pow : (fuel n : ℕ) → 0 < n → 10 ^ excess fuel n ≤ n
unfolding excess
excess-pow zero n h = h
excess-pow (suc fuel) n h = elim (Bool-cases (ltb n (10 ^ 28))) [
  | inl small ↦ rw (excess, small) h
  | inr big ↦
      rw (excess, big)
        (let e = excess fuel (n / 10) in
          let ih =
            excess-pow fuel (n / 10) (let over : 10 ^ 28 ≤ n = ground arith in omega arith) in
          rw (pow-succ' 10 e) (omega arith))
]

half_even-pos : (n power : ℕ) → 0 < power → power ≤ n → 0 < half_even n power
half_even-pos n power h le =
    let q : 1 ≤ n / power = (le-div_iff_mul-le h).1 (omega arith) in ground arith

shortened-pos : (n dropped scale : ℕ) → 10 ^ dropped ≤ n → 0 < shortened n dropped scale
shortened-pos n dropped scale le =
    let kept = half_even-pos n (10 ^ dropped) (one-le-pow dropped 10 (omega arith)) le in
    let power = one-le-pow (dropped - scale) 10 (omega arith) in mul-pos kept power

shortened_zero : (dropped scale : ℕ) → shortened 0 dropped scale ≡ 0
shortened_zero dropped scale =
    let power = one-le-pow dropped 10 (omega arith) in
    let none : half_even 0 (10 ^ dropped) ≡ 0 =
      ground (arith, zero-div (10 ^ dropped), zero-mod (10 ^ dropped)) in
    ap (λ n. n * 10 ^ (dropped - scale)) none ∙ zero-mul (10 ^ (dropped - scale))

-- The sign that is there keeps a number behind it, the other has none.
is_zero-shortened :
    (m : ℤ) (scale after dropped : ℕ)
    → ((n : ℕ) → pos_part m + neg_part m ≡ suc n → 10 ^ dropped ≤ suc n)
    → is_zero (record {
      mantissa =
          pos (shortened (pos_part m) dropped scale) -ℤ pos (shortened (neg_part m) dropped scale);
      scale = after;
    })
      ≡ is_zero (record { mantissa = m; scale = scale })
unfolding is_zero ◌-ℤ◌
is_zero-shortened (pos zero) scale after dropped h = ground (arith, shortened_zero dropped scale)
is_zero-shortened (pos (suc n)) scale after dropped h =
    ground
      (arith, shortened_zero dropped scale, shortened-pos (suc n) dropped scale (h n (omega arith)))
is_zero-shortened (negsuc n) scale after dropped h =
    ground
      (arith, shortened_zero dropped scale, shortened-pos (suc n) dropped scale (h n (omega arith)))

-- Rounding gives zero for zero only.
pub is_zero-rounded : (a : Decimal) → is_zero (rounded a) ≡ is_zero a
unfolding rounded
is_zero-rounded a =
    let size = pos_part a.mantissa + neg_part a.mantissa in
    is_zero-shortened a.mantissa a.scale _ (excess size size)
      (λ n e. subst (λ t. 10 ^ excess size size ≤ t) e (excess-pow size size (omega arith)))

-- A value of 28 digits at most is left as it is.
excess_within : (fuel n : ℕ) → n < 10 ^ 28 → excess fuel n ≡ 0
unfolding excess
excess_within zero n h = refl
excess_within (suc fuel) n h = ground arith

shortened_whole : (n scale : ℕ) → shortened n 0 scale ≡ n
shortened_whole n scale = ground arith

parts_back : (m : ℤ) → pos (pos_part m) -ℤ pos (neg_part m) ≡ m
unfolding ◌-ℤ◌
parts_back m = ground arith

pub rounded_within :
    (a : Decimal) → pos_part a.mantissa + neg_part a.mantissa < 10 ^ 28 → rounded a ≡ a
unfolding rounded
rounded_within a h =
    let up = pos_part a.mantissa in
    let down = neg_part a.mantissa in
    let whole : pos (shortened up 0 a.scale) -ℤ pos (shortened down 0 a.scale) ≡ a.mantissa =
      rw (shortened_whole up a.scale, shortened_whole down a.scale) (parts_back a.mantissa) in
    let unscaled : a.scale - 0 ≡ a.scale = omega arith in
    let kept : ◌≡◌ {A = Decimal}
        (record {
          mantissa = pos (shortened up 0 a.scale) -ℤ pos (shortened down 0 a.scale);
          scale = a.scale - 0;
        })
        a =
      rw (whole, unscaled) refl in
    rw (excess_within (up + down) (up + down) h) kept
