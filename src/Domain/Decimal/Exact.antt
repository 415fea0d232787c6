-- ===== src/Domain/Decimal/Exact.antt =====
-- Equality of amounts, whatever their places. A difference is rounded, but it is zero only where the
-- amounts are the same.
use Prim.Native.Nat.{max}
use native.Mathlib.Numerals.{unary_clauses}
use native.Mathlib.Nat.{mul-one, mul-div_cancel, mul_assoc, add-mul, one-le-pow}
use evidence_flow.Prelude.{
  ℕ, zero, suc, ◌+◌, ◌-◌, ◌*◌, ◌/◌, ◌^◌, ◌<◌, ◌≡◌, ◌↔◌, sym, ap, ◌∙◌, true, arith, ℤ, pos, negsuc,
  ◌-ℤ◌, ◌*ℤ◌, pos_part, neg_part, abs,
}
use evidence_flow.Domain.Decimal.{Decimal, widen, exact_difference, sub, abs_decimal, is_zero}
use evidence_flow.Domain.Decimal.Rounding.{is_zero-rounded}

-- `a / 10 ^ a.scale` and `b / 10 ^ b.scale` are one number, over the natural numbers.
abbrev pub Same : Decimal → Decimal → Type 0
Same a b =
    pos_part a.mantissa * 10 ^ b.scale + neg_part b.mantissa * 10 ^ a.scale
    ≡ pos_part b.mantissa * 10 ^ a.scale + neg_part a.mantissa * 10 ^ b.scale

pos_part-mul : (m : ℤ) (t : ℕ) → pos_part (m *ℤ pos t) ≡ pos_part m * t
unfolding ◌*ℤ◌
pos_part-mul (pos n) t = ground arith
pos_part-mul (negsuc n) t = ground arith

neg_part-mul : (m : ℤ) (t : ℕ) → neg_part (m *ℤ pos t) ≡ neg_part m * t
unfolding ◌*ℤ◌
neg_part-mul (pos n) t = ground arith
neg_part-mul (negsuc n) t = ground arith

is_zero-difference :
    (x y : ℤ) (s : ℕ)
    → (is_zero (record { mantissa = x -ℤ y; scale = s }) ≡ true)
      ↔ (pos_part x + neg_part y ≡ pos_part y + neg_part x)
unfolding is_zero ◌-ℤ◌
is_zero-difference x y s = (λ h. ground arith, λ h. ground arith)

pow-add : (n a b : ℕ) → n ^ (a + b) ≡ n ^ a * n ^ b
pow-add n a zero = simp unary_clauses (sym (mul-one (n ^ a)))
pow-add n a (suc b) =
    simp unary_clauses (ap (λ t. t * n) (pow-add n a b) ∙ mul_assoc (n ^ a) (n ^ b) n)

mul_injective : (x y c : ℕ) → 0 < c → x * c ≡ y * c → x ≡ y
mul_injective x y c h e = sym (mul-div_cancel x h) ∙ ap (λ t. t / c) e ∙ mul-div_cancel y h

-- Both sides of an equation, by a common factor.
scaled :
    (p q r s u v c : ℕ)
    → 0 < c
    → (p * u + q * v ≡ r * v + s * u) ↔ (p * (u * c) + q * (v * c) ≡ r * (v * c) + s * (u * c))
scaled p q r s u v c h =
    let left : (p * u + q * v) * c ≡ p * (u * c) + q * (v * c) =
      omega (arith, add-mul (p * u) (q * v) c, mul_assoc p u c, mul_assoc q v c) in
    let right : (r * v + s * u) * c ≡ r * (v * c) + s * (u * c) =
      omega (arith, add-mul (r * v) (s * u) c, mul_assoc r v c, mul_assoc s u c) in
    (
      λ e. sym left ∙ ap (λ t. t * c) e ∙ right,
      λ e. mul_injective (p * u + q * v) (r * v + s * u) c h (left ∙ e ∙ sym right),
    )

-- Both sides at the larger scale, and both at the two scales together.
aligned :
    (p q r s a b : ℕ)
    → (p * 10 ^ (b - a) + q * 10 ^ (a - b) ≡ r * 10 ^ (a - b) + s * 10 ^ (b - a))
      ↔ (p * 10 ^ b + q * 10 ^ a ≡ r * 10 ^ a + s * 10 ^ b)
aligned p q r s a b =
    let least : ℕ = b - (b - a) in
    let at_b : 10 ^ b ≡ 10 ^ (b - a) * 10 ^ least =
      ap (λ n. 10 ^ n) (omega arith) ∙ pow-add 10 (b - a) least in
    let at_a : 10 ^ a ≡ 10 ^ (a - b) * 10 ^ least =
      ap (λ n. 10 ^ n) (omega arith) ∙ pow-add 10 (a - b) least in
    rw (at_b, at_a)
      (scaled p q r s (10 ^ (b - a)) (10 ^ (a - b)) (10 ^ least)
        (one-le-pow least 10 (omega arith)))

is_zero-abs :
    (m : ℤ) (s : ℕ)
    → is_zero (record { mantissa = abs m; scale = s })
      ≡ is_zero (record { mantissa = m; scale = s })
unfolding is_zero abs ◌-ℤ◌
is_zero-abs m s = ground arith

-- The rounding of the difference, and that of its magnitude, do not hide it.
is_zero-abs_decimal :
    (a b : Decimal) → is_zero (abs_decimal (sub a b)) ≡ is_zero (exact_difference a b)
unfolding abs_decimal sub
is_zero-abs_decimal a b =
    is_zero-rounded _ ∙ is_zero-abs _ _ ∙ is_zero-rounded (exact_difference a b)

-- A difference is zero exactly if the two amounts are the same.
pub is_zero-sub : (a b : Decimal) → (is_zero (abs_decimal (sub a b)) ≡ true) ↔ Same a b
is_zero-sub a b =
    let zero_iff =
      is_zero-difference (widen a.mantissa (b.scale - a.scale))
        (widen b.mantissa (a.scale - b.scale)) (max a.scale b.scale) in
    let lined_up =
      aligned (pos_part a.mantissa) (neg_part b.mantissa) (pos_part b.mantissa)
        (neg_part a.mantissa) a.scale b.scale in
    let a_pos = pos_part-mul a.mantissa (10 ^ (b.scale - a.scale)) in
    let a_neg = neg_part-mul a.mantissa (10 ^ (b.scale - a.scale)) in
    let b_pos = pos_part-mul b.mantissa (10 ^ (a.scale - b.scale)) in
    let b_neg = neg_part-mul b.mantissa (10 ^ (a.scale - b.scale)) in
    (
      λ h. lined_up.0 (
          omega
            (arith, zero_iff.0 (sym (is_zero-abs_decimal a b) ∙ h), a_pos, a_neg, b_pos, b_neg)),
      λ h.
          is_zero-abs_decimal a b
          ∙ zero_iff.1 (omega (arith, lined_up.1 h, a_pos, a_neg, b_pos, b_neg)),
    )
