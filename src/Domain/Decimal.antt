-- ===== src/Domain/Decimal.antt =====
-- Python's `decimal.Decimal`, as app/domain/schema.py and validation.py use it: a finite value is an
-- integer over a power of ten. An operation rounds its exact result to the 28 digits of the context,
-- half to even; comparisons are exact. A positive exponent is written out as zeros, the sign of a
-- zero is not kept, and exponents stay within the limits of the context.
pub mod Rounding
pub mod Exact
use Prim.Native.Nat.{max}
use evidence_flow.Prelude.{
  ℕ, zero, suc, ◌-◌, ◌+◌, ◌*◌, ◌/◌, ◌%◌, ◌^◌, Bool, true, false, List, [], ◌∷◌, ltb, leb, ℤ, pos,
  pos_part, neg_part, ◌+ℤ◌, ◌-ℤ◌, ◌*ℤ◌, abs, nat_beq, ◌&&◌, ◌||◌, if◌then◌else◌,
}

pub record Decimal : Type 0 where
  pub mantissa : ℤ
  pub scale : ℕ

-- The mantissa of the same value with `k` more places.
abbrev pub widen : ℤ → ℕ → ℤ
widen m k = m *ℤ pos (10 ^ k)

-- How many digits `n` has beyond 28, by recursion on fuel: `n` itself is enough.
unfoldable pub excess : ℕ → ℕ → ℕ
excess zero n = 0
excess (suc fuel) n = elim (ltb n (10 ^ 28)) [ true ↦ 0 | false ↦ suc (excess fuel (n / 10)) ]

-- `n` over a power of ten, rounded half to even.
abbrev pub half_even : ℕ → ℕ → ℕ
half_even n power =
    let quotient = n / power in
    let twice = 2 * (n % power) in
    if ltb power twice || (nat_beq power twice && nat_beq (quotient % 2) 1)
    then suc quotient
    else quotient

-- The mantissa of a magnitude that loses `dropped` digits, of which `scale` at most are places.
abbrev pub shortened : ℕ → ℕ → ℕ → ℕ
shortened n dropped scale = half_even n (10 ^ dropped) * 10 ^ (dropped - scale)

-- The context's rounding to 28 digits.
unfoldable pub rounded : Decimal → Decimal
unfolding excess
rounded a =
    let up = pos_part a.mantissa in
    let down = neg_part a.mantissa in
    let dropped = excess (up + down) (up + down) in
    record {
      mantissa = pos (shortened up dropped a.scale) -ℤ pos (shortened down dropped a.scale);
      scale = a.scale - dropped;
    }

-- The exact sum, difference and product.
abbrev pub exact_sum : Decimal → Decimal → Decimal
exact_sum a b = record {
  mantissa = widen a.mantissa (b.scale - a.scale) +ℤ widen b.mantissa (a.scale - b.scale);
  scale = max a.scale b.scale;
}

abbrev pub exact_difference : Decimal → Decimal → Decimal
exact_difference a b = record {
  mantissa = widen a.mantissa (b.scale - a.scale) -ℤ widen b.mantissa (a.scale - b.scale);
  scale = max a.scale b.scale;
}

abbrev pub exact_product : Decimal → Decimal → Decimal
exact_product a b = record { mantissa = a.mantissa *ℤ b.mantissa; scale = a.scale + b.scale }

unfoldable pub add : Decimal → Decimal → Decimal
unfolding rounded
add a b = rounded (exact_sum a b)

unfoldable pub sub : Decimal → Decimal → Decimal
unfolding rounded
sub a b = rounded (exact_difference a b)

unfoldable pub mul : Decimal → Decimal → Decimal
unfolding rounded
mul a b = rounded (exact_product a b)

unfoldable pub abs_decimal : Decimal → Decimal
unfolding rounded
abs_decimal a = rounded (record { mantissa = abs a.mantissa; scale = a.scale })

-- `a <= b`
unfoldable pub leb_decimal : Decimal → Decimal → Bool
leb_decimal a b =
    let x = widen a.mantissa (b.scale - a.scale) in
    let y = widen b.mantissa (a.scale - b.scale) in
    leb (pos_part x + neg_part y) (pos_part y + neg_part x)

-- `a == 0`, `a < 0` and `a > 0`
unfoldable pub is_zero : Decimal → Bool
is_zero a = nat_beq (pos_part a.mantissa) 0 && nat_beq (neg_part a.mantissa) 0

unfoldable pub is_negative : Decimal → Bool
is_negative a = ltb 0 (neg_part a.mantissa)

unfoldable pub is_positive : Decimal → Bool
is_positive a = ltb 0 (pos_part a.mantissa)

abbrev pub zero_decimal : Decimal
zero_decimal = record { mantissa = pos 0; scale = 0 }

-- `sum(xs, start)`
unfoldable pub sum_from : Decimal → List Decimal → Decimal
unfolding add
sum_from acc [] = acc
sum_from acc (x ∷ xs) = sum_from (add acc x) xs
