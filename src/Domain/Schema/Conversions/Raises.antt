-- ===== src/Domain/Schema/Conversions/Raises.antt =====
-- When the converter of amounts raises what pydantic does not report.
use evidence_flow.Prelude.{◌≡◌, ◌↔◌, refl, Bool, Option, none, some, Text}
use evidence_flow.Domain.Decimal.{Decimal}
use evidence_flow.Domain.Schema.Conversions.{
  Given, decimal, day, boolean, number, text, other, invalid_operation, handled, shown_bool,
  Parsers, to_decimal,
}

abbrev pub IsBoolean : Given → Type 0
IsBoolean (boolean b) = Unit {0}
IsBoolean _ = ⊥

-- A number is read from what `str` shows of it.
abbrev pub IsRead : Parsers → Given → Type 0
IsRead p (number shown) = (d : Decimal) × (p.parse_decimal shown ≡ some d)
IsRead p _ = Unit {0}

handled-reported :
    (shown : Text) (found : Option Decimal) → ¬ (handled shown found ≡ invalid_operation)
handled-reported shown none h = cc
handled-reported shown (some d) h = cc

-- If `Decimal` refuses the names of the truth values, and reads the value where that is a number, then
-- `_to_decimal` raises an InvalidOperation, which pydantic lets pass, exactly if the value is a bool.
pub to_decimal_raises :
    (p : Parsers) (v : Given)
    → ((b : Bool) → p.parse_decimal (shown_bool b) ≡ none)
    → IsRead p v
    → (to_decimal p v ≡ invalid_operation) ↔ IsBoolean v
unfolding to_decimal
to_decimal_raises p (decimal d) refused seen = (λ h. absurd (cc), λ h. absurd h)
to_decimal_raises p (day d) refused seen = (λ h. absurd (cc), λ h. absurd h)
to_decimal_raises p (boolean b) refused seen = rw (refused b) (λ h. tt, λ h. refl)
to_decimal_raises p (number shown) refused (d, seen) = rw seen (λ h. absurd (cc), λ h. absurd h)
to_decimal_raises p (text t) refused seen = (λ h. absurd (handled-reported t _ h), λ h. absurd h)
to_decimal_raises p other refused seen = (λ h. absurd (cc), λ h. absurd h)
