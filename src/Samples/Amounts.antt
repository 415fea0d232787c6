-- ===== src/Samples/Amounts.antt =====
-- A reader of whole amounts, and a bool in the place of an amount.
use evidence_flow.Prelude.{
  ℕ, ◌+◌, ◌-◌, ◌*◌, ◌≡◌, ◌↔◌, refl, Bool, true, false, ◌&&◌, Option, none, some, [], ◌∷◌, Text, leb,
  pos,
}
use evidence_flow.Domain.Decimal.{Decimal}
use evidence_flow.Domain.Schema.Conversions.{Given, Converted, Parsers, shown_bool, to_decimal}
use evidence_flow.Domain.Schema.Conversions.Raises.{IsBoolean, to_decimal_raises}

abbrev whole_from : ℕ → Text → Option Decimal
whole_from acc [] = some (record { mantissa = pos acc; scale = 0 })
whole_from acc (c ∷ cs) =
    let more = whole_from (acc * 10 + (c - 48)) cs in
    elim (leb b'0' c && leb c b'9') [ true ↦ more | false ↦ none ]

abbrev parsers : Parsers
parsers = record { parse_decimal = whole_from 0; fromisoformat = λ t. none }

names_refused : (b : Bool) → parsers.parse_decimal (shown_bool b) ≡ none
names_refused true = refl
names_refused false = refl

to_decimal_raises_example :
    (to_decimal parsers (Given.boolean true) ≡ Converted.invalid_operation)
    ↔ IsBoolean (Given.boolean true)
to_decimal_raises_example = to_decimal_raises parsers (Given.boolean true) names_refused tt
