-- ===== src/Domain/Schema/Conversions.antt =====
-- app/domain/schema.py: the converters of amounts and dates, and the constraints on currencies and
-- quotes. `Decimal` and `date.fromisoformat` on a text are parameters.
pub mod Raises
use evidence_flow.Prelude.{
  ℕ, Bool, true, false, ◌&&◌, not, Option, none, some, List, Text, codes, filter, all, leb, nat_beq,
  length,
}
use evidence_flow.Domain.Decimal.{Decimal}
use evidence_flow.Domain.Evidence.{strip}
use evidence_flow.Domain.Schema.{Date}

-- A value of a payload. A number is an `int` or a `float`, as `str` shows it; Python counts a bool as
-- an `int` too.
pub data Given : Type 0 where
  decimal : Decimal → Given
  day : Date → Given
  boolean : Bool → Given
  number text : Text → Given
  other : Given

-- What a converter returns or raises. Pydantic reports a ValueError of a converter as an error of
-- validation, and lets an InvalidOperation pass.
pub data Converted : Type 0 where
  converted : Given → Converted
  value_error : Text → Converted
  invalid_operation : Converted

pub record Parsers : Type 0 where
  pub parse_decimal : Text → Option Decimal
  pub fromisoformat : Text → Option Date

-- `Decimal(str(v))`, with no handler.
abbrev unhandled : Option Decimal → Converted
unhandled none = invalid_operation
unhandled (some d) = converted (decimal d)

-- `except InvalidOperation`
abbrev pub handled : Text → Option Decimal → Converted
handled shown none = value_error shown
handled shown (some d) = converted (decimal d)

abbrev not_mark : ℕ → Bool
not_mark c = not (nat_beq c b',') && not (nat_beq c 32)

unfoldable pub cleaned : Text → Text
cleaned t = filter not_mark (strip t)

abbrev pub shown_bool : Bool → Text
shown_bool true = codes "True"
shown_bool false = codes "False"

-- `_to_decimal`
unfoldable pub to_decimal : Parsers → Given → Converted
unfolding cleaned
to_decimal p (decimal d) = converted (decimal d)
to_decimal p (day d) = converted (day d)
to_decimal p (boolean b) = unhandled (p.parse_decimal (shown_bool b))
to_decimal p (number shown) = unhandled (p.parse_decimal shown)
to_decimal p (text t) = handled t (p.parse_decimal (cleaned t))
to_decimal p other = converted other

abbrev dated : Text → Option Date → Converted
dated shown none = value_error shown
dated shown (some d) = converted (day d)

-- `_to_date`
unfoldable pub to_date : Parsers → Given → Converted
to_date p (decimal d) = converted (decimal d)
to_date p (day d) = converted (day d)
to_date p (boolean b) = converted (boolean b)
to_date p (number shown) = converted (number shown)
to_date p (text t) = dated t (p.fromisoformat (strip t))
to_date p other = converted other

-- `CurrencyCode`: three capital letters.
unfoldable pub is_currency_code : Text → Bool
is_currency_code t = nat_beq (length t) 3 && all (λ c. leb b'A' c && leb c b'Z') t

-- A quote has one character at least.
unfoldable pub is_quote : Text → Bool
is_quote t = leb 1 (length t)
