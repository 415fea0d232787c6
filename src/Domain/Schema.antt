-- ===== src/Domain/Schema.antt =====
-- app/domain/schema.py: the extracted invoice. Pydantic's validation of a payload into a draft is a
-- parameter of the pipeline; a draft here is one that passed it.
pub mod Conversions
use evidence_flow.Prelude.{
  ℕ, ◌+◌, ◌-◌, Bool, ◌&&◌, ◌||◌, List, [], ◌∷◌, ◌++◌, Text, codes, str_of_int, length, ltb, nat_beq,
  if◌then◌else◌, neg_part, pos_part, take, drop, zero, suc,
}
use evidence_flow.Domain.Decimal.{Decimal}

-- `datetime.date`
pub record Date : Type 0 where
  pub year : ℕ
  pub month : ℕ
  pub day : ℕ

-- `a < b` on dates
unfoldable pub date_before : Date → Date → Bool
date_before a b =
    ltb a.year b.year
    || (nat_beq a.year b.year
        && (ltb a.month b.month || (nat_beq a.month b.month && ltb a.day b.day)))

pub record EvidencedField (A : Type 0) : Type 0 where
  pub value : A
  pub quote : Text

pub record LineItem : Type 0 where
  pub description : Text
  pub quantity : Decimal
  pub unit_price : Decimal
  pub amount : Decimal

pub record InvoiceDraft : Type 0 where
  pub invoice_number : EvidencedField Text
  pub supplier : EvidencedField Text
  pub currency : EvidencedField Text
  pub issue_date : EvidencedField Date
  pub line_items : List LineItem
  pub subtotal : EvidencedField Decimal
  pub tax : EvidencedField Decimal
  pub total : EvidencedField Decimal

-- A field's value with its type forgotten, as a loop over the fields meets it.
pub data FieldValue : Type 0 where
  text_value : Text → FieldValue
  date_value : Date → FieldValue
  money_value : Decimal → FieldValue

abbrev pub AnyField : Type 0
AnyField = EvidencedField FieldValue

any_text : EvidencedField Text → AnyField
any_text f = record { value = text_value f.value; quote = f.quote }

any_money : EvidencedField Decimal → AnyField
any_money f = record { value = money_value f.value; quote = f.quote }

any_date : EvidencedField Date → AnyField
any_date f = record { value = date_value f.value; quote = f.quote }

-- The evidenced fields in the order of the model's declaration.
unfoldable pub evidenced_fields : InvoiceDraft → List (Text × AnyField)
unfolding any_text any_money any_date
evidenced_fields draft =
    (codes "invoice_number", any_text draft.invoice_number)
    ∷ (codes "supplier", any_text draft.supplier)
    ∷ (codes "currency", any_text draft.currency)
    ∷ (codes "issue_date", any_date draft.issue_date)
    ∷ (codes "subtotal", any_money draft.subtotal)
    ∷ (codes "tax", any_money draft.tax)
    ∷ (codes "total", any_money draft.total)
    ∷ []

-- `n` zeros
zeros : ℕ → Text
zeros zero = []
zeros (suc n) = b'0' ∷ zeros n

-- `str(n)` padded with zeros to `width` characters
pub padded : ℕ → ℕ → Text
unfolding zeros str_of_int
padded width n = let shown = str_of_int n in zeros (width - length shown) ++ shown

-- `date.isoformat`
pub isoformat : Date → Text
unfolding padded
isoformat d = padded 4 d.year ++ b'-' ∷ (padded 2 d.month ++ b'-' ∷ padded 2 d.day)

-- The digits of a coefficient with the decimal point before the last `scale` of them.
pub plain_digits : ℕ → ℕ → Text
unfolding padded
plain_digits coefficient zero = str_of_int coefficient
plain_digits coefficient (suc k) =
    let shown = padded (suc (suc k)) coefficient in
    let whole = length shown - suc k in take whole shown ++ b'.' ∷ drop whole shown

-- One digit before the point, and the exponent.
scientific_digits : Text → ℕ → Text
unfolding str_of_int
scientific_digits [] exponent = []
scientific_digits (d ∷ []) exponent = d ∷ b'E' ∷ b'-' ∷ str_of_int exponent
scientific_digits (d ∷ e ∷ es) exponent = d ∷ b'.' ∷ e ∷ (es ++ b'E' ∷ b'-' ∷ str_of_int exponent)

-- `str(Decimal)`, whose scientific form begins below 0.000001, and the sign.
pub str_decimal : Decimal → Text
unfolding plain_digits scientific_digits str_of_int
str_decimal d =
    let size = pos_part d.mantissa + neg_part d.mantissa in
    let digits = str_of_int size in
    let small = ltb (length digits + 5) d.scale in
    let shown =
      if small
      then scientific_digits digits (d.scale + 1 - length digits)
      else plain_digits size d.scale in
    if ltb 0 (neg_part d.mantissa) then b'-' ∷ shown else shown

-- `str(field.value)`
pub str_value : FieldValue → Text
unfolding isoformat str_decimal
str_value (text_value t) = t
str_value (date_value d) = isoformat d
str_value (money_value d) = str_decimal d
