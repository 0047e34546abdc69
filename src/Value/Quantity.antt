-- ===== src/Value/Quantity.antt =====
-- `Quantity` of src/protocol/value.rs: a strictly positive decimal, kept as canonical text.
pub mod Pattern
pub mod Grammar
pub mod Units
pub mod Order
pub mod Digits
pub mod Canonical
use nautilus_agents.Base.{
  ℕ, ◌+◌, ◌-◌, Ordering, max, ◌≡◌, Bool, true, ◌&&◌, ◌||◌, not, List, [], ◌++◌, map, arith, ltb,
  eqb, length, take, replicate, all, any, Option, none, some, Result, ok, ◌>>=◌, ◌>>◌, reject_if,
  ◌==◌, list_eq, nat_eq, PartialEq, list_beq, list_beq_iff, ◌↔◌,
}
use nautilus_agents.Text.{
  Text, codes, bytes, len, is_empty, starts_with, ends_with, count, split_once, is_ascii_digit,
}
use nautilus_agents.Value.Errors.{
  ValueError, empty_quantity, quantity_sign, quantity_exponent, quantity_character,
  quantity_leading_zero, quantity_empty_fraction, quantity_trailing_zero, quantity_zero,
  quantity_precision,
}
use nautilus_agents.Value.Decimal.{trim_zeroes, compare_decimal, decimal_remainder}

abbrev pub decimal_max_precision : ℕ
decimal_max_precision = 16

pub record Quantity : Type 0 where
  pub text : Text

-- The derived `PartialEq`.
abbrev pub quantity_beq : Quantity → Quantity → Bool
quantity_beq a b = list_beq a.text b.text

pub quantity_beq_iff : (a b : Quantity) → (quantity_beq a b ≡ true) ↔ (a ≡ b)
quantity_beq_iff a b = ground (arith, list_beq_iff a.text b.text)

instance abbrev pub quantity_eq : PartialEq Quantity
quantity_eq = record { is_eq = quantity_beq; is_eq_iff = quantity_beq_iff }

abbrev pub is_zero_digit : ℕ → Bool
is_zero_digit b = eqb b b'0'

abbrev pub is_sign : ℕ → Bool
is_sign c = eqb c b'+' || eqb c b'-'

abbrev pub is_exponent : ℕ → Bool
is_exponent c = eqb c b'e' || eqb c b'E'

abbrev pub is_point : ℕ → Bool
is_point b = eqb b b'.'

abbrev pub is_decimal_byte : ℕ → Bool
is_decimal_byte b = is_ascii_digit b || is_point b

-- `value.split_once('.').map_or((value, None), …)`
abbrev pub integer_and_fraction : Text → Option (Text × Text) → Text × Option Text
integer_and_fraction value none = (value, none)
integer_and_fraction value (some (integer, fraction)) = (integer, some fraction)

-- The block `if let Some(fraction) = fraction { … }`.
unfoldable pub validate_fraction : Option Text → Result (Unit {0}) ValueError
validate_fraction none = ok tt
validate_fraction (some fraction) = do
  reject_if (is_empty fraction) quantity_empty_fraction
  reject_if (ltb decimal_max_precision (len fraction)) quantity_precision
  reject_if (ends_with is_zero_digit fraction) quantity_trailing_zero

-- `fraction.is_none_or(|fraction| fraction.bytes().all(|byte| byte == b'0'))`
abbrev pub no_fraction_value : Option Text → Bool
no_fraction_value none = true
no_fraction_value (some fraction) = all is_zero_digit (bytes fraction)

-- The tests behind the split.
unfoldable pub validate_parts : Text × Option Text → Result (Unit {0}) ValueError
unfolding validate_fraction
validate_parts (integer, fraction) = do
  reject_if (is_empty integer) quantity_character
  reject_if (ltb 1 (len integer) && starts_with is_zero_digit integer) quantity_leading_zero
  validate_fraction fraction
  reject_if (integer == codes "0" && no_fraction_value fraction) quantity_zero

unfoldable pub validate_quantity : Text → Result (Unit {0}) ValueError
unfolding validate_parts count split_once
validate_quantity value = do
  reject_if (is_empty value) empty_quantity
  reject_if (starts_with is_sign value) quantity_sign
  reject_if (any is_exponent value) quantity_exponent
  reject_if (not (all is_decimal_byte (bytes value)) || ltb 1 (count is_point (bytes value)))
      quantity_character
  validate_parts (integer_and_fraction value (split_once b'.' value))

unfoldable pub parse : Text → Result Quantity ValueError
unfolding validate_quantity
parse value = do validate_quantity value; ok (record { text = value })

abbrev pub fraction_len : Option (Text × Text) → ℕ
fraction_len none = 0
fraction_len (some (integer, fraction)) = len fraction

unfoldable pub scale : Quantity → ℕ
unfolding split_once
scale q = fraction_len (split_once b'.' q.text)

abbrev pub digit_of : ℕ → ℕ
digit_of byte = byte - b'0'

-- `Vec::resize`
abbrev pub resize : ℕ → ℕ → List ℕ → List ℕ
resize n x ds = take n (ds ++ replicate (n - length ds) x)

-- The digits of the two parts, padded to `scale` decimal places.
abbrev pub padded : Text → Text → ℕ → List ℕ
padded integer fraction places =
    resize (len integer + places) 0 (map digit_of (bytes integer) ++ map digit_of (bytes fraction))

-- `value.split_once('.').unwrap_or((value, ""))`
abbrev pub or_no_fraction : Text → Option (Text × Text) → Text × Text
or_no_fraction value none = (value, [])
or_no_fraction value (some (integer, fraction)) = (integer, fraction)

unfoldable pub decimal_digits : Text → ℕ → List ℕ
unfolding split_once trim_zeroes
decimal_digits value places =
    let (integer, fraction) = or_no_fraction value (split_once b'.' value) in
    trim_zeroes (padded integer fraction places)

-- `Ord::cmp`
unfoldable pub cmp : Quantity → Quantity → Ordering
unfolding scale decimal_digits compare_decimal
cmp a b =
    let places = max (scale a) (scale b) in
    compare_decimal (decimal_digits a.text places) (decimal_digits b.text places)

unfoldable pub is_multiple_of : Quantity → Quantity → Bool
unfolding scale decimal_digits decimal_remainder
is_multiple_of q increment =
    let places = max (scale q) (scale increment) in
    let digits = decimal_digits q.text places in
    let divisor = decimal_digits increment.text places in
    all (λ digit. eqb digit 0) (decimal_remainder digits divisor)
