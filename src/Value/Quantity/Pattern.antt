-- ===== src/Value/Quantity/Pattern.antt =====
-- The pattern of the published schema of `Quantity`, and what the first tests let through:
-- `^(?:[1-9][0-9]*|(?:0|[1-9][0-9]*)\.[0-9]{0,15}[1-9])$`.
use nautilus_agents.Base.{
  ℕ, ◌≤◌, ◌<◌, ◌≡◌, refl, ap, inl, inr, true, false, [], ◌∷◌, ◌++◌, arith, length, all, any, All,
  none, some, ok, list_eq, nat_eq, Bool-cases,
}
use nautilus_agents.Text.{
  Text, bytes, starts_with, count, split_once, IsAsciiDigit, IsAscii, all-bytes, bytes_ascii,
}
use nautilus_agents.Value.Quantity.{
  is_sign, is_exponent, is_point, is_decimal_byte, integer_and_fraction, validate_parts,
  validate_quantity,
}

abbrev pub IsNonzeroDigit : ℕ → Type 0
IsNonzeroDigit b = (b'1' ≤ b) × (b ≤ b'9')

-- `0|[1-9][0-9]*`
pub data IsInteger (t : Text) : Type 0 where
  naught : t ≡ b'0' ∷ [] → IsInteger t
  positive : (d : ℕ) (ds : Text) → IsNonzeroDigit d → All IsAsciiDigit ds → t ≡ d ∷ ds → IsInteger t

-- `[0-9]{0,15}[1-9]`
pub data IsFraction (t : Text) : Type 0 where
  digits :
      (ds : Text) (last : ℕ)
      → All IsAsciiDigit ds
      → length ds ≤ 15
      → IsNonzeroDigit last
      → t ≡ ds ++ last ∷ []
      → IsFraction t

pub data MatchesPattern (t : Text) : Type 0 where
  whole :
      (d : ℕ) (ds : Text) → IsNonzeroDigit d → All IsAsciiDigit ds → t ≡ d ∷ ds → MatchesPattern t
  decimal :
      (integer fraction : Text)
      → IsInteger integer
      → IsFraction fraction
      → t ≡ integer ++ b'.' ∷ fraction
      → MatchesPattern t

-- A text of digits has no point to split at, and one behind a point splits there.
pub split_once-digits : (ds : Text) → All IsAsciiDigit ds → split_once b'.' ds ≡ none
unfolding split_once
split_once-digits [] h = refl
split_once-digits (d ∷ ds) (p, h) = ground (arith, split_once-digits ds h)

pub split_once-point :
    (ds f : Text) → All IsAsciiDigit ds → split_once b'.' (ds ++ b'.' ∷ f) ≡ some (ds, f)
unfolding split_once
split_once-point [] f h = refl
split_once-point (d ∷ ds) f (p, h) = ground (arith, split_once-point ds f h)

-- What the tests before the split let through: digits, with at most one point between them.
pub data IsDecimal (t : Text) : Type 0 where
  no_point : All IsAsciiDigit t → IsDecimal t
  point : (i f : Text) → All IsAsciiDigit i → All IsAsciiDigit f → t ≡ i ++ b'.' ∷ f → IsDecimal t

count-digits : (t : Text) → all is_decimal_byte t ≡ true → count is_point t ≡ 0 → All IsAsciiDigit t
unfolding count
count-digits [] h c = tt
count-digits (b ∷ t) h c = (ground arith, count-digits t (ground arith) (ground arith))

IsDecimal-push : (d : ℕ) (t : Text) → IsAsciiDigit d → IsDecimal t → IsDecimal (d ∷ t)
IsDecimal-push d t p (no_point h) = no_point (p, h)
IsDecimal-push d t p (point i f hi hf e) = point (d ∷ i) f (p, hi) hf (ap (λ s. d ∷ s) e)

IsDecimal-of_count : (t : Text) → all is_decimal_byte t ≡ true → count is_point t ≤ 1 → IsDecimal t
unfolding count
IsDecimal-of_count [] h c = no_point tt
IsDecimal-of_count (b ∷ t) h c = elim (Bool-cases (is_point b)) [
  | inl e ↦ point [] t tt (count-digits t (ground arith) (ground arith)) (ground arith)
  | inr e ↦ IsDecimal-push b t (ground arith) (IsDecimal-of_count t (ground arith) (ground arith))
]

decimal_byte_ascii : (b : ℕ) → is_decimal_byte b ≡ true → b < 128
decimal_byte_ascii b h = ground arith

-- What the tests before the split say of a text.
abbrev Passes : Text → Type 0
Passes t =
    (all is_decimal_byte t ≡ true)
    × (count is_point t ≤ 1)
    × (any is_exponent t ≡ false)
    × (starts_with is_sign t ≡ false)

digits_pass :
    (t : Text)
    → All IsAsciiDigit t
    → (all is_decimal_byte t ≡ true) × (count is_point t ≡ 0) × (any is_exponent t ≡ false)
unfolding count
digits_pass [] h = (refl, refl, refl)
digits_pass (d ∷ t) (p, h) = ground (arith, digits_pass t h)

point_pass :
    (i f : Text)
    → All IsAsciiDigit i
    → All IsAsciiDigit f
    → (all is_decimal_byte (i ++ b'.' ∷ f) ≡ true)
      × (count is_point (i ++ b'.' ∷ f) ≡ 1)
      × (any is_exponent (i ++ b'.' ∷ f) ≡ false)
unfolding count
point_pass [] f hi hf = ground (arith, digits_pass f hf)
point_pass (d ∷ i) f (p, hi) hf = ground (arith, point_pass i f hi hf)

no_sign : (i f : Text) → All IsAsciiDigit i → starts_with is_sign (i ++ b'.' ∷ f) ≡ false
no_sign [] f h = refl
no_sign (d ∷ i) f (p, h) = ground arith

no_sign_digits : (t : Text) → All IsAsciiDigit t → starts_with is_sign t ≡ false
no_sign_digits [] h = refl
no_sign_digits (d ∷ i) (p, h) = ground arith

IsDecimal-Passes : (t : Text) → IsDecimal t → Passes t
IsDecimal-Passes t (no_point h) =
    let (a, b, c) = digits_pass t h in (a, omega arith, c, no_sign_digits t h)
IsDecimal-Passes t (point i f hi hf e) =
    rw e (let (a, b, c) = point_pass i f hi hf in (a, omega arith, c, no_sign i f hi))

all_decimal-IsAscii : (t : Text) → all is_decimal_byte t ≡ true → IsAscii t
all_decimal-IsAscii [] h = tt
all_decimal-IsAscii (b ∷ t) h = (ground arith, all_decimal-IsAscii t (ground arith))

-- A decimal text is judged by its two parts.
pub decimal_by_parts :
    (c : ℕ) (t : Text)
    → IsDecimal (c ∷ t)
    → validate_quantity (c ∷ t)
      ≡ validate_parts (integer_and_fraction (c ∷ t) (split_once b'.' (c ∷ t)))
unfolding validate_quantity
decimal_by_parts c t h =
    let (a, b, e, s) = IsDecimal-Passes (c ∷ t) h in
    rw (bytes_ascii (c ∷ t) (all_decimal-IsAscii (c ∷ t) a)) (ground arith)

-- An accepted text is decimal, and its parts were accepted.
pub accepted-IsDecimal :
    (t : Text)
    → validate_quantity t ≡ ok tt
    → IsDecimal t × (validate_parts (integer_and_fraction t (split_once b'.' t)) ≡ ok tt)
unfolding validate_quantity
accepted-IsDecimal t h =
    let passed : (all is_decimal_byte (bytes t) ≡ true) × (count is_point (bytes t) ≤ 1) =
      ground arith in
    let (same, chars) = all-bytes is_decimal_byte decimal_byte_ascii t passed.0 in
    (IsDecimal-of_count t chars (rw same at (passed.1)), ground arith)
