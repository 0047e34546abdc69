-- ===== src/Value/Timestamp/Parse.antt =====
-- What `TimestampNs::parse` accepts, and the value that it reads.
use nautilus_agents.Base.{
  ℕ, ◌+◌, ◌*◌, ◌≤◌, ◌<◌, ◌≡◌, refl, inl, inr, true, false, ◌&&◌, [], ◌∷◌, map, arith, ltb, eqb,
  if◌then◌else◌, length, all, All, none, some, ok, err, ◌>>=◌, ok_or, list_eq, nat_eq, Bool-cases,
  ltb→lt,
}
use nautilus_agents.Text.{
  Text, bytes, len, is_empty, starts_with, is_ascii_digit, IsAsciiDigit, all-bytes, bytes_ascii,
  IsAscii-digits,
}
use nautilus_agents.Value.Errors.{timestamp_range}
use nautilus_agents.Value.Decimal.{value_from}
use nautilus_agents.Value.Quantity.{digit_of}
use nautilus_agents.Value.Quantity.Units.{number}
use nautilus_agents.Value.Quantity.Order.{le-value_from}
use nautilus_agents.Value.Timestamp.{TimestampNs, u64_end, new, parse_u64, parse}

-- The published pattern, `0|[1-9][0-9]*`: digits with no redundant zero.
pub record IsCanonical (t : Text) : Type 0 where
  pub digits : All IsAsciiDigit t
  pub filled : is_empty t ≡ false
  pub lead : (ltb 1 (length t) && starts_with (λ c. eqb c b'0') t) ≡ false

-- Reading digits that do not overflow.
parse_u64_fits :
    (n : ℕ) (s : Text)
    → value_from n (map digit_of s) < u64_end
    → parse_u64 n s ≡ some (value_from n (map digit_of s))
unfolding parse_u64 value_from
parse_u64_fits n [] h = refl
parse_u64_fits n (b ∷ s) h = ground (
  arith,
  parse_u64_fits (n * 10 + digit_of b) s,
  le-value_from (n * 10 + digit_of b) (map digit_of s),
)

parse_u64_overflows :
    (n : ℕ) (s : Text)
    → n < u64_end
    → u64_end ≤ value_from n (map digit_of s)
    → parse_u64 n s ≡ none
unfolding parse_u64 value_from
parse_u64_overflows n [] lt h = absurd (omega arith)
parse_u64_overflows n (b ∷ s) lt h = ground (arith, parse_u64_overflows (n * 10 + digit_of b) s)

digit_ascii : (b : ℕ) → is_ascii_digit b ≡ true → b < 128
digit_ascii b h = ground arith

all_digits : (t : Text) → all is_ascii_digit t ≡ true → All IsAsciiDigit t
all_digits [] h = tt
all_digits (c ∷ t) h = (ground arith, all_digits t (ground arith))

digits_all : (t : Text) → All IsAsciiDigit t → all is_ascii_digit t ≡ true
digits_all [] h = refl
digits_all (c ∷ t) (p, h) = ground (arith, digits_all t h)

-- A canonical text is read by the loop alone.
parse_canonical :
    (t : Text)
    → IsCanonical t
    → parse t ≡ (do n ← ok_or (parse_u64 0 t) timestamp_range; ok (new n))
unfolding parse
parse_canonical t c =
    rw (bytes_ascii t (IsAscii-digits t c.digits), c.filled, digits_all t c.digits, c.lead)

pub accepted-IsCanonical : (t : Text) (ts : TimestampNs) → parse t ≡ ok ts → IsCanonical t
unfolding parse
accepted-IsCanonical t ts h =
    let passed : all is_ascii_digit (bytes t) ≡ true = ground arith in
    let (same, chars) = all-bytes is_ascii_digit digit_ascii t passed in
    let lead : (ltb 1 (len t) && starts_with (λ c. eqb c b'0') t) ≡ false = ground arith in
    record { digits = all_digits t chars; filled = ground arith; lead = rw same at lead }

-- A canonical text is read as its number, or refused because that exceeds the range of `u64`.
pub parse-number :
    (t : Text)
    → IsCanonical t
    → parse t ≡ (if ltb (number t) u64_end then ok (new (number t)) else err timestamp_range)
parse-number t c = elim (Bool-cases (ltb (number t) u64_end)) [
  | inl fits ↦ rw (parse_canonical t c, parse_u64_fits 0 t (ltb→lt (number t) u64_end fits), fits)
  | inr wide ↦ rw (parse_canonical t c, parse_u64_overflows 0 t (omega arith) (ground arith), wide)
]
