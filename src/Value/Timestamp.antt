-- ===== src/Value/Timestamp.antt =====
-- `TimestampNs` of src/protocol/value.rs: unsigned nanoseconds, read and written as decimal text.
pub mod Parse
pub mod RoundTrip
use nautilus_agents.Base.{
  ℕ, zero, suc, ◌+◌, ◌-◌, ◌*◌, ◌/◌, ◌%◌, ◌^◌, ◌≡◌, refl, ◌&&◌, ◌||◌, not, List, [], ◌∷◌, ltb, leb,
  eqb, if◌then◌else◌, all, Option, none, some, Result, ok, err, ◌>>=◌, ◌>>◌, reject_if, ok_or,
}
use nautilus_agents.Text.{Text, codes, bytes, len, is_empty, starts_with, is_ascii_digit}
use nautilus_agents.Value.Errors.{ValueError, empty_timestamp, timestamp_format, timestamp_range}

-- `u64::MAX + 1`
abbrev pub u64_end : ℕ
u64_end = 2 ^ 64

-- The value is a `u64`, below `u64_end`.
pub record TimestampNs : Type 0 where
  pub nanos : ℕ

unfoldable pub new : ℕ → TimestampNs
new value = record { nanos = value }

-- `u64::from_str` on a text of digits: `checked_mul(10)`, then `checked_add` of the digit.
unfoldable pub parse_u64 : ℕ → List ℕ → Option ℕ
parse_u64 n [] = some n
parse_u64 n (b ∷ s) =
    let m = n * 10 + (b - b'0') in
    let rest = parse_u64 m s in
    if leb u64_end (n * 10) then none else if leb u64_end m then none else rest

unfoldable pub parse : Text → Result TimestampNs ValueError
unfolding parse_u64 new
parse value = do
  reject_if (is_empty value) empty_timestamp
  reject_if
      (not (all is_ascii_digit (bytes value))
        || (ltb 1 (len value) && starts_with (λ c. eqb c b'0') value))
      timestamp_format
  n ← ok_or (parse_u64 0 (bytes value)) timestamp_range
  ok (new n)

-- The decimal digits of a number in front of `out`, for at most `fuel` digits.
unfoldable pub emit : ℕ → ℕ → Text → Text
emit zero n out = out
emit (suc fuel) n out =
    let rest = emit fuel (n / 10) ((b'0' + n % 10) ∷ out) in
    if ltb n 10 then (b'0' + n % 10) ∷ out else rest

-- A `u64` has at most twenty digits.
abbrev pub u64_digits : ℕ
u64_digits = 20

-- `Display`
unfoldable pub display : TimestampNs → Text
unfolding emit
display t = emit u64_digits t.nanos []

boundaries :
    (parse (codes "01") ≡ err timestamp_format)
    × (parse (codes "18446744073709551616") ≡ err timestamp_range)
    × (parse (codes "1712400000000000123") ≡ ok (new 1_712_400_000_000_000_123))
unfolding parse bytes
boundaries = (refl, refl, refl)
