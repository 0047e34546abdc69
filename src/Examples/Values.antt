-- ===== src/Examples/Values.antt =====
-- The theorems on values at concrete texts and digits.
use nautilus_agents.Base.{
  ℕ, ◌*◌, ◌%◌, ◌≤◌, ◌<◌, compare, Ordering, ◌≡◌, refl, ◌↔◌, true, List, [], ◌∷◌, arith, length,
  replicate, All, All-replicate, some, ok, err, list_eq, nat_eq,
}
use nautilus_agents.Text.{Text, codes, IsAscii, len, bytes}
use nautilus_agents.Value.Errors.{identifier_too_long}
use nautilus_agents.Value.Decimal.{value, value_from, decimal_remainder}
use nautilus_agents.Value.Decimal.Remainder.{value-decimal_remainder}
use nautilus_agents.Value.Quantity as Quantity
use nautilus_agents.Value.Quantity.{cmp, is_multiple_of}
use nautilus_agents.Value.Quantity.Pattern.{MatchesPattern, decimal, positive, digits}
use nautilus_agents.Value.Quantity.Grammar.{parse-MatchesPattern}
use nautilus_agents.Value.Quantity.Units.{units}
use nautilus_agents.Value.Quantity.Order.{IsValid, cmp-units, is_multiple_of-units}
use nautilus_agents.Value.Quantity.Canonical.{cmp-eq}
use nautilus_agents.Value.Timestamp as Timestamp
use nautilus_agents.Value.Timestamp.{u64_end, display}
use nautilus_agents.Value.Timestamp.RoundTrip.{parse-display, display-parse}
use nautilus_agents.Value.Digest as Digest
use nautilus_agents.Value.Digest.{ContentDigest}
use nautilus_agents.Value.Digest.RoundTrip.{IsByte, parse-new, new-parse}
use nautilus_agents.Value.FieldPath as FieldPath
use nautilus_agents.Value.FieldPath.Grammar.{IsPointer, parse-IsPointer}
use nautilus_agents.Value.Identifier as Identifier
use nautilus_agents.Value.Identifier.{Kind, identifier_max_bytes}
use nautilus_agents.Value.Identifier.Schema.{
  MatchesSchema, parse-MatchesSchema, parse-schema_gap, parse-IsAscii,
}
use nautilus_agents.Protocol.Identity.{UuidCrate, parse_key}
use nautilus_agents.Protocol.Identity.Laws.{parse_key-IsAscii}
use nautilus_agents.Examples.Samples.{quantity}

five_pos : 0 < value (5 ∷ [])
unfolding value_from
five_pos = omega arith

value-decimal_remainder_example :
    value (decimal_remainder (1 ∷ 7 ∷ []) (5 ∷ [])) ≡ value (1 ∷ 7 ∷ []) % value (5 ∷ [])
value-decimal_remainder_example =
    value-decimal_remainder (1 ∷ 7 ∷ []) (5 ∷ []) (omega arith, (omega arith, tt)) (omega arith, tt)
      five_pos

parse-MatchesPattern_example :
    (Quantity.parse (codes "12.5") ≡ ok (quantity "12.5")) ↔ MatchesPattern (codes "12.5")
parse-MatchesPattern_example = parse-MatchesPattern (codes "12.5")

seven_and_a_half-IsValid : IsValid (quantity "7.5")
seven_and_a_half-IsValid =
    decimal (codes "7") (codes "5") (positive b'7' [] (omega arith, omega arith) tt refl)
      (digits [] b'5' tt (omega arith) (omega arith, omega arith) refl) refl

two_and_a_half-IsValid : IsValid (quantity "2.5")
two_and_a_half-IsValid =
    decimal (codes "2") (codes "5") (positive b'2' [] (omega arith, omega arith) tt refl)
      (digits [] b'5' tt (omega arith) (omega arith, omega arith) refl) refl

cmp-units_example :
    cmp (quantity "7.5") (quantity "2.5")
    ≡ compare (units (quantity "7.5")) (units (quantity "2.5"))
cmp-units_example =
    cmp-units (quantity "7.5") (quantity "2.5") seven_and_a_half-IsValid two_and_a_half-IsValid

is_multiple_of-units_example :
    (is_multiple_of (quantity "7.5") (quantity "2.5") ≡ true)
    ↔ ((k : ℕ) × (units (quantity "7.5") ≡ k * units (quantity "2.5")))
is_multiple_of-units_example =
    is_multiple_of-units (quantity "7.5") (quantity "2.5") seven_and_a_half-IsValid
      two_and_a_half-IsValid

cmp-eq_example :
    (cmp (quantity "7.5") (quantity "2.5") ≡ Ordering.eq)
    ↔ ((quantity "7.5").text ≡ (quantity "2.5").text)
cmp-eq_example =
    cmp-eq (quantity "7.5") (quantity "2.5") seven_and_a_half-IsValid two_and_a_half-IsValid

parse-display_example : Timestamp.parse (display (Timestamp.new 1234)) ≡ ok (Timestamp.new 1234)
parse-display_example = parse-display 1234 (omega arith)

ten_parses : Timestamp.parse (codes "10") ≡ ok (record { nanos = 10 })
unfolding Timestamp.parse bytes Timestamp.new
ten_parses = refl

display-parse_example : (display (record { nanos = 10 }) ≡ codes "10") × (10 < u64_end)
display-parse_example = display-parse (codes "10") (record { nanos = 10 }) ten_parses

bytes_32 : All IsByte (replicate 32 7)
bytes_32 = All-replicate IsByte 32 7 (omega arith)

new-parse_example :
    ((Digest.new (replicate 32 7)).text ≡ (Digest.new (replicate 32 7)).text)
    × (raw : List ℕ) × (length raw ≡ 32)
    × All IsByte raw
    × (Digest.new raw ≡ Digest.new (replicate 32 7))
new-parse_example =
    new-parse (Digest.new (replicate 32 7)).text (Digest.new (replicate 32 7))
      (parse-new (replicate 32 7) refl bytes_32)

parse-IsPointer_example :
    (FieldPath.parse (codes "/payload/live") ≡ ok (record { text = codes "/payload/live" }))
    ↔ IsPointer (codes "/payload/live")
parse-IsPointer_example = parse-IsPointer (codes "/payload/live")

parse-MatchesSchema_example :
    (Identifier.parse {k = Kind.position} (codes "P-1") ≡ ok (record { text = codes "P-1" }))
    ↔ (MatchesSchema (codes "P-1") × (len (codes "P-1") ≤ identifier_max_bytes))
parse-MatchesSchema_example = parse-MatchesSchema {k = Kind.position} (codes "P-1")

parse-schema_gap_example :
    MatchesSchema (replicate 128 0xe9)
    × (Identifier.parse {k = Kind.position} (replicate 128 0xe9) ≡ err identifier_too_long)
parse-schema_gap_example =
    parse-schema_gap {k = Kind.position} (replicate 128 0xe9) (omega arith) (omega arith)
      (All-replicate (λ c. 0x9f < c) 128 0xe9 (omega arith))

parse-IsAscii_example :
    (Identifier.parse {k = Kind.position} (codes "P-1") ≡ ok (record { text = codes "P-1" }))
    ↔ MatchesSchema (codes "P-1")
parse-IsAscii_example =
    parse-IsAscii {k = Kind.position} (codes "P-1") (omega arith, (omega arith, (omega arith, tt)))

-- A crate whose UUIDs are their texts.
abbrev uuid_crate : UuidCrate
uuid_crate = record { Uuid = Text; parse_str = λ t. some t; hyphenated = λ t. t }

parse_key-IsAscii_example :
    (parse_key (codes "key") ≡ ok (record { text = codes "key" }))
    ↔ ((1 ≤ length (codes "key")) × (length (codes "key") ≤ 128) × IsAscii (codes "key"))
parse_key-IsAscii_example = parse_key-IsAscii (codes "key")
