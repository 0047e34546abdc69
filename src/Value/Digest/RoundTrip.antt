-- ===== src/Value/Digest/RoundTrip.antt =====
-- Digests made from 32 bytes are accepted, tell their bytes apart, and are all that is accepted.
use nautilus_agents.Base.{
  ℕ, zero, suc, ◌+◌, ◌-◌, ◌*◌, ◌/◌, ◌%◌, ◌<◌, ◌≡◌, refl, true, List, [], ◌∷◌, ◌++◌, arith, ltb,
  if◌then◌else◌, length, all, All, All-append, ok, list_eq, nat_eq,
}
use nautilus_agents.Text.{Text, bytes, is_prefix, IsAscii, bytes_ascii, all-bytes}
use nautilus_agents.Value.Digest.{ContentDigest, prefix, hex_digit, hex, new, is_hex_byte, parse}

abbrev pub IsByte : ℕ → Type 0
IsByte b = b < 256

hex_digit_byte : (n : ℕ) → n < 16 → (is_hex_byte (hex_digit n) ≡ true) × (hex_digit n < 128)
hex_digit_byte n h = ground arith

hex-all : (raw : List ℕ) → All IsByte raw → (all is_hex_byte (hex raw) ≡ true) × IsAscii (hex raw)
unfolding hex
hex-all [] h = (refl, tt)
hex-all (b ∷ raw) (p, h) =
    let (a, c) = hex_digit_byte (b / 16) (omega arith) in
    let (d, e) = hex_digit_byte (b % 16) (omega arith) in
    let (f, g) = hex-all raw h in (ground arith, (c, (e, g)))

length-hex : (raw : List ℕ) → length (hex raw) ≡ length raw + length raw
unfolding hex
length-hex [] = omega arith
length-hex (b ∷ raw) = omega (arith, length-hex raw)

-- A digest made from 32 bytes is accepted and kept as it is.
pub parse-new :
    (raw : List ℕ) → length raw ≡ 32 → All IsByte raw → parse (new raw).text ≡ ok (new raw)
unfolding parse new
parse-new raw l h =
    let (a, c) = hex-all raw h in
    let ascii : IsAscii (prefix ++ hex raw) =
      All-append (λ b. b < 128) prefix (hex raw) (omega arith) c in
    rw (bytes_ascii (prefix ++ hex raw) ascii) (ground (arith, length-hex raw))

hex_digit_injective : (m n : ℕ) → m < 16 → n < 16 → hex_digit m ≡ hex_digit n → m ≡ n
hex_digit_injective m n hm hn e = ground arith

hex_injective :
    (raw other : List ℕ) → All IsByte raw → All IsByte other → hex raw ≡ hex other → raw ≡ other
unfolding hex
hex_injective [] [] hr ho e = refl
hex_injective [] (b ∷ other) hr ho e = cc
hex_injective (a ∷ raw) [] hr ho e = cc
hex_injective (a ∷ raw) (b ∷ other) (p, hr) (q, ho) e =
    let high : hex_digit (a / 16) ≡ hex_digit (b / 16) = cc in
    let low : hex_digit (a % 16) ≡ hex_digit (b % 16) = cc in
    let rest : hex raw ≡ hex other = cc in
    let same : a ≡ b = omega (
      arith,
      hex_digit_injective (a / 16) (b / 16) (omega arith) (omega arith) high,
      hex_digit_injective (a % 16) (b % 16) (omega arith) (omega arith) low,
    ) in
    rw (same, hex_injective raw other hr ho rest)

-- Different bytes make different digests.
pub new_injective :
    (raw other : List ℕ)
    → All IsByte raw
    → All IsByte other
    → (new raw).text ≡ (new other).text
    → raw ≡ other
unfolding new
new_injective raw other hr ho e = hex_injective raw other hr ho (cc)

-- The byte that two hexadecimal digits denote.
nibble : ℕ → ℕ
nibble c = if ltb c 58 then c - 48 else c - 97 + 10

unhex : Text → List ℕ
unhex [] = []
unhex (c ∷ []) = []
unhex (c ∷ d ∷ s) = (nibble c * 16 + nibble d) ∷ unhex s

nibble_lem : (c : ℕ) → is_hex_byte c ≡ true → (nibble c < 16) × (hex_digit (nibble c) ≡ c)
unfolding nibble
nibble_lem c h = ground arith

byte_nibbles : (m n : ℕ) → n < 16 → ((m * 16 + n) / 16 ≡ m) × ((m * 16 + n) % 16 ≡ n)
byte_nibbles m n h = omega arith

-- A text of hexadecimal digits, of even length, is the print of its bytes.
hex-unhex :
    (k : ℕ) (s : Text)
    → length s ≡ k + k
    → all is_hex_byte s ≡ true
    → (hex (unhex s) ≡ s) × (length (unhex s) ≡ k) × All IsByte (unhex s)
unfolding hex unhex
hex-unhex k [] l h = (refl, omega arith, tt)
hex-unhex k (c ∷ []) l h = absurd (omega arith)
hex-unhex zero (c ∷ d ∷ s) l h = absurd (omega arith)
hex-unhex (suc k) (c ∷ d ∷ s) l h =
    let (lc, ec) = nibble_lem c (ground arith) in
    let (ld, ed) = nibble_lem d (ground arith) in
    let (e, m, g) = hex-unhex k s (omega arith) (ground arith) in
    let (high, low) = byte_nibbles (nibble c) (nibble d) ld in
    (rw (high, low, ec, ed, e), omega arith, (omega arith, g))

prefix_split : (p s : Text) → is_prefix p s ≡ true → (r : Text) × (s ≡ p ++ r)
prefix_split [] s h = (s, refl)
prefix_split (c ∷ p) [] h = cc
prefix_split (c ∷ p) (d ∷ s) h =
    let (r, e) = prefix_split p s (ground arith) in
    let same : c ≡ d = ground arith in (r, rw (same, e))

hex_byte_ascii : (b : ℕ) → is_hex_byte b ≡ true → b < 128
hex_byte_ascii b h = ground arith

bytes-prefix : (r : Text) → bytes (prefix ++ r) ≡ prefix ++ bytes r
unfolding bytes
bytes-prefix r = refl

-- Behind the prefix an accepted text has the digits of 32 bytes.
accepted_hex :
    (r : Text) (d : ContentDigest)
    → parse (prefix ++ r) ≡ ok d
    → (d ≡ record { text = prefix ++ r }) × (length r ≡ 32 + 32) × (all is_hex_byte r ≡ true)
unfolding parse
accepted_hex r d h =
    let h' = rw (bytes-prefix r) at h in
    let passed : (all is_hex_byte (bytes r) ≡ true) × (length (prefix ++ bytes r) ≡ 71) =
      ground arith in
    let (same, chars) = all-bytes is_hex_byte hex_byte_ascii r passed.0 in
    let long : length (prefix ++ r) ≡ 71 = rw same at (passed.1) in
    (ground arith, omega (arith, long), chars)

accepted_prefix : (t : Text) (d : ContentDigest) → parse t ≡ ok d → is_prefix prefix t ≡ true
unfolding parse
accepted_prefix t d h = ground arith

-- Every accepted text is kept as it is, and is the print of 32 bytes.
pub new-parse :
    (t : Text) (d : ContentDigest)
    → parse t ≡ ok d
    → (d.text ≡ t) × (raw : List ℕ) × (length raw ≡ 32) × All IsByte raw × (new raw ≡ d)
new-parse t d h =
    let (r, e) = prefix_split prefix t (accepted_prefix t d h) in
    let (ed, l, hexes) = accepted_hex r d (rw e at h) in
    let (p, m, g) = hex-unhex 32 r l hexes in (rw (ed, e), unhex r, m, g, unfold new in rw (p, ed))
