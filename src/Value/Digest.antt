-- ===== src/Value/Digest.antt =====
-- `ContentDigest` of src/protocol/value.rs: `sha256:` and 64 lowercase hexadecimal digits.
pub mod RoundTrip
use nautilus_agents.Base.{
  ℕ, ◌+◌, ◌-◌, ◌/◌, ◌%◌, ◌≡◌, refl, ◌↔◌, Bool, true, ◌&&◌, ◌||◌, not, List, [], ◌∷◌, ◌++◌, arith,
  ltb, leb, eqb, if◌then◌else◌, drop, all, Result, ok, err, ◌>>=◌, ◌>>◌, reject_if, list_eq, nat_eq,
  PartialEq, list_beq, list_beq_iff,
}
use nautilus_agents.Text.{Text, codes, bytes, len, is_ascii_digit, is_prefix}
use nautilus_agents.Value.Errors.{ValueError, digest_format}

pub record ContentDigest : Type 0 where
  pub text : Text

abbrev pub prefix : Text
prefix = codes "sha256:"

-- A nibble in lowercase hexadecimal.
abbrev pub hex_digit : ℕ → ℕ
hex_digit n = if ltb n 10 then b'0' + n else b'a' + (n - 10)

-- `{byte:02x}` for each byte
unfoldable pub hex : List ℕ → Text
hex [] = []
hex (byte ∷ rest) = hex_digit (byte / 16) ∷ hex_digit (byte % 16) ∷ hex rest

-- `ContentDigest::new`; the source takes an array of 32 bytes.
unfoldable pub new : List ℕ → ContentDigest
unfolding hex
new raw = record { text = prefix ++ hex raw }

abbrev pub is_hex_byte : ℕ → Bool
is_hex_byte byte = is_ascii_digit byte || (leb b'a' byte && leb byte b'f')

unfoldable pub parse : Text → Result ContentDigest ValueError
parse value =
    let valid =
      eqb (len value) 71 && is_prefix prefix value && all is_hex_byte (drop 7 (bytes value)) in
    do reject_if (not valid) digest_format; ok (record { text = value })

-- The derived `PartialEq`.
abbrev pub digest_beq : ContentDigest → ContentDigest → Bool
digest_beq a b = list_beq a.text b.text

pub digest_beq_iff : (a b : ContentDigest) → (digest_beq a b ≡ true) ↔ (a ≡ b)
digest_beq_iff a b = ground (arith, list_beq_iff a.text b.text)

instance abbrev pub digest_eq : PartialEq ContentDigest
digest_eq = record { is_eq = digest_beq; is_eq_iff = digest_beq_iff }

digest_tests :
    (parse (codes "sha256:0") ≡ err digest_format)
    × ((new (10 ∷ 255 ∷ [])).text ≡ codes "sha256:0aff")
unfolding parse new bytes
digest_tests = (refl, refl)
