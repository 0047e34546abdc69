-- ===== src/Protocol/Identity/Laws.antt =====
-- What the parsers of the identities accept.
use nautilus_agents.Base.{
  ℕ, ◌≤◌, ◌<◌, ◌≡◌, refl, ◌↔◌, inl, inr, true, [], ◌∷◌, arith, length, all, some, ok, list_eq,
  nat_eq, list_beq_iff, Option-cases,
}
use nautilus_agents.Text.{Text, bytes, len, IsAscii, bytes_ascii, all-bytes}
use nautilus_agents.Protocol.Identity.{IdentityKind, UuidCrate, new, parse, is_ascii, parse_key}

-- An identity is accepted, and kept as it is, exactly when it is the print of the UUID that it
-- parses to.
pub parse-hyphenated :
    (u : UuidCrate) {k : IdentityKind} (t : Text)
    → (parse u {k = k} t ≡ ok (record { text = t }))
      ↔ ((uuid : u.Uuid) × (u.parse_str t ≡ some uuid) × (u.hyphenated uuid ≡ t))
unfolding parse
parse-hyphenated u t = elim (Option-cases (u.parse_str t)) [
  | inl e ↦ (λ h. ground arith, λ (x, p, q). ground arith)
  | inr (uuid, e) ↦ (
    λ h. (uuid, e, ground (arith, list_beq_iff (u.hyphenated uuid) t)),
    λ (x, p, q). ground (arith, list_beq_iff (u.hyphenated uuid) t),
  )
]

-- Where the crate parses what it prints, a new identity's text is accepted, as that identity.
pub parse-new :
    (u : UuidCrate) {k : IdentityKind}
    → ((x : u.Uuid) → u.parse_str (u.hyphenated x) ≡ some x)
    → (x : u.Uuid) → parse u {k = k} (new u {k = k} x).text ≡ ok (new u x)
unfolding new
parse-new u printed x = (parse-hyphenated u (u.hyphenated x)).1 (x, printed x, refl)

IsAscii-tests : (t : Text) → all is_ascii t ≡ true → IsAscii t
IsAscii-tests [] h = tt
IsAscii-tests (c ∷ t) h = (ground arith, IsAscii-tests t (ground arith))

tests_ascii : (t : Text) → IsAscii t → all is_ascii t ≡ true
tests_ascii [] h = refl
tests_ascii (c ∷ t) (p, h) = ground (arith, tests_ascii t h)

is_ascii_lt : (b : ℕ) → is_ascii b ≡ true → b < 128
is_ascii_lt b h = ground arith

-- A key is accepted, and kept as it is, exactly when it has 1 to 128 characters, all of them ASCII.
pub parse_key-IsAscii :
    (t : Text)
    → (parse_key t ≡ ok (record { text = t })) ↔ ((1 ≤ length t) × (length t ≤ 128) × IsAscii t)
unfolding parse_key
parse_key-IsAscii [] = (λ h. cc, λ (p, q, r). absurd (omega arith))
parse_key-IsAscii (c ∷ t) = (
  λ h.
      let passed : (all is_ascii (bytes (c ∷ t)) ≡ true) × (len (c ∷ t) ≤ 128) = ground arith in
      let (same, chars) = all-bytes is_ascii is_ascii_lt (c ∷ t) passed.0 in
      (omega arith, rw same at (passed.1), IsAscii-tests (c ∷ t) chars),
  λ (p, q, r). rw (bytes_ascii (c ∷ t) r, tests_ascii (c ∷ t) r) (ground arith),
)
