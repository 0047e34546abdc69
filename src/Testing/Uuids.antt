-- ===== src/Testing/Uuids.antt =====
-- What is assumed of the `uuid` crate on the texts of the fixtures.
use nautilus_agents.Base.{ℕ, ◌≡◌, refl, true, ◌∷◌, ◌++◌, length, all, some, ok, list_eq, nat_eq}
use nautilus_agents.Text.{Text, codes}
use nautilus_agents.Value.Digest.{is_hex_byte}
use nautilus_agents.Protocol.Identity.{IdentityKind, UuidCrate}
use nautilus_agents.Protocol.Identity.Laws.{parse-hyphenated}
use nautilus_agents.Panics.{parse}

abbrev pub dash : ℕ
dash = 45

-- `UUID_PATTERN`: groups of lowercase hexadecimal digits.
abbrev pub IsGroup : ℕ → Text → Type 0
IsGroup n t = (length t ≡ n) × (all is_hex_byte t ≡ true)

abbrev pub IsUuid : Text → Type 0
IsUuid t =
    (a b c d e : Text) × (t ≡ a ++ dash ∷ (b ++ dash ∷ (c ++ dash ∷ (d ++ dash ∷ e))))
    × IsGroup 8 a
    × IsGroup 4 b
    × IsGroup 4 c
    × IsGroup 4 d
    × IsGroup 12 e

-- What the crate documents: it parses every text of the pattern, and prints it back.
abbrev pub ReadsUuids : UuidCrate → Type 0
ReadsUuids u =
    (t : Text) → IsUuid t → (x : u.Uuid) × (u.parse_str t ≡ some x) × (u.hyphenated x ≡ t)

-- A text of the fixtures: its last group follows four groups of constant digits.
pub fixture_IsUuid :
    (a last : Text)
    → IsGroup 8 a
    → IsGroup 12 last
    → IsUuid (a ++ (codes "-0000-4000-8000-" ++ last))
fixture_IsUuid a last g h = (
  a,
  codes "0000",
  codes "4000",
  codes "8000",
  last,
  refl,
  g,
  (refl, refl),
  (refl, refl),
  (refl, refl),
  h,
)

module _ (u : UuidCrate) (reads : ReadsUuids u) where
  pub parse-IsUuid :
      {k : IdentityKind} (t : Text) → IsUuid t → parse u {k = k} t ≡ ok (record { text = t })
  unfolding parse
  parse-IsUuid t h = rw ((parse-hyphenated u t).1 (reads t h)) refl

  -- The same, with the parts of the text apart.
  pub parse_fixture :
      {k : IdentityKind} (a last : Text)
      → IsGroup 8 a
      → IsGroup 12 last
      → parse u {k = k} (a ++ (codes "-0000-4000-8000-" ++ last))
        ≡ ok (record { text = a ++ (codes "-0000-4000-8000-" ++ last) })
  parse_fixture a last g h =
      parse-IsUuid (a ++ (codes "-0000-4000-8000-" ++ last)) (fixture_IsUuid a last g h)
