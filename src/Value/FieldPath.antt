-- ===== src/Value/FieldPath.antt =====
-- `FieldPath` of src/protocol/value.rs: an RFC 6901 JSON Pointer.
pub mod Grammar
use nautilus_agents.Base.{
  ℕ, ◌/◌, ◌≡◌, refl, Bool, true, false, ◌&&◌, ◌||◌, not, [], ◌∷◌, eqb, Result, ok, err, ◌>>=◌, ◌>>◌,
  reject_if,
}
use nautilus_agents.Text.{Text, codes, is_empty, starts_with}
use nautilus_agents.Value.Errors.{ValueError, field_path_format}

pub record FieldPath : Type 0 where
  pub text : Text

-- `matches!(chars.next(), Some('0' | '1'))`
abbrev pub is_escape : ℕ → Bool
is_escape c = eqb c b'0' || eqb c b'1'

-- The `while let` loop over the characters; `false` is its early return. A tilde takes the next
-- character too.
unfoldable pub escapes_valid : Text → Bool
escapes_valid [] = true
escapes_valid (c ∷ []) = not (eqb c b'~')
escapes_valid (c ∷ d ∷ s) = elim (eqb c b'~') [
  | true ↦ elim (is_escape d) [ true ↦ escapes_valid s | false ↦ false ]
  | false ↦ escapes_valid (d ∷ s)
]

unfoldable pub parse : Text → Result FieldPath ValueError
unfolding escapes_valid
parse value = do
  reject_if (not (is_empty value) && not (starts_with (λ c. eqb c b'/') value)) field_path_format
  reject_if (not (escapes_valid value)) field_path_format
  ok (record { text = value })

-- A text that `parse` accepts and keeps.
pub record StaticPath : Type 0 where
  pub text : Text
  pub accepted : parse text ≡ ok (record { text = text })

-- `FieldPath::parse(value).expect(…)`, which does not panic since the parser accepts the text.
unfoldable pub static_path : StaticPath → FieldPath
static_path s = record { text = s.text }

path_tests :
    (parse (codes "/a~0b~1c") ≡ ok (record { text = codes "/a~0b~1c" }))
    × (parse (codes "payload") ≡ err field_path_format)
    × (parse (codes "/a~2b") ≡ err field_path_format)
unfolding parse
path_tests = (refl, refl, refl)
