-- ===== src/Value/Identifier.antt =====
-- The `identifier!` types of src/protocol/value.rs. The kind tells the types apart that the macro
-- makes.
pub mod Schema
use nautilus_agents.Base.{
  ℕ, ◌≡◌, ◌↔◌, Bool, true, ◌&&◌, ◌||◌, arith, ltb, leb, any, Result, ok, ◌>>=◌, ◌>>◌, reject_if,
  list_eq, nat_eq, PartialEq, list_beq, list_beq_iff,
}
use nautilus_agents.Text.{Text, len, is_empty}
use nautilus_agents.Value.Errors.{
  ValueError, empty_identifier, identifier_too_long, identifier_control_character,
}

abbrev pub identifier_max_bytes : ℕ
identifier_max_bytes = 255

pub data Kind : Type 0 where
  instrument position : Kind

pub record Identifier (k : Kind) : Type 0 where
  pub text : Text

abbrev pub InstrumentId : Type 0
InstrumentId = Identifier instrument

abbrev pub PositionId : Type 0
PositionId = Identifier position

-- `char::is_control`: the general category Cc.
abbrev pub is_control : ℕ → Bool
is_control c = leb c 0x1f || (leb 0x7f c && leb c 0x9f)

unfoldable pub parse : {k : Kind} → Text → Result (Identifier k) ValueError
parse value = do
  reject_if (is_empty value) empty_identifier
  reject_if (ltb identifier_max_bytes (len value)) identifier_too_long
  reject_if (any is_control value) identifier_control_character
  ok (record { text = value })

-- The derived `PartialEq`.
abbrev pub identifier_beq : {k : Kind} → Identifier k → Identifier k → Bool
identifier_beq a b = list_beq a.text b.text

pub identifier_beq_iff : {k : Kind} (a b : Identifier k) → (identifier_beq a b ≡ true) ↔ (a ≡ b)
identifier_beq_iff a b = ground (arith, list_beq_iff a.text b.text)

instance abbrev pub identifier_eq : {k : Kind} → PartialEq (Identifier k)
identifier_eq = record { is_eq = identifier_beq; is_eq_iff = identifier_beq_iff }
