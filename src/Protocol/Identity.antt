-- ===== src/Protocol/Identity.antt =====
-- src/protocol/identity.rs. The kind tells the types apart that the `uuid_identity!` macro makes.
-- The `uuid` crate is a parameter: its parser and its lowercase hyphenated print.
pub mod Laws
use nautilus_agents.Base.{
  ℕ, ◌≡◌, ◌↔◌, Bool, true, not, arith, ltb, all, Option, Result, ok, ◌>>=◌, ◌>>◌, reject_if, ok_or,
  ◌!=◌, list_eq, nat_eq, PartialEq, list_beq, list_beq_iff,
}
use nautilus_agents.Text.{Text, bytes, len, is_empty}

pub data IdentityError : Type 0 where
  invalid_uuid empty_idempotency_key idempotency_key_too_long non_ascii_idempotency_key :
      IdentityError

pub data IdentityKind : Type 0 where
  request observation trace intent correlation : IdentityKind

pub record UuidIdentity (k : IdentityKind) : Type 0 where
  pub text : Text

abbrev pub RequestId : Type 0
RequestId = UuidIdentity request

abbrev pub ObservationId : Type 0
ObservationId = UuidIdentity observation

abbrev pub TraceId : Type 0
TraceId = UuidIdentity trace

abbrev pub IntentId : Type 0
IntentId = UuidIdentity intent

abbrev pub CorrelationId : Type 0
CorrelationId = UuidIdentity correlation

-- `Uuid::parse_str` and `Uuid::hyphenated` with `to_string`.
pub record UuidCrate : Type 1 where
  pub Uuid : Type 0
  pub parse_str : Text → Option Uuid
  pub hyphenated : Uuid → Text

module _ (u : UuidCrate) where
  -- `new`, on the random value of `Uuid::new_v4`.
  unfoldable pub new : {k : IdentityKind} → u.Uuid → UuidIdentity k
  new v4 = record { text = u.hyphenated v4 }

  unfoldable pub parse : {k : IdentityKind} → Text → Result (UuidIdentity k) IdentityError
  parse value = do
    uuid ← ok_or (u.parse_str value) invalid_uuid
    reject_if (u.hyphenated uuid != value) invalid_uuid
    ok (record { text = value })

pub record IdempotencyKey : Type 0 where
  pub text : Text

abbrev pub is_ascii : ℕ → Bool
is_ascii byte = ltb byte 128

unfoldable pub parse_key : Text → Result IdempotencyKey IdentityError
parse_key value = do
  reject_if (is_empty value) empty_idempotency_key
  reject_if (ltb 128 (len value)) idempotency_key_too_long
  reject_if (not (all is_ascii (bytes value))) non_ascii_idempotency_key
  ok (record { text = value })

-- The derived `PartialEq`.
abbrev pub uuid_identity_beq : {k : IdentityKind} → UuidIdentity k → UuidIdentity k → Bool
uuid_identity_beq a b = list_beq a.text b.text

pub uuid_identity_beq_iff :
    {k : IdentityKind} (a b : UuidIdentity k) → (uuid_identity_beq a b ≡ true) ↔ (a ≡ b)
uuid_identity_beq_iff a b = ground (arith, list_beq_iff a.text b.text)

instance abbrev pub uuid_identity_eq : {k : IdentityKind} → PartialEq (UuidIdentity k)
uuid_identity_eq = record { is_eq = uuid_identity_beq; is_eq_iff = uuid_identity_beq_iff }
