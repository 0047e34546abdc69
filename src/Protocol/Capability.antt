-- ===== src/Protocol/Capability.antt =====
-- src/protocol/capability.rs. A `BTreeSet` is a list: only `contains` is asked of it.
use nautilus_agents.Base.{◌≡◌, ◌↔◌, Bool, true, false, List, arith, list_eq, nat_eq, PartialEq}
use nautilus_agents.Value.Identifier.{InstrumentId}
use nautilus_agents.Value.Timestamp.{TimestampNs}

pub data ObservationCapability : Type 0 where
  position_summary instrument_summary : ObservationCapability

pub data ProposalCapability : Type 0 where
  reduce_position : ProposalCapability

pub record CapabilityGrant : Type 0 where
  pub observations : List ObservationCapability
  pub proposals : List ProposalCapability
  pub instruments : List InstrumentId
  pub expires_at : TimestampNs

-- The derived `PartialEq`.
abbrev pub capability_beq : ObservationCapability → ObservationCapability → Bool
capability_beq position_summary position_summary = true
capability_beq instrument_summary instrument_summary = true
capability_beq _ _ = false

pub capability_beq_iff : (a b : ObservationCapability) → (capability_beq a b ≡ true) ↔ (a ≡ b)
capability_beq_iff a b = ground arith

instance abbrev pub capability_eq : PartialEq ObservationCapability
capability_eq = record { is_eq = capability_beq; is_eq_iff = capability_beq_iff }
