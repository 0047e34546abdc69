-- ===== src/Protocol/Version.antt =====
-- src/protocol/version.rs.
use nautilus_agents.Base.{ℕ, ◌≡◌, ◌↔◌, Bool, true, ◌&&◌, List, arith, leb, ◌==◌, list_eq, nat_eq}

pub record ProtocolVersion : Type 0 where
  pub major : ℕ
  pub minor : ℕ

abbrev pub protocol_version : ProtocolVersion
protocol_version = record { major = 1; minor = 0 }

unfoldable pub is_supported : ProtocolVersion → Bool
is_supported v = v.major == protocol_version.major && leb v.minor protocol_version.minor

pub data Feature : Type 0 where
  live_reduce_position decision_receipt : Feature

pub record ProtocolInfo : Type 0 where
  pub version : ProtocolVersion
  pub features : List Feature

-- Exactly the implemented version is supported: it has no earlier minor revision.
pub is_supported_iff : (v : ProtocolVersion) → (is_supported v ≡ true) ↔ (v ≡ protocol_version)
unfolding is_supported
is_supported_iff v = ground arith
