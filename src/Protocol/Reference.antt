-- ===== src/Protocol/Reference.antt =====
-- `ObservationRef` of src/protocol/observation.rs.
use nautilus_agents.Value.Digest.{ContentDigest}
use nautilus_agents.Protocol.Identity.{ObservationId}

pub record ObservationRef : Type 0 where
  pub id : ObservationId
  pub digest : ContentDigest
