-- ===== src/Protocol/Observation/Spec.antt =====
-- What a valid observation is, with no order of checks and no loops.
use nautilus_agents.Base.{
  ◌≤◌, ◌≡◌, ◌⊎◌, List, [], map, All, IsMember, IsDistinct, ok, list_eq, nat_eq,
}
use nautilus_agents.Value.Digest.{digest_eq}
use nautilus_agents.Value.Identifier.{InstrumentId, PositionId, identifier_eq}
use nautilus_agents.Protocol.Version.{protocol_version}
use nautilus_agents.Protocol.Capability.{capability_eq, position_summary, instrument_summary}
use nautilus_agents.Protocol.Live.{PositionView, InstrumentView}
use nautilus_agents.Protocol.Canonical.{Canonicalizer}
use nautilus_agents.Protocol.Observation.{
  Observation, ObservationDigest, positions, instruments, computed_digest,
}

abbrev pub position_ids : Observation → List PositionId
position_ids o = map (λ (p : PositionView). p.position_id) (positions o.payload)

abbrev pub instrument_ids : Observation → List InstrumentId
instrument_ids o = map (λ (i : InstrumentView). i.instrument_id) (instruments o.payload)

-- A position of an instrument in scope that was last updated by the time of creation.
pub record IsScoped (o : Observation) (p : PositionView) : Type 0 where
  pub granted : IsMember p.instrument_id o.grant.instruments
  pub past : p.updated_at.nanos ≤ o.created_at.nanos

pub record IsValid (c : Canonicalizer ObservationDigest) (o : Observation) : Type 0 where
  pub supported : o.version ≡ protocol_version
  pub lifetime : o.created_at.nanos ≤ o.expires_at.nanos
  pub grant_lifetime : o.expires_at.nanos ≤ o.grant.expires_at.nanos
  pub position_capability :
      (positions o.payload ≡ []) ⊎ IsMember position_summary o.grant.observations
  pub instrument_capability :
      (instruments o.payload ≡ []) ⊎ IsMember instrument_summary o.grant.observations
  pub scoped_positions : All (IsScoped o) (positions o.payload)
  pub distinct_positions : IsDistinct (position_ids o)
  pub scoped_instruments : All (λ i. IsMember i o.grant.instruments) (instrument_ids o)
  pub distinct_instruments : IsDistinct (instrument_ids o)
  pub digest : computed_digest c o ≡ ok o.digest
