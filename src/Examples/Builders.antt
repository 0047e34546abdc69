-- ===== src/Examples/Builders.antt =====
-- The theorem on the fixtures of observations at a concrete serializer.
use nautilus_agents.Base.{◌≡◌, [], ok, list_eq, nat_eq}
use nautilus_agents.Protocol.Observation.{Observation, positions}
use nautilus_agents.Protocol.Observation.Spec.{IsValid}
use nautilus_agents.Testing.{valid_observation, redacted_observation}
use nautilus_agents.Testing.Fixtures.{fixtures-IsValid}
use nautilus_agents.Examples.Samples.{canonicalizer}
use nautilus_agents.Examples.Generating.{uuid_crate, reads_uuids, serializes}

fixtures-IsValid_example :
    (valid : Observation) × (redacted : Observation) × (valid_observation uuid_crate canonicalizer
      ≡ ok valid)
    × IsValid canonicalizer valid
    × (redacted_observation uuid_crate canonicalizer ≡ ok redacted)
    × IsValid canonicalizer redacted
    × (positions redacted.payload ≡ [])
fixtures-IsValid_example = fixtures-IsValid canonicalizer serializes uuid_crate reads_uuids
