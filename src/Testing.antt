-- ===== src/Testing.antt =====
-- src/testing.rs: the observation builder, and the deterministic fixtures of observations. The
-- `expect` of a call is the call itself, with an error where the source panics.
pub mod Uuids
pub mod Base
pub mod Fixtures
pub mod Receipts
use nautilus_agents.Base.{
  ◌-◌, ◌/◌, List, [], ◌∷◌, replicate, some, Result, ok, map_err, ◌>>=◌, ◌>>◌, list_eq, nat_eq,
}
use nautilus_agents.Value.Digest.{digest_eq}
use nautilus_agents.Value.Identifier.{identifier_eq}
use nautilus_agents.Value.Timestamp.{TimestampNs}
use nautilus_agents.Protocol.Version.{ProtocolVersion, protocol_version}
use nautilus_agents.Protocol.Capability.{
  CapabilityGrant, capability_eq, position_summary, instrument_summary,
}
use nautilus_agents.Protocol.Canonical.{Canonicalizer}
use nautilus_agents.Protocol.Observation.{
  ObservationError, Observation, ObservationDigest, positions, instruments, validate,
  refresh_digest,
}
use nautilus_agents.Text.{codes}
use nautilus_agents.Value.FieldPath as FieldPath
use nautilus_agents.Value.Identifier as Identifier
use nautilus_agents.Value.Quantity as Quantity
use nautilus_agents.Protocol.Identity.{UuidCrate}
use nautilus_agents.Panics as Panics
use nautilus_agents.Panics.{Panic, value, parse}
use nautilus_agents.Value.Digest as Digest
use nautilus_agents.Protocol.Identity.{ObservationId}
use nautilus_agents.Protocol.Capability as Capability
use nautilus_agents.Protocol.Live.{PositionSide}
use nautilus_agents.Protocol.Observation.{
  SourceProvenance, ProvenanceSource, FieldOmission, OmissionReason, RetentionClass,
  ObservationPayload, live,
}

module _ (u : UuidCrate) where
  unfoldable pub provenance_of : Result (List SourceProvenance) Panic
  unfolding FieldPath.parse
  provenance_of = do
    positions_path ← map_err value (FieldPath.parse (codes "/payload/live/positions"))
    instruments_path ← map_err value (FieldPath.parse (codes "/payload/live/instruments"))
    ok (
        record {
          field = positions_path;
          source = ProvenanceSource.position_state;
          observed_at = record { nanos = 1_712_399_999_000_000_404 };
          version = some (codes "position-revision-17");
        }
        ∷ record {
          field = instruments_path;
          source = ProvenanceSource.instrument_definition;
          observed_at = record { nanos = 1_712_399_998_000_000_505 };
          version = some (codes "instrument-revision-23");
        }
        ∷ [])

  unfoldable pub base_observation : Result Observation Panic
  unfolding parse provenance_of
  base_observation = do
    instrument_id ← map_err value (Identifier.parse (codes "BTCUSDT.BINANCE"))
    id ← parse u (codes "10000000-0000-4000-8000-000000000011")
    provenance ← provenance_of
    position_id ← map_err value (Identifier.parse (codes "P-197"))
    quantity ← map_err value (Quantity.parse (codes "2.75"))
    quantity_increment ← map_err value (Quantity.parse (codes "0.25"))
    ok (record {
      version = protocol_version;
      id = id;
      created_at = record { nanos = 1_712_400_000_000_000_101 };
      expires_at = record { nanos = 1_712_400_030_000_000_202 };
      grant = record {
        observations = position_summary ∷ instrument_summary ∷ [];
        proposals = Capability.reduce_position ∷ [];
        instruments = instrument_id ∷ [];
        expires_at = record { nanos = 1_712_400_060_000_000_303 };
      };
      provenance = provenance;
      omissions = [];
      retention = RetentionClass.derived;
      payload = live (record {
        positions =
            record {
              position_id = position_id;
              instrument_id = instrument_id;
              side = PositionSide.long;
              quantity = quantity;
              updated_at = record { nanos = 1_712_399_997_000_000_606 };
            }
            ∷ [];
        instruments =
            record { instrument_id = instrument_id; quantity_increment = quantity_increment } ∷ [];
      });
      digest = Digest.new (replicate 32 0);
    })

pub record ObservationBuilder : Type 0 where
  pub observation : Observation

unfoldable pub new : UuidCrate → Result ObservationBuilder Panic
unfolding base_observation
new u = do o ← base_observation u; ok (record { observation = o })

unfoldable pub set_version : ProtocolVersion → ObservationBuilder → ObservationBuilder
set_version v b = record { observation = record b.observation { version = v } }

unfoldable pub set_id : ObservationId → ObservationBuilder → ObservationBuilder
set_id v b = record { observation = record b.observation { id = v } }

unfoldable pub set_created_at : TimestampNs → ObservationBuilder → ObservationBuilder
set_created_at v b = record { observation = record b.observation { created_at = v } }

unfoldable pub set_expires_at : TimestampNs → ObservationBuilder → ObservationBuilder
set_expires_at v b = record { observation = record b.observation { expires_at = v } }

unfoldable pub set_grant : CapabilityGrant → ObservationBuilder → ObservationBuilder
set_grant v b = record { observation = record b.observation { grant = v } }

unfoldable pub set_provenance : List SourceProvenance → ObservationBuilder → ObservationBuilder
set_provenance v b = record { observation = record b.observation { provenance = v } }

unfoldable pub set_omissions : List FieldOmission → ObservationBuilder → ObservationBuilder
set_omissions v b = record { observation = record b.observation { omissions = v } }

unfoldable pub set_retention : RetentionClass → ObservationBuilder → ObservationBuilder
set_retention v b = record { observation = record b.observation { retention = v } }

unfoldable pub set_payload : ObservationPayload → ObservationBuilder → ObservationBuilder
set_payload v b = record { observation = record b.observation { payload = v } }

abbrev pub clear_positions : ObservationPayload → ObservationPayload
clear_positions (live l) = live (record l { positions = [] })

-- `redacted_observation` before the refresh of the digest
unfoldable pub redact : UuidCrate → Observation → Result Observation Panic
unfolding parse FieldPath.parse
redact u o = do
  id ← parse u (codes "10000000-0000-4000-8000-000000000012")
  field ← map_err value (FieldPath.parse (codes "/payload/live/positions"))
  ok (record o {
    id = id;
    payload = clear_positions o.payload;
    omissions = record { field = field; reason = OmissionReason.redacted } ∷ [];
    retention = RetentionClass.restricted;
  })

module _ (c : Canonicalizer ObservationDigest) where
  unfoldable pub build : ObservationBuilder → Result Observation ObservationError
  unfolding refresh_digest validate
  build b = do o ← refresh_digest c b.observation; validate c o; ok o

module _ (u : UuidCrate) (c : Canonicalizer ObservationDigest) where
  unfoldable pub valid_observation : Result Observation Panic
  unfolding build new
  valid_observation = do b ← new u; map_err Panics.observation (build c b)

  unfoldable pub redacted_observation : Result Observation Panic
  unfolding valid_observation redact
  redacted_observation = do
    valid ← valid_observation
    changed ← redact u valid
    o ← map_err Panics.observation (refresh_digest c changed)
    map_err Panics.observation (validate c o)
    ok o

  unfoldable pub expired_observation : Result Observation Panic
  unfolding valid_observation parse
  expired_observation = do
    valid ← valid_observation
    id ← parse u (codes "10000000-0000-4000-8000-000000000013")
    map_err Panics.observation (refresh_digest c (record valid { id = id }))
