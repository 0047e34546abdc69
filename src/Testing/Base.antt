-- ===== src/Testing/Base.antt =====
-- The fields of the observation fixtures, as `base_observation` and `redact` leave them.
use nautilus_agents.Base.{
  ◌≡◌, refl, List, [], ◌∷◌, ◌++◌, replicate, some, Result, ok, ◌>>=◌, map_err, list_eq, nat_eq,
}
use nautilus_agents.Text.{codes}
use nautilus_agents.Value.Digest as Digest
use nautilus_agents.Value.Identifier.{InstrumentId, PositionId}
use nautilus_agents.Protocol.Version.{protocol_version}
use nautilus_agents.Protocol.Capability as Capability
use nautilus_agents.Protocol.Capability.{position_summary, instrument_summary}
use nautilus_agents.Protocol.Identity.{IdentityKind, UuidCrate}
use nautilus_agents.Protocol.Live.{PositionSide}
use nautilus_agents.Protocol.Observation.{
  Observation, SourceProvenance, ProvenanceSource, OmissionReason, RetentionClass, live,
}
use nautilus_agents.Testing.{base_observation, provenance_of, clear_positions, redact}
use nautilus_agents.Testing.Uuids.{ReadsUuids, parse_fixture}

abbrev pub instrument_id : InstrumentId
instrument_id = record { text = codes "BTCUSDT.BINANCE" }

abbrev pub position_id : PositionId
position_id = record { text = codes "P-197" }

abbrev pub base_provenance : List SourceProvenance
base_provenance =
    record {
      field = record { text = codes "/payload/live/positions" };
      source = ProvenanceSource.position_state;
      observed_at = record { nanos = 1_712_399_999_000_000_404 };
      version = some (codes "position-revision-17");
    }
    ∷ record {
      field = record { text = codes "/payload/live/instruments" };
      source = ProvenanceSource.instrument_definition;
      observed_at = record { nanos = 1_712_399_998_000_000_505 };
      version = some (codes "instrument-revision-23");
    }
    ∷ []

abbrev pub base : Observation
base = record {
  version = protocol_version;
  id = record { text = codes "10000000-0000-4000-8000-000000000011" };
  created_at = record { nanos = 1_712_400_000_000_000_101 };
  expires_at = record { nanos = 1_712_400_030_000_000_202 };
  grant = record {
    observations = position_summary ∷ instrument_summary ∷ [];
    proposals = Capability.reduce_position ∷ [];
    instruments = instrument_id ∷ [];
    expires_at = record { nanos = 1_712_400_060_000_000_303 };
  };
  provenance = base_provenance;
  omissions = [];
  retention = RetentionClass.derived;
  payload = live (record {
    positions =
        record {
          position_id = position_id;
          instrument_id = instrument_id;
          side = PositionSide.long;
          quantity = record { text = codes "2.75" };
          updated_at = record { nanos = 1_712_399_997_000_000_606 };
        }
        ∷ [];
    instruments =
        record {
          instrument_id = instrument_id;
          quantity_increment = record { text = codes "0.25" };
        }
        ∷ [];
  });
  digest = Digest.new (replicate 32 0);
}

abbrev pub redacted_of : Observation → Observation
redacted_of o = record o {
  id = record { text = codes "10000000-0000-4000-8000-000000000012" };
  payload = clear_positions o.payload;
  omissions =
      record {
        field = record { text = codes "/payload/live/positions" };
        reason = OmissionReason.redacted;
      }
      ∷ [];
  retention = RetentionClass.restricted;
}

module _ (u : UuidCrate) (reads : ReadsUuids u) where
  -- No `expect` of the base fixture panics: every text is accepted, and kept.
  pub base_observation_ok : base_observation u ≡ ok base
  unfolding base_observation provenance_of nautilus_agents.Value.Identifier.parse
      nautilus_agents.Value.Quantity.parse nautilus_agents.Value.FieldPath.parse
      nautilus_agents.Text.ends_with nautilus_agents.Text.bytes nautilus_agents.Base.list_beq
  base_observation_ok =
      let id =
        parse_fixture u reads {k = IdentityKind.observation} (codes "10000000")
          (codes "000000000011") (refl, refl) (refl, refl) in
      rw id refl

  pub redact_ok : (o : Observation) → redact u o ≡ ok (redacted_of o)
  unfolding redact nautilus_agents.Value.FieldPath.parse
  redact_ok o =
      let id =
        parse_fixture u reads {k = IdentityKind.observation} (codes "10000000")
          (codes "000000000012") (refl, refl) (refl, refl) in
      rw id refl
