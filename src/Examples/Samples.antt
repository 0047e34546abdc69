-- ===== src/Examples/Samples.antt =====
-- An observation of one position, a canonical serializer, a reduction, and a policy's runtime.
use nautilus_agents.Base.{
  ℕ, ◌+◌, refl, inl, inr, String, [], ◌∷◌, arith, replicate, ok, list_eq, nat_eq,
}
use nautilus_agents.Text.{Text, codes}
use nautilus_agents.Value.Digest as Digest
use nautilus_agents.Value.Digest.{ContentDigest}
use nautilus_agents.Value.Identifier.{InstrumentId, PositionId}
use nautilus_agents.Value.Quantity.{Quantity}
use nautilus_agents.Value.Timestamp.{TimestampNs}
use nautilus_agents.Protocol.Version.{protocol_version}
use nautilus_agents.Protocol.Capability.{position_summary, instrument_summary}
use nautilus_agents.Protocol.Live.{
  PositionView, InstrumentView, PositionSide, ReducePosition, LiveProposal, reduce_position,
}
use nautilus_agents.Protocol.Canonical.{Canonicalizer}
use nautilus_agents.Protocol.Observation.{
  Observation, ObservationDigest, ObservationError, RetentionClass, live,
}
use nautilus_agents.Protocol.Observation.Spec.{IsValid}
use nautilus_agents.Authoring.Policy.{ProposalDecision}
use nautilus_agents.Authoring.Runner.{Runtime, RunnerConfig, returned, left}

abbrev pub quantity : String → Quantity
quantity s = record { text = codes s }

abbrev pub instrument : InstrumentId
instrument = record { text = codes "ETHUSDT-PERP.BINANCE" }

abbrev pub position : PositionId
position = record { text = codes "P-1" }

abbrev pub at_time : ℕ → TimestampNs
at_time n = record { nanos = n }

-- Every value has one serialization, and every text one hash.
abbrev pub canonicalizer : Canonicalizer ObservationDigest
canonicalizer = record { serialize = λ v. ok []; digest = λ raw. replicate 32 7 }

abbrev pub show_error : ObservationError → Text
show_error e = []

abbrev pub position_view : PositionView
position_view = record {
  position_id = position;
  instrument_id = instrument;
  side = PositionSide.long;
  quantity = quantity "10";
  updated_at = at_time 4;
}

abbrev pub instrument_view : InstrumentView
instrument_view = record { instrument_id = instrument; quantity_increment = quantity "2.5" }

abbrev pub sample : Observation
sample = record {
  version = protocol_version;
  id = record { text = codes "id" };
  created_at = at_time 5;
  expires_at = at_time 9;
  grant = record {
    observations = position_summary ∷ instrument_summary ∷ [];
    proposals = [];
    instruments = instrument ∷ [];
    expires_at = at_time 20;
  };
  provenance = [];
  omissions = [];
  retention = RetentionClass.derived;
  payload = live (record { positions = position_view ∷ []; instruments = instrument_view ∷ [] });
  digest = Digest.new (replicate 32 7);
}

abbrev pub reduction : ReducePosition
reduction = record { position_id = position; instrument_id = instrument; quantity = quantity "7.5" }

abbrev pub proposal : LiveProposal
proposal = record { intent = reduce_position reduction }

pub sample-IsValid : IsValid canonicalizer sample
unfolding nautilus_agents.Protocol.Observation.computed_digest
    nautilus_agents.Protocol.Canonical.sha256
sample-IsValid = record {
  supported = refl;
  lifetime = omega arith;
  grant_lifetime = omega arith;
  position_capability = inr (inl refl);
  instrument_capability = inr (inr (inl refl));
  scoped_positions = (record { granted = inl refl; past = omega arith }, tt);
  distinct_positions = (λ h. h, tt);
  scoped_instruments = (inl refl, tt);
  distinct_instruments = (λ h. h, tt);
  digest = refl;
}

-- A world that is its own time; the policy proposes the reduction at once.
abbrev pub runtime : Runtime ℕ (Unit {0}) (Unit {0})
runtime = record {
  clock = λ w. (at_time w, w + 1);
  trace_id = λ w. (record { text = codes "trace" }, w);
  start_timer = λ d w. (tt, w);
  call_policy = λ o w. (returned tt, w + 1);
  select = λ f t w. (left (returned (ok (ProposalDecision.propose proposal))), w + 1);
  debug_fields = λ fs. [];
}

abbrev pub config : RunnerConfig
config = record {
  policy = record { name = codes "policy"; version = codes "1" };
  timeout = 1_000_000;
}
