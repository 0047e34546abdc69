-- ===== src/Policies.antt =====
-- examples/defensive_policy.rs, examples/shadow_policy.rs and examples/support/mod.rs: two policies
-- that reduce the first position, and the observation that they are run on. Their futures are ready
-- at once: a future is its result. A failed `unwrap` is a panic.
pub mod Clear
use nautilus_agents.Base.{
  ℕ, Bool, not, List, [], ◌∷◌, replicate, Option, none, some, Result, ok, map_err, ◌>>=◌, ◌>>◌,
  if◌then◌else◌, list_eq, nat_eq,
}
use nautilus_agents.Text.{Text, codes}
use nautilus_agents.Value.Digest as Digest
use nautilus_agents.Value.Digest.{digest_eq}
use nautilus_agents.Value.FieldPath as FieldPath
use nautilus_agents.Value.Identifier as Identifier
use nautilus_agents.Value.Identifier.{identifier_eq}
use nautilus_agents.Value.Quantity as Quantity
use nautilus_agents.Protocol.Identity.{UuidCrate}
use nautilus_agents.Panics as Panics
use nautilus_agents.Panics.{Panic, value, parse}
use nautilus_agents.Value.Quantity.{Quantity, cmp}
use nautilus_agents.Protocol.Capability.{position_summary, instrument_summary, capability_eq}
use nautilus_agents.Protocol.Capability as Capability
use nautilus_agents.Protocol.Canonical.{Canonicalizer}
use nautilus_agents.Protocol.Live.{PositionView, PositionSide, LiveProposal, reduce_position}
use nautilus_agents.Protocol.Version.{protocol_version}
use nautilus_agents.Protocol.Observation.{
  Observation, ObservationDigest, ObservationError, ProvenanceSource, RetentionClass, live,
  positions, validate, refresh_digest,
}
use nautilus_agents.Authoring.Policy.{ProposalDecision, ProposalError, propose, no_proposal}
use nautilus_agents.Authoring.Runner.{Runtime, RunnerConfig, returned, run}
use nautilus_agents.Assurance.Trace.{TraceOutcome, proposed}
use nautilus_agents.Assurance.Advisory.{is_clear, is_greater, evaluate}
use nautilus_agents.Assurance.Shadow as Shadow
use nautilus_agents.Assurance.Shadow.{ShadowResult}

pub record DefensivePolicy : Type 0 where
  pub threshold : Quantity
  pub reduction : Quantity

pub record FixedReductionPolicy : Type 0 where
  pub quantity : Quantity

-- A proposal to reduce a position by a quantity.
abbrev pub reduce : PositionView → Quantity → LiveProposal
reduce position quantity = record {
  intent = reduce_position (record {
    position_id = position.position_id;
    instrument_id = position.instrument_id;
    quantity = quantity;
  });
}

unfoldable pub propose_first : DefensivePolicy → List PositionView → ProposalDecision
propose_first p [] = no_proposal
propose_first p (position ∷ rest) =
    if not (is_greater (cmp position.quantity p.threshold))
    then no_proposal
    else propose (reduce position p.reduction)

unfoldable pub propose_defensive :
    DefensivePolicy → Observation → Result ProposalDecision ProposalError
unfolding propose_first
propose_defensive p o = ok (propose_first p (positions o.payload))

abbrev pub fixed_first : FixedReductionPolicy → List PositionView → ProposalDecision
fixed_first p [] = no_proposal
fixed_first p (position ∷ rest) = propose (reduce position p.quantity)

unfoldable pub propose_fixed :
    FixedReductionPolicy → Observation → Result ProposalDecision ProposalError
propose_fixed p o = ok (fixed_first p (positions o.payload))

-- `live_observation` before the refresh of the digest
unfoldable pub unsigned_observation : UuidCrate → Result Observation Panic
unfolding parse
unsigned_observation u = do
  instrument_id ← map_err value (Identifier.parse (codes "BTCUSDT.BINANCE"))
  id ← parse u (codes "71000000-0000-4000-8000-000000000017")
  positions_path ← map_err value (FieldPath.parse (codes "/payload/live/positions"))
  instruments_path ← map_err value (FieldPath.parse (codes "/payload/live/instruments"))
  position_id ← map_err value (Identifier.parse (codes "POSITION-47"))
  quantity ← map_err value (Quantity.parse (codes "3.75"))
  quantity_increment ← map_err value (Quantity.parse (codes "0.25"))
  ok (record {
    version = protocol_version;
    id = id;
    created_at = record { nanos = 1_712_500_000_000_000_101 };
    expires_at = record { nanos = 1_712_500_030_000_000_202 };
    grant = record {
      observations = position_summary ∷ instrument_summary ∷ [];
      proposals = Capability.reduce_position ∷ [];
      instruments = instrument_id ∷ [];
      expires_at = record { nanos = 1_712_500_060_000_000_303 };
    };
    provenance =
        record {
          field = positions_path;
          source = ProvenanceSource.position_state;
          observed_at = record { nanos = 1_712_499_999_000_000_404 };
          version = some (codes "position-revision-41");
        }
        ∷ record {
          field = instruments_path;
          source = ProvenanceSource.instrument_definition;
          observed_at = record { nanos = 1_712_499_998_000_000_505 };
          version = some (codes "instrument-revision-43");
        }
        ∷ [];
    omissions = [];
    retention = RetentionClass.derived;
    payload = live (record {
      positions =
          record {
            position_id = position_id;
            instrument_id = instrument_id;
            side = PositionSide.long;
            quantity = quantity;
            updated_at = record { nanos = 1_712_499_997_000_000_606 };
          }
          ∷ [];
      instruments =
          record { instrument_id = instrument_id; quantity_increment = quantity_increment } ∷ [];
    });
    digest = Digest.new (replicate 32 0);
  })

unfoldable pub live_observation :
    UuidCrate → Canonicalizer ObservationDigest → Result Observation Panic
unfolding unsigned_observation refresh_digest validate
live_observation u c = do
  unsigned ← unsigned_observation u
  o ← map_err Panics.observation (refresh_digest c unsigned)
  map_err Panics.observation (validate c o)
  ok o

abbrev pub quarter_second : ℕ
quarter_second = 250_000_000

abbrev pub config : Text → Text → RunnerConfig
config name version = record {
  policy = record { name = name; version = version };
  timeout = quarter_second;
}

unfoldable pub defensive : Result DefensivePolicy Panic
unfolding Quantity.parse
defensive = do
  threshold ← map_err value (Quantity.parse (codes "3"))
  reduction ← map_err value (Quantity.parse (codes "1.25"))
  ok (record { threshold = threshold; reduction = reduction })

unfoldable pub fixed_reduction : Text → Result FixedReductionPolicy Panic
unfolding Quantity.parse
fixed_reduction text = do
  quantity ← map_err value (Quantity.parse text)
  ok (record { quantity = quantity })

module _ {World Timer : Type 0}
    (r : Runtime World (Result ProposalDecision ProposalError) Timer) where
  -- A runtime whose policy is this function.
  abbrev pub with_policy :
      (Observation → Result ProposalDecision ProposalError)
      → Runtime World (Result ProposalDecision ProposalError) Timer
  with_policy policy = record r { call_policy = λ o w. (returned (policy o), w) }

  -- What the examples print: whether the report is clear, where there is a proposal.
  abbrev pub report_of :
      Canonicalizer ObservationDigest
      → (ObservationError → Text)
      → Observation
      → TraceOutcome
      → Option Bool
  report_of c show o (proposed proposal) = some (is_clear (evaluate c show o proposal o.created_at))
  report_of c show o TraceOutcome.no_proposal = none
  report_of c show o (TraceOutcome.failed f) = none

  unfoldable pub defensive_main :
      UuidCrate
      → Canonicalizer ObservationDigest
      → (ObservationError → Text)
      → World
      → Result (Option Bool × World) Panic
  unfolding live_observation defensive propose_defensive run evaluate is_clear
  defensive_main u c show w = do
    o ← live_observation u c
    policy ← defensive
    let result =
          run (with_policy (propose_defensive policy))
            (config (codes "defensive-policy") (codes "0.1.0-alpha")) o w in
        ok (report_of c show o result.0.outcome, result.1)

  unfoldable pub shadow_main :
      UuidCrate → Canonicalizer ObservationDigest → World → Result (ShadowResult × World) Panic
  unfolding live_observation fixed_reduction propose_fixed Shadow.evaluate
  shadow_main u c w = do
    baseline ← fixed_reduction (codes "1.25")
    candidate ← fixed_reduction (codes "1.5")
    o ← live_observation u c
    ok (
        Shadow.evaluate (with_policy (propose_fixed baseline))
          (config (codes "baseline-policy") (codes "0.3.0-alpha"))
          (with_policy (propose_fixed candidate))
          (config (codes "candidate-policy") (codes "0.4.0-alpha"))
          (record { name = codes "position-reduction-comparison"; observation = o }) w)
