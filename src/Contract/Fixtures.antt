-- ===== src/Contract/Fixtures.antt =====
-- The valid fixtures: `valid_fixture_assets` and `decision_receipt`. `serde_json::to_value` on the
-- types of the protocol and the canonical serializer are parameters.
use nautilus_agents.Base.{
  ℕ, false, true, List, [], ◌∷◌, ◌++◌, Option, none, some, Result, ok, ◌>>=◌, ◌>>◌, map_err,
  list_eq, nat_eq,
}
use nautilus_agents.Text.{Text, codes}
use nautilus_agents.Value.Timestamp.{new}
use nautilus_agents.Protocol.Version.{protocol_version}
use nautilus_agents.Protocol.Errors.{DecisionError, ErrorCode}
use nautilus_agents.Protocol.Identity as Identity
use nautilus_agents.Protocol.Identity.{IdentityKind, UuidCrate, UuidIdentity}
use nautilus_agents.Protocol.Live.{LiveProposalRequest}
use nautilus_agents.Protocol.Canonical.{Canonicalizer, to_vec}
use nautilus_agents.Protocol.Observation.{Observation, ObservationDigest, reference}
use nautilus_agents.Protocol.Receipt.{DecisionStatus, DecisionReceipt, ProposalResponse, validate}
use nautilus_agents.Assurance.Trace.{
  AgentTrace, AgentFailureKind, PolicyMetadata, TraceOutcome, proposed, no_proposal, failed,
}
use nautilus_agents.Testing.{valid_observation, redacted_observation}
use nautilus_agents.Testing.Receipts.{padded, add, reduce_position_request, rejection}
use nautilus_agents.Contract.Json.{Value}
use nautilus_agents.Contract.Asset.{Asset}
use nautilus_agents.Contract.Errors.{
  ToolError, library, invalid_identity, invalid_receipt, panicked,
}

-- What a fixture shows.
pub data FixtureValue : Type 0 where
  observation : Observation → FixtureValue
  request : LiveProposalRequest → FixtureValue
  trace : AgentTrace → FixtureValue
  receipt : DecisionReceipt → FixtureValue
  response : ProposalResponse → FixtureValue

abbrev pub policy : PolicyMetadata
policy = record { name = codes "defensive-reducer"; version = codes "policy-3.7.11" }

abbrev pub commit_failure : DecisionError
commit_failure = record {
  code = ErrorCode.commit_failed;
  message = codes "accepted decision was not committed";
  retryable = true;
}

abbrev pub dispatch_failure : DecisionError
dispatch_failure = record {
  code = ErrorCode.dispatch_failed;
  message = codes "dispatch outcome is not yet known";
  retryable = true;
}

abbrev pub checked_receipt : DecisionReceipt → Result DecisionReceipt ToolError
checked_receipt r = do map_err invalid_receipt (validate r); ok r

module _ (u : UuidCrate) where
  unfoldable pub parse : {k : IdentityKind} → Text → Result (UuidIdentity k) ToolError
  parse t = map_err invalid_identity (Identity.parse u t)

  unfoldable pub trace_of : Observation → Text → TraceOutcome → Result AgentTrace ToolError
  unfolding parse
  trace_of full suffix outcome = do
    id ← parse (codes "30000000-0000-4000-8000-" ++ suffix)
    ok (record {
      version = protocol_version;
      trace_id = id;
      observation = reference full;
      policy = policy;
      started_at = new 1_712_400_000_100_000_101;
      completed_at = new 1_712_400_000_200_000_202;
      outcome = outcome;
    })

  unfoldable pub decision_receipt :
      Observation → DecisionStatus → Option DecisionError → ℕ → Result DecisionReceipt ToolError
  unfolding parse
  decision_receipt full status error offset = do
    request_id ← parse (codes "20000000-0000-4000-8000-000000000021")
    intent_id ← parse (codes "40000000-0000-4000-8000-" ++ padded offset)
    correlation_id ← parse (codes "50000000-0000-4000-8000-" ++ padded offset)
    causation_id ← parse (codes "60000000-0000-4000-8000-" ++ padded offset)
    created_at ← map_err panicked (add 1_712_400_001_000_000_707 offset)
    updated_at ← map_err panicked (add 1_712_400_002_000_000_808 offset)
    checked_receipt (record {
      version = protocol_version;
      request_id = request_id;
      observation = reference full;
      intent_id = intent_id;
      status = status;
      error = error;
      correlation = record {
        engine_correlation_id = some correlation_id;
        engine_causation_id = some causation_id;
      };
      created_at = new created_at;
      updated_at = new updated_at;
    })

module _ (canonical : Canonicalizer Value) where
  unfoldable pub fixture_assets : List (Text × Text × Value) → Result (List Asset) ToolError
  unfolding to_vec
  fixture_assets [] = ok []
  fixture_assets ((file, root_type, value) ∷ values) = do
    raw ← map_err library (to_vec canonical value)
    assets ← fixture_assets values
    ok (
        record { path = codes "fixtures/valid/" ++ file; root_type = root_type; bytes = raw }
        ∷ assets)

module _ (u : UuidCrate) (c : Canonicalizer ObservationDigest)
    (to_value : FixtureValue → Result Value Text) where
  abbrev pub value_of : FixtureValue → Result Value ToolError
  value_of v = map_err library (to_value v)

  unfoldable pub fixture_values : Result (List (Text × Text × Value)) ToolError
  unfolding trace_of decision_receipt parse
  fixture_values = do
    full ← map_err panicked (valid_observation u c)
    redacted ← map_err panicked (redacted_observation u c)
    reduce ← map_err panicked (reduce_position_request u c)
    v1 ← value_of (FixtureValue.observation full)
    v2 ← value_of (FixtureValue.observation redacted)
    v3 ← value_of (FixtureValue.request reduce)
    t4 ← trace_of u full (codes "000000000031") no_proposal
    v4 ← value_of (FixtureValue.trace t4)
    t5 ← trace_of u full (codes "000000000032") (proposed reduce.proposal)
    v5 ← value_of (FixtureValue.trace t5)
    t6 ← trace_of u full (codes "000000000033") (
        failed (record {
          kind = AgentFailureKind.timeout;
          message = codes "policy exceeded 250ms timeout";
        }))
    v6 ← value_of (FixtureValue.trace t6)
    t7 ← trace_of u full (codes "000000000034") (
        failed (record {
          kind = AgentFailureKind.policy_error;
          message = codes "required position source was unavailable";
        }))
    v7 ← value_of (FixtureValue.trace t7)
    r8 ← decision_receipt u full DecisionStatus.accepted none 41
    v8 ← value_of (FixtureValue.receipt r8)
    r9 ← decision_receipt u full DecisionStatus.rejected (some rejection) 42
    v9 ← value_of (FixtureValue.receipt r9)
    r10 ← decision_receipt u full DecisionStatus.authorized none 43
    v10 ← value_of (FixtureValue.receipt r10)
    r11 ← decision_receipt u full DecisionStatus.not_dispatched (some commit_failure) 44
    v11 ← value_of (FixtureValue.receipt r11)
    r12 ← decision_receipt u full DecisionStatus.dispatched none 45
    v12 ← value_of (FixtureValue.receipt r12)
    r13 ← decision_receipt u full DecisionStatus.dispatch_unknown (some dispatch_failure) 46
    v13 ← value_of (FixtureValue.receipt r13)
    r14 ← decision_receipt u full DecisionStatus.completed none 47
    v14 ← value_of (FixtureValue.receipt r14)
    id ← parse u (codes "20000000-0000-4000-8000-000000000021")
    v15 ← value_of (
        FixtureValue.response (
          ProposalResponse.error (record {
            request_id = some id;
            code = ErrorCode.forbidden;
            message = codes "principal cannot submit live proposals";
            retryable = false;
          })))
    v16 ← value_of (
        FixtureValue.response (
          ProposalResponse.error (record {
            request_id = none;
            code = ErrorCode.unsupported_version;
            message = codes "protocol major 2 is unsupported";
            retryable = false;
          })))
    ok (
        (codes "full-live-observation.json", codes "Observation", v1)
        ∷ (codes "redacted-observation.json", codes "Observation", v2)
        ∷ (codes "reduce-position-request.json", codes "LiveProposalRequest", v3)
        ∷ (codes "trace-no-proposal.json", codes "AgentTrace", v4)
        ∷ (codes "trace-proposal.json", codes "AgentTrace", v5)
        ∷ (codes "trace-timeout.json", codes "AgentTrace", v6)
        ∷ (codes "trace-policy-failure.json", codes "AgentTrace", v7)
        ∷ (codes "receipt-accepted.json", codes "DecisionReceipt", v8)
        ∷ (codes "receipt-rejected.json", codes "DecisionReceipt", v9)
        ∷ (codes "receipt-authorized.json", codes "DecisionReceipt", v10)
        ∷ (codes "receipt-not-dispatched.json", codes "DecisionReceipt", v11)
        ∷ (codes "receipt-dispatched.json", codes "DecisionReceipt", v12)
        ∷ (codes "receipt-dispatch-unknown.json", codes "DecisionReceipt", v13)
        ∷ (codes "receipt-completed.json", codes "DecisionReceipt", v14)
        ∷ (codes "error-forbidden.json", codes "ProposalResponse", v15)
        ∷ (codes "error-unsupported-version.json", codes "ProposalResponse", v16)
        ∷ [])

  unfoldable pub valid_fixture_assets : Canonicalizer Value → Result (List Asset) ToolError
  unfolding fixture_values fixture_assets
  valid_fixture_assets canonical = do values ← fixture_values; fixture_assets canonical values
