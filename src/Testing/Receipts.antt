-- ===== src/Testing/Receipts.antt =====
-- src/testing.rs: the fixtures of requests, traces and receipts. A failed `expect` and an addition
-- beyond `u64` are panics.
pub mod Returns
pub mod Request
use nautilus_agents.Base.{
  ℕ, ◌+◌, ◌-◌, false, [], ◌++◌, leb, length, replicate, Option, none, some, Result, ok, ◌>>=◌, ◌>>◌,
  reject_if, map_err, list_eq, nat_eq,
}
use nautilus_agents.Text.{Text, codes}
use nautilus_agents.Value.Identifier as Identifier
use nautilus_agents.Value.Quantity as Quantity
use nautilus_agents.Value.Timestamp.{u64_end, u64_digits, new, emit}
use nautilus_agents.Protocol.Version.{protocol_version}
use nautilus_agents.Protocol.Errors.{DecisionError, ErrorCode}
use nautilus_agents.Protocol.Identity as Identity
use nautilus_agents.Protocol.Identity.{UuidCrate, parse_key}
use nautilus_agents.Protocol.Live.{LiveProposalRequest, reduce_position}
use nautilus_agents.Protocol.Canonical.{Canonicalizer}
use nautilus_agents.Protocol.Observation.{ObservationDigest, reference}
use nautilus_agents.Protocol.Receipt.{DecisionStatus, DecisionReceipt, ProposalResponse, validate}
use nautilus_agents.Assurance.Trace.{AgentTrace, proposed}
use nautilus_agents.Panics.{Panic, identity, value, receipt, overflow, parse}
use nautilus_agents.Testing.{valid_observation}

-- `{offset:012}`
unfoldable pub padded : ℕ → Text
unfolding emit
padded offset =
    let digits = emit u64_digits offset [] in replicate (12 - length digits) b'0' ++ digits

-- `+` of two `u64`
unfoldable pub add : ℕ → ℕ → Result ℕ Panic
add a b = do reject_if (leb u64_end (a + b)) overflow; ok (a + b)

-- The receipt behind its validation.
unfoldable pub validated : DecisionReceipt → Result DecisionReceipt Panic
validated built = do map_err receipt (validate built); ok built

abbrev pub rejection : DecisionError
rejection = record {
  code = ErrorCode.rejected;
  message = codes "fresh position state no longer permits the proposal";
  retryable = false;
}

module _ (u : UuidCrate) (c : Canonicalizer ObservationDigest) where
  unfoldable pub reduce_position_request : Result LiveProposalRequest Panic
  unfolding parse
  reduce_position_request = do
    valid ← valid_observation u c
    request_id ← parse u (codes "20000000-0000-4000-8000-000000000021")
    key ← map_err identity (parse_key (codes "principal-proposal-29"))
    trace_id ← parse u (codes "30000000-0000-4000-8000-000000000031")
    position_id ← map_err value (Identifier.parse (codes "P-197"))
    instrument_id ← map_err value (Identifier.parse (codes "BTCUSDT.BINANCE"))
    quantity ← map_err value (Quantity.parse (codes "1.25"))
    ok (record {
      version = protocol_version;
      request_id = request_id;
      idempotency_key = key;
      observation = reference valid;
      agent_trace_id = some trace_id;
      proposal = record {
        intent = reduce_position (record {
          position_id = position_id;
          instrument_id = instrument_id;
          quantity = quantity;
        });
      };
    })

  unfoldable pub proposal_trace : Result AgentTrace Panic
  unfolding reduce_position_request
  proposal_trace = do
    request ← reduce_position_request
    trace_id ← parse u (codes "30000000-0000-4000-8000-000000000032")
    ok (record {
      version = protocol_version;
      trace_id = trace_id;
      observation = request.observation;
      policy = record { name = codes "defensive-reducer"; version = codes "policy-3.7.11" };
      started_at = new 1_712_400_000_100_000_101;
      completed_at = new 1_712_400_000_200_000_202;
      outcome = proposed request.proposal;
    })

  unfoldable pub receipt_of :
      DecisionStatus → Option DecisionError → ℕ → Result DecisionReceipt Panic
  unfolding parse padded add validated
  receipt_of status error offset = do
    request_id ← parse u (codes "20000000-0000-4000-8000-000000000021")
    valid ← valid_observation u c
    intent_id ← parse u (codes "40000000-0000-4000-8000-" ++ padded offset)
    correlation_id ← parse u (codes "50000000-0000-4000-8000-" ++ padded offset)
    causation_id ← parse u (codes "60000000-0000-4000-8000-" ++ padded offset)
    created_at ← add 1_712_400_001_000_000_707 offset
    updated_at ← add 1_712_400_002_000_000_808 offset
    validated (record {
      version = protocol_version;
      request_id = request_id;
      observation = reference valid;
      intent_id = intent_id;
      status = status;
      error = error;
      correlation = record {
        engine_correlation_id = some correlation_id;
        engine_causation_id = some causation_id;
      };
      created_at = new created_at;
      updated_at = new updated_at;
    })

  unfoldable pub accepted_receipt : Result DecisionReceipt Panic
  unfolding receipt_of
  accepted_receipt = receipt_of DecisionStatus.accepted none 41

  unfoldable pub rejected_response : Result ProposalResponse Panic
  unfolding receipt_of
  rejected_response = do
    r ← receipt_of DecisionStatus.rejected (some rejection) 42
    ok (ProposalResponse.receipt r)
