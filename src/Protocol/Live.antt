-- ===== src/Protocol/Live.antt =====
-- src/protocol/live.rs.
use nautilus_agents.Base.{not, List, Option, Result, ok, ◌>>◌, reject_if, list_eq, nat_eq}
use nautilus_agents.Value.Identifier.{InstrumentId, PositionId}
use nautilus_agents.Value.Quantity.{Quantity}
use nautilus_agents.Value.Timestamp.{TimestampNs}
use nautilus_agents.Protocol.Identity.{RequestId, IdempotencyKey, TraceId}
use nautilus_agents.Protocol.Reference.{ObservationRef}
use nautilus_agents.Protocol.Version.{ProtocolVersion, is_supported}

pub data RequestError : Type 0 where
  unsupported_version : ProtocolVersion → RequestError

pub data PositionSide : Type 0 where
  long short : PositionSide

pub record PositionView : Type 0 where
  pub position_id : PositionId
  pub instrument_id : InstrumentId
  pub side : PositionSide
  pub quantity : Quantity
  pub updated_at : TimestampNs

pub record InstrumentView : Type 0 where
  pub instrument_id : InstrumentId
  pub quantity_increment : Quantity

pub record LiveObservation : Type 0 where
  pub positions : List PositionView
  pub instruments : List InstrumentView

pub record ReducePosition : Type 0 where
  pub position_id : PositionId
  pub instrument_id : InstrumentId
  pub quantity : Quantity

pub data LiveIntent : Type 0 where
  reduce_position : ReducePosition → LiveIntent

pub record LiveProposal : Type 0 where
  pub intent : LiveIntent

pub record LiveProposalRequest : Type 0 where
  pub version : ProtocolVersion
  pub request_id : RequestId
  pub idempotency_key : IdempotencyKey
  pub observation : ObservationRef
  pub agent_trace_id : Option TraceId
  pub proposal : LiveProposal

unfoldable pub validate : LiveProposalRequest → Result (Unit {0}) RequestError
unfolding is_supported
validate r = do reject_if (not (is_supported r.version)) (unsupported_version r.version); ok tt
