-- ===== src/Assurance/Trace.antt =====
-- src/assurance/trace.rs.
use nautilus_agents.Base.{list_eq, nat_eq}
use nautilus_agents.Text.{Text}
use nautilus_agents.Value.Timestamp.{TimestampNs}
use nautilus_agents.Protocol.Identity.{TraceId}
use nautilus_agents.Protocol.Live.{LiveProposal}
use nautilus_agents.Protocol.Reference.{ObservationRef}
use nautilus_agents.Protocol.Version.{ProtocolVersion}

pub record PolicyMetadata : Type 0 where
  pub name : Text
  pub version : Text

pub data AgentFailureKind : Type 0 where
  policy_error timeout panic : AgentFailureKind

pub record AgentFailure : Type 0 where
  pub kind : AgentFailureKind
  pub message : Text

pub data TraceOutcome : Type 0 where
  proposed : LiveProposal → TraceOutcome
  no_proposal : TraceOutcome
  failed : AgentFailure → TraceOutcome

pub record AgentTrace : Type 0 where
  pub version : ProtocolVersion
  pub trace_id : TraceId
  pub observation : ObservationRef
  pub policy : PolicyMetadata
  pub started_at : TimestampNs
  pub completed_at : TimestampNs
  pub outcome : TraceOutcome
