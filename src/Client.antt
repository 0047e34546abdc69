-- ===== src/Client.antt =====
-- src/client.rs: the errors of a client, and its interface. A boxed future is what it resolves to,
-- with the transport as a state that is passed on.
use nautilus_agents.Base.{Result, list_eq, nat_eq}
use nautilus_agents.Text.{Text}
use nautilus_agents.Protocol.Identity.{RequestId}
use nautilus_agents.Protocol.Live.{LiveProposalRequest}
use nautilus_agents.Protocol.Receipt.{ProposalResponse}
use nautilus_agents.Protocol.Version.{ProtocolVersion}

pub data ClientError : Type 0 where
  transport decoding : Text → ClientError
  unsupported_version : ProtocolVersion → ClientError

pub record AgentClient (Transport : Type 0) : Type 0 where
  pub submit : LiveProposalRequest → Transport → Result ProposalResponse ClientError × Transport
  pub receipt : RequestId → Transport → Result ProposalResponse ClientError × Transport
