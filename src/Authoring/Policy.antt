-- ===== src/Authoring/Policy.antt =====
-- src/authoring/policy.rs. A policy is called with an observation and returns a future, or unwinds;
-- the future's type is a parameter.
use nautilus_agents.Base.{List, ◌++◌, list_eq, nat_eq}
use nautilus_agents.Text.{Text, codes}
use nautilus_agents.Value.FieldPath.{FieldPath}
use nautilus_agents.Protocol.Live.{LiveProposal}

pub data ProposalDecision : Type 0 where
  propose : LiveProposal → ProposalDecision
  no_proposal : ProposalDecision

pub data ProposalError : Type 0 where
  insufficient_observation : List FieldPath → ProposalError
  internal : Text → ProposalError

-- `to_string`; the `Debug` print of the fields is derived code, and a parameter.
unfoldable pub error_text : (List FieldPath → Text) → ProposalError → Text
error_text debug (insufficient_observation fields) =
    codes "observation lacks required fields: " ++ debug fields
error_text debug (internal message) = message
