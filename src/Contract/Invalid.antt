-- ===== src/Contract/Invalid.antt =====
-- `INVALID_FIXTURES`: the fixtures that are kept by hand. The tool lists them and does not write them.
use nautilus_agents.Base.{List, [], ◌∷◌, Option, none, some, list_eq, nat_eq}
use nautilus_agents.Text.{Text, codes}
use nautilus_agents.Protocol.Errors.{ErrorCode}

pub record InvalidFixture : Type 0 where
  pub file : Text
  pub root_type : Text
  pub expected_error : Option ErrorCode

abbrev pub invalid : Text → Text → Option ErrorCode → InvalidFixture
invalid file root_type expected_error = record {
  file = file;
  root_type = root_type;
  expected_error = expected_error;
}

abbrev pub invalid_fixtures : List InvalidFixture
invalid_fixtures =
    invalid (codes "unknown-field.json") (codes "LiveProposalRequest") (some ErrorCode.malformed)
    ∷ invalid (codes "unknown-enum-variant.json") (codes "LiveProposalRequest")
        (some ErrorCode.malformed)
    ∷ invalid (codes "unsupported-protocol-major.json") (codes "LiveProposalRequest")
        (some ErrorCode.unsupported_version)
    ∷ invalid (codes "unsupported-feature.json") (codes "ProtocolInfo")
        (some ErrorCode.unsupported_version)
    ∷ invalid (codes "missing-source-timestamp.json") (codes "Observation")
        (some ErrorCode.malformed)
    ∷ invalid (codes "missing-digest.json") (codes "Observation") (some ErrorCode.malformed)
    ∷ invalid (codes "digest-mismatch.json") (codes "Observation") (some ErrorCode.malformed)
    ∷ invalid (codes "expiry-before-creation.json") (codes "Observation") (some ErrorCode.malformed)
    ∷ invalid (codes "expired-observation.json") (codes "Observation")
        (some ErrorCode.stale_observation)
    ∷ invalid (codes "missing-position-view.json") (codes "ProposalCase") (some ErrorCode.rejected)
    ∷ invalid (codes "missing-instrument-view.json") (codes "ProposalCase")
        (some ErrorCode.rejected)
    ∷ invalid (codes "position-instrument-mismatch.json") (codes "ProposalCase")
        (some ErrorCode.rejected)
    ∷ invalid (codes "zero-quantity.json") (codes "LiveProposalRequest") (some ErrorCode.malformed)
    ∷ invalid (codes "negative-quantity.json") (codes "LiveProposalRequest")
        (some ErrorCode.malformed)
    ∷ invalid (codes "exponent-quantity.json") (codes "LiveProposalRequest")
        (some ErrorCode.malformed)
    ∷ invalid (codes "over-precision-quantity.json") (codes "LiveProposalRequest")
        (some ErrorCode.malformed)
    ∷ invalid (codes "increment-misaligned-quantity.json") (codes "ProposalCase")
        (some ErrorCode.rejected)
    ∷ invalid (codes "client-intent-id.json") (codes "LiveProposalRequest")
        (some ErrorCode.malformed)
    ∷ invalid (codes "lowered-command.json") (codes "LiveProposalRequest")
        (some ErrorCode.malformed)
    ∷ invalid (codes "guardrail-result.json") (codes "LiveProposalRequest")
        (some ErrorCode.malformed)
    ∷ invalid (codes "dispatch-claim.json") (codes "LiveProposalRequest") (some ErrorCode.malformed)
    ∷ invalid (codes "private-authorization-field.json") (codes "LiveProposalRequest")
        (some ErrorCode.malformed)
    ∷ invalid (codes "idempotency-original.json") (codes "LiveProposalRequest") none
    ∷ invalid (codes "idempotency-conflict.json") (codes "LiveProposalRequest")
        (some ErrorCode.idempotency_conflict)
    ∷ []
