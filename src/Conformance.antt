-- ===== src/Conformance.antt =====
-- src/conformance.rs: the schemas and fixtures that the library embeds. `include_bytes!` is a
-- parameter, the bytes of a file of the repository; so is the reading of the manifest's JSON.
pub mod Order
pub mod Rows
pub mod Agreement
use nautilus_agents.Base.{ℕ, List, [], ◌∷◌, ◌++◌, Option, none, some, Result, ◌>>=◌, map_err}
use nautilus_agents.Text.{Text, codes}
use nautilus_agents.Value.Digest as Digest
use nautilus_agents.Value.Digest.{ContentDigest}
use nautilus_agents.Value.Errors.{ValueError}
use nautilus_agents.Protocol.Version.{ProtocolVersion, protocol_version}
use nautilus_agents.Protocol.Errors.{ErrorCode}

pub record Schema : Type 0 where
  pub name : Text
  pub root_type : Text
  pub bytes : List ℕ

pub data FixtureExpectation : Type 0 where
  valid invalid : FixtureExpectation

pub record Fixture : Type 0 where
  pub name : Text
  pub root_type : Text
  pub bytes : List ℕ
  pub expectation : FixtureExpectation
  pub expected_error : Option ErrorCode

unfoldable pub contract_version : ProtocolVersion
contract_version = protocol_version

-- The two `expect`s: the manifest is no JSON, or its digest has another format.
pub data ContractPanic : Type 0 where
  manifest_json : Text → ContractPanic
  digest_text : ValueError → ContractPanic

module _ (include_bytes : Text → List ℕ) where
  -- `contract_digest_of` gives the text of that field of the manifest.
  unfoldable pub contract_digest : (List ℕ → Result Text Text) → Result ContentDigest ContractPanic
  contract_digest contract_digest_of = do
    text ←
        map_err manifest_json
          (contract_digest_of (include_bytes (codes "contract/v1/manifest.json")))
    map_err digest_text (Digest.parse text)

  abbrev pub schema_table : List Schema
  schema_table =
      record {
        name = codes "agent-trace.schema.json";
        root_type = codes "AgentTrace";
        bytes = include_bytes (codes "contract/v1/schema/agent-trace.schema.json");
      }
      ∷ record {
        name = codes "decision-receipt.schema.json";
        root_type = codes "DecisionReceipt";
        bytes = include_bytes (codes "contract/v1/schema/decision-receipt.schema.json");
      }
      ∷ record {
        name = codes "live-proposal-request.schema.json";
        root_type = codes "LiveProposalRequest";
        bytes = include_bytes (codes "contract/v1/schema/live-proposal-request.schema.json");
      }
      ∷ record {
        name = codes "observation.schema.json";
        root_type = codes "Observation";
        bytes = include_bytes (codes "contract/v1/schema/observation.schema.json");
      }
      ∷ record {
        name = codes "proposal-response.schema.json";
        root_type = codes "ProposalResponse";
        bytes = include_bytes (codes "contract/v1/schema/proposal-response.schema.json");
      }
      ∷ []

  abbrev pub valid_fixture : Text → Text → Fixture
  valid_fixture name root_type = record {
    name = name;
    root_type = root_type;
    bytes = include_bytes (codes "contract/v1/fixtures/valid/" ++ name);
    expectation = FixtureExpectation.valid;
    expected_error = none;
  }

  abbrev pub invalid_fixture : Text → Text → Option ErrorCode → Fixture
  invalid_fixture name root_type error = record {
    name = name;
    root_type = root_type;
    bytes = include_bytes (codes "contract/v1/fixtures/invalid/" ++ name);
    expectation = FixtureExpectation.invalid;
    expected_error = error;
  }

  abbrev pub fixture_table : List Fixture
  fixture_table =
      valid_fixture (codes "error-forbidden.json") (codes "ProposalResponse")
      ∷ valid_fixture (codes "error-unsupported-version.json") (codes "ProposalResponse")
      ∷ valid_fixture (codes "full-live-observation.json") (codes "Observation")
      ∷ valid_fixture (codes "receipt-accepted.json") (codes "DecisionReceipt")
      ∷ valid_fixture (codes "receipt-authorized.json") (codes "DecisionReceipt")
      ∷ valid_fixture (codes "receipt-completed.json") (codes "DecisionReceipt")
      ∷ valid_fixture (codes "receipt-dispatch-unknown.json") (codes "DecisionReceipt")
      ∷ valid_fixture (codes "receipt-dispatched.json") (codes "DecisionReceipt")
      ∷ valid_fixture (codes "receipt-not-dispatched.json") (codes "DecisionReceipt")
      ∷ valid_fixture (codes "receipt-rejected.json") (codes "DecisionReceipt")
      ∷ valid_fixture (codes "redacted-observation.json") (codes "Observation")
      ∷ valid_fixture (codes "reduce-position-request.json") (codes "LiveProposalRequest")
      ∷ valid_fixture (codes "trace-no-proposal.json") (codes "AgentTrace")
      ∷ valid_fixture (codes "trace-policy-failure.json") (codes "AgentTrace")
      ∷ valid_fixture (codes "trace-proposal.json") (codes "AgentTrace")
      ∷ valid_fixture (codes "trace-timeout.json") (codes "AgentTrace")
      ∷ invalid_fixture (codes "client-intent-id.json") (codes "LiveProposalRequest")
          (some ErrorCode.malformed)
      ∷ invalid_fixture (codes "digest-mismatch.json") (codes "Observation")
          (some ErrorCode.malformed)
      ∷ invalid_fixture (codes "dispatch-claim.json") (codes "LiveProposalRequest")
          (some ErrorCode.malformed)
      ∷ invalid_fixture (codes "expired-observation.json") (codes "Observation")
          (some ErrorCode.stale_observation)
      ∷ invalid_fixture (codes "expiry-before-creation.json") (codes "Observation")
          (some ErrorCode.malformed)
      ∷ invalid_fixture (codes "exponent-quantity.json") (codes "LiveProposalRequest")
          (some ErrorCode.malformed)
      ∷ invalid_fixture (codes "guardrail-result.json") (codes "LiveProposalRequest")
          (some ErrorCode.malformed)
      ∷ invalid_fixture (codes "idempotency-conflict.json") (codes "LiveProposalRequest")
          (some ErrorCode.idempotency_conflict)
      ∷ (record {
        name = codes "idempotency-original.json";
        root_type = codes "LiveProposalRequest";
        bytes = include_bytes (codes "contract/v1/fixtures/invalid/idempotency-original.json");
        expectation = FixtureExpectation.valid;
        expected_error = none;
      })
      ∷ invalid_fixture (codes "increment-misaligned-quantity.json") (codes "ProposalCase")
          (some ErrorCode.rejected)
      ∷ invalid_fixture (codes "lowered-command.json") (codes "LiveProposalRequest")
          (some ErrorCode.malformed)
      ∷ invalid_fixture (codes "missing-digest.json") (codes "Observation")
          (some ErrorCode.malformed)
      ∷ invalid_fixture (codes "missing-instrument-view.json") (codes "ProposalCase")
          (some ErrorCode.rejected)
      ∷ invalid_fixture (codes "missing-position-view.json") (codes "ProposalCase")
          (some ErrorCode.rejected)
      ∷ invalid_fixture (codes "missing-source-timestamp.json") (codes "Observation")
          (some ErrorCode.malformed)
      ∷ invalid_fixture (codes "negative-quantity.json") (codes "LiveProposalRequest")
          (some ErrorCode.malformed)
      ∷ invalid_fixture (codes "over-precision-quantity.json") (codes "LiveProposalRequest")
          (some ErrorCode.malformed)
      ∷ invalid_fixture (codes "position-instrument-mismatch.json") (codes "ProposalCase")
          (some ErrorCode.rejected)
      ∷ invalid_fixture (codes "private-authorization-field.json") (codes "LiveProposalRequest")
          (some ErrorCode.malformed)
      ∷ invalid_fixture (codes "unknown-enum-variant.json") (codes "LiveProposalRequest")
          (some ErrorCode.malformed)
      ∷ invalid_fixture (codes "unknown-field.json") (codes "LiveProposalRequest")
          (some ErrorCode.malformed)
      ∷ invalid_fixture (codes "unsupported-feature.json") (codes "ProtocolInfo")
          (some ErrorCode.unsupported_version)
      ∷ invalid_fixture (codes "unsupported-protocol-major.json") (codes "LiveProposalRequest")
          (some ErrorCode.unsupported_version)
      ∷ invalid_fixture (codes "zero-quantity.json") (codes "LiveProposalRequest")
          (some ErrorCode.malformed)
      ∷ []

  unfoldable pub schemas : List Schema
  schemas = schema_table

  unfoldable pub fixtures : List Fixture
  fixtures = fixture_table
