-- ===== src/Lib.antt =====
-- A model of the agent-side SDK (`src/` of the repository) and the theorems that make it correct.
--
-- The program. A NautilusTrader node hands an agent an observation: views of positions and
-- instruments, scoped by a grant, with a digest over the rest. A policy turns it into a proposal to
-- reduce a position; a runner evaluates the policy under a timeout and leaves a trace; the node
-- answers a request with a receipt. On the agent's side a proposal can be checked before it is sent
-- (advisory validation), two policies can be compared (shadow evaluation), and observations and
-- traces can be recorded.
--
-- The parts, from values up:
--   Base       Boolean tests, lists, results, sets kept as lists, identifiers seen once.
--   Text       Rust texts: code points, with their UTF-8 bytes, and the `str` methods used.
--   Value      src/protocol/value.rs. Quantity has the checks of `Quantity::parse`
--              (`validate_quantity`) and `cmp`, `is_multiple_of` on decimal digits; Decimal has
--              `compare_decimal`, `decimal_remainder`, `subtract_decimal` and `trim_zeroes`;
--              Timestamp, Digest, FieldPath and Identifier have `parse` and the prints.
--   Protocol   src/protocol/identity.rs, version.rs, capability.rs, error.rs, live.rs, canonical.rs,
--              observation.rs and receipt.rs, a module each (Errors for error.rs); Reference holds
--              `ObservationRef`, which live.rs needs of observation.rs.
--   Authoring  src/authoring/policy.rs and runner.rs. What happens outside the runner (clock, random
--              identities, policy, timer, the race of the two futures) is a record Runtime of
--              functions on a world that is passed on; `run` and `evaluate` call it in the order of
--              the source.
--   Assurance  src/assurance/trace.rs, shadow.rs, advisory.rs and recording.rs. Disk has the calls of
--              `std::fs` that recording.rs makes, on files as a state: each call may fail, a write
--              after any number of its bytes.
--   Testing    src/testing.rs: the observation builder and the fixtures of observations; Receipts has
--              the fixtures of requests, traces and receipts. Every `expect` is a call of its parser,
--              and a panic is an error.
--   Contract   tools/contract-schema/src/main.rs, the tool that generates and checks contract/v1.
--              Schemas has `schema_assets`, Fixtures `valid_fixture_assets` and `decision_receipt`,
--              Fields `collect_fields` on JSON values (Json), FieldsFile `fields_bytes`, Invalid the
--              table of the invalid fixtures, Manifest `manifest_bytes`, Files `write_assets` and
--              `check_assets` on the files of a Repository, and Tool `main`.
--   Conformance  src/conformance.rs: the tables of embedded schemas and fixtures, which are compared
--              with the manifest that the tool computes.
--   Client     src/client.rs: the interface of a client and its errors.
--   Panics     what a failed `expect` or `unwrap` of the fixtures and the examples panics with.
--   Policies   examples/defensive_policy.rs, shadow_policy.rs and support/mod.rs: the two policies, run
--              on the observation of the examples.
--   Examples   Concrete inputs.
--
-- Conventions. A method on `&mut self` returns the new value. Errors are values of `Result`. A
-- `BTreeSet` is a list where only membership is asked of it. A `u64` is a natural number below 2^64,
-- with the checks of overflow written out. The field paths that the library names by constants are
-- texts with the proof that the parser accepts them, so that their `expect` does not panic.
--
-- Fuel. The inner loop of `decimal_remainder` has ten rounds for each digit, since the remainder is
-- below ten times the divisor; for a divisor of zero the source would not end, and no quantity is
-- zero. A `u64` is printed with at most twenty digits and the milliseconds of a `Duration` with at
-- most thirty-nine.
--
-- Parameters, with what is assumed of them stated at each theorem: the `uuid` crate's parser and
-- print, the canonical JSON serializer, SHA-256, `schemars`, `serde_json` on the types of the
-- protocol, `include_bytes!`, redactors, policies, and the `Debug` prints of texts and of a list of
-- field paths.
--
-- Not modelled: `serde` and `schemars` glue, printing, and the tests.
-- Recording is modelled without crashes between the calls and without concurrent recorders, which the
-- source excludes as well. The contract tool's files fail by path: a read, a write, or a write that is
-- cut off after some bytes; the messages of its errors are their parts.
pub mod Base
pub mod Text
pub mod Value
pub mod Protocol
pub mod Authoring
pub mod Assurance
pub mod Testing
pub mod Contract
pub mod Conformance
pub mod Client
pub mod Panics
pub mod Policies
pub mod Examples
