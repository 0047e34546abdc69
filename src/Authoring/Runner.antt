-- ===== src/Authoring/Runner.antt =====
-- src/authoring/runner.rs. What happens outside the runner is a world that is passed on: the clock,
-- fresh trace identities, the policy, the timer, and the race of the two futures.
pub mod Outcome
pub mod Clock
pub mod Events
use nautilus_agents.Base.{
  ℕ, ◌+◌, ◌-◌, ◌/◌, List, ◌++◌, ltb, if◌then◌else◌, Option, none, some, Result, ok, err,
}
use nautilus_agents.Text.{Text, codes}
use nautilus_agents.Value.FieldPath.{FieldPath}
use nautilus_agents.Value.Timestamp.{TimestampNs, u64_end, emit}
use nautilus_agents.Protocol.Identity.{TraceId}
use nautilus_agents.Protocol.Observation.{Observation, reference}
use nautilus_agents.Protocol.Version.{protocol_version}
use nautilus_agents.Authoring.Policy.{
  ProposalDecision, ProposalError, propose, no_proposal, error_text,
}
use nautilus_agents.Assurance.Trace.{
  AgentTrace, TraceOutcome, PolicyMetadata, policy_error, timeout, panic, proposed, failed,
}

-- The value that a panic carries: a `&str`, a `String`, or something else.
pub data PanicPayload : Type 0 where
  str : Text → PanicPayload
  string : Text → PanicPayload
  other : PanicPayload

-- What `catch_unwind` gives.
pub data Caught (A : Type 0) : Type 0 where
  returned : A → Caught A
  panicked : PanicPayload → Caught A

-- What `select` gives: the policy's future first, or the timer.
pub data Either (A : Type 0) : Type 0 where
  left : A → Either A
  right : Either A

-- The timeout in nanoseconds.
pub record RunnerConfig : Type 0 where
  pub policy : PolicyMetadata
  pub timeout : ℕ

-- The policy, the runtime and the executor, over a world. `select` awaits the race of the policy's
-- future, under `catch_unwind`, with the timer.
pub record Runtime (World PolicyFuture Timer : Type 0) : Type 0 where
  pub clock : World → TimestampNs × World
  pub trace_id : World → TraceId × World
  pub start_timer : ℕ → World → Timer × World
  pub call_policy : Observation → World → Caught PolicyFuture × World
  pub select :
      PolicyFuture → Timer → World → Either (Caught (Result ProposalDecision ProposalError)) × World
  pub debug_fields : List FieldPath → Text

-- `Duration::as_millis`
abbrev pub as_millis : ℕ → ℕ
as_millis duration = duration / 1_000_000

-- A `u128` has at most 39 digits.
unfoldable pub timeout_message : ℕ → Text
unfolding emit
timeout_message duration =
    codes "policy evaluation timed out after " ++ emit 39 (as_millis duration) (codes " ms")

-- `panic_outcome`
unfoldable pub panic_message : PanicPayload → Text
panic_message (str message) = message
panic_message (string message) = message
panic_message other = codes "policy panicked"

unfoldable pub panic_outcome : PanicPayload → TraceOutcome
unfolding panic_message
panic_outcome payload = failed (record { kind = panic; message = panic_message payload })

-- The match on the result of the policy's future.
unfoldable pub result_outcome :
    (List FieldPath → Text) → Caught (Result ProposalDecision ProposalError) → TraceOutcome
unfolding panic_outcome error_text
result_outcome debug (returned (ok (propose proposal))) = proposed proposal
result_outcome debug (returned (ok ProposalDecision.no_proposal)) = TraceOutcome.no_proposal
result_outcome debug (returned (err e)) =
    failed (record { kind = policy_error; message = error_text debug e })
result_outcome debug (panicked payload) = panic_outcome payload

unfoldable pub select_outcome :
    (List FieldPath → Text)
    → ℕ
    → Either (Caught (Result ProposalDecision ProposalError))
    → TraceOutcome
unfolding result_outcome timeout_message
select_outcome debug duration (left result) = result_outcome debug result
select_outcome debug duration right =
    failed (record { kind = timeout; message = timeout_message duration })

-- `SystemTime::now()` since the epoch in nanoseconds, `none` before the epoch.
unfoldable pub system_time : Option ℕ → TimestampNs
system_time none = record { nanos = 0 }
system_time (some n) = record { nanos = if ltb n u64_end then n else u64_end - 1 }

module _ {World PolicyFuture Timer : Type 0} (r : Runtime World PolicyFuture Timer) where
  -- Behind the call of the policy.
  unfoldable pub await_policy : RunnerConfig → Caught PolicyFuture → World → TraceOutcome × World
  unfolding panic_outcome select_outcome
  await_policy config (panicked payload) w = (panic_outcome payload, w)
  await_policy config (returned future) w =
      let (timer, w1) = r.start_timer config.timeout w in
      let (result, w2) = r.select future timer w1 in
      (select_outcome r.debug_fields config.timeout result, w2)

  unfoldable pub evaluate : RunnerConfig → Observation → World → TraceOutcome × World
  unfolding await_policy
  evaluate config o w = let (future, w1) = r.call_policy o w in await_policy config future w1

  unfoldable pub run : RunnerConfig → Observation → World → AgentTrace × World
  unfolding evaluate
  run config o w =
      let (trace, w1) = r.trace_id w in
      let (started, w2) = r.clock w1 in
      let (outcome, w3) = evaluate config o w2 in
      let (completed, w4) = r.clock w3 in
      (
        record {
          version = protocol_version;
          trace_id = trace;
          observation = reference o;
          policy = config.policy;
          started_at = started;
          completed_at = completed;
          outcome = outcome;
        },
        w4,
      )
