-- ===== src/Authoring/Runner/Events.antt =====
-- The order in which a run calls what is outside of it.
use nautilus_agents.Base.{ℕ, ◌≡◌, refl, ap, List, [], ◌∷◌, ◌++◌, Result, list_eq, nat_eq}
use nautilus_agents.Value.Timestamp.{TimestampNs}
use nautilus_agents.Protocol.Identity.{TraceId}
use nautilus_agents.Protocol.Observation.{Observation, reference}
use nautilus_agents.Authoring.Policy.{ProposalDecision, ProposalError}
use nautilus_agents.Assurance.Trace.{AgentTrace, TraceOutcome}
use nautilus_agents.Protocol.Version.{protocol_version}
use nautilus_agents.Authoring.Runner.{
  PanicPayload, Caught, Either, returned, panicked, RunnerConfig, Runtime, panic_outcome,
  select_outcome, await_policy, evaluate, run,
}

-- A call, with its arguments and its result.
pub data Event (PolicyFuture Timer : Type 0) : Type 0 where
  identified : TraceId → Event PolicyFuture Timer
  clock_read : TimestampNs → Event PolicyFuture Timer
  policy_called : Observation → Caught PolicyFuture → Event PolicyFuture Timer
  timer_started : ℕ → Timer → Event PolicyFuture Timer
  selected :
      PolicyFuture
      → Timer
      → Either (Caught (Result ProposalDecision ProposalError))
      → Event PolicyFuture Timer

module _ {World PolicyFuture Timer : Type 0} (r : Runtime World PolicyFuture Timer) where
  -- The world, with the calls so far, the last one first.
  abbrev pub Logged : Type 0
  Logged = World × List (Event PolicyFuture Timer)

  abbrev log_clock : Logged → TimestampNs × Logged
  log_clock (w, es) = ((r.clock w).0, ((r.clock w).1, clock_read (r.clock w).0 ∷ es))

  abbrev log_trace_id : Logged → TraceId × Logged
  log_trace_id (w, es) = ((r.trace_id w).0, ((r.trace_id w).1, identified (r.trace_id w).0 ∷ es))

  abbrev log_timer : ℕ → Logged → Timer × Logged
  log_timer d (w, es) =
      ((r.start_timer d w).0, ((r.start_timer d w).1, timer_started d (r.start_timer d w).0 ∷ es))

  abbrev log_policy : Observation → Logged → Caught PolicyFuture × Logged
  log_policy o (w, es) =
      ((r.call_policy o w).0, ((r.call_policy o w).1, policy_called o (r.call_policy o w).0 ∷ es))

  abbrev log_select :
      PolicyFuture
      → Timer
      → Logged
      → Either (Caught (Result ProposalDecision ProposalError)) × Logged
  log_select f t (w, es) =
      ((r.select f t w).0, ((r.select f t w).1, selected f t (r.select f t w).0 ∷ es))

  -- The runtime that also writes down its calls.
  abbrev pub logged : Runtime Logged PolicyFuture Timer
  logged = record {
    clock = log_clock;
    trace_id = log_trace_id;
    start_timer = log_timer;
    call_policy = log_policy;
    select = log_select;
    debug_fields = r.debug_fields;
  }

  -- The calls of an evaluation, the last one first, and its outcome: the policy is called once, and
  -- where that returns a future, one timer is started for the timeout and races this future.
  pub data IsEvaluation (config : RunnerConfig) (o : Observation)
      : List (Event PolicyFuture Timer) → TraceOutcome → Type 0 where
    creation_panicked :
        (p : PanicPayload)
        → IsEvaluation config o (policy_called o (panicked p) ∷ []) (panic_outcome p)
    raced :
        (f : PolicyFuture) (t : Timer)
        (result : Either (Caught (Result ProposalDecision ProposalError)))
        → IsEvaluation config o
            (selected f t result
              ∷ timer_started config.timeout t
              ∷ policy_called o (returned f)
              ∷ [])
            (select_outcome r.debug_fields config.timeout result)

  -- Behind the call of the policy.
  await_events :
      (config : RunnerConfig) (o : Observation) (c : Caught PolicyFuture) (w : World)
      (es : List (Event PolicyFuture Timer))
      → (calls : List (Event PolicyFuture Timer)) × (await_policy logged config c
            (w, policy_called o c ∷ es)
          ≡ ((await_policy r config c w).0, ((await_policy r config c w).1, calls ++ es)))
        × IsEvaluation config o calls (await_policy r config c w).0
  unfolding await_policy
  await_events config o (panicked p) w es =
      (policy_called o (panicked p) ∷ [], refl, creation_panicked p)
  await_events config o (returned f) w es =
      let (t, w1) = r.start_timer config.timeout w in
      let result = (r.select f t w1).0 in
      (
        selected f t result ∷ timer_started config.timeout t ∷ policy_called o (returned f) ∷ [],
        refl,
        raced f t result,
      )

  -- Writing the calls down changes neither the trace nor the world. A run makes exactly these calls, in
  -- this order: one fresh identity and one reading of the clock, which the trace holds as its own and as
  -- its start; the calls of one evaluation on the observation, with the outcome of the trace; and one
  -- more reading, which the trace holds as its completion.
  pub run_events :
      (config : RunnerConfig) (o : Observation) (w : World) (es : List (Event PolicyFuture Timer))
      → let trace = (run r config o w).0 in
        (calls : List (Event PolicyFuture Timer)) × (run logged config o (w, es) ≡ (
          trace,
          (
            (run r config o w).1,
            clock_read trace.completed_at
                ∷ (calls ++ (clock_read trace.started_at ∷ identified trace.trace_id ∷ es)),
          ),
        ))
        × IsEvaluation config o calls trace.outcome
  unfolding run evaluate
  run_events config o w es =
      let (trace_id, w1) = r.trace_id w in
      let (started, w2) = r.clock w1 in
      let (c, w3) = r.call_policy o w2 in
      let (calls, same, evaluated) =
        await_events config o c w3 (clock_read started ∷ identified trace_id ∷ es) in
      let finish : TraceOutcome × Logged → AgentTrace × Logged = λ x.
        let (completed, after) = log_clock x.1 in
        (
          record {
            version = protocol_version;
            trace_id = trace_id;
            observation = reference o;
            policy = config.policy;
            started_at = started;
            completed_at = completed;
            outcome = x.0;
          },
          after,
        ) in
      (calls, ap finish same, evaluated)
