-- ===== src/Authoring/Runner/Outcome.antt =====
-- Each outcome has exactly its cause: what the policy, the race and the panic payload were.
use mathlib.Core.Path.{subst}
use nautilus_agents.Base.{
  ◌≡◌, refl, sym, ap, ◌∙◌, ◌↔◌, ◌⊎◌, inl, inr, Result, ok, err, list_eq, nat_eq,
}
use nautilus_agents.Text.{Text}
use nautilus_agents.Protocol.Observation.{Observation}
use nautilus_agents.Authoring.Policy.{
  ProposalDecision, ProposalError, propose, no_proposal, error_text,
}
use nautilus_agents.Assurance.Trace.{
  AgentFailureKind, TraceOutcome, policy_error, timeout, panic, proposed, failed,
}
use nautilus_agents.Authoring.Runner.{
  PanicPayload, Caught, returned, panicked, Either, left, right, RunnerConfig, Runtime,
  timeout_message, panic_message, panic_outcome, select_outcome, await_policy, evaluate,
}

module _ {World PolicyFuture Timer : Type 0} (r : Runtime World PolicyFuture Timer)
    (config : RunnerConfig) (o : Observation) (w : World) where
  -- The result of the race of the policy's future with the timer started behind the call.
  abbrev pub race : PolicyFuture → World → Either (Caught (Result ProposalDecision ProposalError))
  race future w1 = let (timer, w2) = r.start_timer config.timeout w1 in (r.select future timer w2).0

  -- The call of the policy returned a future, and its race had this result.
  pub record Raced (result : Either (Caught (Result ProposalDecision ProposalError))) : Type 0 where
    pub future : PolicyFuture
    pub after : World
    pub called : r.call_policy o w ≡ (returned future, after)
    pub won : race future after ≡ result

  -- A panic came from the call itself, or from the future.
  abbrev pub Panics : PanicPayload → Type 0
  Panics payload =
      ((w1 : World) × (r.call_policy o w ≡ (panicked payload, w1)))
      ⊎ Raced (left (panicked payload))

  abbrev FailureCause : AgentFailureKind → Text → Type 0
  FailureCause policy_error m =
      (e : ProposalError) × (m ≡ error_text r.debug_fields e) × Raced (left (returned (err e)))
  FailureCause timeout m = (m ≡ timeout_message config.timeout) × Raced right
  FailureCause panic m = (p : PanicPayload) × (m ≡ panic_message p) × Panics p

  abbrev pub Cause : TraceOutcome → Type 0
  Cause (proposed p) = Raced (left (returned (ok (propose p))))
  Cause TraceOutcome.no_proposal = Raced (left (returned (ok no_proposal)))
  Cause (failed f) = FailureCause f.kind f.message

  result-Cause :
      (result : Either (Caught (Result ProposalDecision ProposalError)))
      → Raced result
      → Cause (select_outcome r.debug_fields config.timeout result)
  unfolding select_outcome
  result-Cause (left (returned (ok (propose p)))) h = h
  result-Cause (left (returned (ok ProposalDecision.no_proposal))) h = h
  result-Cause (left (returned (err e))) h = (e, refl, h)
  result-Cause (left (panicked p)) h = (p, refl, inr h)
  result-Cause right h = (refl, h)

  await_outcome :
      (future : PolicyFuture) (w1 : World)
      → (await_policy r config (returned future) w1).0
        ≡ select_outcome r.debug_fields config.timeout (race future w1)
  unfolding await_policy
  await_outcome future w1 = refl

  call-Cause :
      (c : Caught PolicyFuture) (w1 : World)
      → r.call_policy o w ≡ (c, w1)
      → Cause (await_policy r config c w1).0
  call-Cause (returned future) w1 e = rw (await_outcome future w1) (
      result-Cause (race future w1)
        (record { future = future; after = w1; called = e; won = refl }))
  call-Cause (panicked p) w1 e = unfold await_policy panic_outcome in (p, refl, inl (w1, e))

  -- The outcome of an evaluation has its cause.
  evaluate-Cause : Cause (evaluate r config o w).0
  unfolding evaluate
  evaluate-Cause = let (c, w1) = r.call_policy o w in call-Cause c w1 refl

  Raced-outcome :
      (result : Either (Caught (Result ProposalDecision ProposalError)))
      → Raced result
      → (evaluate r config o w).0 ≡ select_outcome r.debug_fields config.timeout result
  unfolding evaluate
  Raced-outcome result h =
      rw h.called
        (await_outcome h.future h.after ∙ ap (select_outcome r.debug_fields config.timeout) h.won)

  panicked_outcome : (p : PanicPayload) → Panics p → (evaluate r config o w).0 ≡ panic_outcome p
  unfolding evaluate
  panicked_outcome p (inl (w1, e)) = rw e
  panicked_outcome p (inr h) = unfold select_outcome in Raced-outcome (left (panicked p)) h

  Cause-outcome : (x : TraceOutcome) → Cause x → (evaluate r config o w).0 ≡ x
  unfolding select_outcome panic_outcome
  Cause-outcome (proposed p) h = Raced-outcome (left (returned (ok (propose p)))) h
  Cause-outcome TraceOutcome.no_proposal h = Raced-outcome (left (returned (ok no_proposal))) h
  Cause-outcome (failed f) h = failed_by f.kind f.message h
    where
      failed_by :
          (k : AgentFailureKind) (m : Text)
          → FailureCause k m
          → (evaluate r config o w).0 ≡ failed (record { kind = k; message = m })
      failed_by policy_error m (e, q, h) =
          Raced-outcome (left (returned (err e))) h
          ∙ ap (λ t. failed (record { kind = policy_error; message = t })) (sym q)
      failed_by timeout m (q, h) =
          Raced-outcome right h ∙ ap (λ t. failed (record { kind = timeout; message = t })) (sym q)
      failed_by panic m (p, q, h) =
          panicked_outcome p h ∙ ap (λ t. failed (record { kind = panic; message = t })) (sym q)

  -- An evaluation has an outcome exactly when its cause happened: a proposal or none from the
  -- policy's future, its error, the timer coming first, or a panic of the call or of the future.
  pub evaluate_iff : (x : TraceOutcome) → ((evaluate r config o w).0 ≡ x) ↔ Cause x
  evaluate_iff x = (λ e. subst Cause e evaluate-Cause, Cause-outcome x)
