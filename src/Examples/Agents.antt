-- ===== src/Examples/Agents.antt =====
-- The theorems on the runner and on shadow evaluation at concrete runtimes.
use nautilus_agents.Base.{
  ℕ, ◌+◌, ◌^◌, ◌≤◌, ◌<◌, ◌≡◌, ◌↔◌, true, List, [], ◌∷◌, ◌++◌, none, some, list_eq, nat_eq,
}
use nautilus_agents.Text.{codes}
use nautilus_agents.Value.Timestamp.{u64_end}
use nautilus_agents.Authoring.Runner.{Runtime, right, system_time, evaluate, run}
use nautilus_agents.Authoring.Runner.Outcome.{Cause, evaluate_iff}
use nautilus_agents.Authoring.Runner.Clock.{elapsed, system_time_bounds}
use nautilus_agents.Authoring.Runner.Events.{
  Event, identified, clock_read, logged, IsEvaluation, run_events,
}
use nautilus_agents.Assurance.Trace.{proposed}
use nautilus_agents.Protocol.Live.{ReducePosition}
use nautilus_agents.Assurance.Shadow as Shadow
use nautilus_agents.Assurance.Shadow.{
  ShadowCase, position_id_path, instrument_id_path, quantity_path, proposal_fields,
  differing_fields, is_match,
}
use nautilus_agents.Assurance.Shadow.Difference.{is_match-evaluate}
use nautilus_agents.Examples.Samples.{quantity, sample, reduction, proposal, runtime, config}

evaluate_iff_example :
    ((evaluate runtime config sample 0).0 ≡ proposed proposal)
    ↔ Cause runtime config sample 0 (proposed proposal)
evaluate_iff_example = evaluate_iff runtime config sample 0 (proposed proposal)

run_events_example :
    let trace = (run runtime config sample 3).0 in
    (calls : List (Event (Unit {0}) (Unit {0}))) × (run (logged runtime) config sample (3, []) ≡ (
      trace,
      (
        (run runtime config sample 3).1,
        clock_read trace.completed_at
            ∷ (calls ++ (clock_read trace.started_at ∷ identified trace.trace_id ∷ [])),
      ),
    ))
    × IsEvaluation runtime config sample calls trace.outcome
run_events_example = run_events runtime config sample 3 []

system_time_bounds_example :
    ((system_time none).nanos < u64_end)
    × ((system_time none).nanos ≤ (system_time (some (2 ^ 70))).nanos)
    × (elapsed none < u64_end → (system_time none).nanos ≡ elapsed none)
    × (u64_end ≤ elapsed none → (system_time none).nanos ≡ 18_446_744_073_709_551_615)
system_time_bounds_example = system_time_bounds none (some (2 ^ 70)) tt

abbrev smaller : ReducePosition
smaller = record reduction { quantity = quantity "5" }

-- The timer comes first.
abbrev slow_runtime : Runtime ℕ (Unit {0}) (Unit {0})
slow_runtime = record runtime { select = λ f t w. (right, w + 1) }

abbrev shadow_case : ShadowCase
shadow_case = record { name = codes "case"; observation = sample }

is_match-evaluate_example :
    (is_match (Shadow.evaluate runtime config slow_runtime config shadow_case 0).0 ≡ true) ↔ (
      (run runtime config sample 0).0.outcome
      ≡ (run slow_runtime config sample (run runtime config sample 0).1).0.outcome)
is_match-evaluate_example = is_match-evaluate runtime config slow_runtime config shadow_case 0
