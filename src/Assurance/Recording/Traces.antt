-- ===== src/Assurance/Recording/Traces.antt =====
-- What recording a trace leaves behind.
use nautilus_agents.Base.{ℕ, ◌≡◌, refl, List, [], ◌∷◌, ◌++◌, Result, ok, err, list_eq, nat_eq}
use nautilus_agents.Text.{Text}
use nautilus_agents.Assurance.Trace.{AgentTrace}
use nautilus_agents.Assurance.Disk.{Files}
use nautilus_agents.Assurance.Disk.Triples.{Ends}
use nautilus_agents.Assurance.Recording.{
  TraceRecorder, Environment, trace, record_encoded, record_line, record_trace,
  replace_with_appended_record,
}
use nautilus_agents.Assurance.Recording.Appending.{
  replace-atomic, Appended, Untouched, nothing_done, weaken-Ends,
}

-- A success appended the line of the trace, as the serializer writes it.
abbrev pub AppendedTrace : Environment → TraceRecorder → AgentTrace → Files → Files → Type 0
AppendedTrace env recorder t fs gs =
    (json : List ℕ) × (env.to_vec (trace t) ≡ ok json)
    × Appended recorder.path env.uuid (json ++ 10 ∷ []) fs gs

encoded_trace_rule :
    (env : Environment) (recorder : TraceRecorder) (t : AgentTrace) (fs : Files)
    (r : Result (List ℕ) Text)
    → env.to_vec (trace t) ≡ r
    → Ends
        (AppendedTrace env recorder t fs)
        (Untouched recorder.path env.uuid fs)
        (record_encoded env recorder r fs)
encoded_trace_rule env recorder t fs (err e) h = nothing_done recorder.path env.uuid fs
encoded_trace_rule env recorder t fs (ok json) h =
    let bytes = json ++ 10 ∷ [] in
    weaken-Ends (Appended recorder.path env.uuid bytes fs) (AppendedTrace env recorder t fs)
      (Untouched recorder.path env.uuid fs) (Untouched recorder.path env.uuid fs)
      (replace_with_appended_record env.faults env.uuid recorder.path bytes fs)
      (λ gs a. (json, h, a)) (λ gs a. a) (replace-atomic env.faults env.uuid recorder.path bytes fs)

-- Recording a trace, whatever fails: a success appended its line to the target; an error left the
-- target as it was; and no other file but the temporary one changed.
pub record_trace-Ends :
    (env : Environment) (recorder : TraceRecorder) (t : AgentTrace) (fs : Files)
    → Ends
        (AppendedTrace env recorder t fs)
        (Untouched recorder.path env.uuid fs)
        (record_trace env recorder t fs)
unfolding record_trace record_line
record_trace-Ends env recorder t fs =
    encoded_trace_rule env recorder t fs (env.to_vec (trace t)) refl
