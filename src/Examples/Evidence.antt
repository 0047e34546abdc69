-- ===== src/Examples/Evidence.antt =====
-- The theorems on advisory reports and recordings at concrete ones.
use nautilus_agents.Policies.{DefensivePolicy, reduce, propose_defensive}
use nautilus_agents.Policies.Clear.{propose_defensive-clear}
use nautilus_agents.Authoring.Policy.{propose}
use nautilus_agents.Base.{
  ◌≡◌, ◌≢◌, refl, sym, ap, ◌↔◌, inl, inr, true, [], ◌∷◌, ◌++◌, arith, IsMember, none, some, ok,
  list_eq, nat_eq,
}
use nautilus_agents.Text.{codes}
use nautilus_agents.Value.Quantity.Order as Order
use nautilus_agents.Value.Quantity.Pattern.{whole, decimal, positive, digits}
use mathlib.Core.Path.{subst}
use nautilus_agents.Protocol.Live.{PositionView, InstrumentView}
use nautilus_agents.Assurance.Advisory.{is_clear, evaluate, required_segments}
use nautilus_agents.Assurance.Advisory.Needed.{LeadsToNeeded}
use nautilus_agents.Assurance.Advisory.Omissions.{required_segments-LeadsToNeeded}
use nautilus_agents.Assurance.Advisory.Clear.{QuantitiesAreValid, IsFeasible, is_clear-evaluate}
use nautilus_agents.Assurance.Trace.{AgentTrace}
use nautilus_agents.Authoring.Runner.{run}
use nautilus_agents.Assurance.Recording.Traces.{AppendedTrace, record_trace-Ends}
use nautilus_agents.Assurance.Recording.{record_trace}
use nautilus_agents.Examples.Samples.{runtime, config}
use nautilus_agents.Assurance.Disk.{Faults, Files, FileKey, contents, no_faults, utf8_name, other}
use nautilus_agents.Assurance.Disk.Triples.{Ends}
use nautilus_agents.Assurance.Recording.{
  PathBuf, Environment, TraceRecorder, full, path_key, temporary_key, replace_with_appended_record,
  record_observation,
}
use nautilus_agents.Assurance.Recording.Appending.{Appended, Untouched, replace-atomic, replace-ok}
use nautilus_agents.Assurance.Recording.Retention.{
  AppendedPermitted, record_observation-IsPermitted,
}
use nautilus_agents.Examples.Samples.{
  position_view, instrument_view, quantity, canonicalizer, show_error, sample, sample-IsValid,
  reduction, proposal, at_time,
}

ten-IsValid : Order.IsValid (quantity "10")
ten-IsValid =
    whole b'1' (codes "0") (omega arith, omega arith) ((omega arith, omega arith), tt) refl

two_and_a_half-IsValid : Order.IsValid (quantity "2.5")
two_and_a_half-IsValid =
    decimal (codes "2") (codes "5") (positive b'2' [] (omega arith, omega arith) tt refl)
      (digits [] b'5' tt (omega arith) (omega arith, omega arith) refl) refl

seven_and_a_half-IsValid : Order.IsValid (quantity "7.5")
seven_and_a_half-IsValid =
    decimal (codes "7") (codes "5") (positive b'7' [] (omega arith, omega arith) tt refl)
      (digits [] b'5' tt (omega arith) (omega arith, omega arith) refl) refl

sizes_lem : (p : PositionView) → IsMember p (position_view ∷ []) → Order.IsValid p.quantity
sizes_lem p (inl e) =
    subst Order.IsValid (sym (ap (λ (x : PositionView). x.quantity) e)) ten-IsValid
sizes_lem p (inr m) = absurd m

steps_lem :
    (i : InstrumentView) → IsMember i (instrument_view ∷ []) → Order.IsValid i.quantity_increment
steps_lem i (inl e) =
    subst Order.IsValid (sym (ap (λ (x : InstrumentView). x.quantity_increment) e))
      two_and_a_half-IsValid
steps_lem i (inr m) = absurd m

sample-QuantitiesAreValid : QuantitiesAreValid sample
sample-QuantitiesAreValid = record { sizes = sizes_lem; steps = steps_lem }

is_clear-evaluate_example :
    (is_clear (evaluate canonicalizer show_error sample proposal (at_time 8)) ≡ true)
    ↔ IsFeasible canonicalizer sample reduction (at_time 8)
is_clear-evaluate_example =
    is_clear-evaluate canonicalizer show_error sample proposal (at_time 8)
      sample-IsValid.distinct_positions sample-IsValid.distinct_instruments
      sample-QuantitiesAreValid seven_and_a_half-IsValid

required_segments-LeadsToNeeded_example :
    (required_segments (codes "payload" ∷ codes "live" ∷ []) ≡ true)
    ↔ LeadsToNeeded (codes "payload" ∷ codes "live" ∷ [])
required_segments-LeadsToNeeded_example =
    required_segments-LeadsToNeeded (codes "payload" ∷ codes "live" ∷ [])

abbrev path : PathBuf
path = record { parent = some (codes "logs"); file_name = some (utf8_name (codes "agent.jsonl")) }

abbrev no_files : Files
no_files = λ k. none

-- The line is cut after three bytes.
abbrev full_disk : Faults
full_disk = record no_faults {
  write_line = some (3, record { kind = other 28; message = codes "no space" });
}

replace-atomic_example :
    Ends
      (Appended path (codes "uuid") (codes "line") no_files)
      (Untouched path (codes "uuid") no_files)
      (replace_with_appended_record full_disk (codes "uuid") path (codes "line") no_files)
replace-atomic_example = replace-atomic full_disk (codes "uuid") path (codes "line") no_files

replace-ok_example :
    let done = replace_with_appended_record no_faults (codes "uuid") path (codes "line") no_files in
    let temporary = temporary_key path (codes "agent.jsonl") (codes "uuid") in
    (done.1 ≡ ok tt)
    × (done.0 (path_key path) ≡ some (contents (no_files (path_key path)) ++ codes "line"))
    × (done.0 temporary ≡ none)
    × ((k : FileKey) → k ≢ path_key path → k ≢ temporary → done.0 k ≡ no_files k)
replace-ok_example =
    replace-ok (codes "uuid") path (codes "agent.jsonl") (codes "line") no_files refl refl

abbrev environment : Environment
environment = record { to_vec = λ r. ok (codes "{}"); uuid = codes "uuid"; faults = no_faults }

abbrev recorder : TraceRecorder
recorder = record { path = path; config = record { observation_capture = full }; redactor = none }

record_observation-IsPermitted_example :
    Ends
      (AppendedPermitted canonicalizer show_error recorder sample environment no_files)
      (Untouched path (codes "uuid") no_files)
      (record_observation canonicalizer show_error environment recorder sample no_files)
record_observation-IsPermitted_example =
    record_observation-IsPermitted canonicalizer show_error recorder sample environment no_files

abbrev sample_trace : AgentTrace
sample_trace = (run runtime config sample 0).0

record_trace-Ends_example :
    Ends
      (AppendedTrace environment recorder sample_trace no_files)
      (Untouched path (codes "uuid") no_files)
      (record_trace environment recorder sample_trace no_files)
record_trace-Ends_example = record_trace-Ends environment recorder sample_trace no_files

abbrev policy : DefensivePolicy
policy = record { threshold = quantity "7.5"; reduction = quantity "7.5" }

proposes : propose_defensive policy sample ≡ ok (propose (reduce position_view (quantity "7.5")))
unfolding propose_defensive nautilus_agents.Value.Quantity.cmp nautilus_agents.Text.bytes
proposes = refl

propose_defensive-clear_example :
    is_clear (
      evaluate canonicalizer show_error sample
        (reduce position_view (quantity "7.5"))
        sample.created_at)
    ≡ true
unfolding nautilus_agents.Value.Quantity.Units.units
propose_defensive-clear_example =
    propose_defensive-clear canonicalizer show_error policy sample position_view [] instrument_view
      3 (reduce position_view (quantity "7.5")) sample-IsValid sample-QuantitiesAreValid
      seven_and_a_half-IsValid seven_and_a_half-IsValid refl (inl refl) refl (omega arith) refl tt
      proposes
