-- ===== src/Assurance/Recording.antt =====
-- src/assurance/recording.rs: retention-aware recording of traces and observations.
pub mod Appending
pub mod Retention
pub mod Traces
use nautilus_agents.Base.{
  ℕ, ◌+◌, ◌-◌, Bool, true, false, List, [], ◌∷◌, ◌++◌, if◌then◌else◌, Option, none, some, Result,
  ok, err, ◌>>=◌, ◌>>◌, reject_if, map_err, list_eq, nat_eq, list_beq,
}
use nautilus_agents.Text.{Text, codes}
use nautilus_agents.Protocol.Canonical.{Canonicalizer}
use nautilus_agents.Protocol.Observation.{
  Observation, ObservationDigest, ObservationError, RetentionClass, restricted, validate, reference,
}
use nautilus_agents.Protocol.Reference.{ObservationRef}
use nautilus_agents.Assurance.Trace.{AgentTrace}
use nautilus_agents.Assurance.Disk.{
  ErrorKind, not_found, invalid_input, IoError, OsName, utf8_name, FileKey, Files, Faults, Io,
  read_file, create_new, write_all, sync_all, rename_file, remove_file, and_then,
}

pub data ObservationCapture : Type 0 where
  reference_only redacted full : ObservationCapture

pub record RecorderConfig : Type 0 where
  pub observation_capture : ObservationCapture

pub data RecordingError : Type 0 where
  io : ErrorKind → Text → RecordingError
  serialization : Text → RecordingError
  redactor_required : RecordingError
  redaction : Text → RecordingError
  invalid_redaction : Text → RecordingError
  forbidden_retention : ObservationCapture → RetentionClass → RecordingError

-- What a record line is made of.
pub data JsonlRecord : Type 0 where
  trace : AgentTrace → JsonlRecord
  observation_reference : ObservationRef → JsonlRecord
  observation : ObservationRef → Observation → JsonlRecord

-- A path by the two parts that the source reads of it; a path such as `..` has no file name.
pub record PathBuf : Type 0 where
  pub parent : Option Text
  pub file_name : Option OsName

abbrev pub io_error : IoError → RecordingError
io_error e = io e.kind e.message

-- `path.parent()`, filtered, or the current directory
unfoldable pub directory : PathBuf → Text
directory p = elim p.parent [ none ↦ codes "." | some d ↦ if list_beq d [] then codes "." else d ]

abbrev pub path_key : PathBuf → FileKey
path_key p = record { directory = directory p; name = p.file_name }

abbrev pub to_str : Option OsName → Option Text
to_str (some (utf8_name t)) = some t
to_str _ = none

unfoldable pub temporary_key : PathBuf → Text → Text → FileKey
temporary_key p name uuid = record {
  directory = directory p;
  name = some (utf8_name (codes "." ++ (name ++ (codes "." ++ (uuid ++ codes ".tmp")))));
}

-- The closure that fills the temporary file and moves it to the target.
unfoldable pub write_temporary : Faults → FileKey → FileKey → List ℕ → List ℕ → Files → Io
unfolding create_new write_all sync_all rename_file
write_temporary f temporary target existing line fs =
    and_then (create_new f.open_new temporary fs) λ created.
      and_then (write_all f.write_existing temporary existing created) λ copied.
        and_then (write_all f.write_line temporary line copied) λ appended.
          and_then (sync_all f.sync appended) λ synced. rename_file f.rename temporary target synced

-- `let _ = fs::remove_file(..)` when the closure failed
unfoldable pub clean_up : Faults → FileKey → Io → Files × Result (Unit {0}) RecordingError
clean_up f temporary (fs, ok _) = (fs, ok tt)
clean_up f temporary (fs, err e) = (remove_file f.remove temporary fs, err (io_error e))

-- From the file name on, with the existing contents.
unfoldable pub replace_named :
    Faults
    → Text
    → PathBuf
    → Option Text
    → List ℕ
    → List ℕ
    → Files
    → Files × Result (Unit {0}) RecordingError
unfolding write_temporary clean_up temporary_key
replace_named f uuid p none existing line fs =
    (fs, err (io invalid_input (codes "recording path has no UTF-8 file name")))
replace_named f uuid p (some name) existing line fs =
    let temporary = temporary_key p name uuid in
    clean_up f temporary (write_temporary f temporary (path_key p) existing line fs)

-- The first match of `replace_with_appended_record`: an absent file is an empty one.
unfoldable pub existing_bytes : Result (List ℕ) IoError → Result (List ℕ) RecordingError
existing_bytes (ok bytes) = ok bytes
existing_bytes (err e) = elim e.kind [ not_found ↦ ok [] | _ ↦ err (io_error e) ]

abbrev pub replace_read :
    Faults
    → Text
    → PathBuf
    → Result (List ℕ) RecordingError
    → List ℕ
    → Files
    → Files × Result (Unit {0}) RecordingError
replace_read f uuid p (err e) line fs = (fs, err e)
replace_read f uuid p (ok existing) line fs =
    replace_named f uuid p (to_str p.file_name) existing line fs

unfoldable pub replace_with_appended_record :
    Faults → Text → PathBuf → List ℕ → Files → Files × Result (Unit {0}) RecordingError
unfolding replace_named existing_bytes read_file
replace_with_appended_record f uuid p line fs =
    replace_read f uuid p (existing_bytes (read_file f.read (path_key p) fs)) line fs

pub record TraceRecorder : Type 0 where
  pub path : PathBuf
  pub config : RecorderConfig
  pub redactor : Option (Observation → Result Observation Text)

unfoldable pub new : PathBuf → RecorderConfig → TraceRecorder
new path config = record { path = path; config = config; redactor = none }

unfoldable pub with_redactor :
    PathBuf → RecorderConfig → (Observation → Result Observation Text) → TraceRecorder
with_redactor path config redactor = record {
  path = path;
  config = config;
  redactor = some redactor;
}

abbrev pub is_restricted : RetentionClass → Bool
is_restricted restricted = true
is_restricted _ = false

-- What one call of the recorder meets: `serde_json::to_vec`, the name that `Uuid::new_v4` gives, and
-- the failures of the file system.
pub record Environment : Type 0 where
  pub to_vec : JsonlRecord → Result (List ℕ) Text
  pub uuid : Text
  pub faults : Faults

abbrev pub Recorded : Type 0
Recorded = Files × Result (Unit {0}) RecordingError

abbrev pub record_encoded : Environment → TraceRecorder → Result (List ℕ) Text → Files → Recorded
record_encoded env recorder (err e) fs = (fs, err (serialization e))
record_encoded env recorder (ok bytes) fs =
    replace_with_appended_record env.faults env.uuid recorder.path (bytes ++ 10 ∷ []) fs

-- `TraceRecorder::record`. The method `record` is spelled with its object, the line.
unfoldable pub record_line : Environment → TraceRecorder → JsonlRecord → Files → Recorded
unfolding replace_with_appended_record
record_line env recorder line fs = record_encoded env recorder (env.to_vec line) fs

unfoldable pub record_trace : Environment → TraceRecorder → AgentTrace → Files → Recorded
unfolding record_line
record_trace env recorder t = record_line env recorder (trace t)

-- What `record_observation` records, or why it records nothing.
module _ (c : Canonicalizer ObservationDigest) (show_error : ObservationError → Text) where
  abbrev pub redact_with :
      Option (Observation → Result Observation Text)
      → Observation
      → Result Observation RecordingError
  redact_with none o = err redactor_required
  redact_with (some redact) o = map_err redaction (redact o)

  abbrev pub redacted_record : Observation → Observation → Result JsonlRecord RecordingError
  redacted_record o o' = do
    map_err (λ e. invalid_redaction (show_error e)) (validate c o')
    reject_if (is_restricted o'.retention) (forbidden_retention redacted o'.retention)
    ok (observation (reference o) o')

  abbrev pub full_record : Observation → Result JsonlRecord RecordingError
  full_record o = do
    reject_if (is_restricted o.retention) (forbidden_retention full o.retention)
    ok (observation (reference o) o)

  -- The match on the capture mode.
  abbrev pub record_of :
      ObservationCapture → TraceRecorder → Observation → Result JsonlRecord RecordingError
  record_of reference_only recorder o = ok (observation_reference (reference o))
  record_of redacted recorder o = do o' ← redact_with recorder.redactor o; redacted_record o o'
  record_of full recorder o = full_record o

  unfoldable pub selected_record : TraceRecorder → Observation → Result JsonlRecord RecordingError
  selected_record recorder o = record_of recorder.config.observation_capture recorder o

  abbrev pub record_selected :
      Environment → TraceRecorder → Result JsonlRecord RecordingError → Files → Recorded
  record_selected env recorder (err e) fs = (fs, err e)
  record_selected env recorder (ok line) fs = record_line env recorder line fs

  unfoldable pub record_observation : Environment → TraceRecorder → Observation → Files → Recorded
  unfolding selected_record record_line
  record_observation env recorder o fs =
      record_selected env recorder (selected_record recorder o) fs
