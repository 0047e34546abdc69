-- ===== src/Assurance/Disk.antt =====
-- The calls of `std::fs` that src/assurance/recording.rs makes, on files as a state, with failures as
-- parameters.
pub mod Triples
use nautilus_agents.Base.{
  ℕ, ◌+◌, Bool, true, false, ◌&&◌, List, [], ◌++◌, if◌then◌else◌, take, Option, none, some, Result,
  ok, err, ◌==◌, list_eq, nat_eq, list_beq,
}
use nautilus_agents.Text.{Text, codes}

-- `io::ErrorKind`: three kinds by name, and any other by its number.
pub data ErrorKind : Type 0 where
  not_found already_exists invalid_input : ErrorKind
  other : ℕ → ErrorKind

pub record IoError : Type 0 where
  pub kind : ErrorKind
  pub message : Text

-- An `OsStr`: a text when it is UTF-8.
pub data OsName : Type 0 where
  utf8_name : Text → OsName
  other_name : List ℕ → OsName

unfoldable pub os_name_beq : OsName → OsName → Bool
unfolding list_beq
os_name_beq (utf8_name a) (utf8_name b) = a == b
os_name_beq (other_name a) (other_name b) = a == b
os_name_beq _ _ = false

-- A file: the directory and the name in it.
pub record FileKey : Type 0 where
  pub directory : Text
  pub name : Option OsName

abbrev pub name_beq : Option OsName → Option OsName → Bool
name_beq none none = true
name_beq (some a) (some b) = os_name_beq a b
name_beq _ _ = false

unfoldable pub key_beq : FileKey → FileKey → Bool
key_beq a b = a.directory == b.directory && name_beq a.name b.name

-- The contents of the files that there are.
abbrev pub Files : Type 0
Files = FileKey → Option (List ℕ)

unfoldable pub set_file : FileKey → Option (List ℕ) → Files → Files
set_file k v fs = λ j. if key_beq j k then v else fs j

-- The failures of one run, each at its call: a read or an open fails for some other reason than the
-- file's absence or presence, a write fails after some of its bytes.
pub record Faults : Type 0 where
  pub read : Option (ℕ × Text)
  pub open_new : Option IoError
  pub write_existing : Option (ℕ × IoError)
  pub write_line : Option (ℕ × IoError)
  pub sync : Option IoError
  pub rename : Option IoError
  pub remove : Option IoError

abbrev pub no_faults : Faults
no_faults = record {
  read = none;
  open_new = none;
  write_existing = none;
  write_line = none;
  sync = none;
  rename = none;
  remove = none;
}

abbrev pub Io : Type 0
Io = Files × Result (Unit {0}) IoError

abbrev pub found_or_missing : Option (List ℕ) → Result (List ℕ) IoError
found_or_missing (some bytes) = ok bytes
found_or_missing none =
    err (record { kind = not_found; message = codes "No such file or directory" })

-- `fs::read`
unfoldable pub read_file : Option (ℕ × Text) → FileKey → Files → Result (List ℕ) IoError
read_file (some (n, m)) k fs = err (record { kind = other n; message = m })
read_file none k fs = found_or_missing (fs k)

abbrev pub create_absent : Option (List ℕ) → FileKey → Files → Io
create_absent (some bytes) k fs =
    (fs, err (record { kind = already_exists; message = codes "File exists" }))
create_absent none k fs = (set_file k (some []) fs, ok tt)

-- `OpenOptions::create_new(true).write(true).open`
unfoldable pub create_new : Option IoError → FileKey → Files → Io
create_new (some e) k fs = (fs, err e)
create_new none k fs = create_absent (fs k) k fs

abbrev pub contents : Option (List ℕ) → List ℕ
contents none = []
contents (some bytes) = bytes

-- `Write::write_all` at the end of the file
unfoldable pub write_all : Option (ℕ × IoError) → FileKey → List ℕ → Files → Io
write_all (some (n, e)) k bytes fs = (set_file k (some (contents (fs k) ++ take n bytes)) fs, err e)
write_all none k bytes fs = (set_file k (some (contents (fs k) ++ bytes)) fs, ok tt)

-- `File::sync_all`
unfoldable pub sync_all : Option IoError → Files → Io
sync_all (some e) fs = (fs, err e)
sync_all none fs = (fs, ok tt)

-- `fs::rename`
unfoldable pub rename_file : Option IoError → FileKey → FileKey → Files → Io
rename_file (some e) from to fs = (fs, err e)
rename_file none from to fs = (set_file to (fs from) (set_file from none fs), ok tt)

-- `fs::remove_file`, its result dropped
unfoldable pub remove_file : Option IoError → FileKey → Files → Files
remove_file (some e) k fs = fs
remove_file none k fs = set_file k none fs

-- `?` behind a call that changes the files
abbrev pub and_then : Io → (Files → Io) → Io
and_then (fs, ok _) next = next fs
and_then (fs, err e) next = (fs, err e)
