-- ===== src/Contract/Repository.antt =====
-- The part of a repository's file system that the tool sees. A path is its components below the
-- root. What fails is fixed for a run of the tool.
pub mod Laws
use nautilus_agents.Base.{
  ℕ, Bool, true, false, ◌||◌, List, [], ◌∷◌, ◌++◌, map, take, if◌then◌else◌, contains, Option, none,
  some, Result, ok, err, ok_or, ◌==◌, list_eq, nat_eq,
}
use nautilus_agents.Text.{Text, is_empty, split}

abbrev pub FilePath : Type 0
FilePath = List Text

abbrev pub Bytes : Type 0
Bytes = List ℕ

pub data IoError : Type 0 where
  not_found permission_denied already_exists is_a_directory interrupted : IoError

-- What fails: reads, writes, and writes that are cut off after some bytes of the file.
pub record Faults : Type 0 where
  pub unreadable : FilePath → Bool
  pub unwritable : FilePath → Bool
  pub cut_after : FilePath → Option ℕ

pub record Repository : Type 0 where
  pub files : List (FilePath × Bytes)
  pub directories : List FilePath

-- The names of a relative path, between the slashes.
abbrev pub components : Text → FilePath
components = split b'/'

-- `Path::parent`, of the root the root
unfoldable pub parent : FilePath → FilePath
parent [] = []
parent (n ∷ []) = []
parent (n ∷ m ∷ ns) = n ∷ parent (m ∷ ns)

-- `Path::file_name`
unfoldable pub last_name : FilePath → Text
last_name [] = []
last_name (n ∷ []) = n
last_name (n ∷ m ∷ ns) = last_name (m ∷ ns)

unfoldable pub file_at : FilePath → List (FilePath × Bytes) → Option Bytes
file_at p [] = none
file_at p ((q, b) ∷ fs) = if p == q then some b else file_at p fs

unfoldable pub put_file : FilePath → Bytes → List (FilePath × Bytes) → List (FilePath × Bytes)
put_file p b [] = (p, b) ∷ []
put_file p b ((q, c) ∷ fs) =
    let rest = put_file p b fs in if p == q then (q, b) ∷ fs else (q, c) ∷ rest

abbrev pub is_directory : FilePath → Repository → Bool
is_directory p s = is_empty p || contains p s.directories

unfoldable pub entries : FilePath → List FilePath → List Text
unfolding parent last_name
entries p [] = []
entries p (q ∷ qs) = let rest = entries p qs in if parent q == p then last_name q ∷ rest else rest

abbrev pub missing : Bool → IoError
missing true = is_a_directory
missing false = not_found

abbrev pub paths : List (FilePath × Bytes) → List FilePath
paths = map (λ f. f.0)

-- What follows a success.
abbrev pub and_then :
    {E : Type 0}
    → Result (Unit {0}) E × Repository
    → (Repository → Result (Unit {0}) E × Repository)
    → Result (Unit {0}) E × Repository
and_then (ok u, s) k = k s
and_then (err e, s) k = (err e, s)

module _ (faults : Faults) where
  -- `fs::read`
  unfoldable pub read : FilePath → Repository → Result Bytes IoError
  unfolding file_at
  read p s =
      if faults.unreadable p
      then err permission_denied
      else ok_or (file_at p s.files) (missing (is_directory p s))

  -- What a write to a file that is opened stores.
  abbrev pub stored :
      FilePath → Bytes → Repository → Option ℕ → Result (Unit {0}) IoError × Repository
  stored p b s none = (ok tt, record s { files = put_file p b s.files })
  stored p b s (some n) = (err interrupted, record s { files = put_file p (take n b) s.files })

  -- `fs::write`
  unfoldable pub write : FilePath → Bytes → Repository → Result (Unit {0}) IoError × Repository
  unfolding put_file parent
  write p b s =
      if faults.unwritable p
      then (err permission_denied, s)
      else if is_directory p s
      then (err is_a_directory, s)
      else if is_directory (parent p) s
      then stored p b s (faults.cut_after p)
      else (err not_found, s)

  -- `fs::read_dir`, with the names that its iteration gives
  unfoldable pub read_dir : FilePath → Repository → Result (List Text) IoError
  unfolding entries
  read_dir p s =
      if faults.unreadable p
      then err permission_denied
      else if is_directory p s
      then ok (entries p (paths s.files) ++ entries p s.directories)
      else err not_found

  unfoldable pub create_dir : FilePath → Repository → Result (Unit {0}) IoError × Repository
  unfolding file_at
  create_dir p s = if is_directory p s then (ok tt, s) else elim (file_at p s.files) [
    | some b ↦ (err already_exists, s)
    | none ↦
        if faults.unwritable p
        then (err permission_denied, s)
        else (ok tt, record s { directories = p ∷ s.directories })
  ]

  -- `fs::create_dir_all`, from the directory `above` down
  unfoldable pub create_dirs :
      FilePath → FilePath → Repository → Result (Unit {0}) IoError × Repository
  unfolding create_dir
  create_dirs above [] s = (ok tt, s)
  create_dirs above (n ∷ ns) s =
      let p = above ++ n ∷ [] in and_then (create_dir p s) (λ s'. create_dirs p ns s')
