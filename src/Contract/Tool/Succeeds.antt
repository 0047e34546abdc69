-- ===== src/Contract/Tool/Succeeds.antt =====
-- `main` generating where nothing fails.
use nautilus_agents.Base.{
  ◌≡◌, refl, sym, ap, ◌∙◌, inl, inr, ◌⊎◌, ◌↔◌, Bool, true, false, Bool-cases, List, [], ◌∷◌, ◌++◌,
  map, All, none, some, Result, ok, err, IsMember, IsMember-append, subst, arith, list_eq, nat_eq,
  SameMembers, collect_ordered, collect_ordered_iff, text_order,
}
use nautilus_agents.Text.{Text, codes}
use nautilus_agents.Contract.Invalid.{invalid_fixtures}
use nautilus_agents.Contract.Repository.{
  FilePath, Faults, Repository, parent, last_name, is_directory, paths, entries, read_dir,
}
use nautilus_agents.Contract.Asset.{Asset}
use nautilus_agents.Contract.Files.{in_contract, file_names, check_expected_names}
use nautilus_agents.Contract.Files.Checked.{Lists, check_directory_iff}
use nautilus_agents.Contract.Files.Written.{
  IsReady, entries-IsMember, written, written-paths, write_assets_ready,
}
use nautilus_agents.Contract.Tool.{Libraries, Outputs, outputs, finish, main}
use nautilus_agents.Contract.Tool.Paths.{
  schema_paths, valid_paths, schema_assets-paths, valid_fixture_assets-paths,
}
use nautilus_agents.Contract.Tool.Kept.{generated, outputs-parts, outputs-targets}
use nautilus_agents.Contract.Tool.Repeated.{main_generate}

abbrev names_of : List Text → List Text
names_of = map (λ p. last_name (nautilus_agents.Contract.Repository.components p))

abbrev invalid_names : List Text
invalid_names = map (λ f. f.file) invalid_fixtures

-- A directory of the contract can be listed, and holds nothing but these names.
abbrev pub IsTidy : Faults → Repository → Text → List Text → Type 0
IsTidy faults s directory names =
    (found : List Text) × (read_dir faults (in_contract directory) s ≡ ok found)
    × ((n : Text) → IsMember n found → IsMember n names)

-- Every generated file can be stored, no other file is in a directory of generated files, and the
-- invalid fixtures are in theirs.
pub record IsPrepared (faults : Faults) (s : Repository) : Type 0 where
  pub ready : All (IsReady s) generated
  pub schema_names : IsTidy faults s (codes "schema") (names_of schema_paths)
  pub valid_names : IsTidy faults s (codes "fixtures/valid") (names_of valid_paths)
  pub invalid_fixture_names : Lists faults s (codes "fixtures/invalid") invalid_names

schema_entries :
    SameMembers (entries (in_contract (codes "schema")) generated) (names_of schema_paths)
unfolding entries parent last_name nautilus_agents.Text.split nautilus_agents.Base.list_beq
    collect_ordered
schema_entries =
    (collect_ordered_iff (entries (in_contract (codes "schema")) generated)
        (names_of schema_paths)).0
      refl

valid_entries :
    SameMembers (entries (in_contract (codes "fixtures/valid")) generated) (names_of valid_paths)
unfolding entries parent last_name nautilus_agents.Text.split nautilus_agents.Base.list_beq
    collect_ordered
valid_entries =
    (collect_ordered_iff (entries (in_contract (codes "fixtures/valid")) generated)
        (names_of valid_paths)).0
      refl

invalid_entries : entries (in_contract (codes "fixtures/invalid")) generated ≡ []
unfolding entries parent last_name nautilus_agents.Text.split nautilus_agents.Base.list_beq
invalid_entries = refl

-- The names in a directory after files are added.
entries_added :
    (n : Text) (d : FilePath) (ps qs rs : List FilePath)
    → ((q : FilePath) → IsMember q ps ↔ (IsMember q qs ⊎ IsMember q rs))
    → IsMember n (entries d ps) ↔ (IsMember n (entries d qs) ⊎ IsMember n (entries d rs))
entries_added n d ps qs rs h = (
  λ m.
      let (q, i, u, v) = (entries-IsMember n d ps).0 m in
      elim ((h q).0 i) [
        | inl j ↦ inl ((entries-IsMember n d qs).1 (q, j, u, v))
        | inr j ↦ inr ((entries-IsMember n d rs).1 (q, j, u, v))
      ],
  λ m. elim m [
    | inl k ↦
        let (q, i, u, v) = (entries-IsMember n d qs).0 k in
        (entries-IsMember n d ps).1 (q, (h q).1 (inl i), u, v)
    | inr k ↦
        let (q, i, u, v) = (entries-IsMember n d rs).0 k in
        (entries-IsMember n d ps).1 (q, (h q).1 (inr i), u, v)
  ],
)

-- A directory that could be listed still can, and holds the names of the added files too.
listed :
    (faults : Faults) (s t : Repository) (d : FilePath) (qs : List FilePath) (found : List Text)
    → ((q : FilePath) → IsMember q (paths t.files) ↔ (IsMember q qs ⊎ IsMember q (paths s.files)))
    → t.directories ≡ s.directories
    → read_dir faults d s ≡ ok found
    → (after : List Text) × (read_dir faults d t ≡ ok after)
      × ((n : Text) → IsMember n after ↔ (IsMember n (entries d qs) ⊎ IsMember n found))
unfolding read_dir
listed faults s t d qs found h k e = elim (Bool-cases (faults.unreadable d)) [
  | inl r ↦ absurd (cc (rw r at e))
  | inr r ↦ elim (Bool-cases (is_directory d s)) [
    | inr i ↦ absurd (cc (rw (r, i) at e))
    | inl i ↦
        let same : (entries d (paths s.files) ++ entries d s.directories) ≡ found =
          cc (rw (r, i) at e) in
        (
          entries d (paths t.files) ++ entries d s.directories,
          rw (r, k, i) refl,
          λ n.
              subst
                (λ x.
                  IsMember n (entries d (paths t.files) ++ entries d s.directories)
                  ↔ (IsMember n (entries d qs) ⊎ IsMember n x))
                same
                (ground (
                  arith,
                  entries_added n d (paths t.files) qs (paths s.files) h,
                  IsMember-append n (entries d (paths t.files)) (entries d s.directories),
                  IsMember-append n (entries d (paths s.files)) (entries d s.directories),
                )),
        )
  ]
]

file_names_of : (assets : List Asset) → file_names assets ≡ names_of (map (λ a. a.path) assets)
file_names_of [] = refl
file_names_of (a ∷ assets) =
    ap (λ ns. last_name (nautilus_agents.Contract.Repository.components a.path) ∷ ns)
      (file_names_of assets)

-- Two repositories that differ in the generated files, all of which the second has.
module _ (faults : Faults) (s t : Repository)
    (added : (q : FilePath)
      → IsMember q (paths t.files) ↔ (IsMember q generated ⊎ IsMember q (paths s.files)))
    (same : t.directories ≡ s.directories) where
  tidy_lists :
      (d : Text) (names : List Text)
      → SameMembers (entries (in_contract d) generated) names
      → IsTidy faults s d names
      → Lists faults t d names
  tidy_lists d names h (found, e, inside) =
      let (after, k, m) = listed faults s t (in_contract d) generated found added same e in
      (after, k, λ n. ground (arith, m n, h n, inside n))

  kept_lists :
      (d : Text) (names : List Text)
      → entries (in_contract d) generated ≡ []
      → Lists faults s d names
      → Lists faults t d names
  kept_lists d names none_new (found, e, h) =
      let (after, k, m) = listed faults s t (in_contract d) generated found added same e in
      let found_only : (n : Text) → IsMember n after ↔ (IsMember n [] ⊎ IsMember n found) =
        λ n. subst (λ x. IsMember n after ↔ (IsMember n x ⊎ IsMember n found)) none_new (m n) in
      (after, k, λ n. ground (arith, found_only n, h n))

  names_checked :
      (schemas fixtures : List Asset)
      → map (λ a. a.path) schemas ≡ schema_paths
      → map (λ a. a.path) fixtures ≡ valid_paths
      → IsPrepared faults s
      → check_expected_names faults schemas fixtures t ≡ ok tt
  unfolding check_expected_names
  names_checked schemas fixtures p q h =
      let names1 : file_names schemas ≡ names_of schema_paths =
        file_names_of schemas ∙ ap names_of p in
      let names2 : file_names fixtures ≡ names_of valid_paths =
        file_names_of fixtures ∙ ap names_of q in
      let c1 =
        (check_directory_iff faults t (codes "schema") (names_of schema_paths)).1
          (tidy_lists (codes "schema") (names_of schema_paths) schema_entries h.schema_names) in
      let c2 =
        (check_directory_iff faults t (codes "fixtures/valid") (names_of valid_paths)).1 (
          tidy_lists (codes "fixtures/valid") (names_of valid_paths) valid_entries h.valid_names) in
      let c3 = (check_directory_iff faults t (codes "fixtures/invalid") invalid_names).1 (
        kept_lists (codes "fixtures/invalid") invalid_names invalid_entries
          h.invalid_fixture_names) in
      rw (names1, names2, c1, c2) c3

module _ (l : Libraries) (faults : Faults) (writable : (p : FilePath) → faults.unwritable p ≡ false)
    (whole : (p : FilePath) → faults.cut_after p ≡ none) where
  finish_succeeds :
      (s : Repository) (o : Outputs)
      → outputs l faults s ≡ ok o
      → IsPrepared faults s
      → finish l faults true s (ok o)
        ≡ (ok tt, written (o.schemas ++ o.fixtures) o.fields o.manifest s)
  finish_succeeds s o e h =
      let same = outputs-targets l faults s o e in
      let (e1, e2, e3, e4) = outputs-parts l faults s o e in
      let t = written (o.schemas ++ o.fixtures) o.fields o.manifest s in
      let added : (q : FilePath)
          → IsMember q (paths t.files) ↔ (IsMember q generated ⊎ IsMember q (paths s.files)) =
        λ q.
          subst (λ x. IsMember q (paths t.files) ↔ (IsMember q x ⊎ IsMember q (paths s.files))) same
            (written-paths q (o.schemas ++ o.fixtures) o.fields o.manifest s) in
      let checked =
        names_checked faults s t added refl o.schemas o.fixtures
          (schema_assets-paths l.schema_for l.pretty_value o.schemas e1)
          (valid_fixture_assets-paths l.uuid l.observations l.to_value l.values o.fixtures e2) h in
      write_assets_ready faults writable whole o.schemas o.fixtures o.fields o.manifest s
        (subst (All (IsReady s)) (sym same) h.ready)
      ∙ ap (λ r. (r, t)) checked

  -- Where no write fails or is cut off, the contents of a run can be computed and the repository is
  -- prepared, a `generate` succeeds, and leaves each computed file stored under its path and the
  -- directories as they were.
  pub generate-written :
      (s : Repository) (o : Outputs)
      → outputs l faults s ≡ ok o
      → IsPrepared faults s
      → main l faults (some (codes "generate")) s
        ≡ (ok tt, written (o.schemas ++ o.fixtures) o.fields o.manifest s)
  generate-written s o e h =
      main_generate l faults s ∙ ap (finish l faults true s) e ∙ finish_succeeds s o e h
