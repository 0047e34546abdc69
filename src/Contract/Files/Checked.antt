-- ===== src/Contract/Files/Checked.antt =====
-- `check_assets` against the state of the files.
use nautilus_agents.Base.{
  ◌≡◌, refl, sym, ◌↔◌, inl, inr, Bool, true, not, List, [], ◌∷◌, ◌++◌, map, All, Result-cases,
  Result, ok, err, ◌>>◌, reject_if, list_eq, nat_eq, list_beq_iff, SameMembers, collect_ordered,
  collect_ordered_iff, text_order, arith, subst,
}
use nautilus_agents.Text.{Text, codes}
use nautilus_agents.Contract.Asset.{Asset}
use nautilus_agents.Contract.Invalid.{invalid_fixtures}
use nautilus_agents.Contract.Repository.{FilePath, Bytes, Faults, Repository, read, read_dir}
use nautilus_agents.Contract.Files.{
  in_contract, file_names, check_file, directory_names, check_directory, check_expected_names,
  check_each, check_assets,
}

-- Two checks in a row succeed where both do.
both : {E : Type 0} (m n : Result (Unit {0}) E) → (m >> n) ≡ ok tt → (m ≡ ok tt) × (n ≡ ok tt)
both (ok tt) n h = (refl, h)
both (err x) n h = absurd cc

accepted : {E : Type 0} (b : Bool) (x : E) → reject_if (not b) x ≡ ok tt → b ≡ true
accepted b x h = ground arith

accept : {E : Type 0} (b : Bool) (x : E) → b ≡ true → reject_if (not b) x ≡ ok tt
accept b x h = ground arith

module _ (faults : Faults) (s : Repository) where
  abbrev pub Reads : FilePath → Bytes → Type 0
  Reads p b = read faults p s ≡ ok b

  -- A directory of the contract can be listed, and holds exactly these names.
  abbrev pub Lists : Text → List Text → Type 0
  Lists directory names =
      (found : List Text) × (read_dir faults (in_contract directory) s ≡ ok found)
      × SameMembers found names

  pub record IsUpToDate (schemas fixtures : List Asset) (fields manifest : Bytes) : Type 0 where
    pub assets : All (λ a. Reads (in_contract a.path) a.bytes) (schemas ++ fixtures)
    pub fields_file : Reads (in_contract (codes "fields.toml")) fields
    pub manifest_file : Reads (in_contract (codes "manifest.json")) manifest
    pub schema_names : Lists (codes "schema") (file_names schemas)
    pub valid_names : Lists (codes "fixtures/valid") (file_names fixtures)
    pub invalid_names : Lists (codes "fixtures/invalid") (map (λ f. f.file) invalid_fixtures)

  pub check_file_iff : (p : FilePath) (b : Bytes) → (check_file faults p b s ≡ ok tt) ↔ Reads p b
  unfolding check_file
  check_file_iff p b = elim (Result-cases (read faults p s)) [
    | inl (a, e) ↦ rw e (ground (arith, list_beq_iff a b))
    | inr (x, e) ↦ rw e (ground arith)
  ]

  pub check_each_iff :
      (assets : List Asset)
      → (check_each faults assets s ≡ ok tt) ↔ All (λ a. Reads (in_contract a.path) a.bytes) assets
  unfolding check_each
  check_each_iff [] = ground arith
  check_each_iff (a ∷ rest_of) =
      let here = check_file_iff (in_contract a.path) a.bytes in
      let rest = check_each_iff rest_of in
      elim (Result-cases (check_file faults (in_contract a.path) a.bytes s)) [
        | inl (tt, e) ↦ rw e ((λ h. (here.0 e, rest.0 h)), λ h. rest.1 h.1)
        | inr (x, e) ↦ rw e ((λ h. absurd cc), λ h. absurd (ground (arith, here.1 h.0)))
      ]

  pub check_directory_iff :
      (d : Text) (names : List Text)
      → (check_directory faults d (collect_ordered names) s ≡ ok tt) ↔ Lists d names
  unfolding check_directory directory_names
  check_directory_iff d names = elim (Result-cases (read_dir faults (in_contract d) s)) [
    | inr (x, e) ↦ rw e ((λ h. absurd cc), λ h. absurd cc)
    | inl (found, e) ↦
        let same = collect_ordered_iff found names in
        let equal = list_beq_iff (collect_ordered found) (collect_ordered names) in
        rw e (
          (λ h. (found, refl, same.0 (equal.0 (accepted _ _ h)))),
          λ h.
              let m : found ≡ h.0 = cc in
              accept _ _ (equal.1 (same.1 (subst (λ x. SameMembers x names) (sym m) h.2))),
        )
  ]

  -- A check succeeds exactly when every schema and fixture, the list of fields and the manifest read as
  -- their expected bytes, and the three directories can be listed and hold exactly the expected names.
  pub check_assets_iff :
      (schemas fixtures : List Asset) (fields manifest : Bytes)
      → (check_assets faults schemas fixtures fields manifest s ≡ ok tt)
        ↔ IsUpToDate schemas fixtures fields manifest
  unfolding check_assets check_expected_names
  check_assets_iff schemas fixtures fields manifest =
      let e = check_each_iff (schemas ++ fixtures) in
      let f = check_file_iff (in_contract (codes "fields.toml")) fields in
      let m = check_file_iff (in_contract (codes "manifest.json")) manifest in
      let n1 = check_directory_iff (codes "schema") (file_names schemas) in
      let n2 = check_directory_iff (codes "fixtures/valid") (file_names fixtures) in
      let n3 =
        check_directory_iff (codes "fixtures/invalid") (map (λ f. f.file) invalid_fixtures) in
      (
        λ h.
            let (h1, r1) = both _ _ h in
            let (h2, r2) = both _ _ r1 in
            let (h3, r3) = both _ _ r2 in
            let (h4, r4) = both _ _ r3 in
            let (h5, h6) = both _ _ r4 in
            record {
              assets = e.0 h1;
              fields_file = f.0 h2;
              manifest_file = m.0 h3;
              schema_names = n1.0 h4;
              valid_names = n2.0 h5;
              invalid_names = n3.0 h6;
            },
        λ u.
            rw
              (
                e.1 u.assets,
                f.1 u.fields_file,
                m.1 u.manifest_file,
                n1.1 u.schema_names,
                n2.1 u.valid_names,
              )
              (n3.1 u.invalid_names),
      )
