-- ===== src/Contract/Tool/Kept.antt =====
-- What a run computes, on repositories that differ in the generated files.
use nautilus_agents.Base.{
  ℕ, ◌≡◌, ◌≢◌, refl, sym, ap, ◌∙◌, inl, inr, Bool, true, false, not, ◌&&◌, List, [], ◌∷◌, ◌++◌, map,
  all, Option, Option-cases, Bool-cases, none, some, Result, ok, err, ◌>>=◌, map_err, Result-cases,
  bind-ok, ◌==◌, ◌!=◌, list_eq, nat_eq, arith, subst, All, IsMember, IsDistinct, contains,
  not-IsMember, if◌then◌else◌,
}
use nautilus_agents.Base.{is_distinct, is_distinct-IsDistinct}
use nautilus_agents.Text.{Text, codes}
use nautilus_agents.Contract.Asset.{Asset}
use nautilus_agents.Contract.Errors.{ToolError}
use nautilus_agents.Contract.Invalid.{InvalidFixture, invalid_fixtures}
use nautilus_agents.Contract.Repository.{FilePath, Bytes, Faults, Repository, file_at, read}
use nautilus_agents.Contract.Manifest.{invalid_entry, invalid_entries, manifest_of, manifest_bytes}
use nautilus_agents.Contract.Schemas.{schema_assets}
use nautilus_agents.Contract.Fixtures.{valid_fixture_assets}
use nautilus_agents.Contract.FieldsFile.{fields_bytes}
use nautilus_agents.Contract.Files.{in_contract, write_assets}
use nautilus_agents.Contract.Files.Generated.{asset_paths, targets, write_assets-other}
use nautilus_agents.Contract.Tool.{Libraries, Outputs, outputs}
use nautilus_agents.Contract.Tool.Paths.{
  schema_paths, valid_paths, schema_assets-paths, valid_fixture_assets-paths,
}

-- The files that the tool generates.
abbrev pub generated : List FilePath
generated =
    in_contract (codes "fields.toml")
    ∷ in_contract (codes "manifest.json")
    ∷ map in_contract (schema_paths ++ valid_paths)

asset_paths-map :
    (xs ys : List Asset)
    → asset_paths (xs ++ ys) ≡ map in_contract (map (λ a. a.path) xs ++ map (λ a. a.path) ys)
asset_paths-map [] [] = refl
asset_paths-map [] (y ∷ ys) = ap (λ ps. in_contract y.path ∷ ps) (asset_paths-map [] ys)
asset_paths-map (x ∷ xs) ys = ap (λ ps. in_contract x.path ∷ ps) (asset_paths-map xs ys)

pub generated-IsDistinct : IsDistinct generated
unfolding contains nautilus_agents.Base.list_beq nautilus_agents.Text.split
generated-IsDistinct = is_distinct-IsDistinct generated refl

abbrev invalid_path : InvalidFixture → FilePath
invalid_path f = in_contract (codes "fixtures/invalid/" ++ f.file)

abbrev is_kept : List InvalidFixture → Bool
is_kept = all (λ f. not (contains (invalid_path f) generated))

invalid_kept : is_kept invalid_fixtures ≡ true
unfolding contains nautilus_agents.Base.list_beq nautilus_agents.Text.split
invalid_kept = refl

-- A repository that differs from another one at most in the generated files.
abbrev pub Keeps : Repository → Repository → Type 0
Keeps s t = (q : FilePath) → ¬ IsMember q generated → file_at q t.files ≡ file_at q s.files

module _ (l : Libraries) (faults : Faults) where
  -- The four parts of what a run computes.
  pub outputs-parts :
      (s : Repository) (o : Outputs)
      → outputs l faults s ≡ ok o
      → (schema_assets l.schema_for l.pretty_value ≡ ok o.schemas)
        × (valid_fixture_assets l.uuid l.observations l.to_value l.values ≡ ok o.fixtures)
        × (map_err ToolError.library (fields_bytes l.from_slice l.debug o.schemas) ≡ ok o.fields)
        × (manifest_bytes l.manifests l.pretty_manifest faults s o.schemas o.fixtures
            ≡ ok o.manifest)
  unfolding outputs
  outputs-parts s o h =
      let (schemas, e1, h1) = bind-ok (schema_assets l.schema_for l.pretty_value) _ o h in
      let (fixtures, e2, h2) =
        bind-ok (valid_fixture_assets l.uuid l.observations l.to_value l.values) _ o h1 in
      let (fields, e3, h3) =
        bind-ok (map_err ToolError.library (fields_bytes l.from_slice l.debug schemas)) _ o h2 in
      let (manifest, e4, h4) =
        bind-ok (manifest_bytes l.manifests l.pretty_manifest faults s schemas fixtures) _ o h3 in
      let same : record {
        schemas = schemas;
        fixtures = fixtures;
        fields = fields;
        manifest = manifest;
      }
          ≡ o =
        cc in
      subst
        (λ (x : Outputs).
          (schema_assets l.schema_for l.pretty_value ≡ ok x.schemas)
          × (valid_fixture_assets l.uuid l.observations l.to_value l.values ≡ ok x.fixtures)
          × (map_err ToolError.library (fields_bytes l.from_slice l.debug x.schemas) ≡ ok x.fields)
          × (manifest_bytes l.manifests l.pretty_manifest faults s x.schemas x.fixtures
              ≡ ok x.manifest))
        same (e1, e2, e3, e4)

  pub outputs_of :
      (s : Repository) (o : Outputs)
      → schema_assets l.schema_for l.pretty_value ≡ ok o.schemas
      → valid_fixture_assets l.uuid l.observations l.to_value l.values ≡ ok o.fixtures
      → map_err ToolError.library (fields_bytes l.from_slice l.debug o.schemas) ≡ ok o.fields
      → manifest_bytes l.manifests l.pretty_manifest faults s o.schemas o.fixtures ≡ ok o.manifest
      → outputs l faults s ≡ ok o
  unfolding outputs
  outputs_of s o e1 e2 e3 e4 = rw (e1, e2, e3, e4) refl

  -- What a run computes has the paths that the tool generates.
  pub outputs-targets :
      (s : Repository) (o : Outputs)
      → outputs l faults s ≡ ok o
      → targets (o.schemas ++ o.fixtures) ≡ generated
  outputs-targets s o h =
      let (e1, e2, e3, e4) = outputs-parts s o h in
      let p = schema_assets-paths l.schema_for l.pretty_value o.schemas e1 in
      let q = valid_fixture_assets-paths l.uuid l.observations l.to_value l.values o.fixtures e2 in
      let r : asset_paths (o.schemas ++ o.fixtures)
          ≡ map in_contract (schema_paths ++ valid_paths) =
        asset_paths-map o.schemas o.fixtures
        ∙ ap (λ x. map in_contract (x ++ map (λ a. a.path) o.fixtures)) p
        ∙ ap (λ x. map in_contract (schema_paths ++ x)) q in
      ap (λ ps. in_contract (codes "fields.toml") ∷ in_contract (codes "manifest.json") ∷ ps) r

  read_kept :
      (p : FilePath) (s t : Repository) (b : Bytes)
      → file_at p t.files ≡ file_at p s.files
      → read faults p s ≡ ok b
      → read faults p t ≡ ok b
  unfolding read
  read_kept p s t b e h = elim (Bool-cases (faults.unreadable p)) [
    | inl r ↦ absurd (cc (rw r at h))
    | inr r ↦ elim (Option-cases (file_at p s.files)) [
      | inl k ↦ absurd (cc (rw (r, k) at h))
      | inr (c, k) ↦ rw (r, e, k) (rw (r, k) at h)
    ]
  ]

  invalid_entry_kept :
      (f : InvalidFixture) (s t : Repository)
      → Keeps s t
      → contains (invalid_path f) generated ≡ false
      → (entry : _) → invalid_entry l.manifests faults s f ≡ ok entry
      → invalid_entry l.manifests faults t f ≡ ok entry
  unfolding invalid_entry
  invalid_entry_kept f s t kept apart entry h =
      elim (Result-cases (read faults (invalid_path f) s)) [
        | inr (x, e) ↦ absurd (cc (rw e at h))
        | inl (b, e) ↦
            let n = not-IsMember (invalid_path f) generated apart in
            rw (read_kept (invalid_path f) s t b (kept (invalid_path f) n) e) (rw e at h)
      ]

  invalid_entries_kept :
      (fs : List InvalidFixture) (s t : Repository)
      → Keeps s t
      → is_kept fs ≡ true
      → (entries : _) → invalid_entries l.manifests faults s fs ≡ ok entries
      → invalid_entries l.manifests faults t fs ≡ ok entries
  unfolding invalid_entries
  invalid_entries_kept [] s t kept apart entries h = h
  invalid_entries_kept (f ∷ fs) s t kept apart entries h =
      let (entry, e1, h1) = bind-ok (invalid_entry l.manifests faults s f) _ entries h in
      let (rest, e2, h2) = bind-ok (invalid_entries l.manifests faults s fs) _ entries h1 in
      let here = invalid_entry_kept f s t kept (ground arith) entry e1 in
      let there = invalid_entries_kept fs s t kept (ground arith) rest e2 in rw (here, there) h2

  manifest_kept :
      (schemas fixtures : List Asset) (s t : Repository) (b : Bytes)
      → Keeps s t
      → manifest_bytes l.manifests l.pretty_manifest faults s schemas fixtures ≡ ok b
      → manifest_bytes l.manifests l.pretty_manifest faults t schemas fixtures ≡ ok b
  unfolding manifest_bytes manifest_of
  manifest_kept schemas fixtures s t b kept h =
      elim (Result-cases (invalid_entries l.manifests faults s invalid_fixtures)) [
        | inr (x, e) ↦ absurd (cc (rw e at h))
        | inl (entries, e) ↦
            rw (invalid_entries_kept invalid_fixtures s t kept invalid_kept entries e) (rw e at h)
      ]

  pub outputs_kept :
      (s t : Repository) (o : Outputs)
      → Keeps s t
      → outputs l faults s ≡ ok o
      → outputs l faults t ≡ ok o
  outputs_kept s t o kept h =
      let (e1, e2, e3, e4) = outputs-parts s o h in
      outputs_of t o e1 e2 e3 (manifest_kept o.schemas o.fixtures s t o.manifest kept e4)

  pub written_kept :
      (s : Repository) (o : Outputs)
      → outputs l faults s ≡ ok o
      → Keeps s (write_assets faults o.schemas o.fixtures o.fields o.manifest s).1
  written_kept s o h q n =
      write_assets-other faults o.schemas o.fixtures o.fields o.manifest s q
        (λ m. n (subst (IsMember q) (outputs-targets s o h) m))
