-- ===== src/Conformance/Agreement.antt =====
-- The embedded fixtures against the manifest that the contract tool writes.
use nautilus_agents.Base.{
  ◌≡◌, refl, sym, ap, ◌∙◌, ◌↔◌, List, [], ◌∷◌, ◌++◌, map, Result, ok, list_eq, nat_eq, IsMember,
  subst, IsMember-map, IsMember-map_inverse, All-IsMember, All-append,
}
use nautilus_agents.Base.{option_eq}
use nautilus_agents.Text.{Text, codes}
use nautilus_agents.Protocol.Errors.{code_eq}
use nautilus_agents.Protocol.Identity.{UuidCrate}
use nautilus_agents.Protocol.Canonical.{Canonicalizer}
use nautilus_agents.Protocol.Observation.{ObservationDigest}
use nautilus_agents.Conformance.{fixtures}
use nautilus_agents.Contract.Json.{Value}
use nautilus_agents.Contract.Asset.{Asset}
use nautilus_agents.Contract.Invalid.{invalid_fixtures}
use nautilus_agents.Contract.Repository.{Faults, Repository}
use nautilus_agents.Contract.Manifest.{ManifestAsset, Manifest, manifest_of}
use nautilus_agents.Contract.Manifest.Entries.{manifest_of-entries}
use nautilus_agents.Contract.Fixtures.{FixtureValue, valid_fixture_assets}
use nautilus_agents.Contract.Tool.Paths.{valid_table, located, valid_fixture_assets-table}
use nautilus_agents.Conformance.Rows.{
  FixtureRow, fixture_row, entry_row, tool_rows, embedded_in_tool, tool_in_embedded, IsFixtureEntry,
  valid_entry, valid_row, valid_entries_rows, invalid_entries_rows, fixture_entries, listed_fixture,
  fixture_listed,
}

map_append : {A B : Type 0} (f : A → B) (xs ys : List A) → map f (xs ++ ys) ≡ map f xs ++ map f ys
map_append f [] ys = refl
map_append f (x ∷ xs) ys = ap (λ zs. f x ∷ zs) (map_append f xs ys)

-- The embedded fixtures are the fixtures of a manifest that the tool writes: the same files, each with
-- the same root type, expectation and expected error.
pub fixtures-manifest :
    (u : UuidCrate) (c : Canonicalizer ObservationDigest)
    (to_value : FixtureValue → Result Value Text) (values : Canonicalizer Value)
    (canonical : Canonicalizer (List ManifestAsset)) (faults : Faults) (s : Repository)
    (schemas valid : List Asset) (m : Manifest)
    → valid_fixture_assets u c to_value values ≡ ok valid
    → manifest_of canonical faults s schemas valid ≡ ok m
    → (r : FixtureRow)
    → IsMember r (map fixture_row (fixtures (λ path. path)))
      ↔ ((e : ManifestAsset) × IsMember e m.assets × (e.kind ≡ codes "fixture") × (entry_row e ≡ r))
fixtures-manifest u c to_value values canonical faults s schemas valid m h k r =
    let table = valid_fixture_assets-table u c to_value values valid h in
    let (invalid, e1, members, count, order, digest) =
      manifest_of-entries canonical faults s schemas valid m k in
    let (valid_rows, valid_kinds) = valid_entries_rows canonical valid in
    let (invalid_rows, invalid_kinds) =
      invalid_entries_rows canonical faults s invalid_fixtures invalid e1 in
    let rows : map entry_row (fixture_entries canonical schemas valid invalid) ≡ tool_rows =
      map_append entry_row (map (valid_entry canonical) valid) invalid
      ∙ ap (λ x. x ++ map entry_row invalid) (valid_rows ∙ ap (map valid_row) table)
      ∙ ap (λ x. map valid_row (map located valid_table) ++ x) invalid_rows in
    let kinds =
      All-append IsFixtureEntry (map (valid_entry canonical) valid) invalid valid_kinds
        invalid_kinds in
    (
      λ n.
          let listed_row = embedded_in_tool r n in
          let (e, i, q) =
            IsMember-map_inverse entry_row r (fixture_entries canonical schemas valid invalid)
              (subst (IsMember r) (sym rows) listed_row) in
          (
            e,
            (members e).1 (fixture_listed canonical schemas valid invalid e i),
            All-IsMember IsFixtureEntry e (fixture_entries canonical schemas valid invalid) kinds i,
            q,
          ),
      λ (e, i, kind, q).
          let j = listed_fixture canonical schemas valid invalid e ((members e).0 i) kind in
          let row = IsMember-map entry_row e (fixture_entries canonical schemas valid invalid) j in
          tool_in_embedded r (
            subst (IsMember r) rows (
              subst
                (λ x. IsMember x (map entry_row (fixture_entries canonical schemas valid invalid)))
                q row)),
    )
