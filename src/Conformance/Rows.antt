-- ===== src/Conformance/Rows.antt =====
-- The rows of the embedded fixtures and those of the contract tool.
use nautilus_agents.Base.{
  ℕ, ◌≡◌, refl, sym, ap, ◌∙◌, ◌↔◌, ◌⊎◌, inl, inr, Bool, true, false, ◌&&◌, List, [], ◌∷◌, ◌++◌, map,
  all, Option, none, some, Result, ok, err, ◌>>=◌, map_err, bind-ok, ◌==◌, PartialEq, list_eq,
  nat_eq, list_beq_iff, IsMember, contains, contains_all, arith, subst, All, IsMember-map,
  IsMember-map_inverse, IsMember-append, All-IsMember, All-append,
}
use nautilus_agents.Base.{option_eq, option_beq, option_beq_iff}
use nautilus_agents.Text.{Text, codes}
use nautilus_agents.Protocol.Errors.{ErrorCode, code_eq}
use nautilus_agents.Protocol.Canonical.{Canonicalizer}
use nautilus_agents.Conformance.{Fixture, FixtureExpectation, fixtures}
use nautilus_agents.Contract.Asset.{Asset}
use nautilus_agents.Contract.Invalid.{InvalidFixture, invalid_fixtures}
use nautilus_agents.Contract.Repository.{Faults, Repository, components, read}
use nautilus_agents.Contract.Files.{in_contract}
use nautilus_agents.Contract.Errors.{failed_to_read}
use nautilus_agents.Contract.Manifest.{
  ManifestAsset, expectation_of, manifest_asset, listed, invalid_entry, invalid_entries,
}
use nautilus_agents.Contract.Tool.Paths.{valid_table, located, row_of}

-- What both sides say of a fixture: its file below the repository's root, its type, and what is
-- expected of it.
pub record FixtureRow : Type 0 where
  pub path : Text
  pub root_type : Text
  pub expectation : Text
  pub expected_error : Option ErrorCode

abbrev row_beq : FixtureRow → FixtureRow → Bool
row_beq a b =
    a.path == b.path
    && (a.root_type == b.root_type
        && (a.expectation == b.expectation && a.expected_error == b.expected_error))

row_beq_iff : (a b : FixtureRow) → (row_beq a b ≡ true) ↔ (a ≡ b)
row_beq_iff a b = ground (
  arith,
  list_beq_iff a.path b.path,
  list_beq_iff a.root_type b.root_type,
  list_beq_iff a.expectation b.expectation,
  option_beq_iff a.expected_error b.expected_error,
)

instance abbrev row_eq : PartialEq FixtureRow
row_eq = record { is_eq = row_beq; is_eq_iff = row_beq_iff }

abbrev pub expectation_text : FixtureExpectation → Text
expectation_text FixtureExpectation.valid = codes "valid"
expectation_text FixtureExpectation.invalid = codes "invalid"

-- The row of an embedded fixture, where each file holds its own path.
abbrev pub fixture_row : Fixture → FixtureRow
fixture_row f = record {
  path = f.bytes;
  root_type = f.root_type;
  expectation = expectation_text f.expectation;
  expected_error = f.expected_error;
}

abbrev pub entry_row : ManifestAsset → FixtureRow
entry_row e = record {
  path = codes "contract/v1/" ++ e.path;
  root_type = e.root_type;
  expectation = e.expectation;
  expected_error = e.expected_error;
}

abbrev pub valid_row : Text × Text → FixtureRow
valid_row r = record {
  path = codes "contract/v1/" ++ r.0;
  root_type = r.1;
  expectation = codes "valid";
  expected_error = none;
}

abbrev pub invalid_row : InvalidFixture → FixtureRow
invalid_row f = record {
  path = codes "contract/v1/" ++ (codes "fixtures/invalid/" ++ f.file);
  root_type = f.root_type;
  expectation = expectation_of f.expected_error;
  expected_error = f.expected_error;
}

abbrev pub tool_rows : List FixtureRow
tool_rows = map valid_row (map located valid_table) ++ map invalid_row invalid_fixtures

abbrev pub embedded_rows : List FixtureRow
embedded_rows = map fixture_row (fixtures (λ path. path))

embedded_listed : all (λ r. contains r tool_rows) embedded_rows ≡ true
unfolding contains fixtures nautilus_agents.Base.list_beq
embedded_listed = refl

listed_embedded : all (λ r. contains r embedded_rows) tool_rows ≡ true
unfolding contains fixtures nautilus_agents.Base.list_beq
listed_embedded = refl

pub embedded_in_tool : (r : FixtureRow) → IsMember r embedded_rows → IsMember r tool_rows
embedded_in_tool r m = contains_all embedded_rows tool_rows embedded_listed r m

pub tool_in_embedded : (r : FixtureRow) → IsMember r tool_rows → IsMember r embedded_rows
tool_in_embedded r m = contains_all tool_rows embedded_rows listed_embedded r m

abbrev pub IsFixtureEntry : ManifestAsset → Type 0
IsFixtureEntry e = e.kind ≡ codes "fixture"

module _ (canonical : Canonicalizer (List ManifestAsset)) where
  abbrev pub valid_entry : Asset → ManifestAsset
  valid_entry a = manifest_asset canonical (codes "fixture") a (codes "valid") none

  pub valid_entries_rows :
      (assets : List Asset)
      → (map entry_row (map valid_entry assets) ≡ map valid_row (map row_of assets))
        × All IsFixtureEntry (map valid_entry assets)
  unfolding manifest_asset
  valid_entries_rows [] = (refl, tt)
  valid_entries_rows (a ∷ assets) =
      let (same, kinds) = valid_entries_rows assets in
      (ap (λ rs. valid_row (row_of a) ∷ rs) same, (refl, kinds))

  invalid_entry_row :
      (faults : Faults) (s : Repository) (f : InvalidFixture) (e : ManifestAsset)
      → invalid_entry canonical faults s f ≡ ok e
      → (entry_row e ≡ invalid_row f) × IsFixtureEntry e
  unfolding invalid_entry manifest_asset
  invalid_entry_row faults s f e h =
      let p = in_contract (codes "fixtures/invalid/" ++ f.file) in
      let (raw, e1, h1) =
        bind-ok
          (map_err (failed_to_read (components (codes "fixtures/invalid/" ++ f.file)))
            (read faults p s))
          _ e h in
      let path : codes "fixtures/invalid/" ++ f.file ≡ e.path = cc in
      let root : f.root_type ≡ e.root_type = cc in
      let expectation : expectation_of f.expected_error ≡ e.expectation = cc in
      let error : f.expected_error ≡ e.expected_error = cc in
      let kind : codes "fixture" ≡ e.kind = cc in
      (rw (sym path, sym root, sym expectation, sym error) refl, sym kind)

  pub invalid_entries_rows :
      (faults : Faults) (s : Repository) (fs : List InvalidFixture) (entries : List ManifestAsset)
      → invalid_entries canonical faults s fs ≡ ok entries
      → (map entry_row entries ≡ map invalid_row fs) × All IsFixtureEntry entries
  unfolding invalid_entries
  invalid_entries_rows faults s [] entries h =
      let none_left : [] ≡ entries = cc in
      subst (λ es. (map entry_row es ≡ []) × All IsFixtureEntry es) none_left (refl, tt)
  invalid_entries_rows faults s (f ∷ fs) entries h =
      let (entry, e1, h1) = bind-ok (invalid_entry canonical faults s f) _ entries h in
      let (rest, e2, h2) = bind-ok (invalid_entries canonical faults s fs) _ entries h1 in
      let (row, kind) = invalid_entry_row faults s f entry e1 in
      let (rows, kinds) = invalid_entries_rows faults s fs rest e2 in
      let all_of : entry ∷ rest ≡ entries = cc in
      subst (λ es. (map entry_row es ≡ map invalid_row (f ∷ fs)) × All IsFixtureEntry es) all_of
        (rw (row, rows) refl, (kind, kinds))

  -- The fixture entries among those that a manifest lists.
  module _ (schemas fixtures' : List Asset) (invalid : List ManifestAsset) where
    abbrev pub fixture_entries : List ManifestAsset
    fixture_entries = map valid_entry fixtures' ++ invalid

    schema_entry_kind :
        (e : ManifestAsset) (assets : List Asset)
        → IsMember e
            (map (λ a. manifest_asset canonical (codes "schema") a (codes "schema") none) assets)
        → ¬ IsFixtureEntry e
    unfolding manifest_asset
    schema_entry_kind e assets m k =
        let (a, n, q) =
          IsMember-map_inverse
            (λ a. manifest_asset canonical (codes "schema") a (codes "schema") none) e assets m in
        let same : codes "schema" ≡ codes "fixture" = ap (λ x. x.kind) q ∙ k in cc

    pub listed_fixture :
        (e : ManifestAsset)
        → IsMember e (listed canonical schemas fixtures' invalid)
        → IsFixtureEntry e
        → IsMember e fixture_entries
    listed_fixture e m k =
        let schema_entries =
          map (λ a. manifest_asset canonical (codes "schema") a (codes "schema") none) schemas in
        elim ((IsMember-append e schema_entries fixture_entries).0 m) [
          | inl n ↦ absurd (schema_entry_kind e schemas n k)
          | inr n ↦ n
        ]

    pub fixture_listed :
        (e : ManifestAsset)
        → IsMember e fixture_entries
        → IsMember e (listed canonical schemas fixtures' invalid)
    fixture_listed e n =
        let schema_entries =
          map (λ a. manifest_asset canonical (codes "schema") a (codes "schema") none) schemas in
        (IsMember-append e schema_entries fixture_entries).1 (inr n)
