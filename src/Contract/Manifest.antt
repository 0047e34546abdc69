-- ===== src/Contract/Manifest.antt =====
-- The manifest: `manifest_bytes` and `manifest_asset`. Its canonical serialization, its hash and its
-- pretty print are parameters.
pub mod Entries
use nautilus_agents.Base.{
  ℕ, List, [], ◌∷◌, ◌++◌, map, if◌then◌else◌, length, Option, none, some, Result, ok, ◌>>=◌,
  map_err, list_eq, nat_eq,
}
use nautilus_agents.Base.{text_order}
use nautilus_agents.Text.{Text, codes}
use nautilus_agents.Value.Timestamp.{u64_digits, emit}
use nautilus_agents.Protocol.Version.{protocol_version}
use nautilus_agents.Protocol.Errors.{ErrorCode}
use nautilus_agents.Protocol.Canonical.{Canonicalizer, sha256, sha256_bytes}
use nautilus_agents.Contract.Asset.{Asset}
use nautilus_agents.Contract.Errors.{ToolError, failed_to_read, library}
use nautilus_agents.Contract.Invalid.{InvalidFixture, invalid_fixtures}
use nautilus_agents.Contract.Repository.{Faults, Repository, components, read}
use nautilus_agents.Contract.Files.{in_contract}
use nautilus_agents.Contract.Schemas.{pretty_json}

pub record ManifestAsset : Type 0 where
  pub kind : Text
  pub root_type : Text
  pub path : Text
  pub byte_length : ℕ
  pub sha256 : Text
  pub expectation : Text
  pub expected_error : Option ErrorCode

pub record Manifest : Type 0 where
  pub protocol_version : Text
  pub generator_version : Text
  pub contract_digest : Text
  pub assets : List ManifestAsset

-- `env!("CARGO_PKG_VERSION")`
abbrev pub generator_version : Text
generator_version = codes "0.2.0"

-- `sort_by` on the paths: stable, so that an entry stays before a later one of the same path.
unfoldable pub insert_by_path : ManifestAsset → List ManifestAsset → List ManifestAsset
insert_by_path a [] = a ∷ []
insert_by_path a (b ∷ bs) =
    let rest = insert_by_path a bs in if text_order.less b.path a.path then b ∷ rest else a ∷ b ∷ bs

unfoldable pub sort_by_path : List ManifestAsset → List ManifestAsset
unfolding insert_by_path
sort_by_path [] = []
sort_by_path (a ∷ assets) = insert_by_path a (sort_by_path assets)

abbrev pub expectation_of : Option ErrorCode → Text
expectation_of none = codes "valid"
expectation_of (some e) = codes "invalid"

unfoldable pub version_text : Text
unfolding emit
version_text =
    emit u64_digits protocol_version.major [] ++ b'.' ∷ emit u64_digits protocol_version.minor []

module _ (canonical : Canonicalizer (List ManifestAsset)) where
  unfoldable pub manifest_asset : Text → Asset → Text → Option ErrorCode → ManifestAsset
  unfolding sha256_bytes
  manifest_asset kind asset expectation expected_error = record {
    kind = kind;
    root_type = asset.root_type;
    path = asset.path;
    byte_length = length asset.bytes;
    sha256 = (sha256_bytes canonical asset.bytes).text;
    expectation = expectation;
    expected_error = expected_error;
  }

  unfoldable pub invalid_entry :
      Faults → Repository → InvalidFixture → Result ManifestAsset ToolError
  unfolding read manifest_asset
  invalid_entry faults s fixture = do
    raw ←
        map_err (failed_to_read (components (codes "fixtures/invalid/" ++ fixture.file)))
          (read faults (in_contract (codes "fixtures/invalid/" ++ fixture.file)) s)
    ok (
        manifest_asset (codes "fixture")
          (record {
            path = codes "fixtures/invalid/" ++ fixture.file;
            root_type = fixture.root_type;
            bytes = raw;
          })
          (expectation_of fixture.expected_error) fixture.expected_error)

  unfoldable pub invalid_entries :
      Faults → Repository → List InvalidFixture → Result (List ManifestAsset) ToolError
  unfolding invalid_entry
  invalid_entries faults s [] = ok []
  invalid_entries faults s (fixture ∷ fixtures) = do
    entry ← invalid_entry faults s fixture
    entries ← invalid_entries faults s fixtures
    ok (entry ∷ entries)

  abbrev pub listed : List Asset → List Asset → List ManifestAsset → List ManifestAsset
  listed schemas fixtures invalid =
      map (λ a. manifest_asset (codes "schema") a (codes "schema") none) schemas
      ++ (map (λ a. manifest_asset (codes "fixture") a (codes "valid") none) fixtures ++ invalid)

  unfoldable pub manifest_of :
      Faults → Repository → List Asset → List Asset → Result Manifest ToolError
  unfolding manifest_asset invalid_entries sort_by_path sha256 version_text
  manifest_of faults s schemas fixtures = do
    invalid ← invalid_entries faults s invalid_fixtures
    digest ← map_err library (sha256 canonical (sort_by_path (listed schemas fixtures invalid)))
    ok (record {
      protocol_version = version_text;
      generator_version = generator_version;
      contract_digest = digest.text;
      assets = sort_by_path (listed schemas fixtures invalid);
    })

  unfoldable pub manifest_bytes :
      (Manifest → Result (List ℕ) Text)
      → Faults
      → Repository
      → List Asset
      → List Asset
      → Result (List ℕ) ToolError
  unfolding manifest_of pretty_json
  manifest_bytes to_vec_pretty faults s schemas fixtures = do
    manifest ← manifest_of faults s schemas fixtures
    pretty_json to_vec_pretty manifest
