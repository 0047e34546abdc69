-- ===== src/Contract/Tool.antt =====
-- `main` of the tool.
pub mod Paths
pub mod Kept
pub mod Repeated
pub mod Settled
pub mod Succeeds
use nautilus_agents.Base.{
  Bool, true, false, List, if◌then◌else◌, Option, none, some, Result, ok, err, ◌>>=◌, map_err, ◌&&◌,
  ◌==◌, ◌!=◌, list_eq, nat_eq,
}
use nautilus_agents.Text.{Text, codes}
use nautilus_agents.Protocol.Identity.{UuidCrate}
use nautilus_agents.Protocol.Canonical.{Canonicalizer}
use nautilus_agents.Protocol.Observation.{ObservationDigest}
use nautilus_agents.Contract.Json.{Value}
use nautilus_agents.Contract.Asset.{Asset}
use nautilus_agents.Contract.Errors.{ToolError, library, unknown_mode}
use nautilus_agents.Contract.Repository.{Bytes, Faults, Repository}
use nautilus_agents.Contract.Schemas.{Dto, schema_assets}
use nautilus_agents.Contract.Fixtures.{FixtureValue, valid_fixture_assets}
use nautilus_agents.Contract.FieldsFile.{fields_bytes}
use nautilus_agents.Contract.Manifest.{Manifest, ManifestAsset, manifest_bytes}
use nautilus_agents.Contract.Files.{write_assets, check_assets}

-- The library code that the tool calls.
pub record Libraries : Type 1 where
  pub uuid : UuidCrate
  pub observations : Canonicalizer ObservationDigest
  pub values : Canonicalizer Value
  pub manifests : Canonicalizer (List ManifestAsset)
  pub schema_for : Dto → Result Value Text
  pub to_value : FixtureValue → Result Value Text
  pub from_slice : Bytes → Result Value Text
  pub pretty_value : Value → Result Bytes Text
  pub pretty_manifest : Manifest → Result Bytes Text
  pub debug : Text → Text

-- What a run computes before it writes or checks.
pub record Outputs : Type 0 where
  pub schemas : List Asset
  pub fixtures : List Asset
  pub fields : Bytes
  pub manifest : Bytes

abbrev pub mode_of : Option Text → Text
mode_of none = codes "check"
mode_of (some m) = m

module _ (l : Libraries) (faults : Faults) where
  unfoldable pub outputs : Repository → Result Outputs ToolError
  unfolding schema_assets valid_fixture_assets fields_bytes manifest_bytes
  outputs s = do
    schemas ← schema_assets l.schema_for l.pretty_value
    fixtures ← valid_fixture_assets l.uuid l.observations l.to_value l.values
    fields ← map_err library (fields_bytes l.from_slice l.debug schemas)
    manifest ← manifest_bytes l.manifests l.pretty_manifest faults s schemas fixtures
    ok (record { schemas = schemas; fixtures = fixtures; fields = fields; manifest = manifest })

  abbrev pub finish :
      Bool → Repository → Result Outputs ToolError → Result (Unit {0}) ToolError × Repository
  finish generate s (err e) = (err e, s)
  finish true s (ok o) = write_assets faults o.schemas o.fixtures o.fields o.manifest s
  finish false s (ok o) = (check_assets faults o.schemas o.fixtures o.fields o.manifest s, s)

  unfoldable pub main : Option Text → Repository → Result (Unit {0}) ToolError × Repository
  unfolding outputs write_assets check_assets
  main argument s =
      if mode_of argument != codes "generate" && mode_of argument != codes "check"
      then (err (unknown_mode (mode_of argument)), s)
      else finish (mode_of argument == codes "generate") s (outputs s)
