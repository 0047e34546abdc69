-- ===== src/Examples/Generating.antt =====
-- Library code and a repository on which the contract tool runs.
use nautilus_agents.Base.{
  ℕ, ◌≡◌, refl, false, List, [], ◌∷◌, ◌++◌, map, some, Result, ok, list_eq, nat_eq,
}
use nautilus_agents.Text.{Text, codes, bytes}
use nautilus_agents.Contract.Schemas.{schema_assets}
use nautilus_agents.Contract.FieldsFile.{fields_bytes, pop, fields_header}
use nautilus_agents.Contract.Manifest.{Manifest, manifest_of, manifest_bytes}
use nautilus_agents.Testing.Fixtures.{fixtures-IsValid}
use nautilus_agents.Protocol.Identity.{UuidCrate}
use nautilus_agents.Base.{Option, none, true, ap, map_err, All, IsMember, not-IsMember}
use nautilus_agents.Contract.Tool.Kept.{outputs_of}
use nautilus_agents.Contract.Tool.Repeated.{main_generate}
use nautilus_agents.Protocol.Observation.{Observation, ObservationDigest}
use nautilus_agents.Protocol.Receipt.{DecisionStatus, DecisionReceipt}
use nautilus_agents.Testing.{valid_observation, redacted_observation}
use nautilus_agents.Testing.Uuids.{ReadsUuids}
use nautilus_agents.Testing.Receipts.{reduce_position_request}
use nautilus_agents.Contract.Asset.{Asset}
use nautilus_agents.Contract.Fixtures.{valid_fixture_assets}
use nautilus_agents.Contract.Tool.Paths.{valid_table}
use nautilus_agents.Contract.Json.{null, object, end}
use nautilus_agents.Contract.Invalid.{invalid_fixtures}
use nautilus_agents.Contract.Errors.{ToolError}
use nautilus_agents.Contract.Repository.{Faults, Repository, components}
use nautilus_agents.Contract.Files.{in_contract, write_assets}
use nautilus_agents.Contract.Tool.{Libraries, Outputs, outputs, finish, main}
use nautilus_agents.Examples.Samples.{canonicalizer}

-- Every text is a UUID that is printed as it is.
abbrev pub uuid_crate : UuidCrate
uuid_crate = record { Uuid = Text; parse_str = λ t. some t; hyphenated = λ t. t }

pub reads_uuids : ReadsUuids uuid_crate
reads_uuids t h = (t, refl, refl)

abbrev pub libraries : Libraries
libraries = record {
  uuid = uuid_crate;
  observations = canonicalizer;
  values = record { serialize = λ v. ok []; digest = λ raw. [] };
  manifests = record { serialize = λ v. ok []; digest = λ raw. [] };
  schema_for = λ t. ok (object end);
  to_value = λ v. ok null;
  from_slice = λ raw. ok null;
  pretty_value = λ v. ok [];
  pretty_manifest = λ m. ok [];
  debug = λ t. t;
}

abbrev pub no_faults : Faults
no_faults = record { unreadable = λ p. false; unwritable = λ p. false; cut_after = λ p. none }

-- The invalid fixtures are there, and nothing is generated yet.
abbrev pub repository : Repository
repository = record {
  files = map (λ f. (in_contract (codes "fixtures/invalid/" ++ f.file), [])) invalid_fixtures;
  directories =
      components (codes "contract")
      ∷ components (codes "contract/v1")
      ∷ components (codes "contract/v1/fixtures")
      ∷ components (codes "contract/v1/fixtures/invalid")
      ∷ [];
}

pub serializes : (v : ObservationDigest) → (raw : List ℕ) × (canonicalizer.serialize v ≡ ok raw)
serializes v = ([], refl)

abbrev pub fixture_list : List Asset
fixture_list =
    map (λ r. record { path = codes "fixtures/valid/" ++ r.0; root_type = r.1; bytes = [] })
      valid_table

pub fixtures_ok :
    (valid redacted : Observation)
    → valid_observation uuid_crate canonicalizer ≡ ok valid
    → redacted_observation uuid_crate canonicalizer ≡ ok redacted
    → valid_fixture_assets uuid_crate canonicalizer libraries.to_value libraries.values
      ≡ ok fixture_list
unfolding valid_fixture_assets reduce_position_request nautilus_agents.Protocol.Identity.parse
    nautilus_agents.Panics.parse nautilus_agents.Base.list_beq
    nautilus_agents.Testing.Receipts.padded nautilus_agents.Testing.Receipts.add
    nautilus_agents.Protocol.Receipt.validate nautilus_agents.Protocol.Version.is_supported
    nautilus_agents.Value.Timestamp.new nautilus_agents.Protocol.Identity.parse_key
    nautilus_agents.Value.Identifier.parse nautilus_agents.Value.Quantity.parse
    nautilus_agents.Text.ends_with nautilus_agents.Text.bytes
fixtures_ok valid redacted e e' = rw (e, e') refl

abbrev pub schema_list : List Asset
schema_list =
    record {
      path = codes "schema/agent-trace.schema.json";
      root_type = codes "AgentTrace";
      bytes = b'\n' ∷ [];
    }
    ∷ record {
      path = codes "schema/decision-receipt.schema.json";
      root_type = codes "DecisionReceipt";
      bytes = b'\n' ∷ [];
    }
    ∷ record {
      path = codes "schema/live-proposal-request.schema.json";
      root_type = codes "LiveProposalRequest";
      bytes = b'\n' ∷ [];
    }
    ∷ record {
      path = codes "schema/observation.schema.json";
      root_type = codes "Observation";
      bytes = b'\n' ∷ [];
    }
    ∷ record {
      path = codes "schema/proposal-response.schema.json";
      root_type = codes "ProposalResponse";
      bytes = b'\n' ∷ [];
    }
    ∷ []

pub schemas_ok : schema_assets libraries.schema_for libraries.pretty_value ≡ ok schema_list
unfolding schema_assets
schemas_ok = refl

pub fields_ok :
    fields_bytes libraries.from_slice libraries.debug schema_list ≡ ok (bytes (pop fields_header))
unfolding fields_bytes
fields_ok = refl

manifest_ok :
    manifest_bytes libraries.manifests libraries.pretty_manifest no_faults repository schema_list
      fixture_list
    ≡ ok (b'\n' ∷ [])
unfolding manifest_bytes nautilus_agents.Base.list_beq nautilus_agents.Text.split
manifest_ok = refl

abbrev pub computed : Outputs
computed = record {
  schemas = schema_list;
  fixtures = fixture_list;
  fields = bytes (pop fields_header);
  manifest = b'\n' ∷ [];
}

outputs_ok : outputs libraries no_faults repository ≡ ok computed
outputs_ok =
    let (valid, redacted, e, v, e', v', none_left) =
      fixtures-IsValid canonicalizer serializes uuid_crate reads_uuids in
    outputs_of libraries no_faults repository computed schemas_ok (fixtures_ok valid redacted e e')
      (ap (map_err ToolError.library) fields_ok) manifest_ok

written :
    (write_assets no_faults schema_list fixture_list
      (bytes (pop fields_header))
      (b'\n' ∷ [])
      repository).0
    ≡ ok tt
unfolding write_assets nautilus_agents.Text.split nautilus_agents.Base.contains
    nautilus_agents.Base.list_beq nautilus_agents.Base.text_less
written = refl

finished :
    (finish libraries no_faults true repository (outputs libraries no_faults repository)).0 ≡ ok tt
finished = rw outputs_ok written

abbrev pub generate : Result (Unit {0}) ToolError × Repository
generate = main libraries no_faults (some (codes "generate")) repository

pub generated_ok : generate.0 ≡ ok tt
generated_ok = rw (main_generate libraries no_faults repository) finished

pub fixtures_found :
    valid_fixture_assets uuid_crate canonicalizer libraries.to_value libraries.values
    ≡ ok fixture_list
fixtures_found =
    let (valid, redacted, e, v, e', v', none_left) =
      fixtures-IsValid canonicalizer serializes uuid_crate reads_uuids in
    fixtures_ok valid redacted e e'

pub manifest_found :
    (m : Manifest) × (manifest_of libraries.manifests no_faults repository schema_list fixture_list
      ≡ ok m)
unfolding manifest_of nautilus_agents.Base.list_beq nautilus_agents.Text.split
manifest_found = (_, refl)
