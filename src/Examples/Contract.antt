-- ===== src/Examples/Contract.antt =====
-- The theorems on the contract tool and on what it publishes at concrete inputs.
use nautilus_agents.Testing.Receipts.Request.{request-clear}
use nautilus_agents.Testing.Receipts.{reduce_position_request, proposal_trace}
use nautilus_agents.Protocol.Live as Live
use nautilus_agents.Protocol.Live.{LiveProposalRequest}
use nautilus_agents.Assurance.Trace.{AgentTrace, proposed}
use nautilus_agents.Assurance.Advisory.{is_clear, evaluate}
use nautilus_agents.Examples.Samples.{show_error}
use nautilus_agents.Contract.Tool.Settled.{check-generate}
use nautilus_agents.Base.{
  ℕ, ◌<◌, ◌≡◌, ◌↔◌, ◌⊎◌, inl, inr, refl, true, false, List, [], ◌∷◌, ◌++◌, map, All, IsMember,
  IsSorted, not-IsMember, length, Option, none, some, Result, ok, map_err, list_eq, nat_eq, arith,
}
use nautilus_agents.Text.{Text, codes, bytes}
use nautilus_agents.Protocol.Canonical.{sha256}
use nautilus_agents.Protocol.Observation.{Observation, reference}
use nautilus_agents.Protocol.Receipt.{DecisionStatus, DecisionReceipt}
use nautilus_agents.Protocol.Receipt.Consistency.{IsConsistent, rejected}
use nautilus_agents.Testing.{valid_observation}
use nautilus_agents.Testing.Receipts.{receipt_of, rejection}
use nautilus_agents.Testing.Receipts.Returns.{receipt_of-returns}
use nautilus_agents.Conformance.{fixtures}
use nautilus_agents.Conformance.Rows.{FixtureRow, fixture_row, entry_row}
use nautilus_agents.Conformance.Agreement.{fixtures-manifest}
use nautilus_agents.Contract.Json.{Value, string, object, end, member}
use nautilus_agents.Contract.Fields.{Field, field_order, collect_fields}
use nautilus_agents.Contract.Fields.Occurs.{Declares}
use nautilus_agents.Contract.Fields.Collected.{collect_fields-IsMember}
use nautilus_agents.Contract.FieldsFile.{push_fields, pop, fields_header, fields_bytes}
use nautilus_agents.Contract.FieldsFile.Declared.{SomeDeclares, fields_bytes-declared}
use nautilus_agents.Contract.Invalid.{invalid_fixtures}
use nautilus_agents.Contract.Errors.{ToolError}
use nautilus_agents.Contract.Repository.{FilePath, components, file_at}
use nautilus_agents.Contract.Files.{check_assets}
use nautilus_agents.Contract.Files.Checked.{IsUpToDate, check_assets_iff}
use nautilus_agents.Contract.Manifest.{ManifestAsset, listed, invalid_entries}
use nautilus_agents.Contract.Manifest.Entries.{IsByPath, manifest_of-entries}
use nautilus_agents.Contract.Tool.{main}
use nautilus_agents.Contract.Tool.Kept.{generated}
use nautilus_agents.Contract.Tool.Repeated.{generate-check, main-other}
use nautilus_agents.Examples.Samples.{canonicalizer}
use nautilus_agents.Examples.Generating.{
  uuid_crate, reads_uuids, libraries, no_faults, repository, serializes, fixture_list, schema_list,
  generate, generated_ok, fixtures_found, manifest_found,
}

All-readable : All (λ p. no_faults.unreadable p ≡ false) generated
All-readable = (
  refl,
  (
    refl,
    (
      refl,
      (
        refl,
        (
          refl,
          (
            refl,
            (
              refl,
              (
                refl,
                (
                  refl,
                  (
                    refl,
                    (
                      refl,
                      (
                        refl,
                        (
                          refl,
                          (
                            refl,
                            (
                              refl,
                              (refl, (refl, (refl, (refl, (refl, (refl, (refl, (refl, tt)))))))),
                            ),
                          ),
                        ),
                      ),
                    ),
                  ),
                ),
              ),
            ),
          ),
        ),
      ),
    ),
  ),
)

generate-check_example : (main libraries no_faults (some (codes "check")) generate.1).0 ≡ ok tt
generate-check_example = generate-check libraries no_faults repository All-readable generated_ok

not_generated : ¬ IsMember (components (codes "LICENSE")) generated
unfolding nautilus_agents.Base.contains nautilus_agents.Base.list_beq nautilus_agents.Text.split
not_generated = not-IsMember (components (codes "LICENSE")) generated refl

main-other_example :
    file_at (components (codes "LICENSE")) generate.1.files
    ≡ file_at (components (codes "LICENSE")) repository.files
main-other_example =
    main-other libraries no_faults (some (codes "generate")) repository
      (components (codes "LICENSE")) not_generated

check_assets_iff_example :
    (check_assets no_faults schema_list fixture_list [] [] generate.1 ≡ ok tt)
    ↔ IsUpToDate no_faults generate.1 schema_list fixture_list [] []
check_assets_iff_example = check_assets_iff no_faults generate.1 schema_list fixture_list [] []

-- An object with a title and one property, which is not required.
abbrev schema : Value
schema = object (
    member (codes "properties") (object (member (codes "quantity") (object end) end))
      (member (codes "title") (string (codes "ReducePosition")) end))

abbrev quantity_field : Field
quantity_field = record {
  root_type = codes "LiveProposalRequest";
  container = codes "ReducePosition";
  name = codes "quantity";
  required = false;
}

collect_fields-IsMember_example :
    IsMember quantity_field
      (collect_fields (codes "LiveProposalRequest") (codes "Request") schema [])
    ↔ (IsMember quantity_field []
        ⊎ Declares (codes "LiveProposalRequest") (codes "Request") schema quantity_field)
collect_fields-IsMember_example =
    collect_fields-IsMember (codes "LiveProposalRequest") (codes "Request") schema [] quantity_field

fields_found : (out : List ℕ) × (fields_bytes (λ raw. ok schema) (λ t. t) schema_list ≡ ok out)
unfolding fields_bytes
fields_found = (_, refl)

fields_bytes-declared_example :
    (fields : List Field) × (fields_found.0
      ≡ bytes (pop (push_fields (λ t. t) fields fields_header)))
    × IsSorted fields
    × ((f : Field) → IsMember f fields ↔ SomeDeclares (λ raw. ok schema) f schema_list)
fields_bytes-declared_example =
    fields_bytes-declared (λ raw. ok schema) (λ t. t) schema_list fields_found.0 fields_found.1

manifest_of-entries_example :
    (invalid : List ManifestAsset) × (invalid_entries libraries.manifests no_faults repository
        invalid_fixtures
      ≡ ok invalid)
    × ((e : ManifestAsset)
        → IsMember e manifest_found.0.assets
          ↔ IsMember e (listed libraries.manifests schema_list fixture_list invalid))
    × (length manifest_found.0.assets
        ≡ length (listed libraries.manifests schema_list fixture_list invalid))
    × IsByPath manifest_found.0.assets
    × (map_err ToolError.library (sha256 libraries.manifests manifest_found.0.assets)
        ≡ ok (record { text = manifest_found.0.contract_digest }))
manifest_of-entries_example =
    manifest_of-entries libraries.manifests no_faults repository schema_list fixture_list
      manifest_found.0 manifest_found.1

abbrev row : FixtureRow
row = record {
  path = codes "contract/v1/fixtures/invalid/zero-quantity.json";
  root_type = codes "LiveProposalRequest";
  expectation = codes "invalid";
  expected_error = some nautilus_agents.Protocol.Errors.ErrorCode.malformed;
}

fixtures-manifest_example : IsMember row (map fixture_row (fixtures (λ path. path))) ↔ (
    (e : ManifestAsset) × IsMember e manifest_found.0.assets
    × (e.kind ≡ codes "fixture")
    × (entry_row e ≡ row))
fixtures-manifest_example =
    fixtures-manifest uuid_crate canonicalizer libraries.to_value libraries.values
      libraries.manifests no_faults repository schema_list fixture_list manifest_found.0
      fixtures_found manifest_found.1 row

receipt_of-returns_example :
    (r : DecisionReceipt) × (valid : Observation) × (receipt_of uuid_crate canonicalizer
        DecisionStatus.rejected
        (some rejection)
        42
      ≡ ok r)
    × IsConsistent r
    × (r.status ≡ DecisionStatus.rejected)
    × (r.error ≡ some rejection)
    × (valid_observation uuid_crate canonicalizer ≡ ok valid)
    × (r.observation ≡ reference valid)
receipt_of-returns_example =
    receipt_of-returns uuid_crate reads_uuids canonicalizer serializes DecisionStatus.rejected
      (some rejection) 42 rejected (omega arith)

checked_ok : (main libraries no_faults (some (codes "check")) generate.1).0 ≡ ok tt
checked_ok = generate-check libraries no_faults repository All-readable generated_ok

whole_writes : (p : FilePath) → no_faults.cut_after p ≡ none
whole_writes p = refl

check-generate_example :
    file_at
      (components (codes "contract/v1/manifest.json"))
      (main libraries no_faults (some (codes "generate")) generate.1).1.files
    ≡ file_at (components (codes "contract/v1/manifest.json")) generate.1.files
check-generate_example =
    check-generate libraries no_faults whole_writes generate.1 checked_ok
      (components (codes "contract/v1/manifest.json"))

request-clear_example :
    (valid : Observation) × (request : LiveProposalRequest) × (trace : AgentTrace)
    × (valid_observation uuid_crate canonicalizer ≡ ok valid)
    × (reduce_position_request uuid_crate canonicalizer ≡ ok request)
    × (proposal_trace uuid_crate canonicalizer ≡ ok trace)
    × (Live.validate request ≡ ok tt)
    × (request.observation ≡ reference valid)
    × (is_clear (evaluate canonicalizer show_error valid request.proposal valid.created_at) ≡ true)
    × (trace.observation ≡ reference valid)
    × (trace.outcome ≡ proposed request.proposal)
request-clear_example = request-clear uuid_crate reads_uuids canonicalizer serializes show_error
