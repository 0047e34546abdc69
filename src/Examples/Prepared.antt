-- ===== src/Examples/Prepared.antt =====
-- A repository in which the contract tool can generate.
use nautilus_agents.Base.{
  ◌≡◌, refl, ap, sym, ◌∙◌, Bool, true, false, not, ◌&&◌, List, [], ◌∷◌, ◌++◌, map, all, All, some,
  Result, ok, map_err, Bool-cases, inl, inr, list_eq, nat_eq, arith, IsMember, collect_ordered,
  collect_ordered_iff, text_order,
}
use nautilus_agents.Text.{codes}
use nautilus_agents.Contract.Errors.{ToolError}
use nautilus_agents.Contract.Manifest.{manifest_bytes}
use nautilus_agents.Contract.Repository.{
  FilePath, Repository, components, parent, last_name, is_directory, read_dir,
}
use nautilus_agents.Contract.Files.Written.{Reached, IsReady, written}
use nautilus_agents.Contract.Tool.{outputs, main}
use nautilus_agents.Contract.Tool.Kept.{generated, outputs_of}
use nautilus_agents.Contract.Tool.Succeeds.{IsPrepared, generate-written}
use nautilus_agents.Examples.Generating.{
  libraries, no_faults, repository, computed, schemas_ok, fixtures_found, fields_ok, schema_list,
  fixture_list,
}

-- Every directory of the contract is there.
abbrev prepared : Repository
prepared = record repository {
  directories =
      components (codes "contract/v1/schema")
      ∷ components (codes "contract/v1/fixtures/valid")
      ∷ repository.directories;
}

abbrev is_reached : FilePath → FilePath → Repository → Bool
is_reached above [] s = true
is_reached above (n ∷ ns) s = is_directory (above ++ n ∷ []) s && is_reached (above ++ n ∷ []) ns s

abbrev is_ready : Repository → FilePath → Bool
is_ready s p = is_reached [] (parent p) s && (is_directory (parent p) s && not (is_directory p s))

is_reached-Reached :
    (above ns : FilePath) (s : Repository) → is_reached above ns s ≡ true → Reached above ns s
is_reached-Reached above [] s h = tt
is_reached-Reached above (n ∷ ns) s h =
    let rest = is_reached-Reached (above ++ n ∷ []) ns s in ground arith

is_ready-IsReady : (s : Repository) (p : FilePath) → is_ready s p ≡ true → IsReady s p
is_ready-IsReady s p h = record {
  reached = is_reached-Reached [] (parent p) s (ground arith);
  inside = ground arith;
  free = ground arith;
}

All-IsReady :
    (s : Repository) (ps : List FilePath) → all (is_ready s) ps ≡ true → All (IsReady s) ps
All-IsReady s [] h = tt
All-IsReady s (p ∷ ps) h = (is_ready-IsReady s p (ground arith), All-IsReady s ps (ground arith))

generated_ready : all (is_ready prepared) generated ≡ true
unfolding parent nautilus_agents.Text.split nautilus_agents.Base.contains
    nautilus_agents.Base.list_beq
generated_ready = refl

prepared-IsPrepared : IsPrepared no_faults prepared
unfolding read_dir last_name nautilus_agents.Text.split nautilus_agents.Base.contains
    nautilus_agents.Base.list_beq
prepared-IsPrepared = record {
  ready = All-IsReady prepared generated generated_ready;
  schema_names = ([], refl, λ n m. absurd m);
  valid_names = ([], refl, λ n m. absurd m);
  invalid_fixture_names = (_, refl, λ n. (λ m. m, λ m. m));
}

manifest_prepared :
    manifest_bytes libraries.manifests libraries.pretty_manifest no_faults prepared schema_list
      fixture_list
    ≡ ok (b'\n' ∷ [])
unfolding manifest_bytes nautilus_agents.Base.list_beq nautilus_agents.Text.split
manifest_prepared = refl

outputs-prepared : outputs libraries no_faults prepared ≡ ok computed
outputs-prepared =
    outputs_of libraries no_faults prepared computed schemas_ok fixtures_found
      (ap (map_err ToolError.library) fields_ok) manifest_prepared

generate-written_example : main libraries no_faults (some (codes "generate")) prepared ≡ (
  ok tt,
  written (computed.schemas ++ computed.fixtures) computed.fields computed.manifest prepared,
)
generate-written_example =
    generate-written libraries no_faults (λ p. refl) (λ p. refl) prepared computed outputs-prepared
      prepared-IsPrepared
