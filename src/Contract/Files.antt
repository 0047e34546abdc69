-- ===== src/Contract/Files.antt =====
-- `write_assets` and `check_assets`: the files of the contract directory, their bytes, and the names
-- that its directories hold.
pub mod Checked
pub mod Generated
pub mod Settled
pub mod Written
use nautilus_agents.Base.{
  List, [], ◌∷◌, ◌++◌, map, Result, ok, ◌>>=◌, ◌>>◌, reject_if, map_err, ◌!=◌, list_eq, nat_eq,
}
use nautilus_agents.Base.{text_order, collect_ordered}
use nautilus_agents.Text.{Text, codes}
use nautilus_agents.Contract.Asset.{Asset}
use nautilus_agents.Contract.Invalid.{invalid_fixtures}
use nautilus_agents.Contract.Errors.{
  ToolError, failed_to_read, failed_to_write, failed_to_create, asset_differs, unexpected_files,
}
use nautilus_agents.Contract.Repository.{
  FilePath, Bytes, Faults, Repository, components, parent, last_name, and_then, read, write,
  read_dir, create_dirs,
}

abbrev pub contract_dir : FilePath
contract_dir = components (codes "contract/v1")

-- `root.join(CONTRACT_DIR).join(path)`
abbrev pub in_contract : Text → FilePath
in_contract path = contract_dir ++ components path

abbrev pub lift_first :
    {A E F : Type 0} → (E → F) → Result A E × Repository → Result A F × Repository
lift_first f (r, s) = (map_err f r, s)

abbrev pub file_names : List Asset → List Text
file_names = map (λ asset. last_name (components asset.path))

module _ (faults : Faults) where
  unfoldable pub write_file :
      FilePath → Bytes → Repository → Result (Unit {0}) ToolError × Repository
  unfolding create_dirs parent write
  write_file path bytes s =
      and_then (lift_first failed_to_create (create_dirs faults [] (parent path) s))
        (λ s'. lift_first (failed_to_write path) (write faults path bytes s'))

  unfoldable pub check_file : FilePath → Bytes → Repository → Result (Unit {0}) ToolError
  unfolding read
  check_file path expected s = do
    actual ← map_err (failed_to_read path) (read faults path s)
    reject_if (actual != expected) (asset_differs path)

  unfoldable pub directory_names : FilePath → Repository → Result (List Text) ToolError
  unfolding read_dir collect_ordered
  directory_names path s = do
    names ← map_err (failed_to_read path) (read_dir faults path s)
    ok (collect_ordered names)

  unfoldable pub check_directory : Text → List Text → Repository → Result (Unit {0}) ToolError
  unfolding directory_names
  check_directory directory expected s = do
    actual ← directory_names (in_contract directory) s
    reject_if (actual != expected) (unexpected_files directory expected actual)

  unfoldable pub check_expected_names :
      List Asset → List Asset → Repository → Result (Unit {0}) ToolError
  unfolding check_directory collect_ordered
  check_expected_names schemas fixtures s = do
    check_directory (codes "schema") (collect_ordered (file_names schemas)) s
    check_directory (codes "fixtures/valid") (collect_ordered (file_names fixtures)) s
    check_directory (codes "fixtures/invalid")
        (collect_ordered (map (λ f. f.file) invalid_fixtures)) s

  unfoldable pub write_each : List Asset → Repository → Result (Unit {0}) ToolError × Repository
  unfolding write_file
  write_each [] s = (ok tt, s)
  write_each (asset ∷ assets) s =
      and_then (write_file (in_contract asset.path) asset.bytes s) (λ s'. write_each assets s')

  unfoldable pub check_each : List Asset → Repository → Result (Unit {0}) ToolError
  unfolding check_file
  check_each [] s = ok tt
  check_each (asset ∷ assets) s =
      check_file (in_contract asset.path) asset.bytes s >> check_each assets s

  unfoldable pub write_assets :
      List Asset
      → List Asset
      → Bytes
      → Bytes
      → Repository
      → Result (Unit {0}) ToolError × Repository
  unfolding write_each write_file check_expected_names
  write_assets schemas fixtures fields manifest s =
      and_then (write_each (schemas ++ fixtures) s) λ s1.
        and_then (write_file (in_contract (codes "fields.toml")) fields s1) λ s2.
          and_then (write_file (in_contract (codes "manifest.json")) manifest s2)
            λ s3. (check_expected_names schemas fixtures s3, s3)

  unfoldable pub check_assets :
      List Asset → List Asset → Bytes → Bytes → Repository → Result (Unit {0}) ToolError
  unfolding check_each check_file check_expected_names
  check_assets schemas fixtures fields manifest s = do
    check_each (schemas ++ fixtures) s
    check_file (in_contract (codes "fields.toml")) fields s
    check_file (in_contract (codes "manifest.json")) manifest s
    check_expected_names schemas fixtures s
