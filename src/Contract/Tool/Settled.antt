-- ===== src/Contract/Tool/Settled.antt =====
-- `main` generating after a check.
use nautilus_agents.Base.{none, ◌≡◌, inl, inr, true, false, some, ok, Result-cases}
use nautilus_agents.Text.{codes}
use nautilus_agents.Contract.Repository.{FilePath, Faults, Repository, file_at}
use nautilus_agents.Contract.Files.Checked.{check_assets_iff}
use nautilus_agents.Contract.Files.Settled.{Unchanged, write_assets-Unchanged}
use nautilus_agents.Contract.Tool.{Libraries, outputs, finish, main}
use nautilus_agents.Contract.Tool.Repeated.{main_generate, main_check}

module _ (l : Libraries) (faults : Faults)
    (whole : (p : FilePath) → faults.cut_after p ≡ none) where
  finish_settled :
      (s : Repository)
      → (finish l faults false s (outputs l faults s)).0 ≡ ok tt
      → Unchanged s (finish l faults true s (outputs l faults s)).1
  finish_settled s h = elim (Result-cases (outputs l faults s)) [
    | inr (x, e) ↦ absurd (cc (rw e at h))
    | inl (o, e) ↦
        let fresh =
          (check_assets_iff faults s o.schemas o.fixtures o.fields o.manifest).0 (rw e at h) in
        rw e (write_assets-Unchanged faults whole o.schemas o.fixtures o.fields o.manifest s fresh)
  ]

  -- Where no write is cut off and a `check` succeeds, a `generate` leaves every file as it was, whether
  -- it succeeds or not.
  pub check-generate :
      (s : Repository)
      → (main l faults (some (codes "check")) s).0 ≡ ok tt
      → (q : FilePath)
      → file_at q (main l faults (some (codes "generate")) s).1.files ≡ file_at q s.files
  check-generate s h q =
      rw (main_generate l faults s) (finish_settled s (rw (main_check l faults s) at h) q)
