-- ===== src/Contract/Files/Settled.antt =====
-- `write_assets` on files that are up to date.
use nautilus_agents.Base.{
  none, ◌≡◌, refl, ap, ◌∙◌, inl, inr, List, [], ◌∷◌, ◌++◌, All, Option-cases, Bool-cases, some,
  list_eq, nat_eq,
}
use nautilus_agents.Text.{codes}
use nautilus_agents.Contract.Asset.{Asset}
use nautilus_agents.Contract.Errors.{failed_to_create, failed_to_write}
use nautilus_agents.Contract.Repository.{
  FilePath, Bytes, Faults, Repository, parent, file_at, read, write, create_dirs,
}
use nautilus_agents.Contract.Repository.Laws.{write-same, create_dirs-files, and_then-keeps}
use nautilus_agents.Contract.Files.{in_contract, lift_first, write_file, write_each, write_assets}
use nautilus_agents.Contract.Files.Checked.{Reads, IsUpToDate}

-- Every file is as it was.
abbrev pub Unchanged : Repository → Repository → Type 0
Unchanged s t = (q : FilePath) → file_at q t.files ≡ file_at q s.files

module _ (faults : Faults) where
  Reads-file_at :
      (p : FilePath) (b : Bytes) (s : Repository) → Reads faults s p b → file_at p s.files ≡ some b
  unfolding read
  Reads-file_at p b s h = elim (Bool-cases (faults.unreadable p)) [
    | inl r ↦ absurd (cc (rw r at h))
    | inr r ↦ elim (Option-cases (file_at p s.files)) [
      | inl k ↦ absurd (cc (rw (r, k) at h))
      | inr (c, k) ↦ let same : c ≡ b = cc (rw (r, k) at h) in k ∙ ap (λ x. some x) same
    ]
  ]

  module _ (whole : (p : FilePath) → faults.cut_after p ≡ none) where
    write_file-Unchanged :
        (p : FilePath) (b : Bytes) (s t : Repository)
        → file_at p s.files ≡ some b
        → Unchanged s t
        → Unchanged s (write_file faults p b t).1
    unfolding write_file
    write_file-Unchanged p b s t h u q =
        and_then-keeps (λ x. Unchanged s x)
          (lift_first failed_to_create (create_dirs faults [] (parent p) t))
          (λ x. lift_first (failed_to_write p) (write faults p b x))
          (λ r. ap (file_at r) (create_dirs-files faults [] (parent p) t) ∙ u r)
          (λ x v r. write-same faults p r b x (whole p) (v p ∙ h) ∙ v r) q

    write_each-Unchanged :
        (assets : List Asset) (s t : Repository)
        → All (λ a. Reads faults s (in_contract a.path) a.bytes) assets
        → Unchanged s t
        → Unchanged s (write_each faults assets t).1
    unfolding write_each
    write_each-Unchanged [] s t h u = u
    write_each-Unchanged (a ∷ assets) s t (p, h) u =
        and_then-keeps (λ x. Unchanged s x) (write_file faults (in_contract a.path) a.bytes t)
          (λ x. write_each faults assets x)
          (write_file-Unchanged (in_contract a.path) a.bytes s t
            (Reads-file_at (in_contract a.path) a.bytes s p) u)
          (λ x v. write_each-Unchanged assets s x h v)

    -- Where the files are up to date, a run that writes leaves every file as it was.
    pub write_assets-Unchanged :
        (schemas fixtures : List Asset) (fields manifest : Bytes) (s : Repository)
        → IsUpToDate faults s schemas fixtures fields manifest
        → Unchanged s (write_assets faults schemas fixtures fields manifest s).1
    unfolding write_assets
    write_assets-Unchanged schemas fixtures fields manifest s h =
        let toml = in_contract (codes "fields.toml") in
        let json = in_contract (codes "manifest.json") in
        and_then-keeps (λ x. Unchanged s x) (write_each faults (schemas ++ fixtures) s) _
          (write_each-Unchanged (schemas ++ fixtures) s s h.assets (λ q. refl))
          λ s1 u1.
            and_then-keeps (λ x. Unchanged s x) (write_file faults toml fields s1) _
              (write_file-Unchanged toml fields s s1 (Reads-file_at toml fields s h.fields_file) u1)
              λ s2 u2.
                and_then-keeps (λ x. Unchanged s x) (write_file faults json manifest s2) _
                  (write_file-Unchanged json manifest s s2
                    (Reads-file_at json manifest s h.manifest_file) u2)
                  λ s3 u3. u3
