-- ===== src/Contract/Files/Generated.antt =====
-- `check_assets` after `write_assets`.
use nautilus_agents.Base.{
  ◌≡◌, ◌≢◌, refl, sym, ap, ◌∙◌, inl, inr, false, List, [], ◌∷◌, ◌++◌, map, All, some, Result, ok,
  err, list_eq, nat_eq, IsMember, IsDistinct, subst,
}
use nautilus_agents.Text.{codes}
use nautilus_agents.Contract.Asset.{Asset}
use nautilus_agents.Contract.Repository.{
  FilePath, Bytes, Faults, Repository, parent, file_at, read, write, create_dirs,
}
use nautilus_agents.Contract.Repository.Laws.{
  write-stores, write-other, create_dirs-files, and_then-keeps, and_then-ok,
}
use nautilus_agents.Contract.Errors.{ToolError, failed_to_create, failed_to_write}
use nautilus_agents.Contract.Files.{
  in_contract, lift_first, write_file, write_each, write_assets, check_assets,
}
use nautilus_agents.Contract.Files.Checked.{Reads, check_each_iff, check_file_iff}

abbrev pub asset_paths : List Asset → List FilePath
asset_paths = map (λ a. in_contract a.path)

-- The files that a run writes.
abbrev pub targets : List Asset → List FilePath
targets assets =
    in_contract (codes "fields.toml") ∷ in_contract (codes "manifest.json") ∷ asset_paths assets

abbrev Stored : FilePath → Bytes → Repository → Type 0
Stored p b s = file_at p s.files ≡ some b

abbrev AllStored : List Asset → Repository → Type 0
AllStored assets s = All (λ a. Stored (in_contract a.path) a.bytes s) assets

lift-ok :
    {A E F : Type 0} (f : E → F) (r : Result A E × Repository) (a : A)
    → (lift_first f r).0 ≡ ok a
    → r.0 ≡ ok a
lift-ok f (ok x, s) a h = cc
lift-ok f (err e, s) a h = absurd cc

lift-state : {A E F : Type 0} (f : E → F) (r : Result A E × Repository) → (lift_first f r).1 ≡ r.1
lift-state f (r, s) = refl

module _ (faults : Faults) where
  write_file-stores :
      (p : FilePath) (b : Bytes) (s : Repository)
      → (write_file faults p b s).0 ≡ ok tt
      → Stored p b (write_file faults p b s).1
  unfolding write_file
  write_file-stores p b s h =
      let dirs = lift_first failed_to_create (create_dirs faults [] (parent p) s) in
      let k : Repository → Result (Unit {0}) ToolError × Repository =
        λ t. lift_first (failed_to_write p) (write faults p b t) in
      let (made, wrote, e) = and_then-ok dirs k h in
      let stores =
        write-stores faults p b dirs.1
          (lift-ok (failed_to_write p) (write faults p b dirs.1) tt wrote) in
      rw e stores

  pub write_file-other :
      (p q : FilePath) (b : Bytes) (s : Repository)
      → p ≢ q
      → file_at q (write_file faults p b s).1.files ≡ file_at q s.files
  unfolding write_file
  write_file-other p q b s n =
      and_then-keeps (λ t. file_at q t.files ≡ file_at q s.files)
        (lift_first failed_to_create (create_dirs faults [] (parent p) s))
        (λ t. lift_first (failed_to_write p) (write faults p b t))
        (ap (file_at q) (create_dirs-files faults [] (parent p) s))
        (λ t e. write-other faults p q b t n ∙ e)

  pub write_each-other :
      (assets : List Asset) (q : FilePath) (s : Repository)
      → ¬ IsMember q (asset_paths assets)
      → file_at q (write_each faults assets s).1.files ≡ file_at q s.files
  unfolding write_each
  write_each-other [] q s n = refl
  write_each-other (a ∷ assets) q s n =
      and_then-keeps (λ t. file_at q t.files ≡ file_at q s.files)
        (write_file faults (in_contract a.path) a.bytes s) (λ t. write_each faults assets t)
        (write_file-other (in_contract a.path) q a.bytes s (λ e. n (inl (sym e))))
        (λ t e. write_each-other assets q t (λ m. n (inr m)) ∙ e)

  write_each-stores :
      (assets : List Asset) (s : Repository)
      → IsDistinct (asset_paths assets)
      → (write_each faults assets s).0 ≡ ok tt
      → AllStored assets (write_each faults assets s).1
  unfolding write_each
  write_each-stores [] s d h = tt
  write_each-stores (a ∷ assets) s (fresh, d) h =
      let first = write_file faults (in_contract a.path) a.bytes s in
      let k : Repository → Result (Unit {0}) ToolError × Repository =
        λ t. write_each faults assets t in
      let (wrote, rest, e) = and_then-ok first k h in
      let here = write_file-stores (in_contract a.path) a.bytes s wrote in
      subst (λ r. AllStored (a ∷ assets) r.1) (sym e)
        (
          write_each-other assets (in_contract a.path) first.1 fresh ∙ here,
          write_each-stores assets first.1 d rest,
        )

  apart :
      (p q : FilePath) (assets : List Asset)
      → ¬ IsMember p (asset_paths assets)
      → IsMember q (asset_paths assets)
      → p ≢ q
  apart p q assets n m e = n (subst (λ x. IsMember x (asset_paths assets)) (sym e) m)

  All-kept :
      (s t : Repository) (assets : List Asset)
      → ((q : FilePath) → IsMember q (asset_paths assets) → file_at q t.files ≡ file_at q s.files)
      → AllStored assets s
      → AllStored assets t
  All-kept s t [] h p = tt
  All-kept s t (a ∷ assets) h (p, ps) =
      (h (in_contract a.path) (inl refl) ∙ p, All-kept s t assets (λ q m. h q (inr m)) ps)

  Stored-Reads :
      (p : FilePath) (b : Bytes) (s : Repository)
      → faults.unreadable p ≡ false
      → Stored p b s
      → Reads faults s p b
  unfolding read
  Stored-Reads p b s r h = rw (r, h) refl

  All-Reads :
      (assets : List Asset) (s : Repository)
      → All (λ p. faults.unreadable p ≡ false) (asset_paths assets)
      → AllStored assets s
      → All (λ a. Reads faults s (in_contract a.path) a.bytes) assets
  All-Reads [] s r p = tt
  All-Reads (a ∷ assets) s (r, rs) (p, ps) =
      (Stored-Reads (in_contract a.path) a.bytes s r p, All-Reads assets s rs ps)

  -- Where a run that writes succeeds, a run that checks the same contents succeeds after it.
  pub write_assets-check :
      (schemas fixtures : List Asset) (fields manifest : Bytes) (s : Repository)
      → IsDistinct (targets (schemas ++ fixtures))
      → All (λ p. faults.unreadable p ≡ false) (targets (schemas ++ fixtures))
      → (write_assets faults schemas fixtures fields manifest s).0 ≡ ok tt
      → check_assets faults schemas fixtures fields manifest
          (write_assets faults schemas fixtures fields manifest s).1
        ≡ ok tt
  unfolding write_assets check_assets
  write_assets-check schemas fixtures fields manifest s (nf, (nm, d)) (rf, (rm, r)) h =
      let assets = schemas ++ fixtures in
      let toml = in_contract (codes "fields.toml") in
      let json = in_contract (codes "manifest.json") in
      let first = write_each faults assets s in
      let second = write_file faults toml fields first.1 in
      let third = write_file faults json manifest second.1 in
      let (w1, h1, e1) = and_then-ok first _ h in
      let (w2, h2, e2) = and_then-ok second _ h1 in
      let (w3, h3, e3) = and_then-ok third _ h2 in
      let stored : AllStored assets third.1 =
        All-kept first.1 third.1 assets
          (λ q m.
            write_file-other json q manifest second.1 (apart json q assets nm m)
            ∙ write_file-other toml q fields first.1 (apart toml q assets (λ k. nf (inr k)) m))
          (write_each-stores assets s d w1) in
      let toml_stored =
        write_file-other json toml manifest second.1 (λ e. nf (inl (sym e)))
        ∙ write_file-stores toml fields first.1 w2 in
      let json_stored = write_file-stores json manifest second.1 w3 in
      let checked : check_assets faults schemas fixtures fields manifest third.1 ≡ ok tt =
        rw
          (
            (check_each_iff faults third.1 assets).1 (All-Reads assets third.1 r stored),
            (check_file_iff faults third.1 toml fields).1
                (Stored-Reads toml fields third.1 rf toml_stored),
            (check_file_iff faults third.1 json manifest).1
                (Stored-Reads json manifest third.1 rm json_stored),
          )
          h3 in
      subst (λ x. check_assets faults schemas fixtures fields manifest x.1 ≡ ok tt)
        (sym (e1 ∙ e2 ∙ e3)) checked

  -- A run that writes leaves every other file, whether it succeeds or not.
  pub write_assets-other :
      (schemas fixtures : List Asset) (fields manifest : Bytes) (s : Repository) (q : FilePath)
      → ¬ IsMember q (targets (schemas ++ fixtures))
      → file_at q (write_assets faults schemas fixtures fields manifest s).1.files
        ≡ file_at q s.files
  unfolding write_assets
  write_assets-other schemas fixtures fields manifest s q n =
      let assets = schemas ++ fixtures in
      let P : Repository → Type 0 = λ t. file_at q t.files ≡ file_at q s.files in
      and_then-keeps P (write_each faults assets s) _
        (write_each-other assets q s (λ m. n (inr (inr m))))
        λ s1 e1.
          and_then-keeps P (write_file faults (in_contract (codes "fields.toml")) fields s1) _
            (write_file-other _ q fields s1 (λ e. n (inl (sym e))) ∙ e1)
            λ s2 e2.
              and_then-keeps P (write_file faults (in_contract (codes "manifest.json")) manifest s2)
                _ (write_file-other _ q manifest s2 (λ e. n (inr (inl (sym e)))) ∙ e2) λ s3 e3. e3
