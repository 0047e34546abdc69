-- ===== src/Contract/Tool/Repeated.antt =====
-- `main` run twice, and the files that it does not generate.
use nautilus_agents.Base.{
  ℕ, ◌≡◌, ◌≢◌, refl, sym, ap, ◌∙◌, inl, inr, Bool, true, false, not, ◌&&◌, List, [], ◌∷◌, ◌++◌, map,
  all, Option, Option-cases, Bool-cases, none, some, Result, ok, err, ◌>>=◌, map_err, Result-cases,
  bind-ok, ◌==◌, ◌!=◌, list_eq, nat_eq, arith, subst, All, IsMember, IsDistinct, contains,
  not-IsMember, if◌then◌else◌,
}
use nautilus_agents.Base.{is_distinct, is_distinct-IsDistinct}
use nautilus_agents.Text.{Text, codes}
use nautilus_agents.Contract.Repository.{FilePath, Faults, Repository, file_at}
use nautilus_agents.Contract.Files.{write_assets}
use nautilus_agents.Contract.Files.Generated.{write_assets-check}
use nautilus_agents.Contract.Tool.{mode_of, Libraries, outputs, finish, main}
use nautilus_agents.Contract.Tool.Kept.{
  generated, generated-IsDistinct, Keeps, outputs-targets, outputs_kept, written_kept,
}

module _ (l : Libraries) (faults : Faults) where
  finish_kept :
      (generate : Bool) (s : Repository)
      → Keeps s (finish l faults generate s (outputs l faults s)).1
  finish_kept true s q n = elim (Result-cases (outputs l faults s)) [
    | inr (x, e) ↦ rw e refl
    | inl (o, e) ↦ rw e (written_kept l faults s o e q n)
  ]
  finish_kept false s q n = elim (Result-cases (outputs l faults s)) [
    | inr (x, e) ↦ rw e refl
    | inl (o, e) ↦ rw e refl
  ]

  -- In every mode and whatever fails, a run leaves every file that is not generated as it was, the
  -- invalid fixtures among them.
  pub main-other :
      (argument : Option Text) (s : Repository) (q : FilePath)
      → ¬ IsMember q generated
      → file_at q (main l faults argument s).1.files ≡ file_at q s.files
  unfolding main
  main-other argument s q n =
      elim (Bool-cases
        (mode_of argument != codes "generate" && mode_of argument != codes "check")) [
          | inl e ↦ rw e refl
          | inr e ↦ rw e (finish_kept (mode_of argument == codes "generate") s q n)
        ]

  pub main_generate :
      (s : Repository)
      → main l faults (some (codes "generate")) s ≡ finish l faults true s (outputs l faults s)
  unfolding main nautilus_agents.Base.list_beq
  main_generate s = refl

  pub main_check :
      (s : Repository)
      → main l faults (some (codes "check")) s ≡ finish l faults false s (outputs l faults s)
  unfolding main nautilus_agents.Base.list_beq
  main_check s = refl

  finish_twice :
      (s : Repository)
      → All (λ p. faults.unreadable p ≡ false) generated
      → (finish l faults true s (outputs l faults s)).0 ≡ ok tt
      → (finish l faults false
          (finish l faults true s (outputs l faults s)).1
          (outputs l faults (finish l faults true s (outputs l faults s)).1)).0
        ≡ ok tt
  finish_twice s r h = elim (Result-cases (outputs l faults s)) [
    | inr (x, e) ↦ absurd (cc (rw e at h))
    | inl (o, e) ↦
        let same = outputs-targets l faults s o e in
        let t = (write_assets faults o.schemas o.fixtures o.fields o.manifest s).1 in
        let again = outputs_kept l faults s t o (written_kept l faults s o e) e in
        let checked =
          write_assets-check faults o.schemas o.fixtures o.fields o.manifest s
            (subst IsDistinct (sym same) generated-IsDistinct)
            (subst (All (λ p. faults.unreadable p ≡ false)) (sym same) r) (rw e at h) in
        rw (e, again) checked
  ]

  -- Where every generated file can be read, a `check` after a `generate` that succeeds succeeds too.
  pub generate-check :
      (s : Repository)
      → All (λ p. faults.unreadable p ≡ false) generated
      → (main l faults (some (codes "generate")) s).0 ≡ ok tt
      → (main l faults (some (codes "check")) (main l faults (some (codes "generate")) s).1).0
        ≡ ok tt
  generate-check s r h =
      rw (main_generate s, main_check (finish l faults true s (outputs l faults s)).1)
        (finish_twice s r (rw (main_generate s) at h))
