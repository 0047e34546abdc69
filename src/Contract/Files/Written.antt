-- ===== src/Contract/Files/Written.antt =====
-- `write_assets` where nothing fails.
use nautilus_agents.Base.{
  ◌≡◌, refl, sym, ap, ◌∙◌, ◌↔◌, ◌⊎◌, inl, inr, true, false, Bool-cases, none, List, [], ◌∷◌, ◌++◌,
  All, ok, ◌==◌, list_eq, nat_eq, list_beq_iff, IsMember, arith,
}
use nautilus_agents.Text.{Text, codes}
use nautilus_agents.Contract.Asset.{Asset}
use nautilus_agents.Contract.Repository.{
  FilePath, Bytes, Faults, Repository, parent, last_name, put_file, paths, entries, is_directory,
  write, create_dir, create_dirs,
}
use nautilus_agents.Contract.Files.{
  in_contract, write_file, write_each, check_expected_names, write_assets,
}
use nautilus_agents.Contract.Files.Generated.{asset_paths, targets}

-- Every directory on the way to a path exists.
abbrev pub Reached : FilePath → FilePath → Repository → Type 0
Reached above [] s = Unit
Reached above (n ∷ ns) s =
    (is_directory (above ++ n ∷ []) s ≡ true) × Reached (above ++ n ∷ []) ns s

-- A file can be stored: its directory exists, and it is no directory itself.
pub record IsReady (s : Repository) (p : FilePath) : Type 0 where
  pub reached : Reached [] (parent p) s
  pub inside : is_directory (parent p) s ≡ true
  pub free : is_directory p s ≡ false

put_file-paths :
    (q p : FilePath) (b : Bytes) (fs : List (FilePath × Bytes))
    → IsMember q (paths (put_file p b fs)) ↔ ((q ≡ p) ⊎ IsMember q (paths fs))
unfolding put_file
put_file-paths q p b [] = ground arith
put_file-paths q p b ((r, c) ∷ fs) = elim (Bool-cases (p == r)) [
  | inl e ↦
      let same = (list_beq_iff p r).0 e in
      rw e (λ m. inr m, λ m. elim m [ inl k ↦ inl (k ∙ same) | inr n ↦ n ])
  | inr e ↦ rw e (ground (arith, put_file-paths q p b fs))
]

pub entries-IsMember :
    (n : Text) (d : FilePath) (qs : List FilePath)
    → IsMember n (entries d qs)
      ↔ ((q : FilePath) × IsMember q qs × (parent q ≡ d) × (last_name q ≡ n))
unfolding entries
entries-IsMember n d [] = (λ m. absurd m, λ (q, m, e, f). absurd m)
entries-IsMember n d (q ∷ qs) =
    let rest = entries-IsMember n d qs in
    elim (Bool-cases (parent q == d)) [
      | inl e ↦ rw e (
        λ m. elim m [
          | inl k ↦ (q, inl refl, (list_beq_iff (parent q) d).0 e, sym k)
          | inr k ↦ let (r, i, u, v) = rest.0 k in (r, inr i, u, v)
        ],
        λ (r, i, u, v). elim i [
          | inl k ↦ inl (sym v ∙ ap last_name k)
          | inr k ↦ inr (rest.1 (r, k, u, v))
        ],
      )
      | inr e ↦ rw e (
        λ m. let (r, i, u, v) = rest.0 m in (r, inr i, u, v),
        λ (r, i, u, v). elim i [
          | inl k ↦
              let same : (parent q == d) ≡ true =
                (list_beq_iff (parent q) d).1 (sym (ap parent k) ∙ u) in
              absurd (cc (e, same))
          | inr k ↦ rest.1 (r, k, u, v)
        ],
      )
    ]

-- The files after the writes.
abbrev pub put_each : List Asset → List (FilePath × Bytes) → List (FilePath × Bytes)
put_each [] fs = fs
put_each (a ∷ assets) fs = put_each assets (put_file (in_contract a.path) a.bytes fs)

pub put_each-paths :
    (q : FilePath) (assets : List Asset) (fs : List (FilePath × Bytes))
    → IsMember q (paths (put_each assets fs))
      ↔ (IsMember q (asset_paths assets) ⊎ IsMember q (paths fs))
put_each-paths q [] fs = (λ m. inr m, λ m. elim m [ inl n ↦ absurd n | inr n ↦ n ])
put_each-paths q (a ∷ assets) fs = ground (
  arith,
  put_each-paths q assets (put_file (in_contract a.path) a.bytes fs),
  put_file-paths q (in_contract a.path) a.bytes fs,
)

-- The repository after a run that stores everything.
abbrev pub written : List Asset → Bytes → Bytes → Repository → Repository
written assets fields manifest s = record s {
  files =
      put_file (in_contract (codes "manifest.json")) manifest
        (put_file (in_contract (codes "fields.toml")) fields (put_each assets s.files));
}

pub written-paths :
    (q : FilePath) (assets : List Asset) (fields manifest : Bytes) (s : Repository)
    → IsMember q (paths (written assets fields manifest s).files)
      ↔ (IsMember q (targets assets) ⊎ IsMember q (paths s.files))
written-paths q assets fields manifest s =
    let toml = in_contract (codes "fields.toml") in
    let first = put_each assets s.files in
    ground (
      arith,
      put_each-paths q assets s.files,
      put_file-paths q toml fields first,
      put_file-paths q (in_contract (codes "manifest.json")) manifest (put_file toml fields first),
    )

module _ (faults : Faults) (writable : (p : FilePath) → faults.unwritable p ≡ false)
    (whole : (p : FilePath) → faults.cut_after p ≡ none) where
  create_dirs-Reached :
      (above ns : FilePath) (s : Repository)
      → Reached above ns s
      → create_dirs faults above ns s ≡ (ok tt, s)
  unfolding create_dirs create_dir
  create_dirs-Reached above [] s h = refl
  create_dirs-Reached above (n ∷ ns) s (e, h) = rw e (create_dirs-Reached (above ++ n ∷ []) ns s h)

  write_ready :
      (p : FilePath) (b : Bytes) (s : Repository)
      → IsReady s p
      → write faults p b s ≡ (ok tt, record s { files = put_file p b s.files })
  unfolding write
  write_ready p b s h = rw (writable p, h.free, h.inside, whole p) refl

  pub write_file_ready :
      (p : FilePath) (b : Bytes) (s : Repository)
      → IsReady s p
      → write_file faults p b s ≡ (ok tt, record s { files = put_file p b s.files })
  unfolding write_file
  write_file_ready p b s h =
      rw (create_dirs-Reached [] (parent p) s h.reached, write_ready p b s h) refl

  Reached-kept :
      (above ns : FilePath) (s : Repository) (fs : List (FilePath × Bytes))
      → Reached above ns s
      → Reached above ns (record s { files = fs })
  Reached-kept above [] s fs h = tt
  Reached-kept above (n ∷ ns) s fs (e, h) = (e, Reached-kept (above ++ n ∷ []) ns s fs h)

  IsReady-kept :
      (p : FilePath) (s : Repository) (fs : List (FilePath × Bytes))
      → IsReady s p
      → IsReady (record s { files = fs }) p
  IsReady-kept p s fs h = record {
    reached = Reached-kept [] (parent p) s fs h.reached;
    inside = h.inside;
    free = h.free;
  }

  IsReady-All :
      (assets : List Asset) (s : Repository) (fs : List (FilePath × Bytes))
      → All (IsReady s) (asset_paths assets)
      → All (IsReady (record s { files = fs })) (asset_paths assets)
  IsReady-All [] s fs h = h
  IsReady-All (a ∷ assets) s fs (p, h) =
      (IsReady-kept (in_contract a.path) s fs p, IsReady-All assets s fs h)

  pub write_each_ready :
      (assets : List Asset) (s : Repository)
      → All (IsReady s) (asset_paths assets)
      → write_each faults assets s ≡ (ok tt, record s { files = put_each assets s.files })
  unfolding write_each
  write_each_ready [] s h = refl
  write_each_ready (a ∷ assets) s (p, h) =
      let fs = put_file (in_contract a.path) a.bytes s.files in
      rw (write_file_ready (in_contract a.path) a.bytes s p)
        (write_each_ready assets (record s { files = fs }) (IsReady-All assets s fs h))

  -- Where no write fails and every generated file can be stored, all of them are, and what is left is
  -- the check of the names.
  pub write_assets_ready :
      (schemas fixtures : List Asset) (fields manifest : Bytes) (s : Repository)
      → All (IsReady s) (targets (schemas ++ fixtures))
      → write_assets faults schemas fixtures fields manifest s ≡ (
        check_expected_names faults schemas fixtures
            (written (schemas ++ fixtures) fields manifest s),
        written (schemas ++ fixtures) fields manifest s,
      )
  unfolding write_assets
  write_assets_ready schemas fixtures fields manifest s (f, (m, h)) =
      let toml = in_contract (codes "fields.toml") in
      let json = in_contract (codes "manifest.json") in
      let first = put_each (schemas ++ fixtures) s.files in
      let second = put_file toml fields first in
      rw
        (
          write_each_ready (schemas ++ fixtures) s h,
          write_file_ready toml fields (record s { files = first }) (IsReady-kept toml s first f),
          write_file_ready json manifest (record s { files = second })
              (IsReady-kept json s second m),
        )
        refl
