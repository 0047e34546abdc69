-- ===== src/Contract/Repository/Laws.antt =====
-- What files hold after a write.
use nautilus_agents.Base.{
  sym, subst, ◌==◌, ◌≡◌, ◌≢◌, refl, ◌∙◌, inl, inr, List, [], ◌∷◌, ◌++◌, take, none, Bool-cases,
  Option-cases, some, Result, ok, err, list_eq, nat_eq, list_beq_iff, arith,
}
use nautilus_agents.Contract.Repository.{
  FilePath, Bytes, Faults, Repository, parent, file_at, put_file, is_directory, and_then, write,
  create_dir, create_dirs,
}

pub file_at-put_file :
    (p : FilePath) (b : Bytes) (fs : List (FilePath × Bytes)) → file_at p (put_file p b fs) ≡ some b
unfolding file_at put_file
file_at-put_file p b [] = ground (arith, list_beq_iff p p)
file_at-put_file p b ((q, c) ∷ fs) = ground (arith, file_at-put_file p b fs)

pub file_at-put_other :
    (p q : FilePath) (b : Bytes) (fs : List (FilePath × Bytes))
    → p ≢ q
    → file_at q (put_file p b fs) ≡ file_at q fs
unfolding file_at put_file
file_at-put_other p q b [] n = ground (arith, list_beq_iff q p)
file_at-put_other p q b ((r, c) ∷ fs) n =
    ground (arith, file_at-put_other p q b fs n, list_beq_iff q r, list_beq_iff p r)

-- What both of two steps keep, the two keep.
pub and_then-keeps :
    {E : Type 0} (P : Repository → Type 0) (r : Result (Unit {0}) E × Repository)
    (k : Repository → Result (Unit {0}) E × Repository)
    → P r.1
    → ((t : Repository) → P t → P (k t).1)
    → P (and_then r k).1
and_then-keeps P (ok u, t) k p h = h t p
and_then-keeps P (err e, t) k p h = p

-- Two steps succeed where both do.
pub and_then-ok :
    {E : Type 0} (r : Result (Unit {0}) E × Repository)
    (k : Repository → Result (Unit {0}) E × Repository)
    → (and_then r k).0 ≡ ok tt
    → (r.0 ≡ ok tt) × ((k r.1).0 ≡ ok tt) × (and_then r k ≡ k r.1)
and_then-ok (ok tt, t) k h = (refl, h, refl)
and_then-ok (err e, t) k h = absurd cc

module _ (faults : Faults) where
  -- A write that succeeds stores the bytes.
  pub write-stores :
      (p : FilePath) (b : Bytes) (s : Repository)
      → (write faults p b s).0 ≡ ok tt
      → file_at p (write faults p b s).1.files ≡ some b
  unfolding write
  write-stores p b s h = elim (Bool-cases (faults.unwritable p)) [
    | inl e ↦ absurd (cc (rw e at h))
    | inr e ↦ elim (Bool-cases (is_directory p s)) [
      | inl d ↦ absurd (cc (rw (e, d) at h))
      | inr d ↦ elim (Bool-cases (is_directory (parent p) s)) [
        | inl k ↦ elim (Option-cases (faults.cut_after p)) [
          | inl u ↦ rw (e, d, k, u) (file_at-put_file p b s.files)
          | inr (n, u) ↦ absurd (cc (rw (e, d, k, u) at h))
        ]
        | inr k ↦ absurd (cc (rw (e, d, k) at h))
      ]
    ]
  ]

  -- It leaves every other file, whether it succeeds or not.
  pub write-other :
      (p q : FilePath) (b : Bytes) (s : Repository)
      → p ≢ q
      → file_at q (write faults p b s).1.files ≡ file_at q s.files
  unfolding write
  write-other p q b s n = elim (Bool-cases (faults.unwritable p)) [
    | inl e ↦ rw e refl
    | inr e ↦ elim (Bool-cases (is_directory p s)) [
      | inl d ↦ rw (e, d) refl
      | inr d ↦ elim (Bool-cases (is_directory (parent p) s)) [
        | inl k ↦ elim (Option-cases (faults.cut_after p)) [
          | inl u ↦ rw (e, d, k, u) (file_at-put_other p q b s.files n)
          | inr (m, u) ↦ rw (e, d, k, u) (file_at-put_other p q (take m b) s.files n)
        ]
        | inr k ↦ rw (e, d, k) refl
      ]
    ]
  ]

  create_dir-files : (p : FilePath) (s : Repository) → (create_dir faults p s).1.files ≡ s.files
  unfolding create_dir
  create_dir-files p s = elim (Bool-cases (is_directory p s)) [
    | inl d ↦ rw d refl
    | inr d ↦ elim (Option-cases (file_at p s.files)) [
      | inr (b, e) ↦ rw (d, e) refl
      | inl e ↦ elim (Bool-cases (faults.unwritable p)) [
        | inl k ↦ rw (d, e, k) refl
        | inr k ↦ rw (d, e, k) refl
      ]
    ]
  ]

  pub create_dirs-files :
      (above ns : FilePath) (s : Repository) → (create_dirs faults above ns s).1.files ≡ s.files
  unfolding create_dirs
  create_dirs-files above [] s = refl
  create_dirs-files above (n ∷ ns) s =
      and_then-keeps (λ t. t.files ≡ s.files) (create_dir faults (above ++ n ∷ []) s)
        (λ t. create_dirs faults (above ++ n ∷ []) ns t) (create_dir-files (above ++ n ∷ []) s)
        (λ t e. create_dirs-files (above ++ n ∷ []) ns t ∙ e)

  write_self :
      (p : FilePath) (b : Bytes) (s : Repository)
      → faults.cut_after p ≡ none
      → file_at p s.files ≡ some b
      → file_at p (write faults p b s).1.files ≡ file_at p s.files
  unfolding write
  write_self p b s whole h = elim (Bool-cases (faults.unwritable p)) [
    | inl e ↦ rw e refl
    | inr e ↦ elim (Bool-cases (is_directory p s)) [
      | inl d ↦ rw (e, d) refl
      | inr d ↦ elim (Bool-cases (is_directory (parent p) s)) [
        | inl k ↦ rw (e, d, k, whole) (file_at-put_file p b s.files ∙ sym h)
        | inr k ↦ rw (e, d, k) refl
      ]
    ]
  ]

  -- A write of the bytes that a file holds, which is not cut off, leaves every file.
  pub write-same :
      (p q : FilePath) (b : Bytes) (s : Repository)
      → faults.cut_after p ≡ none
      → file_at p s.files ≡ some b
      → file_at q (write faults p b s).1.files ≡ file_at q s.files
  unfolding write
  write-same p q b s whole h = elim (Bool-cases (p == q)) [
    | inr e ↦ write-other p q b s (λ k. cc ((list_beq_iff p q).1 k))
    | inl e ↦
        let same = (list_beq_iff p q).0 e in
        subst (λ x. file_at x (write faults p b s).1.files ≡ file_at x s.files) same
          (write_self p b s whole h)
  ]
