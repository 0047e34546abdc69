-- ===== src/Contract/Manifest/Entries.antt =====
-- What the manifest lists, and in which order.
use nautilus_agents.Base.{
  suc, ◌≡◌, refl, sym, ap, ◌∙◌, ◌↔◌, ◌⊎◌, inl, inr, true, false, List, [], ◌∷◌, All, Bool-cases,
  length, ok, map_err, bind-ok, list_eq, nat_eq, arith, IsMember, subst,
}
use nautilus_agents.Base.{text_order}
use nautilus_agents.Text.{Text}
use nautilus_agents.Protocol.Canonical.{Canonicalizer, sha256}
use nautilus_agents.Contract.Asset.{Asset}
use nautilus_agents.Contract.Errors.{ToolError}
use nautilus_agents.Contract.Invalid.{invalid_fixtures}
use nautilus_agents.Contract.Repository.{Faults, Repository}
use nautilus_agents.Contract.Manifest.{
  ManifestAsset, Manifest, insert_by_path, sort_by_path, listed, invalid_entries, manifest_of,
}

-- No entry has a path above that of a later one.
abbrev pub NoneBelow : ManifestAsset → List ManifestAsset → Type 0
NoneBelow a = All (λ b. text_order.less b.path a.path ≡ false)

abbrev pub IsByPath : List ManifestAsset → Type 0
IsByPath [] = Unit
IsByPath (a ∷ entries) = NoneBelow a entries × IsByPath entries

insert_by_path-IsMember :
    (e a : ManifestAsset) (bs : List ManifestAsset)
    → IsMember e (insert_by_path a bs) ↔ ((e ≡ a) ⊎ IsMember e bs)
unfolding insert_by_path
insert_by_path-IsMember e a [] = ground arith
insert_by_path-IsMember e a (b ∷ bs) = elim (Bool-cases (text_order.less b.path a.path)) [
  | inl k ↦ rw k (ground (arith, insert_by_path-IsMember e a bs))
  | inr k ↦ rw k ((λ m. m), (λ m. m))
]

sort_by_path-IsMember :
    (e : ManifestAsset) (bs : List ManifestAsset) → IsMember e (sort_by_path bs) ↔ IsMember e bs
unfolding sort_by_path
sort_by_path-IsMember e [] = ((λ m. m), (λ m. m))
sort_by_path-IsMember e (b ∷ bs) =
    ground (arith, insert_by_path-IsMember e b (sort_by_path bs), sort_by_path-IsMember e bs)

insert_by_path-length :
    (a : ManifestAsset) (bs : List ManifestAsset) → length (insert_by_path a bs) ≡ suc (length bs)
unfolding insert_by_path
insert_by_path-length a [] = refl
insert_by_path-length a (b ∷ bs) = ground (arith, insert_by_path-length a bs)

sort_by_path-length : (bs : List ManifestAsset) → length (sort_by_path bs) ≡ length bs
unfolding sort_by_path
sort_by_path-length [] = refl
sort_by_path-length (b ∷ bs) =
    insert_by_path-length b (sort_by_path bs) ∙ ap suc (sort_by_path-length bs)

not_below :
    (a b z : Text)
    → text_order.less b a ≡ false
    → text_order.less z b ≡ false
    → text_order.less z a ≡ false
not_below a b z h k = elim (Bool-cases (text_order.less z a)) [
  | inr e ↦ e
  | inl e ↦ elim (Bool-cases (text_order.less a b)) [
    | inl f ↦ absurd (cc (text_order.less_trans z a b e f))
    | inr f ↦
        let same = text_order.less_total b a h f in
        absurd (cc (subst (λ x. text_order.less z x ≡ true) (sym same) e))
  ]
]

not_both : (a b : Text) → text_order.less b a ≡ true → text_order.less a b ≡ false
not_both a b h = elim (Bool-cases (text_order.less a b)) [
  | inr e ↦ e
  | inl e ↦
      let loop = text_order.less_trans a b a e h in
      let never = text_order.less_irrefl a in absurd cc
]

insert_by_path-All :
    (P : ManifestAsset → Type 0) (a : ManifestAsset) (bs : List ManifestAsset)
    → P a
    → All P bs
    → All P (insert_by_path a bs)
unfolding insert_by_path
insert_by_path-All P a [] p h = (p, tt)
insert_by_path-All P a (b ∷ bs) p (q, h) = elim (Bool-cases (text_order.less b.path a.path)) [
  | inl k ↦ rw k (q, insert_by_path-All P a bs p h)
  | inr k ↦ rw k (p, (q, h))
]

NoneBelow-step :
    (a b : ManifestAsset) (bs : List ManifestAsset)
    → text_order.less b.path a.path ≡ false
    → NoneBelow b bs
    → NoneBelow a bs
NoneBelow-step a b [] k h = tt
NoneBelow-step a b (z ∷ bs) k (p, h) =
    (not_below a.path b.path z.path k p, NoneBelow-step a b bs k h)

insert_by_path-IsByPath :
    (a : ManifestAsset) (bs : List ManifestAsset) → IsByPath bs → IsByPath (insert_by_path a bs)
unfolding insert_by_path
insert_by_path-IsByPath a [] s = (tt, tt)
insert_by_path-IsByPath a (b ∷ bs) (n, s) = elim (Bool-cases (text_order.less b.path a.path)) [
  | inl k ↦ rw k (
    insert_by_path-All (λ z. text_order.less z.path b.path ≡ false) a bs (not_both a.path b.path k)
        n,
    insert_by_path-IsByPath a bs s,
  )
  | inr k ↦ rw k ((k, NoneBelow-step a b bs k n), (n, s))
]

sort_by_path-IsByPath : (bs : List ManifestAsset) → IsByPath (sort_by_path bs)
unfolding sort_by_path
sort_by_path-IsByPath [] = tt
sort_by_path-IsByPath (b ∷ bs) =
    insert_by_path-IsByPath b (sort_by_path bs) (sort_by_path-IsByPath bs)

-- A manifest lists, in the order of their paths, exactly the entries of the schemas, of the valid
-- fixtures and of the invalid fixtures as they were read, as many as these are; and its digest is
-- that of this list.
pub manifest_of-entries :
    (canonical : Canonicalizer (List ManifestAsset)) (faults : Faults) (s : Repository)
    (schemas fixtures : List Asset) (m : Manifest)
    → manifest_of canonical faults s schemas fixtures ≡ ok m
    → (invalid : List ManifestAsset) × (invalid_entries canonical faults s invalid_fixtures
        ≡ ok invalid)
      × ((e : ManifestAsset)
          → IsMember e m.assets ↔ IsMember e (listed canonical schemas fixtures invalid))
      × (length m.assets ≡ length (listed canonical schemas fixtures invalid))
      × IsByPath m.assets
      × (map_err ToolError.library (sha256 canonical m.assets)
          ≡ ok (record { text = m.contract_digest }))
unfolding manifest_of
manifest_of-entries canonical faults s schemas fixtures m h =
    let (invalid, e1, h1) = bind-ok (invalid_entries canonical faults s invalid_fixtures) _ m h in
    let entries = listed canonical schemas fixtures invalid in
    let (digest, e2, h2) =
      bind-ok (map_err ToolError.library (sha256 canonical (sort_by_path entries))) _ m h1 in
    let sorted : sort_by_path entries ≡ m.assets = cc in
    let named : digest.text ≡ m.contract_digest = cc in
    (
      invalid,
      e1,
      subst (λ x. (e : ManifestAsset) → IsMember e x ↔ IsMember e entries) sorted
          (λ e. sort_by_path-IsMember e entries),
      ap length (sym sorted) ∙ sort_by_path-length entries,
      subst IsByPath sorted (sort_by_path-IsByPath entries),
      ap (λ x. map_err ToolError.library (sha256 canonical x)) (sym sorted)
          ∙ e2
          ∙ ap (λ t. ok (record { text = t })) named,
    )
