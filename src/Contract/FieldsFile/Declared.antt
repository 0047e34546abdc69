-- ===== src/Contract/FieldsFile/Declared.antt =====
-- `fields_bytes` against the fields that the schemas declare.
use nautilus_agents.Base.{
  ℕ, ◌≡◌, sym, ap, ◌∙◌, ◌↔◌, ◌⊎◌, inl, inr, List, [], ◌∷◌, Result, ok, Result-cases, IsMember,
  IsSorted, IsSorted-eq, subst, arith,
}
use nautilus_agents.Text.{Text, bytes}
use nautilus_agents.Contract.Json.{Value}
use nautilus_agents.Contract.Asset.{Asset}
use nautilus_agents.Contract.Fields.{Field, field_order, collect_fields}
use nautilus_agents.Contract.Fields.Occurs.{Declares}
use nautilus_agents.Contract.Fields.Collected.{collect_fields-IsMember, collect_fields-IsSorted}
use nautilus_agents.Contract.FieldsFile.{
  schema_fields, fields_bytes, push_fields, pop, fields_header,
}

module _ (from_slice : List ℕ → Result Value Text) where
  -- The schema of an asset declares a field.
  abbrev pub AssetDeclares : Field → Asset → Type 0
  AssetDeclares f s =
      (v : Value) × (from_slice s.bytes ≡ ok v) × Declares s.root_type s.root_type v f

  abbrev pub SomeDeclares : Field → List Asset → Type 0
  SomeDeclares f [] = ⊥
  SomeDeclares f (s ∷ ss) = AssetDeclares f s ⊎ SomeDeclares f ss

  schema_fields-IsMember :
      (ss : List Asset) (fs gs : List Field) (f : Field)
      → schema_fields from_slice ss fs ≡ ok gs
      → IsMember f gs ↔ (IsMember f fs ⊎ SomeDeclares f ss)
  unfolding schema_fields
  schema_fields-IsMember [] fs gs f h =
      let e : fs ≡ gs = cc in rw e ((λ m. inl m), (λ m. elim m [ inl n ↦ n | inr n ↦ absurd n ]))
  schema_fields-IsMember (s ∷ ss) fs gs f h = elim (Result-cases (from_slice s.bytes)) [
    | inr (x, e) ↦ absurd (ground arith)
    | inl (v, e) ↦
        let rest =
          schema_fields-IsMember ss (collect_fields s.root_type s.root_type v fs) gs f
            (rw e at h) in
        let here = collect_fields-IsMember s.root_type s.root_type v fs f in
        (
          λ m. elim (rest.0 m) [
            | inr d ↦ inr (inr d)
            | inl n ↦ elim (here.0 n) [ inl n' ↦ inl n' | inr d ↦ inr (inl (v, e, d)) ]
          ],
          λ m. elim m [
            | inl n ↦ rest.1 (inl (here.1 (inl n)))
            | inr (inl (w, k, d)) ↦
                let same : w ≡ v = ground arith in
                rest.1
                  (inl (here.1 (inr (subst (λ x. Declares s.root_type s.root_type x f) same d))))
            | inr (inr d) ↦ rest.1 (inr d)
          ],
        )
  ]

  schema_fields-IsSorted :
      (ss : List Asset) (fs gs : List Field)
      → schema_fields from_slice ss fs ≡ ok gs
      → IsSorted fs
      → IsSorted gs
  unfolding schema_fields
  schema_fields-IsSorted [] fs gs h s = let e : fs ≡ gs = cc in subst IsSorted e s
  schema_fields-IsSorted (a ∷ ss) fs gs h s = elim (Result-cases (from_slice a.bytes)) [
    | inr (x, e) ↦ absurd (ground arith)
    | inl (v, e) ↦
        schema_fields-IsSorted ss _ gs (rw e at h)
          (collect_fields-IsSorted a.root_type a.root_type v fs s)
  ]

  -- What the tool lists is exactly what the schemas declare, each field once, and in order.
  pub fields_bytes-declared :
      (debug : Text → Text) (ss : List Asset) (out : List ℕ)
      → fields_bytes from_slice debug ss ≡ ok out
      → (fields : List Field) × (out ≡ bytes (pop (push_fields debug fields fields_header)))
        × IsSorted fields
        × ((f : Field) → IsMember f fields ↔ SomeDeclares f ss)
  unfolding fields_bytes
  fields_bytes-declared debug ss out h = elim (Result-cases (schema_fields from_slice ss [])) [
    | inr (x, e) ↦ absurd (ground arith)
    | inl (gs, e) ↦ (
      gs,
      ground arith,
      schema_fields-IsSorted ss [] gs e tt,
      λ f.
          let i = schema_fields-IsMember ss [] gs f e in
          (λ m. elim (i.0 m) [ inl n ↦ absurd n | inr d ↦ d ], λ d. i.1 (inr d)),
    )
  ]

  -- Two lists of schemas that declare the same fields give the same file.
  pub fields_bytes-same :
      (debug : Text → Text) (ss ts : List Asset) (a b : List ℕ)
      → fields_bytes from_slice debug ss ≡ ok a
      → fields_bytes from_slice debug ts ≡ ok b
      → ((f : Field) → SomeDeclares f ss ↔ SomeDeclares f ts)
      → a ≡ b
  fields_bytes-same debug ss ts a b h k same =
      let (fs, e, s, m) = fields_bytes-declared debug ss a h in
      let (gs, e', s', m') = fields_bytes-declared debug ts b k in
      let equal : fs ≡ gs =
        IsSorted-eq fs gs s s'
          λ f. (λ n. (m' f).1 ((same f).0 ((m f).0 n)), λ n. (m f).1 ((same f).1 ((m' f).0 n))) in
      e ∙ ap (λ x. bytes (pop (push_fields debug x fields_header))) equal ∙ sym e'
