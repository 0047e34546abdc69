-- ===== src/Assurance/Advisory/Needed.antt =====
-- The fields that the checks of a reduction read, and the paths that lead to them.
use nautilus_agents.Base.{
  ◌≡◌, sym, ◌∙◌, ◌≢◌, inl, inr, Bool, true, false, ◌&&◌, ◌||◌, List, [], ◌∷◌, ◌++◌, arith, ◌==◌,
  list_eq, nat_eq, list_beq, list_beq_iff, Bool-cases,
}
use mathlib.Core.Path.{subst}
use nautilus_agents.Text.{Text, codes}

-- The fields of the two collections that the checks of a reduction read.
pub data IsNeeded : Text → Text → Type 0 where
  position_id : IsNeeded (codes "positions") (codes "position_id")
  position_instrument : IsNeeded (codes "positions") (codes "instrument_id")
  position_quantity : IsNeeded (codes "positions") (codes "quantity")
  instrument_id : IsNeeded (codes "instruments") (codes "instrument_id")
  instrument_increment : IsNeeded (codes "instruments") (codes "quantity_increment")

-- A path on the way to a needed field of some entry, the field itself included: a nonempty prefix
-- of `payload/live/<collection>/<entry>/<field>`.
pub record LeadsToNeeded (s : List Text) : Type 0 where
  pub collection : Text
  pub entry : Text
  pub field : Text
  pub needed : IsNeeded collection field
  pub rest : List Text
  pub nonempty : s ≢ []
  pub path : s ++ rest ≡ codes "payload" ∷ codes "live" ∷ collection ∷ entry ∷ field ∷ []

pub collection-IsNeeded :
    (c : Text)
    → (c == codes "positions" || c == codes "instruments") ≡ true
    → (f : Text) × IsNeeded c f
collection-IsNeeded c h = elim (Bool-cases (c == codes "positions")) [
  | inl e ↦ (
    codes "position_id",
    subst (λ t. IsNeeded t (codes "position_id")) (sym ((list_beq_iff c (codes "positions")).0 e))
        position_id,
  )
  | inr e ↦
      let same : c ≡ codes "instruments" = ground (arith, list_beq_iff c (codes "instruments")) in
      (
        codes "instrument_id",
        subst (λ t. IsNeeded t (codes "instrument_id")) (sym same) instrument_id,
      )
]

-- The test of the fields, of an entry of either collection.
abbrev pub is_needed : Text → Text → Bool
is_needed c field =
    (c == codes "positions"
      && (field == codes "position_id"
          || field == codes "instrument_id"
          || field == codes "quantity"))
    || (c == codes "instruments"
        && (field == codes "instrument_id" || field == codes "quantity_increment"))

pub codes_differ : ¬ (list_beq (codes "positions") (codes "instruments") ≡ true)
unfolding list_beq
codes_differ h = ground arith

pub collections_differ : codes "positions" ≢ codes "instruments"
collections_differ h =
    absurd (codes_differ ((list_beq_iff (codes "positions") (codes "instruments")).1 h))

pub needs_instrument :
    (c f : Text)
    → (c == codes "positions") ≡ false
    → is_needed c f ≡ true
    → list_beq c (codes "instruments") ≡ true
needs_instrument c f e h = ground arith

pub needs_increment :
    (c f : Text)
    → (c == codes "positions") ≡ false
    → (f == codes "instrument_id") ≡ false
    → is_needed c f ≡ true
    → list_beq f (codes "quantity_increment") ≡ true
needs_increment c f e k h = ground arith

pub needs_second :
    (c f : Text)
    → (f == codes "position_id") ≡ false
    → (f == codes "instrument_id") ≡ false
    → (f == codes "quantity") ≡ false
    → is_needed c f ≡ true
    → list_beq c (codes "instruments") ≡ true
needs_second c f e1 e2 e3 h = ground arith

pub field-IsNeeded : (c f : Text) → is_needed c f ≡ true → IsNeeded c f
field-IsNeeded c f h =
    let p = list_beq_iff c (codes "positions") in
    let i = list_beq_iff c (codes "instruments") in
    let g1 = list_beq_iff f (codes "position_id") in
    let g2 = list_beq_iff f (codes "instrument_id") in
    let g3 = list_beq_iff f (codes "quantity") in
    let g4 = list_beq_iff f (codes "quantity_increment") in
    let at : (k g : Text) → c ≡ k → f ≡ g → IsNeeded k g → IsNeeded c f =
      λ k g ek eg n. rw (ek, eg) n in
    elim (Bool-cases (c == codes "positions")) [
      | inl e ↦ elim (Bool-cases (f == codes "position_id")) [
        | inl e1 ↦ at (codes "positions") (codes "position_id") (p.0 e) (g1.0 e1) position_id
        | inr e1 ↦ elim (Bool-cases (f == codes "instrument_id")) [
          | inl e2 ↦
              at (codes "positions") (codes "instrument_id") (p.0 e) (g2.0 e2) position_instrument
          | inr e2 ↦ elim (Bool-cases (f == codes "quantity")) [
            | inl e3 ↦ at (codes "positions") (codes "quantity") (p.0 e) (g3.0 e3) position_quantity
            | inr e3 ↦
                let both : c ≡ codes "instruments" = i.0 (needs_second c f e1 e2 e3 h) in
                absurd (collections_differ (sym (p.0 e) ∙ both))
          ]
        ]
      ]
      | inr e ↦ elim (Bool-cases (f == codes "instrument_id")) [
        | inl e2 ↦
            let is_instrument = needs_instrument c f e h in
            at (codes "instruments") (codes "instrument_id") (i.0 is_instrument) (g2.0 e2)
              instrument_id
        | inr e2 ↦
            let is_instrument = needs_instrument c f e h in
            let is_increment = needs_increment c f e e2 h in
            at (codes "instruments") (codes "quantity_increment") (i.0 is_instrument)
              (g4.0 is_increment) instrument_increment
      ]
    ]
