-- ===== src/Assurance/Advisory/Search.antt =====
-- `Iterator::find` by a key: what it finds, and that it finds the entry of a key that is there once.
use nautilus_agents.Base.{
  ◌≡◌, sym, ap, ◌∙◌, inl, inr, true, List, [], ◌∷◌, map, arith, find, IsMember, IsDistinct,
  IsMember-map, some, ◌==◌, list_eq, nat_eq, PartialEq, Bool-cases,
}

module _ {A K : Type 0} ⦃e : PartialEq K⦄ (key : A → K) (k : K) where
  pub find_sound :
      (xs : List A) (x : A) → find (λ (y : A). key y == k) xs ≡ some x → IsMember x xs × (key x ≡ k)
  find_sound [] x h = cc
  find_sound (y ∷ ys) x h = elim (Bool-cases (key y == k)) [
    | inl t ↦ ground (arith, e.is_eq_iff (key y) k)
    | inr t ↦
        let r : find (λ (z : A). key z == k) ys ≡ some x = ground arith in
        let (m, q) = find_sound ys x r in (inr m, q)
  ]

  pub find_complete :
      (xs : List A) (x : A)
      → IsDistinct (map key xs)
      → IsMember x xs
      → key x ≡ k
      → find (λ (y : A). key y == k) xs ≡ some x
  find_complete [] x _ m h = absurd m
  find_complete (y ∷ ys) x (n, d) (inl q) h =
      let t : (key y == k) ≡ true = (e.is_eq_iff (key y) k).1 (sym (ap key q) ∙ h) in ground arith
  find_complete (y ∷ ys) x (n, d) (inr m) h =
      let ih = find_complete ys x d m h in
      elim (Bool-cases (key y == k)) [
        | inl t ↦ absurd (n (rw ((e.is_eq_iff (key y) k).0 t, sym h) (IsMember-map key x ys m)))
        | inr t ↦ ground arith
      ]
