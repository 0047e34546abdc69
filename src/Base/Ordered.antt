-- ===== src/Base/Ordered.antt =====
-- Derived `Ord`, and `BTreeSet` where its order shows: a list in strictly ascending order.
use Prim.Native.Nat.{ℕ}
use mathlib.Core.Path.{◌≡◌, refl, sym, ap, subst, ◌∙◌, ap₂}
use mathlib.Core.Logic.{◌↔◌, ◌⊎◌, inl, inr}
use mathlib.Core.Bool.{Bool, true, false, ◌&&◌, ◌||◌}
use mathlib.Core.List.{List, [], ◌∷◌}
use native.Mathlib.Omega.{arith}
use nautilus_agents.Base.Tests.{ltb, eqb, if◌then◌else◌, Bool-cases}
use nautilus_agents.Base.Lists.{All}
use nautilus_agents.Base.Sets.{IsMember}

-- The strict order, as a test.
pub record TotalOrder (A : Type 0) : Type 0 where
  pub less : A → A → Bool
  pub less_irrefl : (a : A) → less a a ≡ false
  pub less_trans : (a b c : A) → less a b ≡ true → less b c ≡ true → less a c ≡ true
  pub less_total : (a b : A) → less a b ≡ false → less b a ≡ false → a ≡ b

-- Texts are compared by code points, which is the order of their bytes in UTF-8.
unfoldable pub text_less : List ℕ → List ℕ → Bool
text_less [] [] = false
text_less [] (y ∷ ys) = true
text_less (x ∷ xs) [] = false
text_less (x ∷ xs) (y ∷ ys) = ltb x y || (eqb x y && text_less xs ys)

pub text_less_irrefl : (a : List ℕ) → text_less a a ≡ false
unfolding text_less
text_less_irrefl [] = refl
text_less_irrefl (x ∷ xs) = ground (arith, text_less_irrefl xs)

pub text_less_trans :
    (a b c : List ℕ) → text_less a b ≡ true → text_less b c ≡ true → text_less a c ≡ true
unfolding text_less
text_less_trans [] [] c h k = cc
text_less_trans [] (y ∷ b) [] h k = cc
text_less_trans [] (y ∷ b) (z ∷ c) h k = refl
text_less_trans (x ∷ a) [] c h k = cc
text_less_trans (x ∷ a) (y ∷ b) [] h k = cc
text_less_trans (x ∷ a) (y ∷ b) (z ∷ c) h k = ground (arith, text_less_trans a b c)

pub text_less-total : (a b : List ℕ) → text_less a b ≡ false → text_less b a ≡ false → a ≡ b
unfolding text_less
text_less-total [] [] h k = refl
text_less-total [] (y ∷ b) h k = cc
text_less-total (x ∷ a) [] h k = cc
text_less-total (x ∷ a) (y ∷ b) h k = ground (arith, text_less-total a b)

instance abbrev pub text_order : TotalOrder (List ℕ)
text_order = record {
  less = text_less;
  less_irrefl = text_less_irrefl;
  less_trans = text_less_trans;
  less_total = text_less-total;
}

module _ {A : Type 0} ⦃o : TotalOrder A⦄ where
  -- `BTreeSet::insert`, its result dropped
  unfoldable pub insert_ordered : A → List A → List A
  insert_ordered x [] = x ∷ []
  insert_ordered x (y ∷ ys) =
      let rest = insert_ordered x ys in
      if o.less x y then x ∷ y ∷ ys else if o.less y x then y ∷ rest else y ∷ ys

  -- `collect` into a set
  unfoldable pub collect_ordered : List A → List A
  unfolding insert_ordered
  collect_ordered [] = []
  collect_ordered (x ∷ xs) = insert_ordered x (collect_ordered xs)

  abbrev pub IsBelow : A → List A → Type 0
  IsBelow x = All (λ y. o.less x y ≡ true)

  -- Strictly ascending, so that no element occurs twice.
  abbrev pub IsSorted : List A → Type 0
  IsSorted [] = Unit
  IsSorted (x ∷ xs) = IsBelow x xs × IsSorted xs

  pub insert_ordered-IsMember :
      (z x : A) (ys : List A) → IsMember z (insert_ordered x ys) ↔ ((z ≡ x) ⊎ IsMember z ys)
  unfolding insert_ordered
  insert_ordered-IsMember z x [] = ground arith
  insert_ordered-IsMember z x (y ∷ ys) = elim (Bool-cases (o.less x y)) [
    | inl e ↦ rw e ((λ h. h), (λ h. h))
    | inr e ↦ elim (Bool-cases (o.less y x)) [
      | inl k ↦ rw (e, k) (ground (arith, insert_ordered-IsMember z x ys))
      | inr k ↦
          let same = o.less_total x y e k in
          rw (e, k) (λ h. inr h, λ h. elim h [ inl q ↦ inl (q ∙ same) | inr m ↦ m ])
    ]
  ]

  IsBelow-trans : (x y : A) (ys : List A) → o.less x y ≡ true → IsBelow y ys → IsBelow x ys
  IsBelow-trans x y [] h b = tt
  IsBelow-trans x y (z ∷ zs) h (p, b) = (o.less_trans x y z h p, IsBelow-trans x y zs h b)

  insert_ordered-IsBelow :
      (y x : A) (ys : List A) → o.less y x ≡ true → IsBelow y ys → IsBelow y (insert_ordered x ys)
  unfolding insert_ordered
  insert_ordered-IsBelow y x [] h b = (h, tt)
  insert_ordered-IsBelow y x (z ∷ zs) h (p, b) = ground (arith, insert_ordered-IsBelow y x zs h b)

  pub insert_ordered-IsSorted : (x : A) (ys : List A) → IsSorted ys → IsSorted (insert_ordered x ys)
  unfolding insert_ordered
  insert_ordered-IsSorted x [] s = (tt, tt)
  insert_ordered-IsSorted x (y ∷ ys) (b, s) = elim (Bool-cases (o.less x y)) [
    | inl e ↦ rw e ((e, IsBelow-trans x y ys e b), (b, s))
    | inr e ↦ elim (Bool-cases (o.less y x)) [
      | inl k ↦ rw (e, k) (insert_ordered-IsBelow y x ys k b, insert_ordered-IsSorted x ys s)
      | inr k ↦ rw (e, k) (b, s)
    ]
  ]

  pub collect_ordered-IsMember :
      (z : A) (xs : List A) → IsMember z (collect_ordered xs) ↔ IsMember z xs
  unfolding collect_ordered
  collect_ordered-IsMember z [] = ((λ h. h), (λ h. h))
  collect_ordered-IsMember z (x ∷ xs) =
      ground
        (arith, insert_ordered-IsMember z x (collect_ordered xs), collect_ordered-IsMember z xs)

  pub collect_ordered-IsSorted : (xs : List A) → IsSorted (collect_ordered xs)
  unfolding collect_ordered
  collect_ordered-IsSorted [] = tt
  collect_ordered-IsSorted (x ∷ xs) =
      insert_ordered-IsSorted x (collect_ordered xs) (collect_ordered-IsSorted xs)

  abbrev pub SameMembers : List A → List A → Type 0
  SameMembers xs ys = (z : A) → IsMember z xs ↔ IsMember z ys

  IsBelow-IsMember : (x z : A) (ys : List A) → IsBelow x ys → IsMember z ys → o.less x z ≡ true
  IsBelow-IsMember x z [] b m = absurd m
  IsBelow-IsMember x z (y ∷ ys) (p, b) (inl e) = rw e p
  IsBelow-IsMember x z (y ∷ ys) (p, b) (inr m) = IsBelow-IsMember x z ys b m

  not-less-both : (x y : A) → o.less x y ≡ true → ¬ (o.less y x ≡ true)
  not-less-both x y h k = ground (arith, o.less_trans x y x h k, o.less_irrefl x)

  heads_eq :
      (x y : A) (xs ys : List A)
      → IsBelow x xs
      → IsBelow y ys
      → IsMember x (y ∷ ys)
      → IsMember y (x ∷ xs)
      → x ≡ y
  heads_eq x y xs ys bx by (inl e) m = e
  heads_eq x y xs ys bx by (inr m) (inl e) = sym e
  heads_eq x y xs ys bx by (inr m) (inr n) =
      absurd (not-less-both x y (IsBelow-IsMember x y xs bx n) (IsBelow-IsMember y x ys by m))

  tail_of :
      (x z : A) (xs ys : List A)
      → IsBelow x xs
      → IsMember z (x ∷ ys)
      → IsMember z xs
      → IsMember z ys
  tail_of x z xs ys b (inl e) m =
      let h = IsBelow-IsMember x z xs b m in
      absurd (ground (arith, ap (o.less x) e, o.less_irrefl x))
  tail_of x z xs ys b (inr m) n = m

  -- A set is one list: two strictly ascending lists with the same elements are equal.
  pub IsSorted-eq : (xs ys : List A) → IsSorted xs → IsSorted ys → SameMembers xs ys → xs ≡ ys
  IsSorted-eq [] [] s t h = refl
  IsSorted-eq [] (y ∷ ys) s t h = absurd ((h y).1 (inl refl))
  IsSorted-eq (x ∷ xs) [] s t h = absurd ((h x).0 (inl refl))
  IsSorted-eq (x ∷ xs) (y ∷ ys) (b, s) (c, t) h =
      let e = heads_eq x y xs ys b c ((h x).0 (inl refl)) ((h y).1 (inl refl)) in
      let tails = IsSorted-eq xs ys s t λ z. (
        λ m. tail_of x z xs ys b (subst (λ w. IsMember z (w ∷ ys)) (sym e) ((h z).0 (inr m))) m,
        λ m. tail_of y z ys xs c (subst (λ w. IsMember z (w ∷ xs)) e ((h z).1 (inr m))) m,
      ) in
      ap₂ ◌∷◌ e tails

  -- What a set holds does not depend on the order in which it was filled.
  pub collect_ordered-SameMembers :
      (xs ys : List A) → SameMembers xs ys → collect_ordered xs ≡ collect_ordered ys
  collect_ordered-SameMembers xs ys h =
      IsSorted-eq (collect_ordered xs) (collect_ordered ys) (collect_ordered-IsSorted xs)
        (collect_ordered-IsSorted ys)
        λ z. (
          λ m. (collect_ordered-IsMember z ys).1 ((h z).0 ((collect_ordered-IsMember z xs).0 m)),
          λ m. (collect_ordered-IsMember z xs).1 ((h z).1 ((collect_ordered-IsMember z ys).0 m)),
        )

  -- Two lists fill the same set exactly where they have the same elements.
  pub collect_ordered_iff :
      (xs ys : List A) → (collect_ordered xs ≡ collect_ordered ys) ↔ SameMembers xs ys
  collect_ordered_iff xs ys = (
    λ e z. (
      λ m.
          (collect_ordered-IsMember z ys).0
            (subst (IsMember z) e ((collect_ordered-IsMember z xs).1 m)),
      λ m.
          (collect_ordered-IsMember z xs).0
            (subst (IsMember z) (sym e) ((collect_ordered-IsMember z ys).1 m)),
    ),
    collect_ordered-SameMembers xs ys,
  )

  -- The test of a strictly ascending list compares neighbours.
  abbrev pub is_ascending : List A → Bool
  is_ascending [] = true
  is_ascending (x ∷ []) = true
  is_ascending (x ∷ y ∷ ys) = o.less x y && is_ascending (y ∷ ys)

  pub is_ascending-IsSorted : (xs : List A) → is_ascending xs ≡ true → IsSorted xs
  is_ascending-IsSorted [] h = tt
  is_ascending-IsSorted (x ∷ []) h = (tt, tt)
  is_ascending-IsSorted (x ∷ y ∷ ys) h =
      let first : o.less x y ≡ true = ground arith in
      let (b, s) = is_ascending-IsSorted (y ∷ ys) (ground arith) in
      ((first, IsBelow-trans x y ys first b), (b, s))
