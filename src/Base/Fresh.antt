-- ===== src/Base/Fresh.antt =====
-- Loops that insert identities into a set and stop at the first one that is there already.
use mathlib.Core.Path.{◌≡◌, refl, sym}
use mathlib.Core.Logic.{◌↔◌, inl, inr}
use mathlib.Core.Bool.{Bool, true, false, not, ◌||◌, ◌&&◌}
use mathlib.Core.List.{List, [], ◌∷◌}
use native.Mathlib.Omega.{arith}
use nautilus_agents.Base.Tests.{PartialEq, ◌==◌, Bool-cases}
use nautilus_agents.Base.Lists.{All}
use nautilus_agents.Base.Sets.{IsMember, IsDistinct, contains, insert, contains_iff}

module _ {A : Type 0} ⦃e : PartialEq A⦄ where
  pub insert_fresh : (x : A) (xs : List A) → contains x xs ≡ false → insert x xs ≡ (x ∷ xs, true)
  unfolding insert
  insert_fresh x xs h = rw h

  pub insert_seen : (x : A) (xs : List A) → contains x xs ≡ true → insert x xs ≡ (xs, false)
  unfolding insert
  insert_seen x xs h = rw h

  -- What a loop that starts with `seen` asks of the identities to come.
  abbrev pub NewIds : List A → List A → Type 0
  NewIds seen [] = Unit
  NewIds seen (x ∷ xs) = (contains x seen ≡ false) × NewIds (x ∷ seen) xs

  pub not-IsMember : (x : A) (xs : List A) → contains x xs ≡ false → ¬ IsMember x xs
  not-IsMember x xs h m = cc ((contains_iff x xs).1 m)

  pub member_not : (x : A) (xs : List A) → ¬ IsMember x xs → contains x xs ≡ false
  member_not x xs h = elim (Bool-cases (contains x xs)) [
    | inl t ↦ absurd (h ((contains_iff x xs).0 t))
    | inr f ↦ f
  ]

  contains_cons : (x y : A) (xs : List A) → contains x (y ∷ xs) ≡ (x == y || contains x xs)
  unfolding contains
  contains_cons x y xs = refl

  fresh_apart :
      (seen xs : List A) → NewIds seen xs → All (λ x. contains x seen ≡ false) xs × IsDistinct xs
  fresh_apart seen [] h = (tt, tt)
  fresh_apart seen (x ∷ xs) (n, h) =
      let (apart, distinct) = fresh_apart (x ∷ seen) xs h in
      ((n, All-weaken xs apart), (not_in xs apart, distinct))
    where
      All-weaken :
          (ys : List A)
          → All (λ y. contains y (x ∷ seen) ≡ false) ys
          → All (λ y. contains y seen ≡ false) ys
      All-weaken [] _ = tt
      All-weaken (y ∷ ys) (p, q) = (ground (arith, contains_cons y x seen), All-weaken ys q)

      not_in : (ys : List A) → All (λ y. contains y (x ∷ seen) ≡ false) ys → ¬ IsMember x ys
      not_in [] _ m = m
      not_in (y ∷ ys) (p, q) (inl eq) = cc ((contains_iff y (x ∷ seen)).1 (inl (sym eq)))
      not_in (y ∷ ys) (p, q) (inr m) = not_in ys q m

  apart_fresh :
      (seen xs : List A) → All (λ x. contains x seen ≡ false) xs → IsDistinct xs → NewIds seen xs
  apart_fresh seen [] _ _ = tt
  apart_fresh seen (x ∷ xs) (n, h) (d, ds) = (n, apart_fresh (x ∷ seen) xs (stronger xs h d) ds)
    where
      stronger :
          (ys : List A)
          → All (λ y. contains y seen ≡ false) ys
          → ¬ IsMember x ys
          → All (λ y. contains y (x ∷ seen) ≡ false) ys
      stronger [] _ m = tt
      stronger (y ∷ ys) (p, q) m = (
        member_not y (x ∷ seen)
            (λ h. elim h [ inl eq ↦ m (inl (sym eq)) | inr old ↦ not-IsMember y seen p old ]),
        stronger ys q (λ k. m (inr k)),
      )

  none_seen : (xs : List A) → All (λ x. contains x [] ≡ false) xs
  unfolding contains
  none_seen [] = tt
  none_seen (x ∷ xs) = (refl, none_seen xs)

  -- From the empty set, the loop finds every identity new exactly when they are distinct.
  pub NewIds-IsDistinct : (xs : List A) → NewIds [] xs ↔ IsDistinct xs
  NewIds-IsDistinct xs = ((λ h. (fresh_apart [] xs h).1), λ d. apart_fresh [] xs (none_seen xs) d)

  -- The test of distinctness.
  abbrev pub is_distinct : List A → Bool
  is_distinct [] = true
  is_distinct (x ∷ xs) = not (contains x xs) && is_distinct xs

  pub is_distinct-IsDistinct : (xs : List A) → is_distinct xs ≡ true → IsDistinct xs
  is_distinct-IsDistinct [] h = tt
  is_distinct-IsDistinct (x ∷ xs) h =
      (not-IsMember x xs (ground arith), is_distinct-IsDistinct xs (ground arith))
