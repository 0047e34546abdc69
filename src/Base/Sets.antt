-- ===== src/Base/Sets.antt =====
-- `BTreeSet` where only membership shows: a list, with `contains` and `insert`; membership,
-- occurrences and distinctness as predicates.
use Prim.Native.Nat.{ℕ, suc, ◌≤◌}
use mathlib.Core.Path.{◌≡◌, refl, sym, ap, subst}
use mathlib.Core.Logic.{◌↔◌, ◌⊎◌, inl, inr}
use mathlib.Core.Bool.{Bool, true, false, ◌||◌}
use mathlib.Core.List.{List, [], ◌∷◌, ◌++◌, map}
use native.Mathlib.Omega.{arith}
use nautilus_agents.Base.Tests.{PartialEq, ◌==◌, if◌then◌else◌}
use nautilus_agents.Base.Lists.{all, All}

abbrev pub IsMember : {A : Type 0} → A → List A → Type 0
IsMember x [] = ⊥
IsMember x (y ∷ ys) = (x ≡ y) ⊎ IsMember x ys

-- No element occurs twice.
abbrev pub IsDistinct : {A : Type 0} → List A → Type 0
IsDistinct [] = Unit
IsDistinct (x ∷ xs) = ¬ IsMember x xs × IsDistinct xs

pub IsMember-map :
    {A B : Type 0} (f : A → B) (x : A) (xs : List A) → IsMember x xs → IsMember (f x) (map f xs)
IsMember-map f x [] h = h
IsMember-map f x (y ∷ ys) (inl e) = inl (ap f e)
IsMember-map f x (y ∷ ys) (inr m) = inr (IsMember-map f x ys m)

pub IsMember-map_inverse :
    {A B : Type 0} (f : A → B) (y : B) (xs : List A)
    → IsMember y (map f xs)
    → (x : A) × IsMember x xs × (f x ≡ y)
IsMember-map_inverse f y [] h = absurd h
IsMember-map_inverse f y (x ∷ xs) (inl e) = (x, inl refl, sym e)
IsMember-map_inverse f y (x ∷ xs) (inr m) =
    let (z, n, e) = IsMember-map_inverse f y xs m in (z, inr n, e)

pub IsMember-append :
    {A : Type 0} (x : A) (xs ys : List A) → IsMember x (xs ++ ys) ↔ (IsMember x xs ⊎ IsMember x ys)
IsMember-append x [] ys = ((λ m. inr m), λ m. elim m [ inl n ↦ absurd n | inr n ↦ n ])
IsMember-append x (y ∷ xs) ys = ground (arith, IsMember-append x xs ys)

pub All-IsMember :
    {A : Type 0} (P : A → Type 0) (x : A) (xs : List A) → All P xs → IsMember x xs → P x
All-IsMember P x [] h m = absurd m
All-IsMember P x (y ∷ ys) (p, h) (inl e) = subst P (sym e) p
All-IsMember P x (y ∷ ys) (p, h) (inr m) = All-IsMember P x ys h m

module _ {A : Type 0} ⦃e : PartialEq A⦄ where
  -- `BTreeSet::contains`, `slice::contains`
  unfoldable pub contains : A → List A → Bool
  contains x [] = false
  contains x (y ∷ ys) = x == y || contains x ys

  -- `BTreeSet::insert`: the set, and whether the element is new.
  unfoldable pub insert : A → List A → List A × Bool
  unfolding contains
  insert x xs = if contains x xs then (xs, false) else (x ∷ xs, true)

  pub contains_iff : (x : A) (xs : List A) → (contains x xs ≡ true) ↔ IsMember x xs
  unfolding contains
  contains_iff x [] = ((λ h. cc), λ h. absurd h)
  contains_iff x (y ∷ ys) = ground (arith, e.is_eq_iff x y, contains_iff x ys)

  -- How often an element occurs.
  unfoldable pub occurrences : A → List A → ℕ
  occurrences x [] = 0
  occurrences x (y ∷ ys) = let n = occurrences x ys in if x == y then suc n else n

  pub occurrences_member : (x : A) (xs : List A) → IsMember x xs → 1 ≤ occurrences x xs
  unfolding occurrences
  occurrences_member x [] h = absurd h
  occurrences_member x (y ∷ ys) h = ground (arith, e.is_eq_iff x y, occurrences_member x ys)

  -- The test of an inclusion.
  pub contains_all :
      (xs ys : List A)
      → all (λ x. contains x ys) xs ≡ true
      → (z : A) → IsMember z xs
      → IsMember z ys
  contains_all [] ys h z m = absurd m
  contains_all (x ∷ xs) ys h z (inl e) =
      subst (λ w. IsMember w ys) (sym e) ((contains_iff x ys).0 (ground arith))
  contains_all (x ∷ xs) ys h z (inr m) = contains_all xs ys (ground arith) z m
