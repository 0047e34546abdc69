-- ===== src/Value/Decimal/Compare.antt =====
-- `compare_decimal` orders digit sequences as the numbers that they denote.
use nautilus_agents.Base.{
  ℕ, zero, suc, ◌+◌, ◌*◌, ◌≤◌, ◌<◌, compare, ◌≡◌, refl, List, [], ◌∷◌, arith, ltb, length, inl, inr,
  Bool-cases,
}
use nautilus_agents.Value.Decimal.{
  trim_zeroes, slice_cmp, then_with, compare_decimal, value_from, value, IsDigits,
}

pub value-trim_zeroes : (ds : List ℕ) → value (trim_zeroes ds) ≡ value ds
unfolding trim_zeroes value_from
value-trim_zeroes [] = refl
value-trim_zeroes (zero ∷ ds) = value-trim_zeroes ds
value-trim_zeroes (suc d ∷ ds) = refl

pub IsDigits-trim_zeroes : (ds : List ℕ) → IsDigits ds → IsDigits (trim_zeroes ds)
unfolding trim_zeroes
IsDigits-trim_zeroes [] h = tt
IsDigits-trim_zeroes (zero ∷ ds) (_, h) = IsDigits-trim_zeroes ds h
IsDigits-trim_zeroes (suc d ∷ ds) h = h

-- No redundant zero in front.
abbrev pub IsTrimmed : List ℕ → Type 0
IsTrimmed [] = Unit
IsTrimmed (d ∷ ds) = 0 < d

pub IsTrimmed-trim_zeroes : (ds : List ℕ) → IsTrimmed (trim_zeroes ds)
unfolding trim_zeroes
IsTrimmed-trim_zeroes [] = tt
IsTrimmed-trim_zeroes (zero ∷ ds) = IsTrimmed-trim_zeroes ds
IsTrimmed-trim_zeroes (suc d ∷ ds) = omega arith

-- As many digits behind a smaller number denote a smaller number.
pub value_from_mono :
    (a b : ℕ) (ds es : List ℕ)
    → length ds ≡ length es
    → IsDigits ds
    → a < b
    → value_from a ds < value_from b es
unfolding value_from
value_from_mono a b [] [] l h lt = lt
value_from_mono a b [] (e ∷ es) l h lt = absurd (omega arith)
value_from_mono a b (d ∷ ds) [] l h lt = absurd (omega arith)
value_from_mono a b (d ∷ ds) (e ∷ es) l (hd, h) lt =
    value_from_mono (a * 10 + d) (b * 10 + e) ds es (omega arith) h (omega arith)

-- Digits behind a positive number denote more than no more digits behind nothing.
value_from_longer :
    (b : ℕ) (ds es : List ℕ)
    → length ds ≤ length es
    → IsDigits ds
    → 0 < b
    → value ds < value_from b es
unfolding value_from
value_from_longer b ds [] l h pos = value_from_mono 0 b ds [] (omega arith) h pos
value_from_longer b ds (e ∷ es) l h pos = elim (Bool-cases (ltb (length es) (length ds))) [
  | inl long ↦ value_from_mono 0 b ds (e ∷ es) (ground arith) h pos
  | inr short ↦ value_from_longer (b * 10 + e) ds es (ground arith) h (omega arith)
]

slice_cmp_value :
    (n : ℕ) (ds es : List ℕ)
    → length ds ≡ length es
    → IsDigits ds
    → IsDigits es
    → slice_cmp ds es ≡ compare (value_from n ds) (value_from n es)
unfolding slice_cmp value_from
slice_cmp_value n [] [] l hd he = ground arith
slice_cmp_value n [] (e ∷ es) l hd he = absurd (omega arith)
slice_cmp_value n (d ∷ ds) [] l hd he = absurd (omega arith)
slice_cmp_value n (d ∷ ds) (e ∷ es) l (p, hd) (q, he) = ground (
  arith,
  slice_cmp_value (n * 10 + d) ds es,
  value_from_mono (n * 10 + d) (n * 10 + e) ds es,
  value_from_mono (n * 10 + e) (n * 10 + d) es ds,
)

pub shorter_lt :
    (ds es : List ℕ) → IsDigits ds → IsTrimmed es → length ds < length es → value ds < value es
unfolding value_from
shorter_lt ds [] hd te l = absurd (omega arith)
shorter_lt ds (e ∷ es) hd te l = value_from_longer (0 * 10 + e) ds es (omega arith) hd (omega arith)

trimmed_cmp :
    (ds es : List ℕ)
    → IsDigits ds
    → IsDigits es
    → IsTrimmed ds
    → IsTrimmed es
    → then_with (compare (length ds) (length es)) (slice_cmp ds es) ≡ compare (value ds) (value es)
trimmed_cmp ds es hd he td te =
    ground (arith, slice_cmp_value 0 ds es, shorter_lt ds es, shorter_lt es ds)

-- On digit sequences, leading zeroes or not, the comparison is that of the numbers.
pub compare_decimal-value :
    (left right : List ℕ)
    → IsDigits left
    → IsDigits right
    → compare_decimal left right ≡ compare (value left) (value right)
unfolding compare_decimal
compare_decimal-value left right hl hr =
    rw
      (trimmed_cmp (trim_zeroes left) (trim_zeroes right) (IsDigits-trim_zeroes left hl)
        (IsDigits-trim_zeroes right hr) (IsTrimmed-trim_zeroes left) (IsTrimmed-trim_zeroes right))
      (rw (value-trim_zeroes left, value-trim_zeroes right) refl)
