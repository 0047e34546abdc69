-- ===== src/Value/Decimal.antt =====
-- Arithmetic on decimal digit sequences, most significant digit first (src/protocol/value.rs:
-- `trim_zeroes`, `compare_decimal`, `subtract_decimal`, `decimal_remainder`).
pub mod Compare
pub mod Remainder
use mathlib.Core.List.{reverse}
use nautilus_agents.Base.{
  ℕ, zero, suc, ◌+◌, ◌-◌, ◌*◌, ◌<◌, compare, Ordering, Bool, true, false, List, [], ◌∷◌, ◌++◌, ltb,
  if◌then◌else◌, length, All,
}

-- The slice from the first digit that is not zero.
unfoldable pub trim_zeroes : List ℕ → List ℕ
trim_zeroes [] = []
trim_zeroes (d ∷ ds) = elim d [ zero ↦ trim_zeroes ds | suc e ↦ suc e ∷ ds ]

-- `Ord` of slices: element by element, a proper prefix is less.
unfoldable pub slice_cmp : List ℕ → List ℕ → Ordering
slice_cmp [] [] = Ordering.eq
slice_cmp [] (e ∷ es) = Ordering.lt
slice_cmp (d ∷ ds) [] = Ordering.gt
slice_cmp (d ∷ ds) (e ∷ es) = elim (compare d e) [
  | Ordering.lt ↦ Ordering.lt
  | Ordering.eq ↦ slice_cmp ds es
  | Ordering.gt ↦ Ordering.gt
]

-- `Ordering::then_with`
abbrev pub then_with : Ordering → Ordering → Ordering
then_with Ordering.lt o = Ordering.lt
then_with Ordering.eq o = o
then_with Ordering.gt o = Ordering.gt

unfoldable pub compare_decimal : List ℕ → List ℕ → Ordering
unfolding trim_zeroes slice_cmp
compare_decimal left right =
    let l = trim_zeroes left in
    let r = trim_zeroes right in then_with (compare (length l) (length r)) (slice_cmp l r)

abbrev pub is_less : Ordering → Bool
is_less Ordering.lt = true
is_less Ordering.eq = false
is_less Ordering.gt = false

-- The loop over the indices, from the last digit; both operands are given last digit first. The
-- subtrahend's digits are zero where it has none left.
unfoldable pub borrow_loop : List ℕ → List ℕ → ℕ → List ℕ
borrow_loop [] s borrow = []
borrow_loop (d ∷ v) [] borrow =
    if ltb d borrow
    then (d + 10 - borrow) ∷ borrow_loop v [] 1
    else (d - borrow) ∷ borrow_loop v [] 0
borrow_loop (d ∷ v) (e ∷ s) borrow =
    if ltb d (e + borrow)
    then (d + 10 - (e + borrow)) ∷ borrow_loop v s 1
    else (d - (e + borrow)) ∷ borrow_loop v s 0

unfoldable pub subtract_decimal : List ℕ → List ℕ → List ℕ
unfolding borrow_loop trim_zeroes
subtract_decimal value subtrahend =
    trim_zeroes (reverse (borrow_loop (reverse value) (reverse subtrahend) 0))

-- `while compare_decimal(&remainder, divisor) != Less { subtract }`, for at most `fuel` rounds.
unfoldable pub subtract_loop : ℕ → List ℕ → List ℕ → List ℕ
unfolding compare_decimal subtract_decimal
subtract_loop zero remainder divisor = remainder
subtract_loop (suc fuel) remainder divisor = elim (is_less (compare_decimal remainder divisor)) [
  | true ↦ remainder
  | false ↦ subtract_loop fuel (subtract_decimal remainder divisor) divisor
]

-- The rounds that one digit can need, with the last test.
abbrev pub rounds : ℕ
rounds = 10

-- The loop of `decimal_remainder` over the digits.
unfoldable pub remainder_loop : List ℕ → List ℕ → List ℕ → List ℕ
unfolding trim_zeroes subtract_loop
remainder_loop remainder [] divisor = remainder
remainder_loop remainder (digit ∷ value) divisor =
    remainder_loop (subtract_loop rounds (trim_zeroes (remainder ++ digit ∷ [])) divisor) value
      divisor

unfoldable pub decimal_remainder : List ℕ → List ℕ → List ℕ
unfolding remainder_loop
decimal_remainder value divisor = remainder_loop [] value divisor

-- The number that digits denote, behind the number `n`.
unfoldable pub value_from : ℕ → List ℕ → ℕ
value_from n [] = n
value_from n (d ∷ ds) = value_from (n * 10 + d) ds

abbrev pub value : List ℕ → ℕ
value ds = value_from 0 ds

abbrev pub IsDigits : List ℕ → Type 0
IsDigits = All (λ d. d < 10)
