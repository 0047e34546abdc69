-- ===== src/Value/Decimal/Remainder.antt =====
-- `subtract_decimal` subtracts and `decimal_remainder` divides the numbers that digits denote.
use mathlib.Core.List.{reverse, reverse-append, reverse-reverse}
use native.Mathlib.Nat.{
  add-mod_right, mod-eq_of_lt, mod-lt, mod-mod, add-mul-mod_self_left, mod-add-div,
}
use nautilus_agents.Base.{
  ltb→lt, ℕ, zero, suc, ◌+◌, ◌*◌, ◌≤◌, ◌<◌, ◌%◌, ◌/◌, ◌≡◌, refl, sym, List, [], ◌∷◌, ◌++◌, arith,
  ltb, inl, inr, Bool-cases, ◌∙◌, ap, All-append,
}
use nautilus_agents.Value.Decimal.{
  trim_zeroes, compare_decimal, is_less, borrow_loop, subtract_decimal, subtract_loop, rounds,
  remainder_loop, decimal_remainder, value_from, value, IsDigits,
}
use nautilus_agents.Value.Decimal.Compare.{
  value-trim_zeroes, IsDigits-trim_zeroes, compare_decimal-value,
}

pub value_from-append :
    (n : ℕ) (ds es : List ℕ) → value_from n (ds ++ es) ≡ value_from (value_from n ds) es
unfolding value_from
value_from-append n [] es = refl
value_from-append n (d ∷ ds) es = value_from-append (n * 10 + d) ds es

-- The number of digits given last digit first.
value_le : List ℕ → ℕ
value_le [] = 0
value_le (d ∷ ds) = d + 10 * value_le ds

value-reverse : (ds : List ℕ) → value (reverse ds) ≡ value_le ds
unfolding value_le value_from
value-reverse [] = refl
value-reverse (d ∷ ds) =
    ap value (reverse-append (d ∷ []) ds)
    ∙ value_from-append 0 (reverse ds) (d ∷ [])
    ∙ (omega (arith, value-reverse ds))

reverse-IsDigits : (ds : List ℕ) → IsDigits ds → IsDigits (reverse ds)
reverse-IsDigits [] h = tt
reverse-IsDigits (d ∷ ds) (p, h) =
    rw (reverse-append (d ∷ []) ds)
      (All-append (λ c. c < 10) (reverse ds) (d ∷ []) (reverse-IsDigits ds h) (p, tt))

borrow_loop-IsDigits : (v s : List ℕ) (b : ℕ) → IsDigits v → b ≤ 1 → IsDigits (borrow_loop v s b)
unfolding borrow_loop
borrow_loop-IsDigits [] s b h hb = tt
borrow_loop-IsDigits (d ∷ v) [] b (p, h) hb = ground (
  arith,
  borrow_loop-IsDigits v [] 1 h (omega arith),
  borrow_loop-IsDigits v [] 0 h (omega arith),
)
borrow_loop-IsDigits (d ∷ v) (e ∷ s) b (p, h) hb =
    ground (
      arith,
      borrow_loop-IsDigits v s 1 h (omega arith),
      borrow_loop-IsDigits v s 0 h (omega arith),
    )

borrow_loop_value :
    (v s : List ℕ) (b : ℕ)
    → IsDigits v
    → IsDigits s
    → b ≤ 1
    → value_le s + b ≤ value_le v
    → value_le (borrow_loop v s b) + (value_le s + b) ≡ value_le v
unfolding borrow_loop value_le
borrow_loop_value [] s b hv hs hb le = omega arith
borrow_loop_value (d ∷ v) [] b (p, hv) hs hb le = ground (
  arith,
  borrow_loop_value v [] 1 hv tt (omega arith),
  borrow_loop_value v [] 0 hv tt (omega arith),
)
borrow_loop_value (d ∷ v) (e ∷ s) b (p, hv) (q, hs) hb le = ground (
  arith,
  borrow_loop_value v s 1 hv hs (omega arith),
  borrow_loop_value v s 0 hv hs (omega arith),
)

digits_reversed : (ds : List ℕ) → value_le (reverse ds) ≡ value ds
digits_reversed ds = sym (value-reverse (reverse ds)) ∙ ap value (reverse-reverse ds)

pub IsDigits-subtract_decimal : (v s : List ℕ) → IsDigits v → IsDigits (subtract_decimal v s)
unfolding subtract_decimal
IsDigits-subtract_decimal v s h =
    IsDigits-trim_zeroes (reverse (borrow_loop (reverse v) (reverse s) 0)) (
      reverse-IsDigits (borrow_loop (reverse v) (reverse s) 0)
        (borrow_loop-IsDigits (reverse v) (reverse s) 0 (reverse-IsDigits v h) (omega arith)))

-- Where the subtrahend is not greater, the result denotes the difference.
pub value-subtract_decimal :
    (v s : List ℕ)
    → IsDigits v
    → IsDigits s
    → value s ≤ value v
    → value (subtract_decimal v s) + value s ≡ value v
unfolding subtract_decimal
value-subtract_decimal v s hv hs le =
    let loop : List ℕ = borrow_loop (reverse v) (reverse s) 0 in
    omega (
      arith,
      value-trim_zeroes (reverse loop),
      value-reverse loop,
      digits_reversed v,
      digits_reversed s,
      borrow_loop_value (reverse v) (reverse s) 0 (reverse-IsDigits v hv) (reverse-IsDigits s hs)
          (omega arith) (omega (arith, digits_reversed v, digits_reversed s)),
    )

IsDigits-subtract_loop : (fuel : ℕ) (r d : List ℕ) → IsDigits r → IsDigits (subtract_loop fuel r d)
unfolding subtract_loop
IsDigits-subtract_loop zero r d h = h
IsDigits-subtract_loop (suc fuel) r d h =
    ground (
      arith,
      IsDigits-subtract_loop fuel (subtract_decimal r d) d (IsDigits-subtract_decimal r d h),
    )

-- While `D` fits, subtracting it keeps the remainder by `D`.
subtract_mod : (x y D : ℕ) → y + D ≡ x → x % D ≡ y % D
subtract_mod x y D e = rw (← e) (add-mod_right y D)

is_less-value :
    (r d : List ℕ)
    → IsDigits r
    → IsDigits d
    → is_less (compare_decimal r d) ≡ ltb (value r) (value d)
is_less-value r d hr hd = rw (compare_decimal-value r d hr hd) (ground arith)

-- With enough rounds the loop ends by its test, at the remainder.
value-subtract_loop :
    (fuel : ℕ) (r d : List ℕ)
    → IsDigits r
    → IsDigits d
    → value r < fuel * value d
    → value (subtract_loop fuel r d) ≡ value r % value d
unfolding subtract_loop
value-subtract_loop zero r d hr hd h = absurd (omega arith)
value-subtract_loop (suc fuel) r d hr hd h = elim (Bool-cases (ltb (value r) (value d))) [
  | inl less ↦
      rw (is_less-value r d hr hd, less, subtract_loop) (sym (mod-eq_of_lt (ltb→lt _ _ less)))
  | inr more ↦
      let down : value (subtract_decimal r d) + value d ≡ value r =
        value-subtract_decimal r d hr hd (ground arith) in
      rw (is_less-value r d hr hd, more, subtract_loop)
        (value-subtract_loop fuel (subtract_decimal r d) d (IsDigits-subtract_decimal r d hr) hd
            (omega arith)
          ∙ sym (subtract_mod (value r) (value (subtract_decimal r d)) (value d) down))
]

mod_shift : (n e D : ℕ) → (n % D * 10 + e) % D ≡ (n * 10 + e) % D
mod_shift n e D =
    sym (add-mul-mod_self_left (n % D * 10 + e) D (n / D * 10))
    ∙ ap (λ m. m % D) (omega (arith, ap (λ (m : ℕ). m * 10) (mod-add-div n D)))

value_from_mod : (n : ℕ) (ds : List ℕ) (D : ℕ) → value_from (n % D) ds % D ≡ value_from n ds % D
unfolding value_from
value_from_mod n [] D = mod-mod n D
value_from_mod n (e ∷ ds) D =
    sym (value_from_mod (n % D * 10 + e) ds D)
    ∙ ap (λ m. value_from m ds % D) (mod_shift n e D)
    ∙ value_from_mod (n * 10 + e) ds D

value-remainder_loop :
    (r ds d : List ℕ)
    → IsDigits r
    → IsDigits ds
    → IsDigits d
    → value r < value d
    → value (remainder_loop r ds d) ≡ value_from (value r) ds % value d
unfolding remainder_loop value_from
value-remainder_loop r [] d hr hs hd lt = sym (mod-eq_of_lt lt)
value-remainder_loop r (e ∷ ds) d hr (he, hs) hd lt =
    let pushed : List ℕ = r ++ e ∷ [] in
    let val : value (trim_zeroes pushed) ≡ value r * 10 + e =
      value-trim_zeroes pushed ∙ value_from-append 0 r (e ∷ []) in
    let dig : IsDigits (trim_zeroes pushed) =
      IsDigits-trim_zeroes pushed (All-append (λ c. c < 10) r (e ∷ []) hr (he, tt)) in
    let step : value (subtract_loop rounds (trim_zeroes pushed) d) ≡ (value r * 10 + e) % value d =
      value-subtract_loop rounds (trim_zeroes pushed) d dig hd (omega arith)
      ∙ ap (λ m. m % value d) val in
    value-remainder_loop (subtract_loop rounds (trim_zeroes pushed) d) ds d
      (IsDigits-subtract_loop rounds (trim_zeroes pushed) d dig) hs hd
      (omega (arith, step, mod-lt (value r * 10 + e) {m = value d} (omega arith)))
    ∙ ap (λ m. value_from m ds % value d) step
    ∙ value_from_mod (value r * 10 + e) ds (value d)

-- For a divisor that is not zero, the digits that are left denote the remainder of the numbers; in
-- particular the inner loop ends within its rounds.
pub value-decimal_remainder :
    (ds d : List ℕ)
    → IsDigits ds
    → IsDigits d
    → 0 < value d
    → value (decimal_remainder ds d) ≡ value ds % value d
unfolding decimal_remainder value_from
value-decimal_remainder ds d hs hd pos = value-remainder_loop [] ds d tt hs hd pos
