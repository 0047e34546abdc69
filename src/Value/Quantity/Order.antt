-- ===== src/Value/Quantity/Order.antt =====
-- The order of quantities and the increment check, as statements about the numbers denoted.
use mathlib.Core.List.{map-append}
use native.Mathlib.Nat.{mul-pos, mul-lt-mul_of_pos_right, pow-suc, mul-mod_left, mod-add-div}
use nautilus_agents.Base.{
  ℕ, zero, suc, ◌+◌, ◌-◌, ◌*◌, ◌/◌, ◌%◌, ◌^◌, ◌≤◌, ◌<◌, compare, max, ◌≡◌, refl, sym, ap, ◌∙◌, ◌↔◌,
  true, List, [], ◌∷◌, map, arith, eqb, length, all, All, list_eq, nat_eq,
}
use nautilus_agents.Text.{Text, IsAsciiDigit}
use nautilus_agents.Value.Decimal.{value_from, value, IsDigits, decimal_remainder}
use nautilus_agents.Value.Decimal.Compare.{compare_decimal-value}
use nautilus_agents.Value.Decimal.Remainder.{value_from-append, value-decimal_remainder}
use nautilus_agents.Value.Quantity.{Quantity, scale, digit_of, decimal_digits, cmp, is_multiple_of}
use nautilus_agents.Value.Quantity.Pattern.{
  IsNonzeroDigit, IsFraction, digits, MatchesPattern, whole, decimal, split_once-digits,
  split_once-point,
}
use nautilus_agents.Value.Quantity.Grammar.{IsInteger-digits}
use nautilus_agents.Value.Quantity.Units.{
  number, units, parts_of, scale_parts, value-decimal_digits, decimal_digits-IsDigits,
}

-- A quantity as `parse` makes it.
abbrev pub IsValid : Quantity → Type 0
IsValid q = MatchesPattern q.text

pub pow_pos : (k : ℕ) → 0 < 10 ^ k
pow_pos zero = omega arith
pow_pos (suc k) = omega (arith, pow-suc 10 k, pow_pos k)

pub mul_lt : (x y p : ℕ) → x < y → 0 < p → x * p < y * p
mul_lt x y p h k = mul-lt-mul_of_pos_right h k

cancel : (x y p : ℕ) → x * p ≡ y * p → 0 < p → x ≡ y
cancel x y p e h = ground (arith, mul_lt x y p, mul_lt y x p)

compare_scaled : (x y p : ℕ) → 0 < p → compare (x * p) (y * p) ≡ compare x y
compare_scaled x y p h = ground (arith, mul_lt x y p, mul_lt y x p)

-- The digits of both quantities at the common scale, and what they denote.
record AtScale (a b : Quantity) (s : ℕ) : Type 0 where
  a_digits : IsDigits (decimal_digits a.text s)
  b_digits : IsDigits (decimal_digits b.text s)
  a_value : value (decimal_digits a.text s) * 10 ^ (16 - s) ≡ units a
  b_value : value (decimal_digits b.text s) * 10 ^ (16 - s) ≡ units b

at_scale : (a b : Quantity) → IsValid a → IsValid b → AtScale a b (max (scale a) (scale b))
at_scale a b ha hb =
    let (i, f, p) = parts_of a.text ha in
    let (j, g, q) = parts_of b.text hb in
    let s : ℕ = max (scale a) (scale b) in
    let la : length f ≤ s = omega (arith, scale_parts a i f p) in
    let lb : length g ≤ s = omega (arith, scale_parts b j g q) in
    let m : s ≤ 16 = omega (arith, scale_parts a i f p, scale_parts b j g q, p.short, q.short) in
    record {
      a_digits = decimal_digits-IsDigits a i f p s la;
      b_digits = decimal_digits-IsDigits b j g q s lb;
      a_value = value-decimal_digits a i f p s la m;
      b_value = value-decimal_digits b j g q s lb m;
    }

-- Valid quantities are compared as the numbers that they denote.
pub cmp-units : (a b : Quantity) → IsValid a → IsValid b → cmp a b ≡ compare (units a) (units b)
unfolding cmp
cmp-units a b ha hb =
    let s : ℕ = max (scale a) (scale b) in
    let c = at_scale a b ha hb in
    compare_decimal-value (decimal_digits a.text s) (decimal_digits b.text s) c.a_digits c.b_digits
    ∙ sym (
        compare_scaled (value (decimal_digits a.text s)) (value (decimal_digits b.text s))
          (10 ^ (16 - s)) (pow_pos (16 - s)))
    ∙ (rw (c.a_value, c.b_value))

pub le-value_from : (n : ℕ) (ds : List ℕ) → n ≤ value_from n ds
unfolding value_from
le-value_from n [] = omega arith
le-value_from n (d ∷ ds) = omega (arith, le-value_from (n * 10 + d) ds)

all_zero_value : (ds : List ℕ) → all (λ digit. eqb digit 0) ds ≡ true → value ds ≡ 0
unfolding value_from
all_zero_value [] h = refl
all_zero_value (zero ∷ ds) h = all_zero_value ds h
all_zero_value (suc d ∷ ds) h = absurd (ground arith)

value-all_zero : (ds : List ℕ) → value ds ≡ 0 → all (λ digit. eqb digit 0) ds ≡ true
unfolding value_from
value-all_zero [] h = refl
value-all_zero (zero ∷ ds) h = value-all_zero ds h
value-all_zero (suc d ∷ ds) h = absurd (omega (arith, le-value_from (0 * 10 + suc d) ds))

factor_pos : (x p : ℕ) → 0 < x * p → 0 < x
factor_pos zero p h = absurd (omega arith)
factor_pos (suc x) p h = omega arith

number_whole : (d : ℕ) (ds : Text) → IsNonzeroDigit d → 0 < number (d ∷ ds)
unfolding value_from
number_whole d ds h = omega (arith, le-value_from (0 * 10 + (d - 48)) (map digit_of ds))

number_fraction : (f : Text) → IsFraction f → 0 < number f
unfolding value_from
number_fraction f (digits ds last hd l hl e) =
    rw
      (
        e,
        map-append digit_of ds (last ∷ []),
        value_from-append 0 (map digit_of ds) (map digit_of (last ∷ [])),
      )
      (omega arith)

-- A valid quantity is strictly positive.
pub units_positive : (q : Quantity) → IsValid q → 0 < units q
unfolding units
units_positive q (whole d ds hd h e) =
    let all_digits : All IsAsciiDigit (d ∷ ds) = (omega arith, h) in
    rw (e, split_once-digits (d ∷ ds) all_digits)
      (omega (arith, mul-pos (number_whole d ds hd) (pow_pos 16)))
units_positive q (decimal i f hi hf e) =
    rw (e, split_once-point i f (IsInteger-digits i hi))
      (omega (arith, mul-pos (number_fraction f hf) (pow_pos (16 - length f))))

divides_scaled : (v d p : ℕ) → v % d ≡ 0 → (k : ℕ) × (v * p ≡ k * (d * p))
divides_scaled v d p h =
    (v / d, omega (arith, ap (λ (t : ℕ). t * p) (mod-add-div v d), ap (λ (t : ℕ). t * p) h))

scaled_divides : (v d p k : ℕ) → 0 < p → v * p ≡ k * (d * p) → v % d ≡ 0
scaled_divides v d p k h e =
    ap (λ t. t % d) (cancel v (k * d) p (omega (arith, e)) h) ∙ mul-mod_left k d

-- A quantity is a multiple of an increment exactly when its number is a whole number of times the
-- increment's. In particular the loop of the division ends.
pub is_multiple_of-units :
    (q increment : Quantity)
    → IsValid q
    → IsValid increment
    → (is_multiple_of q increment ≡ true) ↔ ((k : ℕ) × (units q ≡ k * units increment))
unfolding is_multiple_of
is_multiple_of-units q increment hq hi =
    let s : ℕ = max (scale q) (scale increment) in
    let c = at_scale q increment hq hi in
    let v : List ℕ = decimal_digits q.text s in
    let d : List ℕ = decimal_digits increment.text s in
    let positive_divisor : 0 < value d =
      factor_pos (value d) (10 ^ (16 - s)) (rw c.b_value (units_positive increment hi)) in
    let exact : value (decimal_remainder v d) ≡ value v % value d =
      value-decimal_remainder v d c.a_digits c.b_digits positive_divisor in
    (
      λ h.
          let (k, e) =
            divides_scaled (value v) (value d) (10 ^ (16 - s))
              (sym exact ∙ all_zero_value (decimal_remainder v d) h) in
          (k, sym c.a_value ∙ e ∙ ap (λ t. k * t) c.b_value),
      λ (k, e). value-all_zero (decimal_remainder v d) (
          exact
          ∙ scaled_divides (value v) (value d) (10 ^ (16 - s)) k (pow_pos (16 - s))
              (c.a_value ∙ e ∙ ap (λ t. k * t) (sym c.b_value))),
    )
