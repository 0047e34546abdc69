-- ===== src/Value/Quantity/Units.antt =====
-- The number that a quantity's text denotes, counted in units of 10^-16, and how the digits that
-- the comparison and the increment check read at a common scale denote it.
use mathlib.Core.Path.{subst}
use native.Mathlib.Nat.{pow-suc, zero-add, suc-add}
use nautilus_agents.Base.{
  ℕ, zero, suc, ◌+◌, ◌-◌, ◌*◌, ◌^◌, ◌≤◌, ◌<◌, ◌≡◌, refl, sym, ap, ◌∙◌, List, [], ◌∷◌, ◌++◌, map,
  arith, length, take, replicate, All, All-append, length-append, length-replicate, length-map,
  none, some, list_eq, nat_eq,
}
use nautilus_agents.Text.{Text, split_once, IsAsciiDigit}
use nautilus_agents.Value.Decimal.{value_from, value, IsDigits}
use nautilus_agents.Value.Decimal.Compare.{value-trim_zeroes, IsDigits-trim_zeroes}
use nautilus_agents.Value.Decimal.Remainder.{value_from-append}
use nautilus_agents.Value.Quantity.{
  Quantity, fraction_len, scale, digit_of, resize, padded, or_no_fraction, decimal_digits,
}
use nautilus_agents.Value.Quantity.Pattern.{
  IsNonzeroDigit, IsFraction, digits, MatchesPattern, whole, decimal, split_once-digits,
  split_once-point,
}
use nautilus_agents.Value.Quantity.Grammar.{IsFraction-digits, IsInteger-digits, digits_bytes}

-- The number that a text of digits denotes.
abbrev pub number : Text → ℕ
number t = value (map digit_of t)

abbrev pub units_of : Text × Text → ℕ
units_of (i, f) = number i * 10 ^ 16 + number f * 10 ^ (16 - length f)

-- The quantity in units of 10^-16, read off the two parts of its text.
unfoldable pub units : Quantity → ℕ
unfolding split_once value_from
units q = units_of (or_no_fraction q.text (split_once b'.' q.text))

pub pow_add : (m n : ℕ) → 10 ^ (m + n) ≡ 10 ^ m * 10 ^ n
pow_add zero n = ap (λ (k : ℕ). 10 ^ k) (zero-add n) ∙ omega arith
pow_add (suc m) n =
    ap (λ (k : ℕ). 10 ^ k) (suc-add m n)
    ∙ pow-suc 10 (m + n)
    ∙ omega (arith, ap (λ (t : ℕ). t * 10) (pow_add m n), ap (λ (t : ℕ). t * 10 ^ n) (pow-suc 10 m))

pub value_from_pow : (n : ℕ) (ds : List ℕ) → value_from n ds ≡ n * 10 ^ length ds + value ds
unfolding value_from
value_from_pow n [] = omega arith
value_from_pow n (d ∷ ds) = omega (
  arith,
  value_from_pow (n * 10 + d) ds,
  value_from_pow (0 * 10 + d) ds,
  ap (λ (t : ℕ). n * t) (pow-suc 10 (length ds)),
)

value_zeros : (n k : ℕ) → value_from n (replicate k 0) ≡ n * 10 ^ k
unfolding value_from
value_zeros n zero = omega arith
value_zeros n (suc k) =
    value_zeros (n * 10 + 0) k ∙ omega (arith, ap (λ (t : ℕ). n * t) (pow-suc 10 k))

take_exact {ℓ} : {A : Type ℓ} (xs : List A) → take (length xs) xs ≡ xs
take_exact [] = refl
take_exact (x ∷ xs) = ap (λ s. x ∷ s) (take_exact xs)

-- What a text's parts are, whether it has a point or not.
pub record HasParts (t : Text) (i f : Text) : Type 0 where
  pub split : or_no_fraction t (split_once b'.' t) ≡ (i, f)
  pub places : fraction_len (split_once b'.' t) ≡ length f
  pub integer : All IsAsciiDigit i
  pub fraction : All IsAsciiDigit f
  pub short : length f ≤ 16

nonzero_ascii : (d : ℕ) → IsNonzeroDigit d → IsAsciiDigit d
nonzero_ascii d h = omega arith

IsFraction-short : (f : Text) → IsFraction f → length f ≤ 16
IsFraction-short f (digits ds last hd l hl e) =
    omega (arith, ap (length {0}) e, length-append {0} ds (last ∷ []))

pub parts_of : (t : Text) → MatchesPattern t → (i : Text) × (f : Text) × HasParts t i f
parts_of t (whole d ds hd h e) =
    let all_digits : All IsAsciiDigit (d ∷ ds) = (nonzero_ascii d hd, h) in
    let none_split : split_once b'.' t ≡ none = rw e (split_once-digits (d ∷ ds) all_digits) in
    (
      t,
      [],
      record {
        split = rw none_split;
        places = rw none_split;
        integer = rw e all_digits;
        fraction = tt;
        short = omega arith;
      },
    )
parts_of t (decimal i f hi hf e) =
    let split : split_once b'.' t ≡ some (i, f) =
      rw e (split_once-point i f (IsInteger-digits i hi)) in
    (
      i,
      f,
      record {
        split = rw split;
        places = rw (split, digits_bytes f (IsFraction-digits f hf));
        integer = IsInteger-digits i hi;
        fraction = IsFraction-digits f hf;
        short = IsFraction-short f hf;
      },
    )

resize_lem :
    (n x : ℕ) (ds : List ℕ) → length ds ≤ n → resize n x ds ≡ ds ++ replicate (n - length ds) x
resize_lem n x ds h =
    let full : List ℕ = ds ++ replicate (n - length ds) x in
    let e : length full ≡ n = omega (
      arith,
      length-append {0} ds (replicate (n - length ds) x),
      length-replicate {0} (n - length ds) x,
    ) in
    subst (λ m. take m full ≡ full) e (take_exact full)

padded_lem :
    (i f : Text) (s : ℕ)
    → All IsAsciiDigit i
    → All IsAsciiDigit f
    → length f ≤ s
    → padded i f s ≡ (map digit_of i ++ map digit_of f) ++ replicate (s - length f) 0
padded_lem i f s hi hf h =
    let ds : List ℕ = map digit_of i ++ map digit_of f in
    let l : length ds ≡ length i + length f = omega (
      arith,
      length-append {0} (map digit_of i) (map digit_of f),
      length-map digit_of i,
      length-map digit_of f,
    ) in
    rw (digits_bytes i hi, digits_bytes f hf)
      (resize_lem (length i + s) 0 ds (omega arith)
        ∙ ap (λ k. ds ++ replicate k 0) (omega (arith, l)))

parts_value :
    (i f : Text) (s : ℕ)
    → value ((map digit_of i ++ map digit_of f) ++ replicate (s - length f) 0)
      ≡ (number i * 10 ^ length f + number f) * 10 ^ (s - length f)
parts_value i f s =
    value_from-append 0 (map digit_of i ++ map digit_of f) (replicate (s - length f) 0)
    ∙ value_zeros (value (map digit_of i ++ map digit_of f)) (s - length f)
    ∙ ap (λ n. n * 10 ^ (s - length f))
        (value_from-append 0 (map digit_of i) (map digit_of f)
          ∙ value_from_pow (number i) (map digit_of f)
          ∙ ap (λ k. number i * 10 ^ k + number f) (length-map digit_of f))

pub pow_split : (a b c : ℕ) → a + b ≡ c → 10 ^ a * 10 ^ b ≡ 10 ^ c
pow_split a b c e = sym (pow_add a b) ∙ ap (λ (k : ℕ). 10 ^ k) e

regroup : (n m a b c d e : ℕ) → b * c ≡ d → a * d ≡ e → (n * a + m) * b * c ≡ n * e + m * d
regroup n m a b c d e p q =
    omega (arith, ap (λ (t : ℕ). n * a * t) p, ap (λ (t : ℕ). m * t) p, ap (λ (t : ℕ). n * t) q)

-- The digits at a scale that holds them all denote the quantity in units of that scale.
digits_units :
    (i f : Text) (s : ℕ)
    → All IsAsciiDigit i
    → All IsAsciiDigit f
    → length f ≤ s
    → s ≤ 16
    → value (padded i f s) * 10 ^ (16 - s) ≡ units_of (i, f)
digits_units i f s hi hf l m =
    ap (λ ds. value ds * 10 ^ (16 - s)) (padded_lem i f s hi hf l)
    ∙ ap (λ n. n * 10 ^ (16 - s)) (parts_value i f s)
    ∙ regroup (number i) (number f) (10 ^ length f) (10 ^ (s - length f)) (10 ^ (16 - s))
        (10 ^ (16 - length f)) (10 ^ 16)
        (pow_split (s - length f) (16 - s) (16 - length f) (omega arith))
        (pow_split (length f) (16 - length f) 16 (omega arith))

pub map-IsDigits : (t : Text) → All IsAsciiDigit t → IsDigits (map digit_of t)
map-IsDigits [] h = tt
map-IsDigits (c ∷ t) (p, h) = (omega arith, map-IsDigits t h)

replicate-IsDigits : (k : ℕ) → IsDigits (replicate k 0)
replicate-IsDigits zero = tt
replicate-IsDigits (suc k) = (omega arith, replicate-IsDigits k)

padded-IsDigits :
    (i f : Text) (s : ℕ)
    → All IsAsciiDigit i
    → All IsAsciiDigit f
    → length f ≤ s
    → IsDigits (padded i f s)
padded-IsDigits i f s hi hf l = rw (padded_lem i f s hi hf l) (
    All-append (λ d. d < 10) _ (replicate (s - length f) 0)
      (All-append (λ d. d < 10) (map digit_of i) (map digit_of f) (map-IsDigits i hi)
        (map-IsDigits f hf))
      (replicate-IsDigits (s - length f)))

module _ (q : Quantity) (i f : Text) (h : HasParts q.text i f) where
  pub scale_parts : scale q ≡ length f
  unfolding scale
  scale_parts = h.places

  pub value-decimal_digits :
      (s : ℕ) → length f ≤ s → s ≤ 16 → value (decimal_digits q.text s) * 10 ^ (16 - s) ≡ units q
  unfolding decimal_digits units
  value-decimal_digits s l m = rw h.split (
      ap (λ n. n * 10 ^ (16 - s)) (value-trim_zeroes (padded i f s))
      ∙ digits_units i f s h.integer h.fraction l m)

  pub decimal_digits-IsDigits : (s : ℕ) → length f ≤ s → IsDigits (decimal_digits q.text s)
  unfolding decimal_digits
  decimal_digits-IsDigits s l =
      rw h.split
        (IsDigits-trim_zeroes (padded i f s) (padded-IsDigits i f s h.integer h.fraction l))
