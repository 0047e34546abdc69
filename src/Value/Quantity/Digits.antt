-- ===== src/Value/Quantity/Digits.antt =====
-- Digit sequences that denote the same number are the same: at one length, with no zero in front,
-- or as decimal places with no zero behind.
use native.Mathlib.Nat.{mul-pos, pow-suc}
use nautilus_agents.Base.{
  ℕ, zero, suc, ◌+◌, ◌-◌, ◌*◌, ◌^◌, ◌≤◌, ◌<◌, ◌≡◌, refl, sym, ap, ◌∙◌, List, [], ◌∷◌, arith, length,
  list_eq, nat_eq,
}
use nautilus_agents.Value.Decimal.{value_from, value, IsDigits}
use nautilus_agents.Value.Decimal.Compare.{IsTrimmed, value_from_mono, shorter_lt}
use nautilus_agents.Value.Quantity.Units.{value_from_pow, pow_split}
use nautilus_agents.Value.Quantity.Order.{pow_pos, mul_lt}

digits_unique :
    (n : ℕ) (ds es : List ℕ)
    → length ds ≡ length es
    → IsDigits ds
    → IsDigits es
    → value_from n ds ≡ value_from n es
    → ds ≡ es
unfolding value_from
digits_unique n [] [] l hd he e = refl
digits_unique n [] (c ∷ es) l hd he e = absurd (omega arith)
digits_unique n (d ∷ ds) [] l hd he e = absurd (omega arith)
digits_unique n (d ∷ ds) (c ∷ es) l (p, hd) (q, he) e =
    let same : d ≡ c = ground (
      arith,
      value_from_mono (n * 10 + d) (n * 10 + c) ds es,
      value_from_mono (n * 10 + c) (n * 10 + d) es ds,
    ) in
    rw same (ap (λ s. c ∷ s) (digits_unique (n * 10 + c) ds es (omega arith) hd he (rw same at e)))

pub trimmed_unique :
    (ds es : List ℕ)
    → IsDigits ds
    → IsDigits es
    → IsTrimmed ds
    → IsTrimmed es
    → value ds ≡ value es
    → ds ≡ es
trimmed_unique ds es hd he td te e =
    digits_unique 0 ds es (ground (arith, shorter_lt ds es, shorter_lt es ds)) hd he e

-- No redundant zero behind.
abbrev pub EndsNonzero : List ℕ → Type 0
EndsNonzero [] = Unit
EndsNonzero (d ∷ []) = 0 < d
EndsNonzero (d ∷ c ∷ ds) = EndsNonzero (c ∷ ds)

EndsNonzero-tail : (d : ℕ) (ds : List ℕ) → EndsNonzero (d ∷ ds) → EndsNonzero ds
EndsNonzero-tail d [] h = tt
EndsNonzero-tail d (c ∷ ds) h = h

ends_positive : (n d : ℕ) (ds : List ℕ) → EndsNonzero (d ∷ ds) → 0 < value_from n (d ∷ ds)
unfolding value_from
ends_positive n d [] h = omega arith
ends_positive n d (c ∷ ds) h = ends_positive (n * 10 + d) c ds h

value-lt-pow : (ds : List ℕ) → IsDigits ds → value ds < 10 ^ length ds
unfolding value_from
value-lt-pow [] h = omega arith
value-lt-pow (d ∷ ds) (p, h) =
    let digit : d * 10 ^ length ds ≤ 9 * 10 ^ length ds = grind arith in
    omega (arith, value_from_pow (0 * 10 + d) ds, value-lt-pow ds h, pow-suc 10 (length ds))

quotient_lt : (d e x y p : ℕ) → d < e → x < p → d * p + x < e * p + y
quotient_lt d e x y p h hx = let step : suc d * p ≤ e * p = grind arith in omega (arith, step)

-- Both parts of a division are determined.
pub division_unique : (d e x y p : ℕ) → d * p + x ≡ e * p + y → x < p → y < p → (d ≡ e) × (x ≡ y)
division_unique d e x y p h hx hy =
    let same : d ≡ e = ground (arith, quotient_lt d e x y p, quotient_lt e d y x p) in
    (same, omega (arith, h, ap (λ (t : ℕ). t * p) same))

-- A fraction's digits at `k` places.
abbrev pub scaled : ℕ → List ℕ → ℕ
scaled k ds = value ds * 10 ^ (k - length ds)

pub scaled_lt : (k : ℕ) (ds : List ℕ) → IsDigits ds → length ds ≤ k → scaled k ds < 10 ^ k
scaled_lt k ds h l = omega (
  arith,
  mul_lt (value ds) (10 ^ length ds) (10 ^ (k - length ds)) (value-lt-pow ds h)
      (pow_pos (k - length ds)),
  pow_split (length ds) (k - length ds) k (omega arith),
)

scaled_cons :
    (k d : ℕ) (ds : List ℕ) → length ds ≤ k → scaled (suc k) (d ∷ ds) ≡ d * 10 ^ k + scaled k ds
unfolding value_from
scaled_cons k d ds l =
    let places : suc k - suc (length ds) ≡ k - length ds = omega arith in
    rw places (
      omega (
        arith,
        ap (λ (t : ℕ). t * 10 ^ (k - length ds)) (value_from_pow (0 * 10 + d) ds),
        ap (λ (t : ℕ). d * t) (pow_split (length ds) (k - length ds) k (omega arith)),
      ))

scaled_positive : (k d : ℕ) (ds : List ℕ) → EndsNonzero (d ∷ ds) → 0 < scaled k (d ∷ ds)
scaled_positive k d ds h = mul-pos (ends_positive 0 d ds h) (pow_pos (k - length (d ∷ ds)))

pub scaled_unique :
    (k : ℕ) (ds es : List ℕ)
    → IsDigits ds
    → IsDigits es
    → EndsNonzero ds
    → EndsNonzero es
    → length ds ≤ k
    → length es ≤ k
    → scaled k ds ≡ scaled k es
    → ds ≡ es
scaled_unique k [] [] hd he nd ne ld le e = refl
scaled_unique k [] (c ∷ es) hd he nd ne ld le e =
    absurd (unfold value_from in omega (arith, e, scaled_positive k c es ne))
scaled_unique k (d ∷ ds) [] hd he nd ne ld le e =
    absurd (unfold value_from in omega (arith, e, scaled_positive k d ds nd))
scaled_unique zero (d ∷ ds) (c ∷ es) hd he nd ne ld le e = absurd (omega arith)
scaled_unique (suc k) (d ∷ ds) (c ∷ es) (p, hd) (q, he) nd ne ld le e =
    let (same, rest) =
      division_unique d c (scaled k ds) (scaled k es) (10 ^ k)
        (sym (scaled_cons k d ds (omega arith)) ∙ e ∙ scaled_cons k c es (omega arith))
        (scaled_lt k ds hd (omega arith)) (scaled_lt k es he (omega arith)) in
    rw same (
      ap (λ s. c ∷ s)
        (scaled_unique k ds es hd he (EndsNonzero-tail d ds nd) (EndsNonzero-tail c es ne)
          (omega arith) (omega arith) rest))
