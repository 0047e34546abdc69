-- ===== src/Value/Timestamp/RoundTrip.antt =====
-- `TimestampNs::parse` and `Display` are inverse to each other.
use mathlib.Core.List.{map-append}
use native.Mathlib.Nat.{pow-suc}
use nautilus_agents.Base.{
  ℕ, zero, suc, ◌+◌, ◌*◌, ◌/◌, ◌%◌, ◌^◌, ◌≤◌, ◌<◌, ◌≡◌, refl, sym, ap, ◌∙◌, ◌⊎◌, inl, inr, Bool,
  false, [], ◌∷◌, ◌++◌, map, append_assoc, append-nil, arith, ltb, eqb, All, All-append, ok,
  list_eq, nat_eq, Bool-cases, ltb→lt,
}
use nautilus_agents.Text.{Text, is_empty, starts_with, IsAsciiDigit}
use nautilus_agents.Value.Decimal.{value_from, value}
use nautilus_agents.Value.Decimal.Compare.{IsTrimmed}
use nautilus_agents.Value.Decimal.Remainder.{value_from-append}
use nautilus_agents.Value.Quantity.{digit_of}
use nautilus_agents.Value.Quantity.Units.{number, map-IsDigits}
use nautilus_agents.Value.Quantity.Order.{le-value_from}
use nautilus_agents.Value.Quantity.Digits.{trimmed_unique}
use nautilus_agents.Value.Quantity.Canonical.{digit_of_injective}
use nautilus_agents.Value.Timestamp.{TimestampNs, u64_end, new, parse, emit, u64_digits, display}
use nautilus_agents.Value.Timestamp.Parse.{IsCanonical, accepted-IsCanonical, parse-number}

-- What the digits `ds` printed for `n` are.
record Printed (n : ℕ) (ds : Text) : Type 0 where
  digits : All IsAsciiDigit ds
  number : number ds ≡ n
  filled : is_empty ds ≡ false
  first : 0 < n → starts_with (λ c. eqb c b'0') ds ≡ false
  naught : n ≡ 0 → ds ≡ b'0' ∷ []

Printed-digit : (n : ℕ) → n < 10 → Printed n ((b'0' + n % 10) ∷ [])
unfolding value_from
Printed-digit n h = record {
  digits = omega arith;
  number = omega arith;
  filled = refl;
  first = λ p. ground arith;
  naught = λ e. rw e;
}

starts_with-append :
    (p : ℕ → Bool) (ds : Text) (c : ℕ)
    → is_empty ds ≡ false
    → starts_with p (ds ++ c ∷ []) ≡ starts_with p ds
starts_with-append p [] c h = cc
starts_with-append p (d ∷ ds) c h = refl

filled_append : (ds : Text) (c : ℕ) → is_empty (ds ++ c ∷ []) ≡ false
filled_append [] c = refl
filled_append (d ∷ ds) c = refl

fuel_positive : (fuel n : ℕ) → 10 ≤ n → n < 10 ^ suc fuel → 0 < fuel
fuel_positive zero n h l = absurd (omega arith)
fuel_positive (suc fuel) n h l = omega arith

Printed-push :
    (n : ℕ) (ds : Text) → 10 ≤ n → Printed (n / 10) ds → Printed n (ds ++ (b'0' + n % 10) ∷ [])
unfolding value_from
Printed-push n ds h p =
    let c : ℕ = b'0' + n % 10 in
    record {
      digits = All-append IsAsciiDigit ds (c ∷ []) p.digits (omega arith);
      number =
          ap value (map-append digit_of ds (c ∷ []))
          ∙ value_from-append 0 (map digit_of ds) (digit_of c ∷ [])
          ∙ (omega (arith, p.number));
      filled = filled_append ds c;
      first = λ _. starts_with-append (λ d. eqb d b'0') ds c p.filled ∙ p.first (omega arith);
      naught = λ e. absurd (omega arith);
    }

emit-Printed :
    (fuel n : ℕ) (out : Text)
    → n < 10 ^ fuel
    → 0 < fuel
    → (ds : Text) × (emit fuel n out ≡ ds ++ out) × Printed n ds
unfolding emit
emit-Printed zero n out h f = absurd (omega arith)
emit-Printed (suc fuel) n out h f = elim (Bool-cases (ltb n 10)) [
  | inl small ↦ ((b'0' + n % 10) ∷ [], rw small, Printed-digit n (ltb→lt n 10 small))
  | inr large ↦
      let big : 10 ≤ n = ground arith in
      let c : ℕ = b'0' + n % 10 in
      let (ds, e, p) =
        emit-Printed fuel (n / 10) (c ∷ out) (omega (arith, pow-suc 10 fuel))
          (fuel_positive fuel n big h) in
      (ds ++ c ∷ [], rw large (e ∙ sym (append_assoc ds (c ∷ []) out)), Printed-push n ds big p)
]

-- The text of a `u64`.
display-Printed : (n : ℕ) → n < u64_end → Printed n (display (new n))
unfolding display new
display-Printed n h =
    let (ds, e, p) = emit-Printed u64_digits n [] (omega arith) (omega arith) in
    rw (e, append-nil ds) p

Printed-IsCanonical : (n : ℕ) (ds : Text) → Printed n ds → IsCanonical ds
Printed-IsCanonical zero ds p = record {
  digits = p.digits;
  filled = p.filled;
  lead = rw (p.naught refl);
}
Printed-IsCanonical (suc n) ds p = record {
  digits = p.digits;
  filled = p.filled;
  lead = rw (p.first (omega arith)) (ground arith);
}

-- Every `u64` is read back from its text.
pub parse-display : (n : ℕ) → n < u64_end → parse (display (new n)) ≡ ok (new n)
parse-display n h =
    let p = display-Printed n h in
    parse-number (display (new n)) (Printed-IsCanonical n (display (new n)) p)
    ∙ (rw p.number (ground arith))

canonical_cases :
    (t : Text) → IsCanonical t → (t ≡ b'0' ∷ []) ⊎ (IsTrimmed (map digit_of t) × (0 < number t))
unfolding value_from
canonical_cases [] c = absurd (let f = c.filled in cc)
canonical_cases (d ∷ []) c = elim (Bool-cases (eqb d b'0')) [
  | inl e ↦ inl (ground arith)
  | inr e ↦ let p = c.digits in inr (ground arith, ground arith)
]
canonical_cases (d ∷ e ∷ t) c =
    let p = c.digits in
    let l = c.lead in
    let big : b'0' < d = ground arith in
    inr (
      omega arith,
      omega (arith, le-value_from ((0 * 10 + digit_of d) * 10 + digit_of e) (map digit_of t)),
    )

number_naught : number (b'0' ∷ []) ≡ 0
unfolding value_from
number_naught = refl

canonical_unique : (s t : Text) → IsCanonical s → IsCanonical t → number s ≡ number t → s ≡ t
canonical_unique s t cs ct e = both (canonical_cases s cs) (canonical_cases t ct)
  where
    both :
        (s ≡ b'0' ∷ []) ⊎ (IsTrimmed (map digit_of s) × (0 < number s))
        → (t ≡ b'0' ∷ []) ⊎ (IsTrimmed (map digit_of t) × (0 < number t))
        → s ≡ t
    both (inl p) (inl q) = p ∙ sym q
    both (inl p) (inr q) = absurd (omega (arith, e, ap number p, number_naught, q.1))
    both (inr p) (inl q) = absurd (omega (arith, e, ap number q, number_naught, p.1))
    both (inr p) (inr q) = digit_of_injective s t cs.digits ct.digits (
        trimmed_unique (map digit_of s) (map digit_of t) (map-IsDigits s cs.digits)
          (map-IsDigits t ct.digits) p.0 q.0 e)

accepted_number :
    (t : Text) (ts : TimestampNs)
    → IsCanonical t
    → parse t ≡ ok ts
    → (ts.nanos ≡ number t) × (number t < u64_end)
unfolding new
accepted_number t ts c h = let p = parse-number t c in ground arith

-- Every accepted text is the text that its value is written as, and the value is a `u64`.
pub display-parse :
    (t : Text) (ts : TimestampNs) → parse t ≡ ok ts → (display ts ≡ t) × (ts.nanos < u64_end)
display-parse t ts h =
    let c = accepted-IsCanonical t ts h in
    let (e, fits) = accepted_number t ts c h in
    let p : Printed ts.nanos (display ts) =
      unfold new in display-Printed ts.nanos (omega (arith, e)) in
    (
      canonical_unique (display ts) t (Printed-IsCanonical ts.nanos (display ts) p) c
          (p.number ∙ e),
      omega (arith, e),
    )
