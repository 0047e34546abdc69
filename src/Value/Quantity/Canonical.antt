-- ===== src/Value/Quantity/Canonical.antt =====
-- The text of a quantity is canonical: quantities that compare as equal have the same text, so the
-- derived equality and the order agree.
use nautilus_agents.Base.{
  ℕ, ◌+◌, ◌-◌, ◌*◌, ◌^◌, ◌≤◌, ◌<◌, Ordering, ◌≡◌, refl, sym, ap, ◌∙◌, ◌↔◌, [], ◌∷◌, ◌++◌, map,
  arith, length, All, length-append, length-map, list_eq, nat_eq,
}
use nautilus_agents.Text.{Text, IsAsciiDigit}
use nautilus_agents.Value.Decimal.{value_from}
use nautilus_agents.Value.Decimal.Compare.{IsTrimmed}
use nautilus_agents.Value.Quantity.{Quantity, digit_of, cmp}
use nautilus_agents.Value.Quantity.Pattern.{
  IsNonzeroDigit, IsInteger, naught, positive, IsFraction, digits, whole, decimal,
  split_once-digits, split_once-point,
}
use nautilus_agents.Value.Quantity.Grammar.{IsFraction-digits, IsInteger-digits}
use nautilus_agents.Value.Quantity.Units.{number, units, map-IsDigits}
use nautilus_agents.Value.Quantity.Order.{IsValid, le-value_from, cmp-units}
use nautilus_agents.Value.Quantity.Digits.{
  trimmed_unique, EndsNonzero, division_unique, scaled, scaled_lt, scaled_unique,
}

pub digit_of_injective :
    (s t : Text) → All IsAsciiDigit s → All IsAsciiDigit t → map digit_of s ≡ map digit_of t → s ≡ t
digit_of_injective [] [] hs ht e = refl
digit_of_injective [] (d ∷ t) hs ht e = cc
digit_of_injective (c ∷ s) [] hs ht e = cc
digit_of_injective (c ∷ s) (d ∷ t) (p, hs) (q, ht) e =
    let heads : digit_of c ≡ digit_of d = ground arith in
    let tails : map digit_of s ≡ map digit_of t = ground arith in
    ground (arith, digit_of_injective s t hs ht tails)

data Integer (i : Text) : Type 0 where
  zero_text : i ≡ b'0' ∷ [] → number i ≡ 0 → Integer i
  trimmed : IsTrimmed (map digit_of i) → 0 < number i → Integer i

Integer-cases : (i : Text) → IsInteger i → Integer i
unfolding value_from
Integer-cases i (naught e) = zero_text e (rw e)
Integer-cases i (positive d ds hd h e) =
    rw e
      (trimmed (omega arith) (omega (arith, le-value_from (0 * 10 + (d - 48)) (map digit_of ds))))

integer_unique : (i j : Text) → IsInteger i → IsInteger j → number i ≡ number j → i ≡ j
integer_unique i j hi hj e = both (Integer-cases i hi) (Integer-cases j hj)
  where
    both : Integer i → Integer j → i ≡ j
    both (zero_text p a) (zero_text q b) = p ∙ sym q
    both (zero_text p a) (trimmed q b) = absurd (omega arith)
    both (trimmed p a) (zero_text q b) = absurd (omega arith)
    both (trimmed p a) (trimmed q b) =
        digit_of_injective i j (IsInteger-digits i hi) (IsInteger-digits j hj) (
          trimmed_unique (map digit_of i) (map digit_of j) (map-IsDigits i (IsInteger-digits i hi))
            (map-IsDigits j (IsInteger-digits j hj)) p q e)

ends_nonzero :
    (ds : Text) (last : ℕ) → IsNonzeroDigit last → EndsNonzero (map digit_of (ds ++ last ∷ []))
ends_nonzero [] last h = omega arith
ends_nonzero (d ∷ []) last h = omega arith
ends_nonzero (d ∷ c ∷ ds) last h = ends_nonzero (c ∷ ds) last h

joined : Text → Text → Text
joined i [] = i
joined i (c ∷ f) = i ++ b'.' ∷ c ∷ f

-- A valid quantity, by the two parts of its text.
record Form (q : Quantity) (i f : Text) : Type 0 where
  text : q.text ≡ joined i f
  integer : IsInteger i
  fraction : All IsAsciiDigit f
  ends : EndsNonzero (map digit_of f)
  short : length (map digit_of f) ≤ 16
  number : units q ≡ number i * 10 ^ 16 + scaled 16 (map digit_of f)

joined_point : (i ds : Text) (last : ℕ) → joined i (ds ++ last ∷ []) ≡ i ++ b'.' ∷ (ds ++ last ∷ [])
unfolding joined
joined_point i [] last = refl
joined_point i (d ∷ ds) last = refl

Form-of : (q : Quantity) → IsValid q → (i : Text) × (f : Text) × Form q i f
unfolding units joined
Form-of q (whole d ds hd h e) = (
  d ∷ ds,
  [],
  record {
    text = e;
    integer = positive d ds hd h refl;
    fraction = tt;
    ends = tt;
    short = omega arith;
    number = rw (e, split_once-digits (d ∷ ds) (omega arith, h));
  },
)
Form-of q (decimal i f hi (digits ds last hd l hl ef) e) =
    let hf : IsFraction f = digits ds last hd l hl ef in
    let short : length (map digit_of f) ≤ 16 =
      omega (arith, length-map digit_of f, ap (length {0}) ef, length-append {0} ds (last ∷ [])) in
    (
      i,
      f,
      record {
        text = e ∙ (rw ef (sym (joined_point i ds last)));
        integer = hi;
        fraction = IsFraction-digits f hf;
        ends = rw ef (ends_nonzero ds last hl);
        short = short;
        number = rw (e, split_once-point i f (IsInteger-digits i hi), length-map digit_of f);
      },
    )

units_unique : (a b : Quantity) → IsValid a → IsValid b → units a ≡ units b → a.text ≡ b.text
units_unique a b ha hb e =
    let (i, f, p) = Form-of a ha in
    let (j, g, q) = Form-of b hb in
    let df = map-IsDigits f p.fraction in
    let dg = map-IsDigits g q.fraction in
    let (whole_parts, fractions) =
      division_unique (number i) (number j) (scaled 16 (map digit_of f))
        (scaled 16 (map digit_of g)) (10 ^ 16) (sym p.number ∙ e ∙ q.number)
        (scaled_lt 16 (map digit_of f) df p.short) (scaled_lt 16 (map digit_of g) dg q.short) in
    let same_fraction : f ≡ g = digit_of_injective f g p.fraction q.fraction (
      scaled_unique 16 (map digit_of f) (map digit_of g) df dg p.ends q.ends p.short q.short
        fractions) in
    p.text
    ∙ ap (λ t. joined t f) (integer_unique i j p.integer q.integer whole_parts)
    ∙ ap (joined j) same_fraction
    ∙ sym q.text

-- Two valid quantities compare as equal exactly when they have the same text: `Ord` agrees with the
-- derived `PartialEq`.
pub cmp-eq : (a b : Quantity) → IsValid a → IsValid b → (cmp a b ≡ Ordering.eq) ↔ (a.text ≡ b.text)
cmp-eq a b ha hb = (
  λ h. units_unique a b ha hb (let c = cmp-units a b ha hb in ground arith),
  λ e.
      let same : units a ≡ units b = ap (λ (t : Text). units (record { text = t })) e in
      cmp-units a b ha hb ∙ (ground arith),
)
