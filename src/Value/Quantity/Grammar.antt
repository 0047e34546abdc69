-- ===== src/Value/Quantity/Grammar.antt =====
-- The texts that `Quantity::parse` accepts are those of the pattern in its published schema.
use nautilus_agents.Base.{
  ℕ, ◌≤◌, ◌≡◌, refl, ap, ◌↔◌, inl, inr, Bool, false, ◌&&◌, [], ◌∷◌, ◌++◌, arith, ltb, eqb, length,
  all, All, All-append, length-append, none, some, ok, list_eq, nat_eq, list_beq, Bool-cases,
}
use nautilus_agents.Text.{
  Text, bytes, len, is_empty, starts_with, ends_with, split_once, IsAsciiDigit, IsAscii-digits,
  bytes_ascii,
}
use nautilus_agents.Value.Quantity.{
  is_zero_digit, integer_and_fraction, validate_fraction, validate_parts, validate_quantity, parse,
}
use nautilus_agents.Value.Quantity.Pattern.{
  IsNonzeroDigit, IsInteger, naught, positive, IsFraction, digits, MatchesPattern, whole, decimal,
  split_once-digits, split_once-point, IsDecimal, no_point, point, decimal_by_parts,
  accepted-IsDecimal,
}

-- A text of digits whose last is not zero.
fraction_split :
    (f : Text)
    → All IsAsciiDigit f
    → is_empty f ≡ false
    → ends_with is_zero_digit f ≡ false
    → (ds : Text) × (last : ℕ) × All IsAsciiDigit ds × IsNonzeroDigit last × (f ≡ ds ++ last ∷ [])
unfolding ends_with
fraction_split [] h n e = cc
fraction_split (d ∷ []) (p, h) n e = ([], d, tt, ground arith, refl)
fraction_split (d ∷ c ∷ f) (p, h) n e =
    let (ds, last, hd, hl, eq) = fraction_split (c ∷ f) h refl e in
    (d ∷ ds, last, (p, hd), hl, ap (λ s. d ∷ s) eq)

ends_with-append : (p : ℕ → Bool) (ds : Text) (c : ℕ) → ends_with p (ds ++ c ∷ []) ≡ p c
unfolding ends_with
ends_with-append p [] c = refl
ends_with-append p (d ∷ []) c = refl
ends_with-append p (d ∷ e ∷ ds) c = ends_with-append p (e ∷ ds) c

all_zero-append : (ds : Text) (c : ℕ) → IsNonzeroDigit c → all is_zero_digit (ds ++ c ∷ []) ≡ false
all_zero-append [] c h = ground arith
all_zero-append (d ∷ ds) c h = ground (arith, all_zero-append ds c h)

is_empty-append : (ds : Text) (c : ℕ) → is_empty (ds ++ c ∷ []) ≡ false
is_empty-append [] c = refl
is_empty-append (d ∷ ds) c = refl

pub IsFraction-digits : (f : Text) → IsFraction f → All IsAsciiDigit f
IsFraction-digits f (digits ds last hd l hl e) =
    rw e (All-append IsAsciiDigit ds (last ∷ []) hd (omega arith))

pub IsInteger-digits : (i : Text) → IsInteger i → All IsAsciiDigit i
IsInteger-digits i (naught e) = rw e (omega arith)
IsInteger-digits i (positive d ds hd h e) = rw e (omega arith, h)

pub digits_bytes : (t : Text) → All IsAsciiDigit t → bytes t ≡ t
digits_bytes t h = bytes_ascii t (IsAscii-digits t h)

-- The fraction's tests accept the pattern's fractions.
fraction_accepts : (f : Text) → IsFraction f → validate_fraction (some f) ≡ ok tt
unfolding validate_fraction
fraction_accepts f (digits ds last hd l hl e) =
    rw (digits_bytes f (IsFraction-digits f (digits ds last hd l hl e)), e)
      (ground (
        arith,
        is_empty-append ds last,
        ends_with-append is_zero_digit ds last,
        length-append {0} ds (last ∷ []),
      ))

IsFraction-accepted :
    (f : Text) → All IsAsciiDigit f → validate_fraction (some f) ≡ ok tt → IsFraction f
unfolding validate_fraction
IsFraction-accepted f h v =
    let (ds, last, hd, hl, e) = fraction_split f h (ground arith) (ground arith) in
    let short : length f ≤ 16 = rw (digits_bytes f h) at (let b : len f ≤ 16 = ground arith in b) in
    digits ds last hd (omega (arith, ap (length {0}) e, length-append {0} ds (last ∷ []))) hl e

all_zero_fraction : (f : Text) → IsFraction f → all is_zero_digit (bytes f) ≡ false
all_zero_fraction f (digits ds last hd l hl e) =
    rw (digits_bytes f (IsFraction-digits f (digits ds last hd l hl e)), e)
      (all_zero-append ds last hl)

whole_accepts : (d : ℕ) (ds : Text) → IsNonzeroDigit d → validate_parts (d ∷ ds, none) ≡ ok tt
unfolding validate_parts list_beq
whole_accepts d ds hd = ground arith

parts_accept : (i f : Text) → IsInteger i → IsFraction f → validate_parts (i, some f) ≡ ok tt
unfolding validate_parts list_beq bytes
parts_accept i f (naught e) hf = rw e (rw (fraction_accepts f hf, all_zero_fraction f hf) refl)
parts_accept i f (positive d ds hd h e) hf =
    rw e (rw (fraction_accepts f hf, all_zero_fraction f hf) (ground arith))

IsInteger-accepted :
    (i : Text)
    → All IsAsciiDigit i
    → is_empty i ≡ false
    → (ltb 1 (len i) && starts_with is_zero_digit i) ≡ false
    → IsInteger i
IsInteger-accepted [] h n z = cc
IsInteger-accepted (d ∷ []) (p, h) n z = elim (Bool-cases (eqb d b'0')) [
  | inl e ↦ naught (ground arith)
  | inr e ↦ positive d [] (ground arith) tt refl
]
IsInteger-accepted (d ∷ c ∷ i) (p, h) n z =
    let several : (ltb 1 (length (d ∷ c ∷ i)) && is_zero_digit d) ≡ false =
      rw (digits_bytes (d ∷ c ∷ i) (p, h)) at z in
    positive d (c ∷ i) (ground arith) h refl

point_accepted :
    (i f : Text)
    → All IsAsciiDigit i
    → All IsAsciiDigit f
    → validate_parts (i, some f) ≡ ok tt
    → IsInteger i × IsFraction f
unfolding validate_parts
point_accepted i f hi hf v =
    (IsInteger-accepted i hi (ground arith) (ground arith), IsFraction-accepted f hf (ground arith))

whole_accepted :
    (i : Text) → All IsAsciiDigit i → validate_parts (i, none) ≡ ok tt → MatchesPattern i
unfolding validate_parts list_beq
whole_accepted i hi v = elim (IsInteger-accepted i hi (ground arith) (ground arith)) [
  | naught e ↦ absurd (ground arith)
  | positive d ds hd h e ↦ whole d ds hd h e
]

IsInteger-nonempty : ¬ IsInteger []
IsInteger-nonempty (naught e) = cc
IsInteger-nonempty (positive d ds hd h e) = cc

accepted_matches :
    (t : Text)
    → IsDecimal t
    → validate_parts (integer_and_fraction t (split_once b'.' t)) ≡ ok tt
    → MatchesPattern t
accepted_matches t (no_point h) v = whole_accepted t h (rw (split_once-digits t h) at v)
accepted_matches t (point i f hi hf e) v =
    let w : validate_parts (i, some f) ≡ ok tt = rw (e, split_once-point i f hi) at v in
    let (a, b) = point_accepted i f hi hf w in decimal i f a b e

pub validate_matches : (t : Text) → validate_quantity t ≡ ok tt → MatchesPattern t
validate_matches t h = let (d, v) = accepted-IsDecimal t h in accepted_matches t d v

pub matches_validate : (t : Text) → MatchesPattern t → validate_quantity t ≡ ok tt
matches_validate t (whole d ds hd h e) =
    let digits : All IsAsciiDigit (d ∷ ds) = (omega arith, h) in
    rw (e, decimal_by_parts d ds (no_point digits), split_once-digits (d ∷ ds) digits)
      (whole_accepts d ds hd)
matches_validate t (decimal [] f hi hf e) = absurd (IsInteger-nonempty hi)
matches_validate t (decimal (c ∷ i) f hi hf e) =
    let di : All IsAsciiDigit (c ∷ i) = IsInteger-digits (c ∷ i) hi in
    rw
      (
        e,
        decimal_by_parts c (i ++ b'.' ∷ f) (point (c ∷ i) f di (IsFraction-digits f hf) refl),
        split_once-point (c ∷ i) f di,
      )
      (parts_accept (c ∷ i) f hi hf)

-- `Quantity::parse` accepts a text, and then keeps it as it is, exactly when the text matches the
-- pattern of the published schema.
pub parse-MatchesPattern : (t : Text) → (parse t ≡ ok (record { text = t })) ↔ MatchesPattern t
unfolding parse
parse-MatchesPattern t = (λ h. validate_matches t (ground arith), λ m. rw (matches_validate t m))
