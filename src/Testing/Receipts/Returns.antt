-- ===== src/Testing/Receipts/Returns.antt =====
-- The fixture of a receipt, and the texts of its identities.
use nautilus_agents.Base.{
  ℕ, suc, zero, ◌+◌, ◌-◌, ◌/◌, ◌%◌, ◌^◌, ◌≤◌, ◌<◌, ◌≡◌, refl, ap, ◌∙◌, true, List, [], ◌∷◌, ◌++◌,
  length, length-append, length-replicate, replicate, all, Option, some, ok, list_eq, nat_eq, arith,
}
use native.Mathlib.Nat.{pow-suc}
use nautilus_agents.Text.{Text, codes}
use nautilus_agents.Value.Digest.{is_hex_byte}
use nautilus_agents.Value.Timestamp.{u64_end, u64_digits, new, emit}
use nautilus_agents.Protocol.Version.{protocol_version}
use nautilus_agents.Protocol.Errors.{DecisionError}
use nautilus_agents.Protocol.Identity.{IdentityKind, UuidCrate}
use nautilus_agents.Protocol.Canonical.{Canonicalizer}
use nautilus_agents.Protocol.Observation.{Observation, ObservationDigest, reference}
use nautilus_agents.Protocol.Reference.{ObservationRef}
use nautilus_agents.Protocol.Receipt.{DecisionStatus, DecisionReceipt}
use nautilus_agents.Protocol.Receipt.Consistency.{
  Allows, IsConsistent, code_of, validate-IsConsistent,
}
use nautilus_agents.Testing.{valid_observation}
use nautilus_agents.Testing.Fixtures.{fixtures-IsValid}
use nautilus_agents.Testing.Receipts.{padded, add, validated, receipt_of}
use nautilus_agents.Testing.Uuids.{IsGroup, ReadsUuids, parse_fixture}

length-emit :
    (fuel k n : ℕ) (out : Text) → n < 10 ^ k → 1 ≤ k → length (emit fuel n out) ≤ k + length out
unfolding emit
length-emit zero k n out h p = omega arith
length-emit (suc fuel) zero n out h p = absurd (omega arith)
length-emit (suc fuel) (suc zero) n out h p = ground arith
length-emit (suc fuel) (suc (suc k)) n out h p =
    let rest =
      length-emit fuel (suc k) (n / 10) ((b'0' + n % 10) ∷ out) (omega (arith, pow-suc 10 (suc k)))
        (omega arith) in
    ground arith

emit_hex :
    (fuel n : ℕ) (out : Text)
    → all is_hex_byte out ≡ true
    → all is_hex_byte (emit fuel n out) ≡ true
unfolding emit
emit_hex zero n out h = h
emit_hex (suc fuel) n out h =
    let here : all is_hex_byte ((b'0' + n % 10) ∷ out) ≡ true = ground arith in
    let rest = emit_hex fuel (n / 10) ((b'0' + n % 10) ∷ out) here in ground arith

zeros_hex :
    (n : ℕ) (t : Text) → all is_hex_byte t ≡ true → all is_hex_byte (replicate n b'0' ++ t) ≡ true
zeros_hex zero t h = h
zeros_hex (suc n) t h = zeros_hex n t h

pub padded-IsGroup : (n : ℕ) → n < 10 ^ 12 → IsGroup 12 (padded n)
unfolding padded
padded-IsGroup n h =
    let digits = emit u64_digits n [] in
    let short = length-emit u64_digits 12 n [] h (omega arith) in
    (
      length-append (replicate (12 - length digits) b'0') digits
          ∙ ap (λ m. m + length digits) (length-replicate (12 - length digits) b'0')
          ∙ omega arith,
      zeros_hex (12 - length digits) digits (emit_hex u64_digits n [] refl),
    )

module _ (u : UuidCrate) (reads : ReadsUuids u) where
  add_small : (a b : ℕ) → a + b < u64_end → add a b ≡ ok (a + b)
  unfolding add
  add_small a b h = ground arith

  validated_ok : (r : DecisionReceipt) → IsConsistent r → validated r ≡ ok r
  unfolding validated
  validated_ok r h = rw ((validate-IsConsistent r).1 h) refl

  module _ (c : Canonicalizer ObservationDigest)
      (total : (v : ObservationDigest) → (raw : List ℕ) × (c.serialize v ≡ ok raw)) where
    expected : ObservationRef → DecisionStatus → Option DecisionError → ℕ → DecisionReceipt
    expected o status error offset = record {
      version = protocol_version;
      request_id = record { text = codes "20000000-0000-4000-8000-000000000021" };
      observation = o;
      intent_id = record { text = codes "40000000-0000-4000-8000-" ++ padded offset };
      status = status;
      error = error;
      correlation = record {
        engine_correlation_id =
            some (record { text = codes "50000000-0000-4000-8000-" ++ padded offset });
        engine_causation_id =
            some (record { text = codes "60000000-0000-4000-8000-" ++ padded offset });
      };
      created_at = new (1_712_400_001_000_000_707 + offset);
      updated_at = new (1_712_400_002_000_000_808 + offset);
    }

    expected-IsConsistent :
        (o : ObservationRef) (status : DecisionStatus) (error : Option DecisionError) (offset : ℕ)
        → Allows status (code_of error)
        → IsConsistent (expected o status error offset)
    unfolding expected new
    expected-IsConsistent o status error offset allows = record {
      supported = refl;
      ordered = omega arith;
      allowed = allows;
    }

    -- For an offset of at most twelve digits, and an error that the status allows, no `expect` of the
    -- receipt fixture panics: it is a consistent receipt of this status and error, on the valid
    -- observation.
    pub receipt_of-returns :
        (status : DecisionStatus) (error : Option DecisionError) (offset : ℕ)
        → Allows status (code_of error)
        → offset < 10 ^ 12
        → (r : DecisionReceipt) × (valid : Observation) × (receipt_of u c status error offset
            ≡ ok r)
          × IsConsistent r
          × (r.status ≡ status)
          × (r.error ≡ error)
          × (valid_observation u c ≡ ok valid)
          × (r.observation ≡ reference valid)
    unfolding receipt_of expected
    receipt_of-returns status error offset allows small =
        let (valid, redacted, e, v, e', v', none_left) = fixtures-IsValid c total u reads in
        let last = padded-IsGroup offset small in
        let request =
          parse_fixture u reads {k = IdentityKind.request} (codes "20000000") (codes "000000000021")
            (refl, refl) (refl, refl) in
        let intent =
          parse_fixture u reads {k = IdentityKind.intent} (codes "40000000") (padded offset)
            (refl, refl) last in
        let engine =
          parse_fixture u reads {k = IdentityKind.correlation} (codes "50000000") (padded offset)
            (refl, refl) last in
        let cause =
          parse_fixture u reads {k = IdentityKind.correlation} (codes "60000000") (padded offset)
            (refl, refl) last in
        let created = add_small 1_712_400_001_000_000_707 offset (omega arith) in
        let updated = add_small 1_712_400_002_000_000_808 offset (omega arith) in
        let consistent = expected-IsConsistent (reference valid) status error offset allows in
        (
          expected (reference valid) status error offset,
          valid,
          rw (request, e, intent, engine, cause, created, updated)
              (validated_ok (expected (reference valid) status error offset) consistent),
          consistent,
          refl,
          refl,
          e,
          refl,
        )
