-- ===== src/Testing/Fixtures.antt =====
-- `ObservationBuilder::build`, and the fixtures of observations.
use nautilus_agents.Base.{
  ℕ, ◌≡◌, refl, sym, ap, ◌∙◌, inl, inr, List, [], arith, Result, ok, ◌>>=◌, ◌>>◌, list_eq, nat_eq,
  Result-cases,
}
use nautilus_agents.Value.Digest.{ContentDigest, digest_eq, digest_beq, digest_beq_iff}
use nautilus_agents.Value.Identifier.{identifier_eq}
use nautilus_agents.Protocol.Capability.{capability_eq}
use nautilus_agents.Protocol.Canonical.{Canonicalizer, sha256, sha256_bytes, to_vec}
use nautilus_agents.Protocol.Observation.{
  ObservationError, Observation, ObservationDigest, covered, positions, computed_digest, validate,
  refresh_digest,
}
use nautilus_agents.Value.Digest as Digest
use nautilus_agents.Protocol.Observation.Spec.{IsValid}
use nautilus_agents.Protocol.Observation.Validation.{validate-IsValid}
use nautilus_agents.Protocol.Observation.Tampering.{refresh_digest-computed}
use nautilus_agents.Protocol.Identity.{UuidCrate}
use nautilus_agents.Testing.{
  ObservationBuilder, new, build, valid_observation, redacted_observation,
}
use nautilus_agents.Testing.Uuids.{ReadsUuids}
use nautilus_agents.Testing.Base.{base, base_observation_ok, redacted_of, redact_ok}

module _ (c : Canonicalizer ObservationDigest) where
  -- Behind a refresh and a validation.
  checked : Observation → Result Observation ObservationError
  checked o = do o' ← refresh_digest c o; validate c o'; ok o'

  checked-IsValid : (b o : Observation) → checked b ≡ ok o → IsValid c o × (covered o ≡ covered b)
  unfolding checked
  checked-IsValid b o h = elim (Result-cases (refresh_digest c b)) [
    | inr (x, e) ↦ absurd (ground arith)
    | inl (o', e) ↦ elim (Result-cases (validate c o')) [
      | inr (x, k) ↦ absurd (ground arith)
      | inl (u, k) ↦
          let same : o' ≡ o = ground arith in
          let accepted : validate c o ≡ ok tt = ap (validate c) (sym same) ∙ k in
          let refreshed : refresh_digest c b ≡ ok o = e ∙ ap ok same in
          ((validate-IsValid o c).0 accepted, (refresh_digest-computed c b o refreshed).0)
    ]
  ]

  -- What the builder returns is valid, and has every field but the digest as it was set.
  pub build-IsValid :
      (b : ObservationBuilder) (o : Observation)
      → build c b ≡ ok o
      → IsValid c o × (covered o ≡ covered b.observation)
  unfolding build checked
  build-IsValid b o h = checked-IsValid b.observation o h

  module _ (total : (v : ObservationDigest) → (raw : List ℕ) × (c.serialize v ≡ ok raw)) where
    -- The digest that a refresh gives.
    fresh : Observation → ContentDigest
    fresh o = Digest.new (c.digest (total (covered o)).0)

    computed_fresh : (o : Observation) → computed_digest c o ≡ ok (fresh o)
    unfolding computed_digest sha256 sha256_bytes to_vec fresh
    computed_fresh o = rw (total (covered o)).1 refl

    refreshed : Observation → Observation
    refreshed o = record o { digest = fresh o }

    refresh_fresh : (o : Observation) → refresh_digest c o ≡ ok (refreshed o)
    unfolding refresh_digest refreshed
    refresh_fresh o = rw (computed_fresh o) refl

    digest_fits : (o : Observation) → computed_digest c (refreshed o) ≡ ok (refreshed o).digest
    unfolding refreshed computed_digest
    digest_fits o = computed_fresh o

    checked_fresh : (b : Observation) → IsValid c (refreshed b) → checked b ≡ ok (refreshed b)
    unfolding checked
    checked_fresh b v = rw (refresh_fresh b, (validate-IsValid (refreshed b) c).1 v) refl

    base-IsValid : IsValid c (refreshed base)
    unfolding refreshed
    base-IsValid = record {
      supported = refl;
      lifetime = omega arith;
      grant_lifetime = omega arith;
      position_capability = inr (inl refl);
      instrument_capability = inr (inr (inl refl));
      scoped_positions = (record { granted = inl refl; past = omega arith }, tt);
      distinct_positions = (λ h. h, tt);
      scoped_instruments = (inl refl, tt);
      distinct_instruments = (λ h. h, tt);
      digest = digest_fits base;
    }

    without_positions : Observation
    without_positions = redacted_of (refreshed base)

    redacted-IsValid : IsValid c (refreshed without_positions)
    unfolding refreshed without_positions
    redacted-IsValid = record {
      supported = refl;
      lifetime = omega arith;
      grant_lifetime = omega arith;
      position_capability = inl refl;
      instrument_capability = inr (inr (inl refl));
      scoped_positions = tt;
      distinct_positions = tt;
      scoped_instruments = (inl refl, tt);
      distinct_instruments = (λ h. h, tt);
      digest = digest_fits without_positions;
    }

    module _ (u : UuidCrate) (reads : ReadsUuids u) where
      valid_fresh : valid_observation u c ≡ ok (refreshed base)
      unfolding valid_observation build new checked
      valid_fresh = rw (base_observation_ok u reads, checked_fresh base base-IsValid) refl

      -- The valid fixture has the fields of the base one.
      pub valid-base :
          (valid : Observation) → valid_observation u c ≡ ok valid → covered valid ≡ covered base
      unfolding refreshed
      valid-base valid h = let same : valid ≡ refreshed base = cc (valid_fresh) in ap covered same

      redacted_fresh : redacted_observation u c ≡ ok (refreshed without_positions)
      unfolding redacted_observation without_positions
      redacted_fresh =
          rw
            (
              valid_fresh,
              redact_ok u reads (refreshed base),
              refresh_fresh without_positions,
              (validate-IsValid (refreshed without_positions) c).1 redacted-IsValid,
            )
            refl

      -- Where the uuid crate reads and prints back every text of the UUID pattern and every value has a
      -- serialization, no `expect` of the two fixtures panics, and they are valid observations; the
      -- redacted one lists no position.
      pub fixtures-IsValid :
          (valid : Observation) × (redacted : Observation) × (valid_observation u c ≡ ok valid)
          × IsValid c valid
          × (redacted_observation u c ≡ ok redacted)
          × IsValid c redacted
          × (positions redacted.payload ≡ [])
      unfolding refreshed without_positions
      fixtures-IsValid = (
        refreshed base,
        refreshed without_positions,
        valid_fresh,
        base-IsValid,
        redacted_fresh,
        redacted-IsValid,
        refl,
      )
