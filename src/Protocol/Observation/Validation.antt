-- ===== src/Protocol/Observation/Validation.antt =====
-- `Observation::validate` accepts exactly the observations of the specification.
use nautilus_agents.Base.{
  ◌≡◌, refl, ◌↔◌, ◌⊎◌, inl, inr, false, ◌&&◌, not, List, [], ◌∷◌, map, arith, All, IsMember,
  IsDistinct, contains, insert, contains_iff, NewIds, NewIds-IsDistinct, ok, ◌>>=◌, reject_if, ◌!=◌,
  list_eq, nat_eq, Result-cases,
}
use nautilus_agents.Value.Digest.{digest_eq, digest_beq_iff}
use nautilus_agents.Value.Identifier.{InstrumentId, PositionId, identifier_eq}
use nautilus_agents.Protocol.Version.{is_supported_iff}
use nautilus_agents.Protocol.Capability.{
  ObservationCapability, capability_eq, position_summary, instrument_summary,
}
use nautilus_agents.Protocol.Live.{PositionView, InstrumentView}
use nautilus_agents.Protocol.Canonical.{Canonicalizer}
use nautilus_agents.Protocol.Observation.{
  digest_mismatch, Observation, ObservationDigest, positions, instruments, before, is_none_left,
  check_positions, check_instruments, validate_live_payload, computed_digest, validate,
}
use nautilus_agents.Protocol.Observation.Spec.{position_ids, instrument_ids, IsScoped, IsValid}

module _ (o : Observation) where
  check_positions_iff :
      (seen : List PositionId) (ps : List PositionView)
      → (check_positions o seen ps ≡ ok tt)
        ↔ (All (IsScoped o) ps × NewIds seen (map (λ (p : PositionView). p.position_id) ps))
  unfolding check_positions insert
  check_positions_iff seen [] = (λ _. (tt, tt), λ _. refl)
  check_positions_iff seen (p ∷ ps) = (
    λ h.
        let (s, n) = (check_positions_iff (p.position_id ∷ seen) ps).0 (ground arith) in
        (
          (
            record {
              granted = (contains_iff p.instrument_id o.grant.instruments).0 (ground arith);
              past = ground arith;
            },
            s,
          ),
          (ground arith, n),
        ),
    λ ((g, s), (f, n)).
        let rest = (check_positions_iff (p.position_id ∷ seen) ps).1 (s, n) in
        let inside = (contains_iff p.instrument_id o.grant.instruments).1 g.granted in ground arith,
  )

  check_instruments_iff :
      (seen : List InstrumentId) (is : List InstrumentView)
      → (check_instruments o seen is ≡ ok tt) ↔ (
          All
            (λ i. IsMember i o.grant.instruments)
            (map (λ (i : InstrumentView). i.instrument_id) is)
          × NewIds seen (map (λ (i : InstrumentView). i.instrument_id) is))
  unfolding check_instruments insert
  check_instruments_iff seen [] = (λ _. (tt, tt), λ _. refl)
  check_instruments_iff seen (i ∷ is) = (
    λ h.
        let (s, n) = (check_instruments_iff (i.instrument_id ∷ seen) is).0 (ground arith) in
        (
          ((contains_iff i.instrument_id o.grant.instruments).0 (ground arith), s),
          (ground arith, n),
        ),
    λ ((g, s), (f, n)).
        let rest = (check_instruments_iff (i.instrument_id ∷ seen) is).1 (s, n) in
        let inside = (contains_iff i.instrument_id o.grant.instruments).1 g in ground arith,
  )

  -- Views are there only with their capability.
  capability_iff :
      {A : Type 0} (cap : ObservationCapability) (xs : List A)
      → ((not (is_none_left xs) && not (contains cap o.grant.observations)) ≡ false)
        ↔ ((xs ≡ []) ⊎ IsMember cap o.grant.observations)
  capability_iff cap [] = (λ h. inl refl, λ h. refl)
  capability_iff cap (x ∷ xs) = (
    λ h. inr ((contains_iff cap o.grant.observations).0 (ground arith)),
    λ h. elim h [
      | inl e ↦ cc
      | inr m ↦ let i = (contains_iff cap o.grant.observations).1 m in ground arith
    ],
  )

  -- The payload's part of the specification.
  pub record PayloadIsValid : Type 0 where
    pub position_capability :
        (positions o.payload ≡ []) ⊎ IsMember position_summary o.grant.observations
    pub instrument_capability :
        (instruments o.payload ≡ []) ⊎ IsMember instrument_summary o.grant.observations
    pub scoped_positions : All (IsScoped o) (positions o.payload)
    pub distinct_positions : IsDistinct (position_ids o)
    pub scoped_instruments : All (λ i. IsMember i o.grant.instruments) (instrument_ids o)
    pub distinct_instruments : IsDistinct (instrument_ids o)

  pub validate_live_payload_iff : (validate_live_payload o ≡ ok tt) ↔ PayloadIsValid
  unfolding validate_live_payload
  validate_live_payload_iff = (
    λ h.
        let (sp, np) = (check_positions_iff [] (positions o.payload)).0 (ground arith) in
        let (si, ni) = (check_instruments_iff [] (instruments o.payload)).0 (ground arith) in
        record {
          position_capability =
              (capability_iff position_summary (positions o.payload)).0 (ground arith);
          instrument_capability =
              (capability_iff instrument_summary (instruments o.payload)).0 (ground arith);
          scoped_positions = sp;
          distinct_positions = (NewIds-IsDistinct (position_ids o)).0 np;
          scoped_instruments = si;
          distinct_instruments = (NewIds-IsDistinct (instrument_ids o)).0 ni;
        },
    λ v.
        let a = (capability_iff position_summary (positions o.payload)).1 v.position_capability in
        let b =
          (capability_iff instrument_summary (instruments o.payload)).1 v.instrument_capability in
        let p =
          (check_positions_iff [] (positions o.payload)).1
            (v.scoped_positions, (NewIds-IsDistinct (position_ids o)).1 v.distinct_positions) in
        let i =
          (check_instruments_iff [] (instruments o.payload)).1 (
            v.scoped_instruments,
            (NewIds-IsDistinct (instrument_ids o)).1 v.distinct_instruments,
          ) in
        rw (a, b, p, i),
  )

  module _ (c : Canonicalizer ObservationDigest) where
    -- The digest check passes on the stored digest alone.
    accepted_digest : validate c o ≡ ok tt → computed_digest c o ≡ ok o.digest
    unfolding validate
    accepted_digest h = elim (Result-cases (computed_digest c o)) [
      | inl (d, e) ↦ ground (arith, digest_beq_iff d o.digest)
      | inr (x, e) ↦ absurd (ground arith)
    ]

    digest_accepted :
        computed_digest c o ≡ ok o.digest
        → (computed_digest c o >>= λ d. reject_if (d != o.digest) (digest_mismatch d o.digest))
          ≡ ok tt
    digest_accepted e = rw e (ground (arith, digest_beq_iff o.digest o.digest))

    -- An observation is accepted exactly when it is valid.
    pub validate-IsValid : (validate c o ≡ ok tt) ↔ IsValid c o
    unfolding validate
    validate-IsValid = (
      λ h.
          let p : PayloadIsValid = validate_live_payload_iff.0 (ground arith) in
          record {
            supported = (is_supported_iff o.version).0 (ground arith);
            lifetime = ground arith;
            grant_lifetime = ground arith;
            position_capability = p.position_capability;
            instrument_capability = p.instrument_capability;
            scoped_positions = p.scoped_positions;
            distinct_positions = p.distinct_positions;
            scoped_instruments = p.scoped_instruments;
            distinct_instruments = p.distinct_instruments;
            digest = accepted_digest h;
          },
      λ v.
          let p : validate_live_payload o ≡ ok tt = validate_live_payload_iff.1 (record {
            position_capability = v.position_capability;
            instrument_capability = v.instrument_capability;
            scoped_positions = v.scoped_positions;
            distinct_positions = v.distinct_positions;
            scoped_instruments = v.scoped_instruments;
            distinct_instruments = v.distinct_instruments;
          }) in
          let s = (is_supported_iff o.version).1 v.supported in
          let d = digest_accepted v.digest in
          let t : before o.expires_at o.created_at ≡ false = ground arith in
          let g : before o.grant.expires_at o.expires_at ≡ false = ground arith in
          rw (s, t, g, p) d,
    )
