-- ===== src/Protocol/Observation/Failures.antt =====
-- Each error of `Observation::validate` and `validate_at` is true of the observation.
use nautilus_agents.Base.{
  ◌≤◌, ◌<◌, ◌≡◌, refl, ◌∙◌, ◌≢◌, ◌↔◌, ◌⊎◌, inl, inr, true, ◌&&◌, not, List, [], ◌∷◌, map, arith,
  IsMember, contains, occurrences, not-IsMember, Result, ok, err, ◌>>=◌, ◌>>◌, reject_if, ◌!=◌,
  list_eq, nat_eq, Result-cases, reject_if-err,
}
use nautilus_agents.Value.Digest.{digest_eq, digest_beq_iff}
use nautilus_agents.Value.Identifier.{identifier_eq}
use nautilus_agents.Value.Timestamp.{TimestampNs}
use nautilus_agents.Protocol.Version.{is_supported, is_supported_iff, protocol_version}
use nautilus_agents.Protocol.Capability.{
  ObservationCapability, capability_eq, position_summary, instrument_summary,
}
use nautilus_agents.Protocol.Live.{PositionView}
use nautilus_agents.Protocol.Canonical.{Canonicalizer, sha256}
use nautilus_agents.Protocol.Observation.{
  ObservationError, unsupported_version, expiry_before_creation, grant_expires_before_observation,
  position_capability_missing, instrument_capability_missing, instrument_outside_grant,
  duplicate_position, duplicate_instrument, position_updated_after_creation, digest_mismatch,
  expired, canonicalization, Observation, ObservationDigest, covered, positions, instruments,
  before, is_none_left, check_positions, validate_live_payload, computed_digest, validate,
  validate_at,
}
use nautilus_agents.Protocol.Observation.Spec.{position_ids, instrument_ids, IsValid}
use nautilus_agents.Protocol.Observation.Validation.{validate-IsValid}
use nautilus_agents.Protocol.Observation.Loops.{
  PositionReports, check_positions-err, InstrumentReports, check_instruments-err,
}

-- What an error says.
abbrev pub Reports : Canonicalizer ObservationDigest → Observation → ObservationError → Type 0
Reports c o (unsupported_version v) = (v ≡ o.version) × (v ≢ protocol_version)
Reports c o expiry_before_creation = o.expires_at.nanos < o.created_at.nanos
Reports c o grant_expires_before_observation = o.grant.expires_at.nanos < o.expires_at.nanos
Reports c o position_capability_missing =
    (positions o.payload ≢ []) × (¬ IsMember position_summary o.grant.observations)
Reports c o instrument_capability_missing =
    (instruments o.payload ≢ []) × (¬ IsMember instrument_summary o.grant.observations)
Reports c o (instrument_outside_grant i) =
    (¬ IsMember i o.grant.instruments)
    × (IsMember i (map (λ (p : PositionView). p.instrument_id) (positions o.payload))
        ⊎ IsMember i (instrument_ids o))
Reports c o (duplicate_position i) = 2 ≤ occurrences i (position_ids o)
Reports c o (duplicate_instrument i) = 2 ≤ occurrences i (instrument_ids o)
Reports c o (position_updated_after_creation i) =
    (p : PositionView) × IsMember p (positions o.payload)
    × (p.position_id ≡ i)
    × (o.created_at.nanos < p.updated_at.nanos)
Reports c o (digest_mismatch expected actual) =
    (computed_digest c o ≡ ok expected) × (actual ≡ o.digest) × (expected ≢ actual)
Reports c o (expired t) = ⊥
Reports c o (canonicalization m) = sha256 c (covered o) ≡ err m

module _ (o : Observation) where
  module _ (c : Canonicalizer ObservationDigest) where
    from_positions :
        (e : ObservationError) → PositionReports o [] (positions o.payload) e → Reports c o e
    unfolding occurrences
    from_positions (instrument_outside_grant i) (n, m) = (n, inl m)
    from_positions (duplicate_position i) h = omega arith
    from_positions (position_updated_after_creation i) h = h
    from_positions _ h = absurd h

    from_instruments :
        (e : ObservationError) → InstrumentReports o [] (instrument_ids o) e → Reports c o e
    unfolding occurrences
    from_instruments (instrument_outside_grant i) (n, m) = (n, inr m)
    from_instruments (duplicate_instrument i) h = omega arith
    from_instruments _ h = absurd h

    >>-err :
        {E : Type 0} (m n : Result (Unit {0}) E) {e : E}
        → (m >> n) ≡ err e
        → (m ≡ err e) ⊎ ((m ≡ ok tt) × (n ≡ err e))
    >>-err (ok u) n h = inr (refl, h)
    >>-err (err x) n h = inl h

    missing :
        {A : Type 0} (cap : ObservationCapability) (xs : List A)
        → (not (is_none_left xs) && not (contains cap o.grant.observations)) ≡ true
        → (xs ≢ []) × (¬ IsMember cap o.grant.observations)
    missing cap [] h = cc
    missing cap (x ∷ xs) h = (λ k. cc, not-IsMember cap o.grant.observations (ground arith))

    payload-err : (e : ObservationError) → validate_live_payload o ≡ err e → Reports c o e
    unfolding validate_live_payload
    payload-err e h =
        elim (reject_if-err
          (not (is_none_left (positions o.payload))
            && not (contains position_summary o.grant.observations))
          position_capability_missing _ h) [
            | inl (b, x) ↦ rw x (missing position_summary (positions o.payload) b)
            | inr (b, h2) ↦
                elim (reject_if-err
                  (not (is_none_left (instruments o.payload))
                    && not (contains instrument_summary o.grant.observations))
                  instrument_capability_missing _ h2) [
                    | inl (b2, x) ↦ rw x (missing instrument_summary (instruments o.payload) b2)
                    | inr (b2, h3) ↦
                        elim (>>-err (check_positions o [] (positions o.payload)) _ h3) [
                          | inl p ↦
                              from_positions e (check_positions-err o [] (positions o.payload) e p)
                          | inr (q, i) ↦
                              from_instruments e
                                (check_instruments-err o [] (instruments o.payload) e i)
                        ]
                  ]
          ]

    digest-err :
        (e : ObservationError)
        → (computed_digest c o >>= λ d. reject_if (d != o.digest) (digest_mismatch d o.digest))
          ≡ err e
        → Reports c o e
    unfolding computed_digest
    digest-err e h = elim (Result-cases (sha256 c (covered o))) [
      | inl (d, p) ↦
          let x : e ≡ digest_mismatch d o.digest = ground arith in
          rw x (rw p, refl, λ q. ground (arith, digest_beq_iff d o.digest))
      | inr (m, p) ↦ let x : e ≡ canonicalization m = ground arith in rw x p
    ]

    -- An error of `validate` is true of the observation.
    pub validate-Reports : (e : ObservationError) → validate c o ≡ err e → Reports c o e
    unfolding validate
    validate-Reports e h = elim (reject_if-err (not (is_supported o.version)) _ _ h) [
      | inl (b, x) ↦ rw x (refl, λ q. ground (arith, is_supported_iff o.version))
      | inr (b, h2) ↦ elim (reject_if-err (before o.expires_at o.created_at) _ _ h2) [
        | inl (b2, x) ↦ rw x (ground arith)
        | inr (b2, h3) ↦ elim (reject_if-err (before o.grant.expires_at o.expires_at) _ _ h3) [
          | inl (b3, x) ↦ rw x (ground arith)
          | inr (b3, h4) ↦ elim (>>-err (validate_live_payload o) _ h4) [
            | inl p ↦ payload-err e p
            | inr (q, d) ↦ digest-err e d
          ]
        ]
      ]
    ]

    -- At an evaluation time an observation is accepted exactly when it is valid and the time is not
    -- past its expiry; it is reported as expired, with its expiry, exactly when it is valid and the
    -- time is past it.
    pub validate_at_iff :
        (now : TimestampNs)
        → ((validate_at c o now ≡ ok tt) ↔ (IsValid c o × (now.nanos ≤ o.expires_at.nanos)))
          × ((validate_at c o now ≡ err (expired o.expires_at))
              ↔ (IsValid c o × (o.expires_at.nanos < now.nanos)))
    unfolding validate_at
    validate_at_iff now = elim (Result-cases (validate c o)) [
      | inl (u, e) ↦
          let v = (validate-IsValid o c).0 e in
          let p : validate_at c o now ≡ reject_if (before o.expires_at now) (expired o.expires_at) =
            rw e in
          (
            (λ h. (v, ground arith), λ (w, l). p ∙ (ground arith)),
            (λ h. (v, ground arith), λ (w, l). p ∙ (ground arith)),
          )
      | inr (x, e) ↦
          let p : validate_at c o now ≡ err x = rw e in
          (
            (
              λ h. absurd (ground arith),
              λ (w, l). absurd (let k = (validate-IsValid o c).1 w in ground arith),
            ),
            (
              λ h. absurd (validate-Reports (expired o.expires_at) (ground arith)),
              λ (w, l). absurd (let k = (validate-IsValid o c).1 w in ground arith),
            ),
          )
    ]
