-- ===== src/Protocol/Observation/Tampering.antt =====
-- What the digest of an observation promises: refreshing makes it right, and two accepted
-- observations with one reference have the same content unless the hash collides.
use nautilus_agents.Base.{
  ℕ, ◌≡◌, refl, sym, ap, ◌∙◌, ◌≢◌, inl, inr, List, arith, All, ok, err, list_eq, nat_eq,
  Result-cases,
}
use nautilus_agents.Value.Digest.{ContentDigest, digest_eq, digest_beq, digest_beq_iff}
use nautilus_agents.Value.Identifier.{identifier_eq}
use nautilus_agents.Protocol.Capability.{capability_eq}
use nautilus_agents.Protocol.Canonical.{Canonicalizer, sha256}
use nautilus_agents.Protocol.Observation.{
  digest_mismatch, Observation, ObservationDigest, covered, computed_digest, validate,
  refresh_digest, reference,
}
use nautilus_agents.Value.Digest as Digest
use nautilus_agents.Value.Digest.RoundTrip.{IsByte, new_injective}
use nautilus_agents.Protocol.Observation.Failures.{validate-Reports}
use nautilus_agents.Protocol.Observation.Validation.{validate-IsValid}

module _ (c : Canonicalizer ObservationDigest) where
  -- Refreshing changes the digest alone, to the one that validation computes.
  pub refresh_digest-computed :
      (o o' : Observation)
      → refresh_digest c o ≡ ok o'
      → (covered o' ≡ covered o)
        × (computed_digest c o' ≡ ok o'.digest)
        × (computed_digest c o ≡ ok o'.digest)
  unfolding refresh_digest
  refresh_digest-computed o o' h = elim (Result-cases (computed_digest c o)) [
    | inl (d, e) ↦ let x : o' ≡ record o { digest = d } = ground arith in rw x (refl, e, e)
    | inr (m, e) ↦ absurd (ground arith)
  ]

  -- A refreshed observation is never refused for its digest.
  validate-refresh_digest :
      (o o' : Observation) (expected actual : ContentDigest)
      → refresh_digest c o ≡ ok o'
      → validate c o' ≢ err (digest_mismatch expected actual)
  validate-refresh_digest o o' expected actual h e =
      let (same, fresh, old) = refresh_digest-computed o o' h in
      let (computed, stored, differ) = validate-Reports o' c (digest_mismatch expected actual) e in
      differ (cc)

  -- The serialised content of an accepted observation, and its digest.
  accepted_bytes :
      (o : Observation)
      → validate c o ≡ ok tt
      → (raw : List ℕ) × (c.serialize (covered o) ≡ ok raw) × (Digest.new (c.digest raw) ≡ o.digest)
  unfolding sha256 computed_digest
  accepted_bytes o h =
      let d = ((validate-IsValid o c).0 h).digest in
      elim (Result-cases (c.serialize (covered o))) [
        | inl (raw, e) ↦ (raw, e, ground arith)
        | inr (m, e) ↦ absurd (ground arith)
      ]

  -- Two accepted observations with one reference: their canonical texts have the same hash.
  pub reference-digest :
      ((raw : List ℕ) → All IsByte (c.digest raw))
      → (o p : Observation) → validate c o ≡ ok tt
      → validate c p ≡ ok tt
      → reference o ≡ reference p
      → (raw other : List ℕ) × (c.serialize (covered o) ≡ ok raw)
        × (c.serialize (covered p) ≡ ok other)
        × (c.digest raw ≡ c.digest other)
  unfolding reference
  reference-digest is_bytes o p ho hp same =
      let (raw, e, d) = accepted_bytes o ho in
      let (other, f, g) = accepted_bytes p hp in
      let digests : o.digest ≡ p.digest = cc in
      let texts : (Digest.new (c.digest raw)).text ≡ (Digest.new (c.digest other)).text =
        ap (λ (x : ContentDigest). x.text) (d ∙ digests ∙ sym g) in
      (
        raw,
        other,
        e,
        f,
        new_injective (c.digest raw) (c.digest other) (is_bytes raw) (is_bytes other) texts,
      )
