-- ===== src/Protocol/Observation.antt =====
-- src/protocol/observation.rs: observations and their validation.
pub mod Spec
pub mod Validation
pub mod Loops
pub mod Failures
pub mod Tampering
use nautilus_agents.Base.{
  Bool, true, false, ◌&&◌, not, List, [], ◌∷◌, ltb, contains, insert, Option, Result, ok, ◌>>=◌,
  ◌>>◌, reject_if, map_err, ◌!=◌, list_eq, nat_eq,
}
use nautilus_agents.Text.{Text}
use nautilus_agents.Value.Digest.{ContentDigest, digest_eq}
use nautilus_agents.Value.FieldPath.{FieldPath}
use nautilus_agents.Value.Identifier.{InstrumentId, PositionId, identifier_eq}
use nautilus_agents.Value.Timestamp.{TimestampNs}
use nautilus_agents.Protocol.Identity.{ObservationId}
use nautilus_agents.Protocol.Version.{ProtocolVersion, is_supported}
use nautilus_agents.Protocol.Capability.{
  CapabilityGrant, capability_eq, position_summary, instrument_summary,
}
use nautilus_agents.Protocol.Reference.{ObservationRef}
use nautilus_agents.Protocol.Live.{LiveObservation, PositionView, InstrumentView}
use nautilus_agents.Protocol.Canonical.{Canonicalizer, sha256}

pub data ObservationError : Type 0 where
  unsupported_version : ProtocolVersion → ObservationError
  expiry_before_creation grant_expires_before_observation : ObservationError
  position_capability_missing instrument_capability_missing : ObservationError
  instrument_outside_grant : InstrumentId → ObservationError
  duplicate_position : PositionId → ObservationError
  duplicate_instrument : InstrumentId → ObservationError
  position_updated_after_creation : PositionId → ObservationError
  digest_mismatch : ContentDigest → ContentDigest → ObservationError
  expired : TimestampNs → ObservationError
  canonicalization : Text → ObservationError

pub data ProvenanceSource : Type 0 where
  position_state instrument_definition : ProvenanceSource

pub record SourceProvenance : Type 0 where
  pub field : FieldPath
  pub source : ProvenanceSource
  pub observed_at : TimestampNs
  pub version : Option Text

pub data OmissionReason : Type 0 where
  not_granted unavailable redacted unsupported : OmissionReason

pub record FieldOmission : Type 0 where
  pub field : FieldPath
  pub reason : OmissionReason

pub data RetentionClass : Type 0 where
  reference_only derived restricted : RetentionClass

pub data ObservationPayload : Type 0 where
  live : LiveObservation → ObservationPayload

pub record Observation : Type 0 where
  pub version : ProtocolVersion
  pub id : ObservationId
  pub created_at : TimestampNs
  pub expires_at : TimestampNs
  pub grant : CapabilityGrant
  pub provenance : List SourceProvenance
  pub omissions : List FieldOmission
  pub retention : RetentionClass
  pub payload : ObservationPayload
  pub digest : ContentDigest

-- What the digest covers: every other field.
pub record ObservationDigest : Type 0 where
  pub version : ProtocolVersion
  pub id : ObservationId
  pub created_at : TimestampNs
  pub expires_at : TimestampNs
  pub grant : CapabilityGrant
  pub provenance : List SourceProvenance
  pub omissions : List FieldOmission
  pub retention : RetentionClass
  pub payload : ObservationPayload

-- The value that `computed_digest` serialises.
abbrev pub covered : Observation → ObservationDigest
covered o = record {
  version = o.version;
  id = o.id;
  created_at = o.created_at;
  expires_at = o.expires_at;
  grant = o.grant;
  provenance = o.provenance;
  omissions = o.omissions;
  retention = o.retention;
  payload = o.payload;
}

abbrev pub positions : ObservationPayload → List PositionView
positions (live l) = l.positions

abbrev pub instruments : ObservationPayload → List InstrumentView
instruments (live l) = l.instruments

-- `PartialOrd` of the timestamps
abbrev pub before : TimestampNs → TimestampNs → Bool
before a b = ltb a.nanos b.nanos

abbrev pub is_none_left {ℓ} : {A : Type ℓ} → List A → Bool
is_none_left [] = true
is_none_left (x ∷ xs) = false

-- The loop over the positions, with the identities seen so far.
unfoldable pub check_positions :
    Observation → List PositionId → List PositionView → Result (Unit {0}) ObservationError
check_positions o seen [] = ok tt
check_positions o seen (p ∷ ps) = do
  reject_if (not (contains p.instrument_id o.grant.instruments))
      (instrument_outside_grant p.instrument_id)
  let (seen', fresh) = insert p.position_id seen
  reject_if (not fresh) (duplicate_position p.position_id)
  reject_if (before o.created_at p.updated_at) (position_updated_after_creation p.position_id)
  check_positions o seen' ps

-- The loop over the instruments.
unfoldable pub check_instruments :
    Observation → List InstrumentId → List InstrumentView → Result (Unit {0}) ObservationError
check_instruments o seen [] = ok tt
check_instruments o seen (i ∷ is) = do
  reject_if (not (contains i.instrument_id o.grant.instruments))
      (instrument_outside_grant i.instrument_id)
  let (seen', fresh) = insert i.instrument_id seen
  reject_if (not fresh) (duplicate_instrument i.instrument_id)
  check_instruments o seen' is

unfoldable pub validate_live_payload : Observation → Result (Unit {0}) ObservationError
unfolding check_positions check_instruments
validate_live_payload o = do
  reject_if
      (not (is_none_left (positions o.payload))
        && not (contains position_summary o.grant.observations))
      position_capability_missing
  reject_if
      (not (is_none_left (instruments o.payload))
        && not (contains instrument_summary o.grant.observations))
      instrument_capability_missing
  check_positions o [] (positions o.payload)
  check_instruments o [] (instruments o.payload)

module _ (c : Canonicalizer ObservationDigest) where
  unfoldable pub computed_digest : Observation → Result ContentDigest ObservationError
  computed_digest o = map_err canonicalization (sha256 c (covered o))

  unfoldable pub validate : Observation → Result (Unit {0}) ObservationError
  unfolding computed_digest validate_live_payload
  validate o = do
    reject_if (not (is_supported o.version)) (unsupported_version o.version)
    reject_if (before o.expires_at o.created_at) expiry_before_creation
    reject_if (before o.grant.expires_at o.expires_at) grant_expires_before_observation
    validate_live_payload o
    expected ← computed_digest o
    reject_if (expected != o.digest) (digest_mismatch expected o.digest)

  unfoldable pub validate_at : Observation → TimestampNs → Result (Unit {0}) ObservationError
  unfolding validate
  validate_at o now = do validate o; reject_if (before o.expires_at now) (expired o.expires_at)

  -- A method on `&mut self` returns the new observation.
  unfoldable pub refresh_digest : Observation → Result Observation ObservationError
  unfolding computed_digest
  refresh_digest o = do d ← computed_digest o; ok (record o { digest = d })

unfoldable pub reference : Observation → ObservationRef
reference o = record { id = o.id; digest = o.digest }
