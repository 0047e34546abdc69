-- ===== src/Examples/Observations.antt =====
-- The theorems on observations and receipts at concrete ones.
use nautilus_agents.Base.{
  ℕ, ◌≤◌, ◌<◌, ◌≡◌, refl, ◌↔◌, List, [], arith, All-replicate, none, ok, err, list_eq, nat_eq,
}
use nautilus_agents.Value.Digest.{digest_eq}
use nautilus_agents.Value.Identifier.{identifier_eq}
use nautilus_agents.Protocol.Version.{ProtocolVersion, is_supported, protocol_version}
use nautilus_agents.Protocol.Capability.{capability_eq}
use nautilus_agents.Protocol.Canonical.{sha256}
use nautilus_agents.Protocol.Observation.{
  unsupported_version, expired, Observation, covered, computed_digest, validate, validate_at,
  refresh_digest,
}
use nautilus_agents.Value.Digest.RoundTrip.{IsByte}
use nautilus_agents.Protocol.Observation.Spec.{IsValid}
use nautilus_agents.Protocol.Observation.Validation.{validate-IsValid}
use nautilus_agents.Protocol.Observation.Failures.{Reports, validate-Reports, validate_at_iff}
use nautilus_agents.Protocol.Observation.Tampering.{refresh_digest-computed, reference-digest}
use nautilus_agents.Protocol.Receipt as Receipt
use nautilus_agents.Protocol.Receipt.{DecisionReceipt, DecisionStatus}
use nautilus_agents.Protocol.Receipt.Consistency.{IsConsistent, validate-IsConsistent}
use nautilus_agents.Examples.Samples.{canonicalizer, sample, sample-IsValid, at_time}

validate-IsValid_example : (validate canonicalizer sample ≡ ok tt) ↔ IsValid canonicalizer sample
validate-IsValid_example = validate-IsValid sample canonicalizer

abbrev future_version : ProtocolVersion
future_version = record { major = 2; minor = 0 }

abbrev future : Observation
future = record sample { version = future_version }

future_refused : validate canonicalizer future ≡ err (unsupported_version future_version)
unfolding validate is_supported
future_refused = refl

validate-Reports_example : Reports canonicalizer future (unsupported_version future_version)
validate-Reports_example =
    validate-Reports future canonicalizer (unsupported_version future_version) future_refused

validate_at_iff_example :
    ((validate_at canonicalizer sample (at_time 12) ≡ ok tt)
      ↔ (IsValid canonicalizer sample × (12 ≤ 9)))
    × ((validate_at canonicalizer sample (at_time 12) ≡ err (expired (at_time 9)))
        ↔ (IsValid canonicalizer sample × (9 < 12)))
validate_at_iff_example = validate_at_iff sample canonicalizer (at_time 12)

abbrev tampered : Observation
tampered = record sample { digest = record { text = [] } }

tampered_refreshed : refresh_digest canonicalizer tampered ≡ ok sample
unfolding refresh_digest computed_digest sha256
tampered_refreshed = refl

refresh_digest-computed_example :
    (covered sample ≡ covered tampered)
    × (computed_digest canonicalizer sample ≡ ok sample.digest)
    × (computed_digest canonicalizer tampered ≡ ok sample.digest)
refresh_digest-computed_example =
    refresh_digest-computed canonicalizer tampered sample tampered_refreshed

sample_accepted : validate canonicalizer sample ≡ ok tt
sample_accepted = (validate-IsValid sample canonicalizer).1 sample-IsValid

reference-digest_example :
    (raw other : List ℕ) × (canonicalizer.serialize (covered sample) ≡ ok raw)
    × (canonicalizer.serialize (covered sample) ≡ ok other)
    × (canonicalizer.digest raw ≡ canonicalizer.digest other)
reference-digest_example =
    reference-digest canonicalizer (λ raw. All-replicate IsByte 32 7 (omega arith)) sample sample
      sample_accepted sample_accepted refl

abbrev rejection : DecisionReceipt
rejection = record {
  version = protocol_version;
  request_id = record { text = [] };
  observation = record { id = sample.id; digest = sample.digest };
  intent_id = record { text = [] };
  status = DecisionStatus.rejected;
  error = none;
  correlation = record { engine_correlation_id = none; engine_causation_id = none };
  created_at = at_time 1;
  updated_at = at_time 2;
}

validate-IsConsistent_example : (Receipt.validate rejection ≡ ok tt) ↔ IsConsistent rejection
validate-IsConsistent_example = validate-IsConsistent rejection
