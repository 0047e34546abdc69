-- ===== src/Assurance/Advisory.antt =====
-- src/assurance/advisory.rs.
pub mod Needed
pub mod Omissions
pub mod Search
pub mod Findings
pub mod Clear
use nautilus_agents.Base.{
  refl, ◌+◌, ◌/◌, Ordering, Bool, true, false, ◌&&◌, ◌||◌, not, List, [], ◌∷◌, ◌++◌, if◌then◌else◌,
  drop, push_if, find, Option, none, some, ok, err, ◌==◌, ◌!=◌, list_eq, nat_eq,
}
use nautilus_agents.Text.{Text, codes, split}
use nautilus_agents.Value.Digest.{digest_eq}
use nautilus_agents.Value.FieldPath.{FieldPath, StaticPath, static_path, parse}
use nautilus_agents.Value.Identifier.{identifier_eq}
use nautilus_agents.Value.Quantity.{cmp, is_multiple_of}
use nautilus_agents.Value.Timestamp.{TimestampNs}
use nautilus_agents.Protocol.Canonical.{Canonicalizer}
use nautilus_agents.Protocol.Live.{
  LiveIntent, LiveProposal, ReducePosition, reduce_position, PositionView, InstrumentView,
}
use nautilus_agents.Protocol.Observation.{
  Observation, ObservationDigest, ObservationError, FieldOmission, computed_digest, before,
  positions, instruments,
}
use nautilus_agents.Protocol.Version.{is_supported}

pub data AdvisorySeverity : Type 0 where
  error : AdvisorySeverity

pub data AdvisoryCode : Type 0 where
  unsupported_version expired_observation digest_mismatch required_field_omitted : AdvisoryCode
  position_missing instrument_missing position_instrument_mismatch : AdvisoryCode
  quantity_exceeds_position quantity_increment_mismatch : AdvisoryCode

pub record AdvisoryFinding : Type 0 where
  pub code : AdvisoryCode
  pub severity : AdvisorySeverity
  pub field : FieldPath
  pub message : Text

pub record AdvisoryReport : Type 0 where
  pub findings : List AdvisoryFinding

unfoldable pub is_clear : AdvisoryReport → Bool
is_clear r = elim r.findings [ [] ↦ true | f ∷ fs ↦ false ]

unfoldable pub finding : AdvisoryCode → StaticPath → Text → AdvisoryFinding
unfolding static_path
finding code field message = record {
  code = code;
  severity = error;
  field = static_path field;
  message = message;
}

-- The slice patterns of `omission_is_required`, on the segments behind the first slash.
unfoldable pub required_segments : List Text → Bool
required_segments (a ∷ []) = a == codes "payload"
required_segments (a ∷ b ∷ []) = a == codes "payload" && b == codes "live"
required_segments (a ∷ b ∷ c ∷ []) =
    a == codes "payload"
    && b == codes "live"
    && (c == codes "positions" || c == codes "instruments")
required_segments (a ∷ b ∷ c ∷ d ∷ []) =
    a == codes "payload"
    && b == codes "live"
    && (c == codes "positions" || c == codes "instruments")
required_segments (a ∷ b ∷ c ∷ d ∷ field ∷ []) =
    a == codes "payload"
    && b == codes "live"
    && ((c == codes "positions"
          && (field == codes "position_id"
              || field == codes "instrument_id"
              || field == codes "quantity"))
        || (c == codes "instruments"
            && (field == codes "instrument_id" || field == codes "quantity_increment")))
required_segments _ = false

unfoldable pub omission_is_required : Text → Bool
unfolding required_segments
omission_is_required path = required_segments (drop 1 (split b'/' path))

abbrev pub omission_message : Text
omission_message = codes "the observation omits data needed to check the proposal"

-- The loop over the omissions, behind the findings so far.
unfoldable pub omission_findings : List FieldOmission → List AdvisoryFinding → List AdvisoryFinding
unfolding omission_is_required
omission_findings [] findings = findings
omission_findings (o ∷ os) findings = omission_findings os (
    if omission_is_required o.field.text
    then findings
      ++ record {
        code = required_field_omitted;
        severity = error;
        field = o.field;
        message = omission_message;
      }
        ∷ []
    else findings)

-- `>` of the derived operators on `Ord`
abbrev pub is_greater : Ordering → Bool
is_greater Ordering.lt = false
is_greater Ordering.eq = false
is_greater Ordering.gt = true

unfoldable pub position_field : StaticPath
unfolding parse
position_field = record {
  text = codes "/proposal/intent/reduce_position/position_id";
  accepted = refl;
}

unfoldable pub instrument_field : StaticPath
unfolding parse
instrument_field = record {
  text = codes "/proposal/intent/reduce_position/instrument_id";
  accepted = refl;
}

unfoldable pub quantity_field : StaticPath
unfolding parse
quantity_field = record {
  text = codes "/proposal/intent/reduce_position/quantity";
  accepted = refl;
}

unfoldable pub digest_field : StaticPath
unfolding parse
digest_field = record { text = codes "/digest"; accepted = refl }

unfoldable pub version_field : StaticPath
unfolding parse
version_field = record { text = codes "/version"; accepted = refl }

unfoldable pub expires_at_field : StaticPath
unfolding parse
expires_at_field = record { text = codes "/expires_at"; accepted = refl }

-- The checks of the quantity, with both views at hand.
unfoldable pub evaluate_quantity :
    ReducePosition → PositionView → InstrumentView → List AdvisoryFinding → List AdvisoryFinding
unfolding finding quantity_field
evaluate_quantity reduction position instrument findings =
    push_if (not (is_multiple_of reduction.quantity instrument.quantity_increment))
      (finding quantity_increment_mismatch quantity_field
        (codes "the reduction does not align with the observed quantity increment"))
      (push_if (is_greater (cmp reduction.quantity position.quantity))
        (finding quantity_exceeds_position quantity_field
          (codes "the reduction exceeds the observed open position quantity"))
        findings)

-- From the search of the instrument on.
unfoldable pub evaluate_instrument :
    ReducePosition
    → PositionView
    → Option InstrumentView
    → List AdvisoryFinding
    → List AdvisoryFinding
unfolding evaluate_quantity instrument_field
evaluate_instrument reduction position none findings =
    findings
    ++ finding instrument_missing instrument_field
        (codes "the proposed instrument does not appear in the observation")
      ∷ []
evaluate_instrument reduction position (some instrument) findings =
    evaluate_quantity reduction position instrument findings

-- From the search of the position on.
unfoldable pub evaluate_position :
    List InstrumentView
    → ReducePosition
    → Option PositionView
    → List AdvisoryFinding
    → List AdvisoryFinding
unfolding evaluate_instrument position_field
evaluate_position views reduction none findings =
    findings
    ++ finding position_missing position_field
        (codes "the proposed position does not appear in the observation")
      ∷ []
evaluate_position views reduction (some position) findings =
    evaluate_instrument reduction position
      (find (λ (i : InstrumentView). i.instrument_id == reduction.instrument_id) views)
      (push_if (position.instrument_id != reduction.instrument_id)
        (finding position_instrument_mismatch instrument_field
          (codes "the proposed instrument differs from the observed position instrument"))
        findings)

unfoldable pub evaluate_reduction :
    Observation → ReducePosition → List AdvisoryFinding → List AdvisoryFinding
unfolding evaluate_position
evaluate_reduction o reduction findings =
    evaluate_position (instruments o.payload) reduction
      (find (λ (p : PositionView). p.position_id == reduction.position_id) (positions o.payload))
      findings

abbrev pub reduction_of : LiveIntent → ReducePosition
reduction_of (reduce_position r) = r

module _ (c : Canonicalizer ObservationDigest) (show_error : ObservationError → Text) where
  -- The match on the computed digest.
  unfoldable pub digest_findings : Observation → List AdvisoryFinding → List AdvisoryFinding
  unfolding finding
  digest_findings o findings = elim (computed_digest c o) [
    | ok expected ↦
        push_if (expected != o.digest)
          (finding digest_mismatch digest_field
            (codes "the observation digest does not match its content"))
          findings
    | err e ↦
        findings
        ++ finding digest_mismatch digest_field
            (codes "the observation digest cannot be computed: " ++ show_error e)
          ∷ []
  ]

  unfoldable pub evaluate : Observation → LiveProposal → TimestampNs → AdvisoryReport
  unfolding digest_findings omission_findings evaluate_reduction
  evaluate o proposal now =
      let versioned =
        push_if (not (is_supported o.version))
          (finding unsupported_version version_field
            (codes "the observation protocol version is unsupported"))
          [] in
      let timed =
        push_if (before o.expires_at now)
          (finding expired_observation expires_at_field (codes "the observation has expired"))
          versioned in
      let digested = digest_findings o timed in
      let complete = omission_findings o.omissions digested in
      record { findings = evaluate_reduction o (reduction_of proposal.intent) complete }
