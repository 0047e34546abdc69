-- ===== src/Assurance/Advisory/Clear.antt =====
-- When the report of a reduction has no findings.
use nautilus_agents.Base.{
  ℕ, ◌*◌, ◌≤◌, compare, ◌≡◌, refl, sym, ap, ◌∙◌, ◌↔◌, true, false, not, List, [], arith, All,
  push_if, push_if-nil, find, IsMember, IsDistinct, Option, ok, ◌==◌, list_eq, nat_eq,
}
use nautilus_agents.Text.{Text, codes}
use nautilus_agents.Value.Digest.{digest_eq}
use nautilus_agents.Value.Identifier.{identifier_eq}
use nautilus_agents.Value.Timestamp.{TimestampNs}
use nautilus_agents.Protocol.Version.{is_supported, is_supported_iff, protocol_version}
use nautilus_agents.Protocol.Capability.{capability_eq}
use nautilus_agents.Protocol.Live.{PositionView, InstrumentView}
use nautilus_agents.Protocol.Canonical.{Canonicalizer}
use nautilus_agents.Protocol.Observation.{
  ObservationError, Observation, ObservationDigest, positions, instruments, before, computed_digest,
}
use nautilus_agents.Protocol.Live.{LiveProposal, ReducePosition}
use nautilus_agents.Protocol.Observation.{FieldOmission}
use nautilus_agents.Protocol.Observation.Spec.{position_ids, instrument_ids}
use nautilus_agents.Value.Quantity.Units.{units}
use nautilus_agents.Value.Quantity.Order.{cmp-units, is_multiple_of-units}
use nautilus_agents.Value.Quantity.Order
use nautilus_agents.Assurance.Advisory
use nautilus_agents.Assurance.Advisory.{
  quantity_exceeds_position, quantity_increment_mismatch, position_instrument_mismatch,
  quantity_field, instrument_field, expired_observation, AdvisoryFinding, AdvisoryReport, is_clear,
  finding, version_field, expires_at_field, digest_field, omission_is_required, omission_findings,
  is_greater, evaluate_quantity, evaluate_instrument, evaluate_position, evaluate_reduction,
  reduction_of, digest_findings, evaluate,
}
use nautilus_agents.Assurance.Advisory.Omissions.{omission_findings-nil}
use nautilus_agents.Assurance.Advisory.Search.{find_sound, find_complete}
use nautilus_agents.Assurance.Advisory.Findings.{
  is_clear_iff, digest_findings-nil, evaluate_position-nil,
}

-- The reduction is of an observed position on its own instrument, no larger than the position, and
-- a whole number of the instrument's increments.
pub record FitsPosition (o : Observation) (r : ReducePosition) : Type 0 where
  pub position : PositionView
  pub held : IsMember position (positions o.payload)
  pub same_position : position.position_id ≡ r.position_id
  pub same_instrument : position.instrument_id ≡ r.instrument_id
  pub instrument : InstrumentView
  pub listed : IsMember instrument (instruments o.payload)
  pub named : instrument.instrument_id ≡ r.instrument_id
  pub within : units r.quantity ≤ units position.quantity
  pub increments : (k : ℕ) × (units r.quantity ≡ k * units instrument.quantity_increment)

pub record IsFeasible (c : Canonicalizer ObservationDigest) (o : Observation) (r : ReducePosition)
    (now : TimestampNs) : Type 0 where
  pub supported : o.version ≡ protocol_version
  pub current : now.nanos ≤ o.expires_at.nanos
  pub digest : computed_digest c o ≡ ok o.digest
  pub complete : All (λ (f : FieldOmission). omission_is_required f.field.text ≡ false) o.omissions
  pub fits : FitsPosition o r

not_greater_iff : (a b : ℕ) → (is_greater (compare a b) ≡ false) ↔ (a ≤ b)
not_greater_iff a b = ground arith

-- The quantities of an observation, as `Quantity::new` accepts them.
pub record QuantitiesAreValid (o : Observation) : Type 0 where
  pub sizes : (p : PositionView) → IsMember p (positions o.payload) → Order.IsValid p.quantity
  pub steps :
      (i : InstrumentView) → IsMember i (instruments o.payload) → Order.IsValid i.quantity_increment

evaluate_reduction-nil :
    (o : Observation) (r : ReducePosition) (fs : List AdvisoryFinding)
    → IsDistinct (position_ids o)
    → IsDistinct (instrument_ids o)
    → QuantitiesAreValid o
    → Order.IsValid r.quantity
    → (evaluate_reduction o r fs ≡ []) ↔ (FitsPosition o r × (fs ≡ []))
unfolding evaluate_reduction
evaluate_reduction-nil o r fs dp di v hr =
    let ps : List PositionView = positions o.payload in
    let is : List InstrumentView = instruments o.payload in
    let found : Option PositionView =
      find (λ (p : PositionView). p.position_id == r.position_id) ps in
    let en = evaluate_position-nil is r found fs in
    (
      λ h.
          let (p, i, ep, t, ei, m, g, n) = en.0 h in
          let (held, same) =
            find_sound (λ (p : PositionView). p.position_id) r.position_id ps p ep in
          let (listed, named) =
            find_sound (λ (i : InstrumentView). i.instrument_id) r.instrument_id is i ei in
          let greater =
            sym (ap is_greater (cmp-units r.quantity p.quantity hr (v.sizes p held))) ∙ g in
          (
            record {
              position = p;
              held = held;
              same_position = same;
              same_instrument = t;
              instrument = i;
              listed = listed;
              named = named;
              within = (not_greater_iff (units r.quantity) (units p.quantity)).0 greater;
              increments =
                  (is_multiple_of-units r.quantity i.quantity_increment hr (v.steps i listed)).0 m;
            },
            n,
          ),
      λ (f, n).
          let c =
            ap is_greater
              (cmp-units r.quantity f.position.quantity hr (v.sizes f.position f.held)) in
          let g = c ∙ (not_greater_iff (units r.quantity) (units f.position.quantity)).1 f.within in
          let m =
            (is_multiple_of-units r.quantity f.instrument.quantity_increment hr
                (v.steps f.instrument f.listed)).1
              f.increments in
          en.1 (
            f.position,
            f.instrument,
            find_complete (λ (p : PositionView). p.position_id) r.position_id ps f.position dp
                f.held f.same_position,
            f.same_instrument,
            find_complete (λ (i : InstrumentView). i.instrument_id) r.instrument_id is f.instrument
                di f.listed f.named,
            m,
            g,
            n,
          ),
    )

-- For an observation that repeats no identifier and whose quantities are valid, and a valid reduced
-- quantity: the report is clear exactly when the version is supported, the observation has not
-- expired, its digest is that of its content, no required field is omitted, and the reduction fits
-- an observed position and instrument.
pub is_clear-evaluate :
    (c : Canonicalizer ObservationDigest) (show : ObservationError → Text) (o : Observation)
    (proposal : LiveProposal) (now : TimestampNs)
    → IsDistinct (position_ids o)
    → IsDistinct (instrument_ids o)
    → QuantitiesAreValid o
    → Order.IsValid (reduction_of proposal.intent).quantity
    → (is_clear (evaluate c show o proposal now) ≡ true)
      ↔ IsFeasible c o (reduction_of proposal.intent) now
unfolding evaluate
is_clear-evaluate c show o proposal now dp di v hr =
    let r : ReducePosition = reduction_of proposal.intent in
    let unsupported =
      finding Advisory.unsupported_version version_field
        (codes "the observation protocol version is unsupported") in
    let late = finding expired_observation expires_at_field (codes "the observation has expired") in
    let versioned : List AdvisoryFinding = push_if (not (is_supported o.version)) unsupported [] in
    let timed : List AdvisoryFinding = push_if (before o.expires_at now) late versioned in
    let digested : List AdvisoryFinding = digest_findings c show o timed in
    let complete : List AdvisoryFinding = omission_findings o.omissions digested in
    let clear = is_clear_iff (evaluate c show o proposal now) in
    let n1 = push_if-nil (not (is_supported o.version)) unsupported [] in
    let n2 = push_if-nil (before o.expires_at now) late versioned in
    let n3 = digest_findings-nil c show o timed in
    let n4 = omission_findings-nil o.omissions digested in
    let n5 = evaluate_reduction-nil o r complete dp di v hr in
    let sup = is_supported_iff o.version in
    (
      λ h.
          let (f, h4) = n5.0 (clear.0 h) in
          let (all_kept, h3) = n4.0 h4 in
          let (d, h2) = n3.0 h3 in
          let (t, h1) = n2.0 h2 in
          let (u, _) = n1.0 h1 in
          record {
            supported = sup.0 (ground arith);
            current = ground arith;
            digest = d;
            complete = all_kept;
            fits = f;
          },
      λ f.
          let s = sup.1 f.supported in
          let k = f.current in
          let h1 = n1.1 (ground arith, refl) in
          let h2 = n2.1 (ground arith, h1) in
          clear.1 (n5.1 (f.fits, n4.1 (f.complete, n3.1 (f.digest, h2)))),
    )
