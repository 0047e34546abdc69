-- ===== src/Assurance/Advisory/Findings.antt =====
-- When the checks of a reduction and of the digest add no finding.
use nautilus_agents.Base.{
  ◌≡◌, refl, ap, ◌∙◌, ◌↔◌, inl, inr, Bool, true, false, not, List, [], ◌∷◌, ◌++◌, arith, push_if,
  push_if-nil, append_one-ne-nil, find, Option, none, some, ok, ◌==◌, ◌!=◌, list_eq, nat_eq,
  Option-cases, List-cases, Result-cases,
}
use nautilus_agents.Text.{Text, codes}
use nautilus_agents.Value.Digest.{digest_eq, digest_beq_iff}
use nautilus_agents.Value.Identifier.{identifier_eq, identifier_beq_iff}
use nautilus_agents.Protocol.Capability.{capability_eq}
use nautilus_agents.Protocol.Live.{PositionView, InstrumentView}
use nautilus_agents.Protocol.Canonical.{Canonicalizer}
use nautilus_agents.Protocol.Observation.{
  ObservationError, Observation, ObservationDigest, computed_digest,
}
use nautilus_agents.Protocol.Live.{ReducePosition}
use nautilus_agents.Value.Quantity.{cmp, is_multiple_of}
use nautilus_agents.Assurance.Advisory
use nautilus_agents.Assurance.Advisory.{
  quantity_exceeds_position, quantity_increment_mismatch, position_instrument_mismatch,
  quantity_field, instrument_field, expired_observation, AdvisoryFinding, AdvisoryReport, is_clear,
  finding, version_field, expires_at_field, digest_field, omission_is_required, omission_findings,
  is_greater, evaluate_quantity, evaluate_instrument, evaluate_position, evaluate_reduction,
  reduction_of, digest_findings, evaluate,
}

pub is_clear_iff : (a : AdvisoryReport) → (is_clear a ≡ true) ↔ (a.findings ≡ [])
unfolding is_clear
is_clear_iff a = elim (List-cases a.findings) [
  | inl e ↦ rw e (λ _. refl, λ _. refl)
  | inr (f, fs, e) ↦ rw e (λ h. cc, λ h. cc)
]

pub evaluate_quantity-nil :
    (r : ReducePosition) (p : PositionView) (i : InstrumentView) (fs : List AdvisoryFinding)
    → (evaluate_quantity r p i fs ≡ []) ↔ (
        (is_multiple_of r.quantity i.quantity_increment ≡ true)
        × (is_greater (cmp r.quantity p.quantity) ≡ false)
        × (fs ≡ []))
unfolding evaluate_quantity
evaluate_quantity-nil r p i fs =
    let exceeds =
      finding quantity_exceeds_position quantity_field
        (codes "the reduction exceeds the observed open position quantity") in
    let unaligned =
      finding quantity_increment_mismatch quantity_field
        (codes "the reduction does not align with the observed quantity increment") in
    let g : Bool = is_greater (cmp r.quantity p.quantity) in
    let m : Bool = is_multiple_of r.quantity i.quantity_increment in
    let outer = push_if-nil (not m) unaligned (push_if g exceeds fs) in
    let inner = push_if-nil g exceeds fs in
    (
      λ h. let (a, k) = outer.0 h in let (b, n) = inner.0 k in (ground arith, b, n),
      λ (a, b, n). outer.1 (ground arith, inner.1 (b, n)),
    )

pub digest_findings-nil :
    (c : Canonicalizer ObservationDigest) (show : ObservationError → Text) (o : Observation)
    (fs : List AdvisoryFinding)
    → (digest_findings c show o fs ≡ []) ↔ ((computed_digest c o ≡ ok o.digest) × (fs ≡ []))
unfolding digest_findings
digest_findings-nil c show o fs = elim (Result-cases (computed_digest c o)) [
  | inl (d, e) ↦
      let f =
        finding Advisory.digest_mismatch digest_field
          (codes "the observation digest does not match its content") in
      let pn = push_if-nil (d != o.digest) f fs in
      let pushed : digest_findings c show o fs ≡ push_if (d != o.digest) f fs =
        rw (digest_findings, e) refl in
      rw (pushed, e)
        (
          λ h. let (a, n) = pn.0 h in (ap ok ((digest_beq_iff d o.digest).0 (ground arith)), n),
          λ (a, n).
              let same : d ≡ o.digest = cc in
              let t = (digest_beq_iff d o.digest).1 same in pn.1 (ground arith, n),
        )
  | inr (x, e) ↦
      let f =
        finding Advisory.digest_mismatch digest_field
          (codes "the observation digest cannot be computed: " ++ show x) in
      let pushed : digest_findings c show o fs ≡ fs ++ f ∷ [] = rw (digest_findings, e) refl in
      rw (pushed, e) (λ h. absurd (append_one-ne-nil fs f h), λ (a, n). cc)
]

pub evaluate_position-nil :
    (views : List InstrumentView) (r : ReducePosition) (found : Option PositionView)
    (fs : List AdvisoryFinding)
    → (evaluate_position views r found fs ≡ []) ↔ (
        (p : PositionView) × (i : InstrumentView) × (found ≡ some p)
        × (p.instrument_id ≡ r.instrument_id)
        × (find (λ (v : InstrumentView). v.instrument_id == r.instrument_id) views ≡ some i)
        × (is_multiple_of r.quantity i.quantity_increment ≡ true)
        × (is_greater (cmp r.quantity p.quantity) ≡ false)
        × (fs ≡ []))
unfolding evaluate_position evaluate_instrument
evaluate_position-nil views r none fs =
    (λ h. absurd (append_one-ne-nil fs _ h), λ (p, i, e, _, _, _, _, _). cc)
evaluate_position-nil views r (some p) fs =
    let f =
      finding position_instrument_mismatch instrument_field
        (codes "the proposed instrument differs from the observed position instrument") in
    let pushed : List AdvisoryFinding = push_if (p.instrument_id != r.instrument_id) f fs in
    let pn = push_if-nil (p.instrument_id != r.instrument_id) f fs in
    let b = identifier_beq_iff p.instrument_id r.instrument_id in
    elim (Option-cases (find (λ (v : InstrumentView). v.instrument_id == r.instrument_id) views)) [
      | inl e ↦ rw e (λ h. absurd (append_one-ne-nil pushed _ h), λ (q, i, _, _, k, _, _, _). cc)
      | inr (i, e) ↦
          let qn = evaluate_quantity-nil r p i pushed in
          rw e (
            λ h.
                let (m, g, k) = qn.0 h in
                let (t, n) = pn.0 k in (p, i, refl, b.0 (ground arith), refl, m, g, n),
            λ (q, j, ep, t, ei, m, g, n).
                let same : p ≡ q = cc in
                let view : i ≡ j = cc in
                let named : p.instrument_id ≡ r.instrument_id =
                  ap (λ (x : PositionView). x.instrument_id) same ∙ t in
                let hit = b.1 named in qn.1 (rw view m, rw same g, pn.1 (ground arith, n)),
          )
    ]
