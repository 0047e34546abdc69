-- ===== src/Policies/Clear.antt =====
-- The defensive policy and the advisory checks.
use nautilus_agents.Base.{
  ℕ, ◌*◌, ◌≤◌, ◌<◌, compare, ◌≡◌, refl, sym, ap, ◌∙◌, inl, inr, Bool-cases, true, false, List, ◌∷◌,
  All, IsMember, ok, arith, subst, list_eq, nat_eq,
}
use nautilus_agents.Text.{Text}
use nautilus_agents.Value.Quantity.{cmp}
use nautilus_agents.Value.Quantity.Units.{units}
use nautilus_agents.Value.Quantity.Order.{cmp-units}
use nautilus_agents.Value.Quantity.Order
use nautilus_agents.Protocol.Canonical.{Canonicalizer}
use nautilus_agents.Protocol.Live.{PositionView, InstrumentView, LiveProposal}
use nautilus_agents.Protocol.Observation.{
  Observation, ObservationDigest, ObservationError, FieldOmission, positions, instruments,
}
use nautilus_agents.Protocol.Observation.Spec.{IsValid}
use nautilus_agents.Authoring.Policy.{propose}
use nautilus_agents.Assurance.Advisory.{is_clear, is_greater, evaluate, omission_is_required}
use nautilus_agents.Assurance.Advisory.Clear.{QuantitiesAreValid, is_clear-evaluate}
use nautilus_agents.Policies.{DefensivePolicy, reduce, propose_first, propose_defensive}

greater_lt : (a b : ℕ) → is_greater (compare a b) ≡ true → b < a
greater_lt a b h = ground arith

-- A proposal reduces the first position, which is above the threshold.
pub propose_defensive-first :
    (p : DefensivePolicy) (o : Observation) (position : PositionView) (rest : List PositionView)
    (proposal : LiveProposal)
    → Order.IsValid position.quantity
    → Order.IsValid p.threshold
    → positions o.payload ≡ position ∷ rest
    → propose_defensive p o ≡ ok (propose proposal)
    → (proposal ≡ reduce position p.reduction) × (units p.threshold < units position.quantity)
unfolding propose_defensive propose_first
propose_defensive-first p o position rest proposal hq ht hp h =
    elim (Bool-cases (is_greater (cmp position.quantity p.threshold))) [
      | inr e ↦ absurd (cc (rw (hp, e) at h))
      | inl e ↦
          let made : reduce position p.reduction ≡ proposal = cc (rw (hp, e) at h) in
          let above = sym (ap is_greater (cmp-units position.quantity p.threshold hq ht)) ∙ e in
          (sym made, greater_lt (units position.quantity) (units p.threshold) above)
    ]

module _ (c : Canonicalizer ObservationDigest) (show : ObservationError → Text) where
  -- On a valid observation with valid quantities, none of which a required omission hides: where the
  -- policy's reduction is at most its threshold and a whole number of increments of the first
  -- position's instrument, which is listed, every proposal of the policy has a clear report at the
  -- time of the observation's creation.
  pub propose_defensive-clear :
      (p : DefensivePolicy) (o : Observation) (position : PositionView) (rest : List PositionView)
      (instrument : InstrumentView) (k : ℕ) (proposal : LiveProposal)
      → IsValid c o
      → QuantitiesAreValid o
      → Order.IsValid p.threshold
      → Order.IsValid p.reduction
      → positions o.payload ≡ position ∷ rest
      → IsMember instrument (instruments o.payload)
      → instrument.instrument_id ≡ position.instrument_id
      → units p.reduction ≤ units p.threshold
      → units p.reduction ≡ k * units instrument.quantity_increment
      → All (λ (f : FieldOmission). omission_is_required f.field.text ≡ false) o.omissions
      → propose_defensive p o ≡ ok (propose proposal)
      → is_clear (evaluate c show o proposal o.created_at) ≡ true
  propose_defensive-clear p o position rest instrument k proposal v q ht hr hp listed named small
        steps omitted h =
      let held : IsMember position (positions o.payload) =
        subst (IsMember position) (sym hp) (inl refl) in
      let (made, above) =
        propose_defensive-first p o position rest proposal (q.sizes position held) ht hp h in
      let clear =
        (is_clear-evaluate c show o (reduce position p.reduction) o.created_at v.distinct_positions
            v.distinct_instruments q hr).1
          (record {
            supported = v.supported;
            current = v.lifetime;
            digest = v.digest;
            complete = omitted;
            fits = record {
              position = position;
              held = held;
              same_position = refl;
              same_instrument = refl;
              instrument = instrument;
              listed = listed;
              named = named;
              within = omega arith;
              increments = (k, steps);
            };
          }) in
      subst (λ x. is_clear (evaluate c show o x o.created_at) ≡ true) (sym made) clear
