-- ===== src/Testing/Receipts/Request.antt =====
-- The fixtures of the request and of the trace, and the advisory checks of the proposal.
use nautilus_agents.Base.{
  ℕ, ◌*◌, ◌≤◌, false, All, ◌≡◌, refl, sym, ap, ◌∙◌, inl, inr, true, List, [], ◌∷◌, ◌++◌, some,
  Result, ok, ◌>>=◌, map_err, list_eq, nat_eq, arith, subst, IsMember,
}
use nautilus_agents.Text.{Text, codes}
use nautilus_agents.Value.Quantity.{Quantity}
use nautilus_agents.Value.Quantity.Pattern.{decimal, naught, positive, digits}
use nautilus_agents.Value.Quantity.Units.{units}
use nautilus_agents.Value.Quantity.Order
use nautilus_agents.Protocol.Identity.{IdentityKind, UuidCrate}
use nautilus_agents.Protocol.Canonical.{Canonicalizer}
use nautilus_agents.Protocol.Live as Live
use nautilus_agents.Protocol.Live.{
  PositionView, InstrumentView, LiveProposal, LiveProposalRequest, reduce_position,
}
use nautilus_agents.Protocol.Observation.{
  Observation, ObservationDigest, ObservationError, FieldOmission, covered, positions, instruments,
  reference,
}
use nautilus_agents.Protocol.Observation.Spec.{IsValid}
use nautilus_agents.Assurance.Trace.{AgentTrace, proposed}
use nautilus_agents.Assurance.Advisory.{is_clear, evaluate, omission_is_required}
use nautilus_agents.Assurance.Advisory.Clear.{QuantitiesAreValid, is_clear-evaluate}
use nautilus_agents.Testing.{valid_observation}
use nautilus_agents.Testing.Base.{base, position_id, instrument_id}
use nautilus_agents.Testing.Fixtures.{valid-base, fixtures-IsValid}
use nautilus_agents.Testing.Receipts.{reduce_position_request, proposal_trace}
use nautilus_agents.Testing.Uuids.{ReadsUuids, parse_fixture}
use nautilus_agents.Protocol.Version.{protocol_version}

size-IsValid : Order.IsValid (record { text = codes "2.75" })
size-IsValid =
    decimal (codes "2") (codes "75") (positive b'2' [] (omega arith, omega arith) tt refl)
      (digits (b'7' ∷ []) b'5' ((omega arith, omega arith), tt) (omega arith)
        (omega arith, omega arith) refl)
      refl

increment-IsValid : Order.IsValid (record { text = codes "0.25" })
increment-IsValid =
    decimal (codes "0") (codes "25") (naught refl)
      (digits (b'2' ∷ []) b'5' ((omega arith, omega arith), tt) (omega arith)
        (omega arith, omega arith) refl)
      refl

abbrev reduced : Quantity
reduced = record { text = codes "1.25" }

reduced-IsValid : Order.IsValid reduced
reduced-IsValid =
    decimal (codes "1") (codes "25") (positive b'1' [] (omega arith, omega arith) tt refl)
      (digits (b'2' ∷ []) b'5' ((omega arith, omega arith), tt) (omega arith)
        (omega arith, omega arith) refl)
      refl

abbrev base_position : PositionView
base_position = record {
  position_id = position_id;
  instrument_id = instrument_id;
  side = Live.PositionSide.long;
  quantity = record { text = codes "2.75" };
  updated_at = record { nanos = 1_712_399_997_000_000_606 };
}

abbrev base_instrument : InstrumentView
base_instrument = record {
  instrument_id = instrument_id;
  quantity_increment = record { text = codes "0.25" };
}

reduced_fits :
    (units reduced ≤ units (record { text = codes "2.75" }))
    × (units reduced ≡ 5 * units (record { text = codes "0.25" }))
unfolding units
reduced_fits = (omega arith, refl)

base-QuantitiesAreValid : QuantitiesAreValid base
base-QuantitiesAreValid = record {
  sizes = λ p m. elim m [
    | inl e ↦ subst Order.IsValid (sym (ap (λ (x : PositionView). x.quantity) e)) size-IsValid
    | inr n ↦ absurd n
  ];
  steps = λ i m. elim m [
    | inl e ↦
        subst Order.IsValid (sym (ap (λ (x : InstrumentView). x.quantity_increment) e))
          increment-IsValid
    | inr n ↦ absurd n
  ];
}

abbrev proposal : LiveProposal
proposal = record {
  intent =
      reduce_position
        (record { position_id = position_id; instrument_id = instrument_id; quantity = reduced });
}

-- An observation with the payload and the omissions of the base fixture.
module _ (c : Canonicalizer ObservationDigest) (show : ObservationError → Text) (o : Observation)
    (v : IsValid c o) (same : covered o ≡ covered base) where
  payload_same : o.payload ≡ base.payload
  payload_same = ap (λ x. x.payload) same

  quantities_of : QuantitiesAreValid o
  quantities_of = record {
    sizes = λ p m.
        base-QuantitiesAreValid.sizes p (subst (λ x. IsMember p (positions x)) payload_same m);
    steps = λ i m.
        base-QuantitiesAreValid.steps i (subst (λ x. IsMember i (instruments x)) payload_same m);
  }

  proposal-clear : is_clear (evaluate c show o proposal o.created_at) ≡ true
  proposal-clear =
      (is_clear-evaluate c show o proposal o.created_at v.distinct_positions v.distinct_instruments
          quantities_of reduced-IsValid).1
        (record {
          supported = v.supported;
          current = v.lifetime;
          digest = v.digest;
          complete =
              subst (All (λ (f : FieldOmission). omission_is_required f.field.text ≡ false))
                (sym (ap (λ x. x.omissions) same)) tt;
          fits = record {
            position = base_position;
            held = subst (λ x. IsMember base_position (positions x)) (sym payload_same) (inl refl);
            same_position = refl;
            same_instrument = refl;
            instrument = base_instrument;
            listed =
                subst (λ x. IsMember base_instrument (instruments x)) (sym payload_same) (inl refl);
            named = refl;
            within = reduced_fits.0;
            increments = (5, reduced_fits.1);
          };
        })

module _ (u : UuidCrate) (reads : ReadsUuids u) (c : Canonicalizer ObservationDigest)
    (total : (v : ObservationDigest) → (raw : List ℕ) × (c.serialize v ≡ ok raw)) where
  abbrev request_of : Observation → LiveProposalRequest
  request_of valid = record {
    version = protocol_version;
    request_id = record { text = codes "20000000-0000-4000-8000-000000000021" };
    idempotency_key = record { text = codes "principal-proposal-29" };
    observation = reference valid;
    agent_trace_id = some (record { text = codes "30000000-0000-4000-8000-000000000031" });
    proposal = proposal;
  }

  request_returns :
      (valid : Observation)
      → valid_observation u c ≡ ok valid
      → reduce_position_request u c ≡ ok (request_of valid)
  unfolding reduce_position_request nautilus_agents.Protocol.Identity.parse_key
      nautilus_agents.Value.Identifier.parse nautilus_agents.Value.Quantity.parse
      nautilus_agents.Text.ends_with nautilus_agents.Text.bytes nautilus_agents.Base.list_beq
  request_returns valid e =
      let request =
        parse_fixture u reads {k = IdentityKind.request} (codes "20000000") (codes "000000000021")
          (refl, refl) (refl, refl) in
      let trace =
        parse_fixture u reads {k = IdentityKind.trace} (codes "30000000") (codes "000000000031")
          (refl, refl) (refl, refl) in
      rw (e, request, trace) refl

  -- Where the crate reads UUIDs and every value has a serialization, no `expect` of the fixtures of the
  -- request and of the proposal trace panics: the request is accepted and names the valid observation, its
  -- proposal has a clear advisory report at the time of creation, and the trace is of this observation
  -- and this proposal.
  pub request-clear :
      (show : ObservationError → Text)
      → (valid : Observation) × (request : LiveProposalRequest) × (trace : AgentTrace)
        × (valid_observation u c ≡ ok valid)
        × (reduce_position_request u c ≡ ok request)
        × (proposal_trace u c ≡ ok trace)
        × (Live.validate request ≡ ok tt)
        × (request.observation ≡ reference valid)
        × (is_clear (evaluate c show valid request.proposal valid.created_at) ≡ true)
        × (trace.observation ≡ reference valid)
        × (trace.outcome ≡ proposed request.proposal)
  unfolding proposal_trace Live.validate nautilus_agents.Value.Timestamp.new
  request-clear show =
      let (valid, redacted, e, v, e', v', no_positions) = fixtures-IsValid c total u reads in
      let same = valid-base c total u reads valid e in
      let trace =
        parse_fixture u reads {k = IdentityKind.trace} (codes "30000000") (codes "000000000032")
          (refl, refl) (refl, refl) in
      (
        valid,
        request_of valid,
        record {
          version = protocol_version;
          trace_id = record { text = codes "30000000-0000-4000-8000-000000000032" };
          observation = reference valid;
          policy = record { name = codes "defensive-reducer"; version = codes "policy-3.7.11" };
          started_at = record { nanos = 1_712_400_000_100_000_101 };
          completed_at = record { nanos = 1_712_400_000_200_000_202 };
          outcome = proposed proposal;
        },
        e,
        request_returns valid e,
        rw (request_returns valid e, trace) refl,
        refl,
        refl,
        proposal-clear c show valid v same,
        refl,
        refl,
      )
