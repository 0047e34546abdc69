-- ===== src/Protocol/Observation/Loops.antt =====
-- What an error of the two loops of `Observation::validate_live_payload` says.
use nautilus_agents.Base.{
  ◌+◌, ◌≤◌, ◌<◌, ◌≡◌, refl, inl, inr, false, not, List, [], ◌∷◌, map, arith, IsMember, contains,
  insert, contains_iff, occurrences, occurrences_member, not-IsMember, err, list_eq, nat_eq,
  Bool-cases, reject_if-err,
}
use nautilus_agents.Value.Digest.{digest_eq}
use nautilus_agents.Value.Identifier.{InstrumentId, PositionId, identifier_eq, identifier_beq_iff}
use nautilus_agents.Protocol.Capability.{capability_eq}
use nautilus_agents.Protocol.Live.{PositionView, InstrumentView}
use nautilus_agents.Protocol.Observation.{
  ObservationError, instrument_outside_grant, duplicate_position, duplicate_instrument,
  position_updated_after_creation, Observation, before, check_positions, check_instruments,
}

module _ (o : Observation) where
  -- What an error of the loop over the positions says, of the positions `ps` behind those seen.
  abbrev pub PositionReports : List PositionId → List PositionView → ObservationError → Type 0
  PositionReports seen ps (instrument_outside_grant i) =
      (¬ IsMember i o.grant.instruments)
      × IsMember i (map (λ (p : PositionView). p.instrument_id) ps)
  PositionReports seen ps (duplicate_position i) =
      2 ≤ occurrences i seen + occurrences i (map (λ (p : PositionView). p.position_id) ps)
  PositionReports seen ps (position_updated_after_creation i) =
      (p : PositionView) × IsMember p ps
      × (p.position_id ≡ i)
      × (o.created_at.nanos < p.updated_at.nanos)
  PositionReports seen ps _ = ⊥

  outside :
      (i : InstrumentId) → contains i o.grant.instruments ≡ false → ¬ IsMember i o.grant.instruments
  outside i h = not-IsMember i o.grant.instruments h

  PositionReports-cons :
      (seen : List PositionId) (p : PositionView) (ps : List PositionView) (e : ObservationError)
      → PositionReports (p.position_id ∷ seen) ps e
      → PositionReports seen (p ∷ ps) e
  unfolding occurrences
  PositionReports-cons seen p ps (instrument_outside_grant i) (n, m) = (n, inr m)
  PositionReports-cons seen p ps (duplicate_position i) h = ground arith
  PositionReports-cons seen p ps (position_updated_after_creation i) (q, m, e, l) = (q, inr m, e, l)
  PositionReports-cons seen p ps _ h = absurd h

  -- The three tests of one round of the loop, and the rest.
  round_err :
      (seen : List PositionId) (p : PositionView) (ps : List PositionView) (e : ObservationError)
      → ((s : List PositionId) → check_positions o s ps ≡ err e → PositionReports s ps e)
      → check_positions o seen (p ∷ ps) ≡ err e
      → PositionReports seen (p ∷ ps) e
  unfolding check_positions insert occurrences
  round_err seen p ps e rest h =
      elim (reject_if-err (not (contains p.instrument_id o.grant.instruments)) _ _ h) [
        | inl (b, x) ↦ rw x (outside p.instrument_id (ground arith), inl refl)
        | inr (b, h2) ↦ elim (Bool-cases (contains p.position_id seen)) [
          | inl old ↦
              let x : e ≡ duplicate_position p.position_id = ground arith in
              let once =
                occurrences_member p.position_id seen ((contains_iff p.position_id seen).0 old) in
              rw x (ground (arith, identifier_beq_iff p.position_id p.position_id))
          | inr new ↦ elim (Bool-cases (before o.created_at p.updated_at)) [
            | inl late ↦
                let x : e ≡ position_updated_after_creation p.position_id = ground arith in
                rw x (p, inl refl, refl, ground arith)
            | inr past ↦
                PositionReports-cons seen p ps e (rest (p.position_id ∷ seen) (ground arith))
          ]
        ]
      ]

  pub check_positions-err :
      (seen : List PositionId) (ps : List PositionView) (e : ObservationError)
      → check_positions o seen ps ≡ err e
      → PositionReports seen ps e
  check_positions-err seen [] e h = unfold check_positions in cc
  check_positions-err seen (p ∷ ps) e h = round_err seen p ps e (λ s. check_positions-err s ps e) h

  -- The same for the loop over the instruments.
  abbrev pub InstrumentReports : List InstrumentId → List InstrumentId → ObservationError → Type 0
  InstrumentReports seen is (instrument_outside_grant i) =
      (¬ IsMember i o.grant.instruments) × IsMember i is
  InstrumentReports seen is (duplicate_instrument i) = 2 ≤ occurrences i seen + occurrences i is
  InstrumentReports seen is _ = ⊥

  InstrumentReports-cons :
      (seen : List InstrumentId) (i : InstrumentId) (is : List InstrumentId) (e : ObservationError)
      → InstrumentReports (i ∷ seen) is e
      → InstrumentReports seen (i ∷ is) e
  unfolding occurrences
  InstrumentReports-cons seen i is (instrument_outside_grant j) (n, m) = (n, inr m)
  InstrumentReports-cons seen i is (duplicate_instrument j) h = ground arith
  InstrumentReports-cons seen i is _ h = absurd h

  instrument_round_err :
      (seen : List InstrumentId) (v : InstrumentView) (vs : List InstrumentView)
      (e : ObservationError)
      → ((s : List InstrumentId)
          → check_instruments o s vs ≡ err e
          → InstrumentReports s (map (λ (i : InstrumentView). i.instrument_id) vs) e)
      → check_instruments o seen (v ∷ vs) ≡ err e
      → InstrumentReports seen (map (λ (i : InstrumentView). i.instrument_id) (v ∷ vs)) e
  unfolding check_instruments insert occurrences
  instrument_round_err seen v vs e rest h =
      elim (reject_if-err (not (contains v.instrument_id o.grant.instruments)) _ _ h) [
        | inl (b, x) ↦ rw x (outside v.instrument_id (ground arith), inl refl)
        | inr (b, h2) ↦ elim (Bool-cases (contains v.instrument_id seen)) [
          | inl old ↦
              let x : e ≡ duplicate_instrument v.instrument_id = ground arith in
              let once =
                occurrences_member v.instrument_id seen
                  ((contains_iff v.instrument_id seen).0 old) in
              rw x (ground (arith, identifier_beq_iff v.instrument_id v.instrument_id))
          | inr new ↦
              InstrumentReports-cons seen v.instrument_id
                (map (λ (i : InstrumentView). i.instrument_id) vs) e
                (rest (v.instrument_id ∷ seen) (ground arith))
        ]
      ]

  pub check_instruments-err :
      (seen : List InstrumentId) (vs : List InstrumentView) (e : ObservationError)
      → check_instruments o seen vs ≡ err e
      → InstrumentReports seen (map (λ (i : InstrumentView). i.instrument_id) vs) e
  check_instruments-err seen [] e h = unfold check_instruments in cc
  check_instruments-err seen (v ∷ vs) e h =
      instrument_round_err seen v vs e (λ s. check_instruments-err s vs e) h
