-- ===== src/Assurance/Shadow/Difference.antt =====
-- The differing fields of two outcomes are exactly those in which they differ.
use nautilus_agents.Base.{
  ◌≡◌, refl, ap, ◌≢◌, ◌↔◌, ◌⊎◌, inl, inr, Bool, true, false, List, [], ◌∷◌, ◌++◌, arith, push_if,
  push_if-nil, IsMember, ◌!=◌, list_eq, nat_eq, PartialEq, list_beq, list_beq_iff,
}
use nautilus_agents.Value.FieldPath.{FieldPath}
use nautilus_agents.Value.Identifier.{identifier_eq, identifier_beq_iff}
use nautilus_agents.Value.Quantity.{quantity_eq, quantity_beq_iff}
use nautilus_agents.Protocol.Live.{LiveProposal, ReducePosition}
use nautilus_agents.Authoring.Runner.{RunnerConfig, Runtime, run}
use nautilus_agents.Assurance.Trace.{AgentFailure, TraceOutcome, proposed, no_proposal, failed}
use nautilus_agents.Assurance.Shadow.{
  kind_eq, kind_beq_iff, ShadowCase, ShadowResult, position_id_path, instrument_id_path,
  quantity_path, kind_path, message_path, reduction, proposal_fields, failure_fields,
  differing_fields, is_match, evaluate,
}

module _ {A : Type 0} ⦃e : PartialEq A⦄ where
  same_iff : (a b : A) → ((a != b) ≡ false) ↔ (a ≡ b)
  same_iff a b = ground (arith, e.is_eq_iff a b)

  differ_iff : (a b : A) → ((a != b) ≡ true) ↔ (a ≢ b)
  differ_iff a b = ground (arith, e.is_eq_iff a b)

proposal_fields-nil : (a b : ReducePosition) → (proposal_fields a b ≡ []) ↔ (a ≡ b)
unfolding proposal_fields
proposal_fields-nil a b =
    let last = push_if-nil (a.quantity != b.quantity) quantity_path (
      push_if (a.instrument_id != b.instrument_id) instrument_id_path
        (push_if (a.position_id != b.position_id) position_id_path [])) in
    let middle =
      push_if-nil (a.instrument_id != b.instrument_id) instrument_id_path
        (push_if (a.position_id != b.position_id) position_id_path []) in
    let first = push_if-nil (a.position_id != b.position_id) position_id_path [] in
    (
      λ h.
          let (q, h1) = last.0 h in
          let (i, h2) = middle.0 h1 in
          let (p, _) = first.0 h2 in
          ground (
            arith,
            quantity_beq_iff a.quantity b.quantity,
            identifier_beq_iff a.instrument_id b.instrument_id,
            identifier_beq_iff a.position_id b.position_id,
          ),
      λ x. last.1 (
        (same_iff a.quantity b.quantity).1 (ap (λ (r : ReducePosition). r.quantity) x),
        middle.1 (
          (same_iff a.instrument_id b.instrument_id).1
              (ap (λ (r : ReducePosition). r.instrument_id) x),
          first.1 (
            (same_iff a.position_id b.position_id).1 (ap (λ (r : ReducePosition). r.position_id) x),
            refl,
          ),
        ),
      ),
    )

failure_fields-nil : (a b : AgentFailure) → (failure_fields a b ≡ []) ↔ (a ≡ b)
unfolding failure_fields
failure_fields-nil a b =
    let last =
      push_if-nil (a.message != b.message) message_path (push_if (a.kind != b.kind) kind_path []) in
    let first = push_if-nil (a.kind != b.kind) kind_path [] in
    (
      λ h.
          let (m, h1) = last.0 h in
          let (k, _) = first.0 h1 in
          ground (arith, list_beq_iff a.message b.message, kind_beq_iff a.kind b.kind),
      λ x. last.1 (
        (same_iff a.message b.message).1 (ap (λ (r : AgentFailure). r.message) x),
        first.1 ((same_iff a.kind b.kind).1 (ap (λ (r : AgentFailure). r.kind) x), refl),
      ),
    )

intent_iff : (a b : LiveProposal) → (reduction a.intent ≡ reduction b.intent) ↔ (a ≡ b)
intent_iff a b = ground arith

-- No field differs exactly when the outcomes are equal.
pub differing_fields-nil : (a b : TraceOutcome) → (differing_fields a b ≡ []) ↔ (a ≡ b)
unfolding differing_fields
differing_fields-nil no_proposal no_proposal = (λ h. refl, λ h. refl)
differing_fields-nil (proposed a) (proposed b) =
    let fields = proposal_fields-nil (reduction a.intent) (reduction b.intent) in
    (λ h. ap proposed ((intent_iff a b).0 (fields.0 h)), λ e. fields.1 ((intent_iff a b).1 (cc)))
differing_fields-nil (failed a) (failed b) =
    (λ h. ap failed ((failure_fields-nil a b).0 h), λ e. (failure_fields-nil a b).1 (cc))
differing_fields-nil _ _ = (λ h. cc, λ e. cc)

is_match-nil : (r : ShadowResult) → (is_match r ≡ true) ↔ (r.differing_fields ≡ [])
unfolding is_match
is_match-nil r = ground arith

-- A shadow evaluation matches exactly when both policies, run one after the other on the case's
-- observation, had the same outcome.
pub is_match-evaluate :
    {World FutureA FutureB Timer : Type 0} (ra : Runtime World FutureA Timer) (ca : RunnerConfig)
    (rb : Runtime World FutureB Timer) (cb : RunnerConfig) (c : ShadowCase) (w : World)
    → (is_match (evaluate ra ca rb cb c w).0 ≡ true) ↔ (
        (run ra ca c.observation w).0.outcome
        ≡ (run rb cb c.observation (run ra ca c.observation w).1).0.outcome)
unfolding evaluate
is_match-evaluate ra ca rb cb c w =
    let a = (run ra ca c.observation w).0.outcome in
    let b = (run rb cb c.observation (run ra ca c.observation w).1).0.outcome in
    let m = is_match-nil (evaluate ra ca rb cb c w).0 in
    ((λ h. (differing_fields-nil a b).0 (m.0 h)), λ e. m.1 ((differing_fields-nil a b).1 e))

IsMember-append_one :
    {A : Type 0} (x y : A) (xs : List A) → IsMember x (xs ++ y ∷ []) ↔ (IsMember x xs ⊎ (x ≡ y))
IsMember-append_one x y [] = (
  λ h. elim h [ inl e ↦ inr e | inr n ↦ absurd n ],
  λ h. elim h [ inl n ↦ absurd n | inr e ↦ inl e ],
)
IsMember-append_one x y (z ∷ xs) = (
  λ h. elim h [
    | inl e ↦ inl (inl e)
    | inr m ↦ elim ((IsMember-append_one x y xs).0 m) [ inl n ↦ inl (inr n) | inr e ↦ inr e ]
  ],
  λ h. elim h [
    | inl m ↦ elim m [ inl e ↦ inl e | inr n ↦ inr ((IsMember-append_one x y xs).1 (inl n)) ]
    | inr e ↦ inr ((IsMember-append_one x y xs).1 (inr e))
  ],
)

IsMember-push :
    (x : FieldPath) (b : Bool) (p : FieldPath) (fs : List FieldPath)
    → IsMember x (push_if b p fs) ↔ (IsMember x fs ⊎ ((b ≡ true) × (x ≡ p)))
IsMember-push x true p fs = (
  λ h. elim ((IsMember-append_one x p fs).0 h) [ inl m ↦ inl m | inr e ↦ inr (refl, e) ],
  λ h. (IsMember-append_one x p fs).1 (elim h [ inl m ↦ inl m | inr e ↦ inr e.1 ]),
)
IsMember-push x false p fs = (λ h. inl h, λ h. elim h [ inl m ↦ m | inr e ↦ cc (e.0) ])

texts_differ : (a b : FieldPath) → list_beq a.text b.text ≡ false → a ≢ b
texts_differ a b h e = cc ((list_beq_iff a.text b.text).1 (ap (λ (p : FieldPath). p.text) e))

paths_apart :
    (position_id_path ≢ instrument_id_path)
    × (position_id_path ≢ quantity_path)
    × (instrument_id_path ≢ quantity_path)
    × (kind_path ≢ message_path)
unfolding position_id_path instrument_id_path quantity_path kind_path message_path list_beq
paths_apart = (
  texts_differ position_id_path instrument_id_path refl,
  texts_differ position_id_path quantity_path refl,
  texts_differ instrument_id_path quantity_path refl,
  texts_differ kind_path message_path refl,
)

-- Of three paths pushed under their own tests, each is there exactly when its test passed.
three_pushed :
    (p q r : FieldPath) (a b c : Bool)
    → p ≢ q
    → p ≢ r
    → q ≢ r
    → (IsMember p (push_if c r (push_if b q (push_if a p []))) ↔ (a ≡ true))
      × (IsMember q (push_if c r (push_if b q (push_if a p []))) ↔ (b ≡ true))
      × (IsMember r (push_if c r (push_if b q (push_if a p []))) ↔ (c ≡ true))
three_pushed p q r a b c pq pr qr = (
  ground (
    arith,
    IsMember-push p c r (push_if b q (push_if a p [])),
    IsMember-push p b q (push_if a p []),
    IsMember-push p a p [],
  ),
  ground (
    arith,
    IsMember-push q c r (push_if b q (push_if a p [])),
    IsMember-push q b q (push_if a p []),
    IsMember-push q a p [],
  ),
  ground (
    arith,
    IsMember-push r c r (push_if b q (push_if a p [])),
    IsMember-push r b q (push_if a p []),
    IsMember-push r a p [],
  ),
)

-- Of two proposals, each path is reported exactly when that field differs.
pub proposal_fields-IsMember :
    (a b : ReducePosition)
    → (IsMember position_id_path (proposal_fields a b) ↔ (a.position_id ≢ b.position_id))
      × (IsMember instrument_id_path (proposal_fields a b) ↔ (a.instrument_id ≢ b.instrument_id))
      × (IsMember quantity_path (proposal_fields a b) ↔ (a.quantity ≢ b.quantity))
unfolding proposal_fields
proposal_fields-IsMember a b =
    let (pq, pr, qr, _) = paths_apart in
    let (p, q, r) =
      three_pushed position_id_path instrument_id_path quantity_path
        (a.position_id != b.position_id) (a.instrument_id != b.instrument_id)
        (a.quantity != b.quantity) pq pr qr in
    let dp = differ_iff a.position_id b.position_id in
    let di = differ_iff a.instrument_id b.instrument_id in
    let dq = differ_iff a.quantity b.quantity in
    (
      (λ h. dp.0 (p.0 h), λ n. p.1 (dp.1 n)),
      (λ h. di.0 (q.0 h), λ n. q.1 (di.1 n)),
      (λ h. dq.0 (r.0 h), λ n. r.1 (dq.1 n)),
    )
