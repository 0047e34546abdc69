-- ===== src/Assurance/Advisory/Omissions.antt =====
-- Which omissions make an observation unfit for a reduction.
use nautilus_agents.Base.{
  ◌≡◌, refl, ap, ◌∙◌, ◌≢◌, ◌↔◌, Bool, true, false, List, [], ◌∷◌, ◌++◌, arith, All, push_if,
  push_if-nil, list_eq, nat_eq, list_beq, list_beq_iff,
}
use nautilus_agents.Text.{Text, codes}
use nautilus_agents.Protocol.Observation.{FieldOmission}
use nautilus_agents.Assurance.Advisory.{
  AdvisoryFinding, error, required_field_omitted, omission_message, error, required_field_omitted,
  omission_message, required_segments, omission_is_required, omission_findings,
}
use nautilus_agents.Assurance.Advisory.Needed.{
  IsNeeded, LeadsToNeeded, collection-IsNeeded, field-IsNeeded, position_id, position_instrument,
  position_quantity, instrument_id, instrument_increment,
}

leads :
    (s : List Text) (c e f : Text) (n : IsNeeded c f) (rest : List Text)
    → s ≢ []
    → s ++ rest ≡ codes "payload" ∷ codes "live" ∷ c ∷ e ∷ f ∷ []
    → LeadsToNeeded s
leads s c e f n rest h k = record {
  collection = c;
  entry = e;
  field = f;
  needed = n;
  rest = rest;
  nonempty = h;
  path = k;
}

required_leads : (s : List Text) → required_segments s ≡ true → LeadsToNeeded s
unfolding required_segments
required_leads [] h = absurd (ground arith)
required_leads (a ∷ []) h =
    leads (a ∷ []) (codes "positions") [] (codes "position_id") position_id
      (codes "live" ∷ codes "positions" ∷ [] ∷ codes "position_id" ∷ []) (λ e. cc)
      (ground (arith, list_beq_iff a (codes "payload")))
required_leads (a ∷ b ∷ []) h =
    leads (a ∷ b ∷ []) (codes "positions") [] (codes "position_id") position_id
      (codes "positions" ∷ [] ∷ codes "position_id" ∷ []) (λ e. cc)
      (ground (arith, list_beq_iff a (codes "payload"), list_beq_iff b (codes "live")))
required_leads (a ∷ b ∷ c ∷ []) h =
    let (f, n) = collection-IsNeeded c (ground arith) in
    leads (a ∷ b ∷ c ∷ []) c [] f n ([] ∷ f ∷ []) (λ e. cc)
      (ground (arith, list_beq_iff a (codes "payload"), list_beq_iff b (codes "live")))
required_leads (a ∷ b ∷ c ∷ d ∷ []) h =
    let (f, n) = collection-IsNeeded c (ground arith) in
    leads (a ∷ b ∷ c ∷ d ∷ []) c d f n (f ∷ []) (λ e. cc)
      (ground (arith, list_beq_iff a (codes "payload"), list_beq_iff b (codes "live")))
required_leads (a ∷ b ∷ c ∷ d ∷ f ∷ []) h =
    leads (a ∷ b ∷ c ∷ d ∷ f ∷ []) c d f (field-IsNeeded c f (ground arith)) [] (λ e. cc)
      (ground (arith, list_beq_iff a (codes "payload"), list_beq_iff b (codes "live")))
required_leads (a ∷ b ∷ c ∷ d ∷ f ∷ g ∷ s) h = absurd (ground arith)

collection_required :
    (c f : Text) → IsNeeded c f → required_segments (codes "payload" ∷ codes "live" ∷ c ∷ []) ≡ true
unfolding required_segments list_beq
collection_required _ _ position_id = refl
collection_required _ _ position_instrument = refl
collection_required _ _ position_quantity = refl
collection_required _ _ instrument_id = refl
collection_required _ _ instrument_increment = refl

field_required :
    (c d f : Text)
    → IsNeeded c f
    → required_segments (codes "payload" ∷ codes "live" ∷ c ∷ d ∷ f ∷ []) ≡ true
unfolding required_segments list_beq
field_required _ d _ position_id = refl
field_required _ d _ position_instrument = refl
field_required _ d _ position_quantity = refl
field_required _ d _ instrument_id = refl
field_required _ d _ instrument_increment = refl

entry_required :
    (c d f : Text)
    → IsNeeded c f
    → required_segments (codes "payload" ∷ codes "live" ∷ c ∷ d ∷ []) ≡ true
unfolding required_segments
entry_required c d f n = collection_required c f n

root_required : required_segments (codes "payload" ∷ []) ≡ true
unfolding required_segments list_beq
root_required = refl

live_required : required_segments (codes "payload" ∷ codes "live" ∷ []) ≡ true
unfolding required_segments list_beq
live_required = refl

leads_required : (s : List Text) → LeadsToNeeded s → required_segments s ≡ true
leads_required [] h = absurd (h.nonempty refl)
leads_required (a ∷ []) h =
    let p = h.path in
    let e : a ∷ [] ≡ codes "payload" ∷ [] = cc in ap required_segments e ∙ root_required
leads_required (a ∷ b ∷ []) h =
    let p = h.path in
    let e : a ∷ b ∷ [] ≡ codes "payload" ∷ codes "live" ∷ [] = cc in
    ap required_segments e ∙ live_required
leads_required (a ∷ b ∷ c ∷ []) h =
    let p = h.path in
    let e : a ∷ b ∷ c ∷ [] ≡ codes "payload" ∷ codes "live" ∷ h.collection ∷ [] = cc in
    ap required_segments e ∙ collection_required h.collection h.field h.needed
leads_required (a ∷ b ∷ c ∷ d ∷ []) h =
    let p = h.path in
    let e : a ∷ b ∷ c ∷ d ∷ [] ≡ codes "payload" ∷ codes "live" ∷ h.collection ∷ d ∷ [] = cc in
    ap required_segments e ∙ entry_required h.collection d h.field h.needed
leads_required (a ∷ b ∷ c ∷ d ∷ f ∷ []) h =
    let p = h.path in
    let e : a ∷ b ∷ c ∷ d ∷ f ∷ []
        ≡ codes "payload" ∷ codes "live" ∷ h.collection ∷ d ∷ h.field ∷ [] =
      cc in
    ap required_segments e ∙ field_required h.collection d h.field h.needed
leads_required (a ∷ b ∷ c ∷ d ∷ f ∷ g ∷ s) h = let p = h.path in absurd cc

-- The slice patterns accept the segments of a path exactly when it is a nonempty prefix of the path
-- of a needed field: omitting the field, its entry, its collection, `/payload/live` or `/payload`
-- makes the observation unfit, and nothing else does.
pub required_segments-LeadsToNeeded :
    (s : List Text) → (required_segments s ≡ true) ↔ LeadsToNeeded s
required_segments-LeadsToNeeded s = (required_leads s, leads_required s)

-- The loop over the omissions adds no finding exactly when none of them is required.
pub omission_findings-nil :
    (os : List FieldOmission) (fs : List AdvisoryFinding)
    → (omission_findings os fs ≡ [])
      ↔ (All (λ (o : FieldOmission). omission_is_required o.field.text ≡ false) os × (fs ≡ []))
unfolding omission_findings
omission_findings-nil [] fs = (λ h. (tt, h), λ (_, h). h)
omission_findings-nil (o ∷ os) fs =
    let f : AdvisoryFinding = record {
      code = required_field_omitted;
      severity = error;
      field = o.field;
      message = omission_message;
    } in
    let t : Bool = omission_is_required o.field.text in
    let ih = omission_findings-nil os (push_if t f fs) in
    let pn = push_if-nil t f fs in
    (
      λ h. let (a, e) = ih.0 h in let (n, k) = pn.0 e in ((n, a), k),
      λ ((n, a), k). ih.1 (a, pn.1 (n, k)),
    )
