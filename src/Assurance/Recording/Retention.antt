-- ===== src/Assurance/Recording/Retention.antt =====
-- What a recorder keeps of an observation, by its retention class and the capture mode.
use nautilus_agents.Base.{
  ℕ, ◌≡◌, refl, ap, ◌≢◌, inl, inr, false, List, [], ◌∷◌, ◌++◌, arith, Option, none, some, Result,
  ok, err, list_eq, nat_eq, Bool-cases, Result-cases,
}
use nautilus_agents.Text.{Text}
use nautilus_agents.Protocol.Canonical.{Canonicalizer}
use nautilus_agents.Protocol.Observation.{
  Observation, ObservationDigest, ObservationError, RetentionClass, restricted, validate, reference,
}
use nautilus_agents.Assurance.Disk.{Files}
use nautilus_agents.Assurance.Disk.Triples.{Ends}
use mathlib.Core.Path.{subst}
use nautilus_agents.Assurance.Recording.{
  redact_with, redacted_record, full_record, replace_with_appended_record, record_of,
  ObservationCapture, reference_only, redacted, full, RecordingError, JsonlRecord,
  observation_reference, observation, TraceRecorder, is_restricted, Environment, record_encoded,
  record_line, record_selected, selected_record, record_observation,
}
use nautilus_agents.Assurance.Recording.Appending.{
  replace-atomic, Appended, Untouched, nothing_done, weaken-Ends,
}

module _ (c : Canonicalizer ObservationDigest) (show : ObservationError → Text)
    (recorder : TraceRecorder) (o : Observation) where
  -- What each capture mode may record of the observation.
  pub data IsPermitted : JsonlRecord → Type 0 where
    by_reference :
        recorder.config.observation_capture ≡ reference_only
        → IsPermitted (observation_reference (reference o))
    by_redaction :
        recorder.config.observation_capture ≡ redacted
        → (redact : Observation → Result Observation Text) → recorder.redactor ≡ some redact
        → (o' : Observation) → redact o ≡ ok o'
        → validate c o' ≡ ok tt
        → o'.retention ≢ restricted
        → IsPermitted (observation (reference o) o')
    in_full :
        recorder.config.observation_capture ≡ full
        → o.retention ≢ restricted
        → IsPermitted (observation (reference o) o)

  unrestricted : (r : RetentionClass) → is_restricted r ≡ false → r ≢ restricted
  unrestricted r h e = let k = ap is_restricted e in cc

  full_IsPermitted_lem :
      (line : JsonlRecord)
      → recorder.config.observation_capture ≡ full
      → full_record c show o ≡ ok line
      → IsPermitted line
  full_IsPermitted_lem line m h = elim (Bool-cases (is_restricted o.retention)) [
    | inl e ↦ absurd (ground arith)
    | inr e ↦
        let same : observation (reference o) o ≡ line = ground arith in
        subst IsPermitted same (in_full m (unrestricted o.retention e))
  ]

  redacted_IsPermitted_lem :
      (line : JsonlRecord) (redact : Observation → Result Observation Text) (o' : Observation)
      → recorder.config.observation_capture ≡ redacted
      → recorder.redactor ≡ some redact
      → redact o ≡ ok o'
      → redacted_record c show o o' ≡ ok line
      → IsPermitted line
  redacted_IsPermitted_lem line redact o' m r e h = elim (Result-cases (validate c o')) [
    | inr (x, k) ↦ absurd (ground arith)
    | inl (u, k) ↦ elim (Bool-cases (is_restricted o'.retention)) [
      | inl t ↦ absurd (ground arith)
      | inr t ↦
          let same : observation (reference o) o' ≡ line = ground arith in
          subst IsPermitted same (by_redaction m redact r o' e k (unrestricted o'.retention t))
    ]
  ]

  redact_with-ok :
      (r : Option (Observation → Result Observation Text)) (o' : Observation)
      → redact_with c show r o ≡ ok o'
      → (redact : Observation → Result Observation Text) × (r ≡ some redact) × (redact o ≡ ok o')
  redact_with-ok none o' h = absurd (ground arith)
  redact_with-ok (some redact) o' h = elim (Result-cases (redact o)) [
    | inl (x, e) ↦ (redact, refl, ground arith)
    | inr (x, e) ↦ absurd (ground arith)
  ]

  record_of-IsPermitted :
      (m : ObservationCapture) (line : JsonlRecord)
      → recorder.config.observation_capture ≡ m
      → record_of c show m recorder o ≡ ok line
      → IsPermitted line
  record_of-IsPermitted reference_only line m h =
      let same : observation_reference (reference o) ≡ line = ground arith in
      subst IsPermitted same (by_reference m)
  record_of-IsPermitted redacted line m h =
      elim (Result-cases (redact_with c show recorder.redactor o)) [
        | inr (x, k) ↦ absurd (ground arith)
        | inl (o', k) ↦
            let (redact, r, e) = redact_with-ok recorder.redactor o' k in
            redacted_IsPermitted_lem line redact o' m r e (ground arith)
      ]
  record_of-IsPermitted full line m h = full_IsPermitted_lem line m h

  -- The line of a permitted record, as the serializer writes it.
  pub record IsLine (env : Environment) (bytes : List ℕ) : Type 0 where
    pub record_ : JsonlRecord
    pub permitted : IsPermitted record_
    pub serialized : (json : List ℕ) × (env.to_vec record_ ≡ ok json) × (bytes ≡ json ++ 10 ∷ [])

  -- A success appended the line of a permitted record.
  abbrev pub AppendedPermitted : Environment → Files → Files → Type 0
  AppendedPermitted env fs gs =
      (bytes : List ℕ) × IsLine env bytes × Appended recorder.path env.uuid bytes fs gs

  encoded_rule :
      (env : Environment) (line : JsonlRecord) (fs : Files) (r : Result (List ℕ) Text)
      → IsPermitted line
      → env.to_vec line ≡ r
      → Ends
          (AppendedPermitted env fs)
          (Untouched recorder.path env.uuid fs)
          (record_encoded env recorder r fs)
  encoded_rule env line fs (err e) p h = nothing_done recorder.path env.uuid fs
  encoded_rule env line fs (ok json) p h =
      let bytes = json ++ 10 ∷ [] in
      weaken-Ends (Appended recorder.path env.uuid bytes fs) (AppendedPermitted env fs)
        (Untouched recorder.path env.uuid fs) (Untouched recorder.path env.uuid fs)
        (replace_with_appended_record env.faults env.uuid recorder.path bytes fs)
        (λ gs a. (bytes, record { record_ = line; permitted = p; serialized = (json, h, refl) }, a))
        (λ gs a. a) (replace-atomic env.faults env.uuid recorder.path bytes fs)

  selected_rule :
      (env : Environment) (fs : Files) (r : Result JsonlRecord RecordingError)
      → record_of c show recorder.config.observation_capture recorder o ≡ r
      → Ends
          (AppendedPermitted env fs)
          (Untouched recorder.path env.uuid fs)
          (record_selected c show env recorder r fs)
  unfolding record_line
  selected_rule env fs (err e) h = nothing_done recorder.path env.uuid fs
  selected_rule env fs (ok line) h =
      encoded_rule env line fs (env.to_vec line)
        (record_of-IsPermitted recorder.config.observation_capture line refl h) refl

  -- Recording an observation, whatever fails: a success appended to the target the line of a record
  -- that the capture mode permits, which holds the reference alone, or a redaction of the caller that
  -- validates and is not restricted, or the observation when it is not restricted; an error left the
  -- target as it was. No other file but the temporary one changed.
  pub record_observation-IsPermitted :
      (env : Environment) (fs : Files)
      → Ends
          (AppendedPermitted env fs)
          (Untouched recorder.path env.uuid fs)
          (record_observation c show env recorder o fs)
  unfolding record_observation selected_record
  record_observation-IsPermitted env fs =
      selected_rule env fs (record_of c show recorder.config.observation_capture recorder o) refl
