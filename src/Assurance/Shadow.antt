-- ===== src/Assurance/Shadow.antt =====
-- src/assurance/shadow.rs. Both policies run over one world, the baseline first.
pub mod Difference
use nautilus_agents.Base.{
  ◌/◌, ◌≡◌, refl, ◌↔◌, Bool, true, false, List, [], ◌∷◌, arith, push_if, ◌!=◌, list_eq, nat_eq,
  PartialEq,
}
use nautilus_agents.Text.{Text, codes}
use nautilus_agents.Value.FieldPath.{FieldPath, static_path, parse}
use nautilus_agents.Value.Identifier.{identifier_eq}
use nautilus_agents.Value.Quantity.{quantity_eq}
use nautilus_agents.Protocol.Live.{LiveIntent, ReducePosition, reduce_position}
use nautilus_agents.Protocol.Observation.{Observation}
use nautilus_agents.Authoring.Runner.{RunnerConfig, Runtime, run}
use nautilus_agents.Assurance.Trace.{
  AgentFailure, AgentFailureKind, TraceOutcome, policy_error, timeout, panic, proposed, no_proposal,
  failed,
}

-- The derived `PartialEq`.
abbrev pub kind_beq : AgentFailureKind → AgentFailureKind → Bool
kind_beq policy_error policy_error = true
kind_beq timeout timeout = true
kind_beq panic panic = true
kind_beq _ _ = false

pub kind_beq_iff : (a b : AgentFailureKind) → (kind_beq a b ≡ true) ↔ (a ≡ b)
kind_beq_iff a b = ground arith

instance abbrev pub kind_eq : PartialEq AgentFailureKind
kind_eq = record { is_eq = kind_beq; is_eq_iff = kind_beq_iff }

pub record ShadowCase : Type 0 where
  pub name : Text
  pub observation : Observation

pub record ShadowResult : Type 0 where
  pub «case» : Text
  pub baseline : TraceOutcome
  pub candidate : TraceOutcome
  pub differing_fields : List FieldPath

unfoldable pub position_id_path : FieldPath
unfolding static_path parse
position_id_path = static_path (record {
  text = codes "/outcome/proposed/intent/reduce_position/position_id";
  accepted = refl;
})

unfoldable pub instrument_id_path : FieldPath
unfolding static_path parse
instrument_id_path = static_path (record {
  text = codes "/outcome/proposed/intent/reduce_position/instrument_id";
  accepted = refl;
})

unfoldable pub quantity_path : FieldPath
unfolding static_path parse
quantity_path =
    static_path
      (record { text = codes "/outcome/proposed/intent/reduce_position/quantity"; accepted = refl })

unfoldable pub kind_path : FieldPath
unfolding static_path parse
kind_path = static_path (record { text = codes "/outcome/failed/kind"; accepted = refl })

unfoldable pub message_path : FieldPath
unfolding static_path parse
message_path = static_path (record { text = codes "/outcome/failed/message"; accepted = refl })

unfoldable pub outcome_path : FieldPath
unfolding static_path parse
outcome_path = static_path (record { text = codes "/outcome"; accepted = refl })

abbrev pub reduction : LiveIntent → ReducePosition
reduction (reduce_position r) = r

-- The fields of two proposals that differ.
unfoldable pub proposal_fields : ReducePosition → ReducePosition → List FieldPath
proposal_fields a b = push_if (a.quantity != b.quantity) quantity_path (
    push_if (a.instrument_id != b.instrument_id) instrument_id_path
      (push_if (a.position_id != b.position_id) position_id_path []))

-- The fields of two failures that differ.
unfoldable pub failure_fields : AgentFailure → AgentFailure → List FieldPath
failure_fields a b =
    push_if (a.message != b.message) message_path (push_if (a.kind != b.kind) kind_path [])

unfoldable pub differing_fields : TraceOutcome → TraceOutcome → List FieldPath
unfolding proposal_fields failure_fields
differing_fields no_proposal no_proposal = []
differing_fields (proposed a) (proposed b) =
    proposal_fields (reduction a.intent) (reduction b.intent)
differing_fields (failed a) (failed b) = failure_fields a b
differing_fields _ _ = outcome_path ∷ []

unfoldable pub is_match : ShadowResult → Bool
is_match r = elim r.differing_fields [ [] ↦ true | x ∷ xs ↦ false ]

-- Two runners over one world.
module _ {World FutureA FutureB Timer : Type 0} where
  unfoldable pub evaluate :
      Runtime World FutureA Timer
      → RunnerConfig
      → Runtime World FutureB Timer
      → RunnerConfig
      → ShadowCase
      → World
      → ShadowResult × World
  unfolding differing_fields
  evaluate baseline_runtime baseline_config candidate_runtime candidate_config c w =
      let (a, w1) = run baseline_runtime baseline_config c.observation w in
      let (b, w2) = run candidate_runtime candidate_config c.observation w1 in
      (
        record {
          «case» = c.name;
          baseline = a.outcome;
          candidate = b.outcome;
          differing_fields = differing_fields a.outcome b.outcome;
        },
        w2,
      )
