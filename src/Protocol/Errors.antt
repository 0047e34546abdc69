-- ===== src/Protocol/Errors.antt =====
-- src/protocol/error.rs.
use nautilus_agents.Base.{
  ℕ, Bool, true, Option, list_eq, nat_eq, ◌≡◌, ◌↔◌, refl, sym, ap, ◌∙◌, eqb, eqb_iff, if◌then◌else◌,
  PartialEq,
}
use nautilus_agents.Text.{Text}
use nautilus_agents.Protocol.Identity.{RequestId}

pub data ErrorCode : Type 0 where
  malformed unsupported_version forbidden stale_observation indeterminate_state rejected : ErrorCode
  idempotency_conflict commit_failed dispatch_failed : ErrorCode

pub record DecisionError : Type 0 where
  pub code : ErrorCode
  pub message : Text
  pub retryable : Bool

pub record ProtocolError : Type 0 where
  pub request_id : Option RequestId
  pub code : ErrorCode
  pub message : Text
  pub retryable : Bool

-- The derived `PartialEq`, by the position of the variant.
abbrev pub code_index : ErrorCode → ℕ
code_index ErrorCode.malformed = 0
code_index ErrorCode.unsupported_version = 1
code_index ErrorCode.forbidden = 2
code_index ErrorCode.stale_observation = 3
code_index ErrorCode.indeterminate_state = 4
code_index ErrorCode.rejected = 5
code_index ErrorCode.idempotency_conflict = 6
code_index ErrorCode.commit_failed = 7
code_index ErrorCode.dispatch_failed = 8

abbrev pub code_beq : ErrorCode → ErrorCode → Bool
code_beq a b = eqb (code_index a) (code_index b)

code_at : ℕ → ErrorCode
code_at n =
    if eqb n 0
    then ErrorCode.malformed
    else if eqb n 1
    then ErrorCode.unsupported_version
    else if eqb n 2
    then ErrorCode.forbidden
    else if eqb n 3
    then ErrorCode.stale_observation
    else if eqb n 4
    then ErrorCode.indeterminate_state
    else if eqb n 5
    then ErrorCode.rejected
    else if eqb n 6
    then ErrorCode.idempotency_conflict
    else if eqb n 7
    then ErrorCode.commit_failed
    else ErrorCode.dispatch_failed

code_at-index : (c : ErrorCode) → code_at (code_index c) ≡ c
unfolding code_at
code_at-index ErrorCode.malformed = refl
code_at-index ErrorCode.unsupported_version = refl
code_at-index ErrorCode.forbidden = refl
code_at-index ErrorCode.stale_observation = refl
code_at-index ErrorCode.indeterminate_state = refl
code_at-index ErrorCode.rejected = refl
code_at-index ErrorCode.idempotency_conflict = refl
code_at-index ErrorCode.commit_failed = refl
code_at-index ErrorCode.dispatch_failed = refl

pub code_beq_iff : (a b : ErrorCode) → (code_beq a b ≡ true) ↔ (a ≡ b)
code_beq_iff a b = (
  λ h.
      sym (code_at-index a)
      ∙ ap code_at ((eqb_iff (code_index a) (code_index b)).0 h)
      ∙ code_at-index b,
  λ e. (eqb_iff (code_index a) (code_index b)).1 (ap code_index e),
)

instance abbrev pub code_eq : PartialEq ErrorCode
code_eq = record { is_eq = code_beq; is_eq_iff = code_beq_iff }
