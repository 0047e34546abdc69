-- ===== src/Protocol/Receipt/Consistency.antt =====
-- `DecisionReceipt::validate` accepts exactly the receipts whose error fits their status.
use nautilus_agents.Base.{
  ◌≤◌, ◌≡◌, refl, ◌↔◌, true, arith, Option, none, some, Result, ok, ◌>>◌, list_eq, nat_eq,
}
use nautilus_agents.Protocol.Errors.{ErrorCode, DecisionError}
use nautilus_agents.Protocol.Version.{is_supported_iff, protocol_version}
use nautilus_agents.Protocol.Receipt.{
  DecisionStatus, ReceiptError, DecisionReceipt, validate, check_presence, check_code,
  error_matches_status,
}

-- The errors that a status allows: none for progress, a code of its own for a negative end.
pub data Allows : DecisionStatus → Option ErrorCode → Type 0 where
  accepted : Allows DecisionStatus.accepted none
  authorized : Allows DecisionStatus.authorized none
  dispatched : Allows DecisionStatus.dispatched none
  completed : Allows DecisionStatus.completed none
  forbidden : Allows DecisionStatus.rejected (some ErrorCode.forbidden)
  stale : Allows DecisionStatus.rejected (some ErrorCode.stale_observation)
  indeterminate : Allows DecisionStatus.rejected (some ErrorCode.indeterminate_state)
  rejected : Allows DecisionStatus.rejected (some ErrorCode.rejected)
  conflict : Allows DecisionStatus.rejected (some ErrorCode.idempotency_conflict)
  not_committed : Allows DecisionStatus.not_dispatched (some ErrorCode.commit_failed)
  not_dispatched : Allows DecisionStatus.not_dispatched (some ErrorCode.dispatch_failed)
  unknown : Allows DecisionStatus.dispatch_unknown (some ErrorCode.dispatch_failed)

abbrev pub code_of : Option DecisionError → Option ErrorCode
code_of none = none
code_of (some e) = some e.code

pub record IsConsistent (r : DecisionReceipt) : Type 0 where
  pub supported : r.version ≡ protocol_version
  pub ordered : r.created_at.nanos ≤ r.updated_at.nanos
  pub allowed : Allows r.status (code_of r.error)

-- The two checks of the error together.
abbrev check_error : DecisionStatus → Option DecisionError → Result (Unit {0}) ReceiptError
check_error s e = do check_presence s e; check_code s e

allowed_checks :
    {s : DecisionStatus} {c : Option ErrorCode} (e : Option DecisionError)
    → Allows s c
    → code_of e ≡ c
    → check_error s e ≡ ok tt
unfolding check_presence check_code
allowed_checks none accepted h = refl
allowed_checks (some e) accepted h = cc
allowed_checks none authorized h = refl
allowed_checks (some e) authorized h = cc
allowed_checks none dispatched h = refl
allowed_checks (some e) dispatched h = cc
allowed_checks none completed h = refl
allowed_checks (some e) completed h = cc
allowed_checks none forbidden h = cc
allowed_checks (some e) forbidden h = ground arith
allowed_checks none stale h = cc
allowed_checks (some e) stale h = ground arith
allowed_checks none indeterminate h = cc
allowed_checks (some e) indeterminate h = ground arith
allowed_checks none rejected h = cc
allowed_checks (some e) rejected h = ground arith
allowed_checks none conflict h = cc
allowed_checks (some e) conflict h = ground arith
allowed_checks none not_committed h = cc
allowed_checks (some e) not_committed h = ground arith
allowed_checks none not_dispatched h = cc
allowed_checks (some e) not_dispatched h = ground arith
allowed_checks none unknown h = cc
allowed_checks (some e) unknown h = ground arith

code_allowed :
    (s : DecisionStatus) (c : ErrorCode) → error_matches_status s c ≡ true → Allows s (some c)
unfolding error_matches_status
code_allowed DecisionStatus.rejected ErrorCode.forbidden h = forbidden
code_allowed DecisionStatus.rejected ErrorCode.stale_observation h = stale
code_allowed DecisionStatus.rejected ErrorCode.indeterminate_state h = indeterminate
code_allowed DecisionStatus.rejected ErrorCode.rejected h = rejected
code_allowed DecisionStatus.rejected ErrorCode.idempotency_conflict h = conflict
code_allowed DecisionStatus.not_dispatched ErrorCode.commit_failed h = not_committed
code_allowed DecisionStatus.not_dispatched ErrorCode.dispatch_failed h = not_dispatched
code_allowed DecisionStatus.dispatch_unknown ErrorCode.dispatch_failed h = unknown
code_allowed _ _ h = cc

checks_allowed :
    (s : DecisionStatus) (e : Option DecisionError) → check_error s e ≡ ok tt → Allows s (code_of e)
unfolding check_presence check_code
checks_allowed DecisionStatus.accepted none h = accepted
checks_allowed DecisionStatus.authorized none h = authorized
checks_allowed DecisionStatus.dispatched none h = dispatched
checks_allowed DecisionStatus.completed none h = completed
checks_allowed DecisionStatus.rejected (some e) h =
    code_allowed DecisionStatus.rejected e.code (ground arith)
checks_allowed DecisionStatus.not_dispatched (some e) h =
    code_allowed DecisionStatus.not_dispatched e.code (ground arith)
checks_allowed DecisionStatus.dispatch_unknown (some e) h =
    code_allowed DecisionStatus.dispatch_unknown e.code (ground arith)
checks_allowed _ _ h = cc

-- A receipt is accepted exactly when it has the implemented version, is not updated before its
-- creation, and has no error in a state of progress, or in a negative one an error of that state.
pub validate-IsConsistent : (r : DecisionReceipt) → (validate r ≡ ok tt) ↔ IsConsistent r
unfolding validate
validate-IsConsistent r = (
  λ h. record {
    supported = (is_supported_iff r.version).0 (ground arith);
    ordered = ground arith;
    allowed = checks_allowed r.status r.error (ground arith);
  },
  λ v.
      let s = (is_supported_iff r.version).1 v.supported in
      let a : check_error r.status r.error ≡ ok tt = allowed_checks r.error v.allowed refl in
      ground arith,
)
