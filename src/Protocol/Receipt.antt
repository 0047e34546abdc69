-- ===== src/Protocol/Receipt.antt =====
-- src/protocol/receipt.rs.
pub mod Consistency
use nautilus_agents.Base.{
  Bool, true, false, not, ltb, Option, none, some, Result, ok, err, ◌>>=◌, ◌>>◌, reject_if,
}
use nautilus_agents.Value.Timestamp.{TimestampNs}
use nautilus_agents.Protocol.Errors.{ErrorCode, DecisionError, ProtocolError}
use nautilus_agents.Protocol.Identity.{CorrelationId, IntentId, RequestId}
use nautilus_agents.Protocol.Reference.{ObservationRef}
use nautilus_agents.Protocol.Version.{ProtocolVersion, is_supported}

pub data DecisionStatus : Type 0 where
  accepted rejected authorized not_dispatched dispatched dispatch_unknown completed : DecisionStatus

pub data ReceiptError : Type 0 where
  unsupported_version : ProtocolVersion → ReceiptError
  update_before_creation : ReceiptError
  missing_error unexpected_error : DecisionStatus → ReceiptError
  error_code_mismatch : DecisionStatus → ErrorCode → ReceiptError

pub record CorrelationRefs : Type 0 where
  pub engine_correlation_id : Option CorrelationId
  pub engine_causation_id : Option CorrelationId

pub record DecisionReceipt : Type 0 where
  pub version : ProtocolVersion
  pub request_id : RequestId
  pub observation : ObservationRef
  pub intent_id : IntentId
  pub status : DecisionStatus
  pub error : Option DecisionError
  pub correlation : CorrelationRefs
  pub created_at : TimestampNs
  pub updated_at : TimestampNs

pub data ProposalResponse : Type 0 where
  receipt : DecisionReceipt → ProposalResponse
  error : ProtocolError → ProposalResponse

-- The codes of a rejection.
abbrev pub is_rejection_code : ErrorCode → Bool
is_rejection_code ErrorCode.forbidden = true
is_rejection_code ErrorCode.stale_observation = true
is_rejection_code ErrorCode.indeterminate_state = true
is_rejection_code ErrorCode.rejected = true
is_rejection_code ErrorCode.idempotency_conflict = true
is_rejection_code _ = false

abbrev pub is_dispatch_code : ErrorCode → Bool
is_dispatch_code ErrorCode.commit_failed = true
is_dispatch_code ErrorCode.dispatch_failed = true
is_dispatch_code _ = false

abbrev pub is_dispatch_failed : ErrorCode → Bool
is_dispatch_failed ErrorCode.dispatch_failed = true
is_dispatch_failed _ = false

unfoldable pub error_matches_status : DecisionStatus → ErrorCode → Bool
error_matches_status DecisionStatus.rejected code = is_rejection_code code
error_matches_status DecisionStatus.not_dispatched code = is_dispatch_code code
error_matches_status DecisionStatus.dispatch_unknown code = is_dispatch_failed code
error_matches_status DecisionStatus.accepted code = false
error_matches_status DecisionStatus.authorized code = false
error_matches_status DecisionStatus.dispatched code = false
error_matches_status DecisionStatus.completed code = false

-- The `match` on the status and on the presence of an error.
unfoldable pub check_presence :
    DecisionStatus → Option DecisionError → Result (Unit {0}) ReceiptError
check_presence DecisionStatus.rejected none = err (missing_error DecisionStatus.rejected)
check_presence DecisionStatus.not_dispatched none =
    err (missing_error DecisionStatus.not_dispatched)
check_presence DecisionStatus.dispatch_unknown none =
    err (missing_error DecisionStatus.dispatch_unknown)
check_presence DecisionStatus.accepted (some e) = err (unexpected_error DecisionStatus.accepted)
check_presence DecisionStatus.authorized (some e) = err (unexpected_error DecisionStatus.authorized)
check_presence DecisionStatus.dispatched (some e) = err (unexpected_error DecisionStatus.dispatched)
check_presence DecisionStatus.completed (some e) = err (unexpected_error DecisionStatus.completed)
check_presence _ _ = ok tt

-- `if let Some(error) = &self.error && !error_matches_status(…)`
unfoldable pub check_code : DecisionStatus → Option DecisionError → Result (Unit {0}) ReceiptError
unfolding error_matches_status
check_code status none = ok tt
check_code status (some e) =
    reject_if (not (error_matches_status status e.code)) (error_code_mismatch status e.code)

unfoldable pub validate : DecisionReceipt → Result (Unit {0}) ReceiptError
unfolding check_presence check_code
validate r = do
  reject_if (not (is_supported r.version)) (ReceiptError.unsupported_version r.version)
  reject_if (ltb r.updated_at.nanos r.created_at.nanos) update_before_creation
  check_presence r.status r.error
  check_code r.status r.error
