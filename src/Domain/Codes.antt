-- ===== src/Domain/Codes.antt =====
-- The two enumerations of domain/results.py, their values, and the readers of those values.
use gemini_web_mcp.Common.{String, Bool, true, false, Option, none, some, ◌==◌, if◌then◌else◌}

pub data DomainErrorCode : Type 0 where
  invalid_argument : DomainErrorCode
  auth_required : DomainErrorCode
  auth_expired : DomainErrorCode
  session_not_found : DomainErrorCode
  capability_unavailable : DomainErrorCode
  upstream_rejected : DomainErrorCode
  upstream_changed : DomainErrorCode
  network_error : DomainErrorCode
  rate_limited : DomainErrorCode
  timed_out : DomainErrorCode
  cancelled : DomainErrorCode
  operation_not_found : DomainErrorCode
  operation_expired : DomainErrorCode
  artifact_not_returned : DomainErrorCode
  artifact_save_failed : DomainErrorCode
  verification_failed : DomainErrorCode
  internal_error : DomainErrorCode

-- `.value`
unfoldable pub domain_error_code_value : DomainErrorCode → String
domain_error_code_value DomainErrorCode.invalid_argument = "INVALID_ARGUMENT"
domain_error_code_value DomainErrorCode.auth_required = "AUTH_REQUIRED"
domain_error_code_value DomainErrorCode.auth_expired = "AUTH_EXPIRED"
domain_error_code_value DomainErrorCode.session_not_found = "SESSION_NOT_FOUND"
domain_error_code_value DomainErrorCode.capability_unavailable = "CAPABILITY_UNAVAILABLE"
domain_error_code_value DomainErrorCode.upstream_rejected = "UPSTREAM_REJECTED"
domain_error_code_value DomainErrorCode.upstream_changed = "UPSTREAM_CHANGED"
domain_error_code_value DomainErrorCode.network_error = "NETWORK_ERROR"
domain_error_code_value DomainErrorCode.rate_limited = "RATE_LIMITED"
domain_error_code_value DomainErrorCode.timed_out = "TIMED_OUT"
domain_error_code_value DomainErrorCode.cancelled = "CANCELLED"
domain_error_code_value DomainErrorCode.operation_not_found = "OPERATION_NOT_FOUND"
domain_error_code_value DomainErrorCode.operation_expired = "OPERATION_EXPIRED"
domain_error_code_value DomainErrorCode.artifact_not_returned = "ARTIFACT_NOT_RETURNED"
domain_error_code_value DomainErrorCode.artifact_save_failed = "ARTIFACT_SAVE_FAILED"
domain_error_code_value DomainErrorCode.verification_failed = "VERIFICATION_FAILED"
domain_error_code_value DomainErrorCode.internal_error = "INTERNAL_ERROR"

-- `DomainErrorCode(value)`: a text that is no value raises `ValueError`.
unfoldable pub domain_error_code_of : String → Option DomainErrorCode
domain_error_code_of s =
    if s == "INVALID_ARGUMENT"
    then some DomainErrorCode.invalid_argument
    else if s == "AUTH_REQUIRED"
    then some DomainErrorCode.auth_required
    else if s == "AUTH_EXPIRED"
    then some DomainErrorCode.auth_expired
    else if s == "SESSION_NOT_FOUND"
    then some DomainErrorCode.session_not_found
    else if s == "CAPABILITY_UNAVAILABLE"
    then some DomainErrorCode.capability_unavailable
    else if s == "UPSTREAM_REJECTED"
    then some DomainErrorCode.upstream_rejected
    else if s == "UPSTREAM_CHANGED"
    then some DomainErrorCode.upstream_changed
    else if s == "NETWORK_ERROR"
    then some DomainErrorCode.network_error
    else if s == "RATE_LIMITED"
    then some DomainErrorCode.rate_limited
    else if s == "TIMED_OUT"
    then some DomainErrorCode.timed_out
    else if s == "CANCELLED"
    then some DomainErrorCode.cancelled
    else if s == "OPERATION_NOT_FOUND"
    then some DomainErrorCode.operation_not_found
    else if s == "OPERATION_EXPIRED"
    then some DomainErrorCode.operation_expired
    else if s == "ARTIFACT_NOT_RETURNED"
    then some DomainErrorCode.artifact_not_returned
    else if s == "ARTIFACT_SAVE_FAILED"
    then some DomainErrorCode.artifact_save_failed
    else if s == "VERIFICATION_FAILED"
    then some DomainErrorCode.verification_failed
    else if s == "INTERNAL_ERROR"
    then some DomainErrorCode.internal_error
    else none

pub DomainErrorCode-discrete : Discrete DomainErrorCode
DomainErrorCode-discrete = hlevel

pub data OperationState : Type 0 where
  accepted : OperationState
  queued : OperationState
  running : OperationState
  completed : OperationState
  partial : OperationState
  timed_out : OperationState
  cancel_requested : OperationState
  cancelled : OperationState
  expired : OperationState
  failed : OperationState
  unavailable : OperationState

-- `.value`
unfoldable pub operation_state_value : OperationState → String
operation_state_value OperationState.accepted = "accepted"
operation_state_value OperationState.queued = "queued"
operation_state_value OperationState.running = "running"
operation_state_value OperationState.completed = "completed"
operation_state_value OperationState.partial = "partial"
operation_state_value OperationState.timed_out = "timed_out"
operation_state_value OperationState.cancel_requested = "cancel_requested"
operation_state_value OperationState.cancelled = "cancelled"
operation_state_value OperationState.expired = "expired"
operation_state_value OperationState.failed = "failed"
operation_state_value OperationState.unavailable = "unavailable"

-- `OperationState(value)`: a text that is no value raises `ValueError`.
unfoldable pub operation_state_of : String → Option OperationState
operation_state_of s =
    if s == "accepted"
    then some OperationState.accepted
    else if s == "queued"
    then some OperationState.queued
    else if s == "running"
    then some OperationState.running
    else if s == "completed"
    then some OperationState.completed
    else if s == "partial"
    then some OperationState.partial
    else if s == "timed_out"
    then some OperationState.timed_out
    else if s == "cancel_requested"
    then some OperationState.cancel_requested
    else if s == "cancelled"
    then some OperationState.cancelled
    else if s == "expired"
    then some OperationState.expired
    else if s == "failed"
    then some OperationState.failed
    else if s == "unavailable"
    then some OperationState.unavailable
    else none

pub OperationState-discrete : Discrete OperationState
OperationState-discrete = hlevel

-- `failed_states` of `DomainResult.__post_init__`.
abbrev pub is_failure_state : OperationState → Bool
is_failure_state OperationState.failed = true
is_failure_state OperationState.timed_out = true
is_failure_state OperationState.cancelled = true
is_failure_state OperationState.unavailable = true
is_failure_state OperationState.expired = true
is_failure_state _ = false
