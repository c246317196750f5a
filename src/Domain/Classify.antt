-- ===== src/Domain/Classify.antt =====
-- The classification of exceptions in domain/results.py: `_classify_exception`, its rules, and
-- `result_from_exception`. An exception is what the code observes of it: the answers of
-- `isinstance`, the module and name of each class of its method resolution order, `str` of its
-- attribute `code` (the empty text where it has none) and `str` of itself. `str.upper` and
-- `str.lower` are parameters.
pub mod Retryable
use gemini_web_mcp.Common.{
  String, Bool, true, false, ◌&&◌, ◌||◌, Option, none, some, List, [], ◌∷◌, if◌then◌else◌, ◌==◌,
  Points, points, contains, any, Outcome, or_text,
}
use gemini_web_mcp.Domain.Codes.{DomainErrorCode, OperationState}
use gemini_web_mcp.Domain.Codes.DomainErrorCode.{
  auth_required, auth_expired, invalid_argument, session_not_found, capability_unavailable,
  upstream_rejected, upstream_changed, network_error, rate_limited, internal_error,
}
use gemini_web_mcp.Domain.Results.{DomainError, DomainResult, Drawn, MetaOptions, failure}

pub record PyException : Type 0 where
  pub is_cancelled_error : Bool
  pub is_timeout_error : Bool
  pub is_permission_error : Bool
  pub is_value_error : Bool
  pub is_connection_error : Bool
  pub mro : List (String × String)
  pub code : String
  pub text : String

-- `_Classification`
pub record Classification : Type 0 where
  pub code : DomainErrorCode
  pub message : String
  pub retryable : Bool
  pub suggested_action : Option String
  pub state : OperationState

-- `_curl_transport_type`
unfoldable pub curl_transport_type : PyException → String → Bool
unfolding any
curl_transport_type error name =
    any (λ base. base.0 == "curl_cffi.requests.exceptions" && base.1 == name) error.mro

unfoldable pub is_transient_transport_error : PyException → Bool
is_transient_transport_error error =
    (error.is_connection_error || error.is_timeout_error)
    || (curl_transport_type error "ConnectionError" || curl_transport_type error "Timeout")

abbrev pub cancelled_class : Classification
cancelled_class = record {
  code = DomainErrorCode.cancelled;
  message = "The operation was cancelled.";
  retryable = true;
  suggested_action = some "Retry the operation if it is still needed.";
  state = OperationState.cancelled;
}

abbrev pub type_timed_out_class : Classification
type_timed_out_class = record {
  code = DomainErrorCode.timed_out;
  message = "The upstream operation timed out.";
  retryable = true;
  suggested_action = some "Retry later or increase the operation timeout.";
  state = OperationState.timed_out;
}

abbrev pub auth_required_class : Classification
auth_required_class = record {
  code = auth_required;
  message = "Authentication is required for this operation.";
  retryable = false;
  suggested_action = some "Load a valid Gemini Web cookie and retry.";
  state = OperationState.failed;
}

abbrev pub invalid_argument_class : Classification
invalid_argument_class = record {
  code = invalid_argument;
  message = "One or more arguments are invalid.";
  retryable = false;
  suggested_action = some "Correct the arguments and retry.";
  state = OperationState.failed;
}

abbrev pub network_class : Classification
network_class = record {
  code = network_error;
  message = "The upstream service could not be reached.";
  retryable = true;
  suggested_action = some "Check network or proxy settings and retry.";
  state = OperationState.failed;
}

-- `_exception_type_classification`
unfoldable pub exception_type_classification : PyException → Option Classification
exception_type_classification error =
    if error.is_cancelled_error
    then some cancelled_class
    else if error.is_timeout_error || curl_transport_type error "Timeout"
    then some type_timed_out_class
    else if error.is_permission_error
    then some auth_required_class
    else if error.is_value_error
    then some invalid_argument_class
    else if error.is_connection_error || curl_transport_type error "ConnectionError"
    then some network_class
    else none

-- `marker in error_text`
unfoldable pub has : String → String → Bool
has error_text marker = contains (points error_text) (points marker)

-- `_contains_any`
unfoldable pub contains_any : String → List String → Bool
unfolding any
contains_any error_text markers = any (has error_text) markers

unfoldable pub matches_no_cookie : String → String → Bool
matches_no_cookie legacy_code error_text =
    legacy_code == "NO_COOKIE"
    || ((has error_text "psid" || has error_text "cookie")
        && (has error_text "not set" || has error_text "missing"))

unfoldable pub matches_invalid_cookie : String → String → Bool
matches_invalid_cookie legacy_code error_text =
    legacy_code == "INVALID_COOKIE"
    || ((has error_text "cookie" || has error_text "psid")
        && contains_any error_text ("invalid" ∷ "expired" ∷ "rejected" ∷ []))

unfoldable pub matches_session_not_found : String → String → Bool
matches_session_not_found legacy_code error_text =
    legacy_code == "SESSION_NOT_FOUND"
    || (has error_text "session" && (has error_text "not found" || has error_text "不存在"))

unfoldable pub matches_network_error : String → String → Bool
matches_network_error legacy_code error_text =
    legacy_code == "NETWORK_ERROR"
    || contains_any error_text ("network" ∷ "connection refused" ∷ "connection reset" ∷ [])

unfoldable pub matches_model_unavailable : String → String → Bool
matches_model_unavailable legacy_code error_text =
    legacy_code == "MODEL_UNAVAILABLE"
    || (has error_text "model" && contains_any error_text ("unavailable" ∷ "not available" ∷ []))

abbrev pub TextRule : Type 0
TextRule = (String → String → Bool) × Classification

-- `_TEXT_CLASSIFICATION_RULES`
unfoldable pub text_classification_rules : List TextRule
text_classification_rules =
    (
      matches_no_cookie,
      record {
        code = auth_required;
        message = "Gemini Web authentication is not configured.";
        retryable = false;
        suggested_action =
            some "Use gemini_get_cookie_from_browser or configure GEMINI_PSID, then retry.";
        state = OperationState.failed;
      },
    )
    ∷ (
      (λ code text.
          (code == "AUTH_REQUIRED" || code == "UNAUTHORIZED")
          || contains_any text ("authentication required" ∷ "not authenticated" ∷ [])),
      auth_required_class,
    )
    ∷ (
      matches_invalid_cookie,
      record {
        code = auth_expired;
        message = "Gemini Web authentication is invalid or expired.";
        retryable = false;
        suggested_action = some "Refresh the Gemini Web cookie and retry.";
        state = OperationState.failed;
      },
    )
    ∷ (
      matches_session_not_found,
      record {
        code = session_not_found;
        message = "The requested session does not exist.";
        retryable = false;
        suggested_action = some "Create a session with gemini_start_chat and use the returned ID.";
        state = OperationState.failed;
      },
    )
    ∷ (
      (λ code text. (code == "RATE_LIMIT" || code == "RATE_LIMITED") || has text "rate limit"),
      record {
        code = rate_limited;
        message = "The upstream service rate limit was reached.";
        retryable = true;
        suggested_action = some "Wait before retrying or use a lower-cost model.";
        state = OperationState.failed;
      },
    )
    ∷ ((λ code text. has text "timeout" || has text "timed out"), type_timed_out_class)
    ∷ (matches_network_error, network_class)
    ∷ (
      matches_model_unavailable,
      record {
        code = capability_unavailable;
        message = "The requested model or capability is unavailable.";
        retryable = false;
        suggested_action = some "Choose an available model or inspect account capabilities.";
        state = OperationState.unavailable;
      },
    )
    ∷ (
      (λ code text.
          code == "UPSTREAM_CHANGED"
          || contains_any text
              ("upstream response changed" ∷ "response shape changed" ∷ "parse drift" ∷ [])),
      record {
        code = upstream_changed;
        message = "The upstream response no longer matches the supported contract.";
        retryable = false;
        suggested_action = some "Update the adapter or report the diagnostic ID.";
        state = OperationState.failed;
      },
    )
    ∷ (
      (λ code text.
          contains_any text ("upstream rejected" ∷ "forbidden" ∷ "permission denied" ∷ [])),
      record {
        code = upstream_rejected;
        message = "The upstream service rejected the operation.";
        retryable = false;
        suggested_action = some "Check account permissions and request parameters before retrying.";
        state = OperationState.failed;
      },
    )
    ∷ []

abbrev pub internal_class : Classification
internal_class = record {
  code = internal_error;
  message = "An internal error prevented the operation from completing.";
  retryable = false;
  suggested_action = some "Retry once; if it persists, report the diagnostic ID.";
  state = OperationState.failed;
}

-- The loop over the rules: the first that matches wins.
unfoldable pub first_match : List TextRule → String → String → Classification
first_match [] legacy_code error_text = internal_class
first_match ((matches, classification) ∷ rules) legacy_code error_text =
    if matches legacy_code error_text
    then classification
    else first_match rules legacy_code error_text

module _ (upper lower : String → String) where
  -- `_classify_exception`
  unfoldable pub classify_exception : PyException → Classification
  classify_exception error = elim (exception_type_classification error) [
    | some type_classification ↦ type_classification
    | none ↦ first_match text_classification_rules (upper error.code) (lower error.text)
  ]

  -- `result_from_exception`, without the log line; `V` holds the operation's name in `details`.
  unfoldable pub result_from_exception :
      {V T : Type 0}
      → (String → V)
      → Drawn
      → String
      → PyException
      → String
      → Option String
      → Outcome (DomainResult V T)
  result_from_exception detail drawn diagnostic_id error operation request_id =
      let c = classify_exception error in
      failure drawn
        (record {
          code = c.code;
          message = c.message;
          retryable = c.retryable;
          suggested_action = c.suggested_action;
          diagnostic_id = some diagnostic_id;
        })
        none c.state []
        (record {
          request_id = some (or_text request_id drawn.new_request_id);
          requested_backend = none;
          effective_backend = none;
          verification_status = "exception_classified";
          details = ("operation", detail operation) ∷ [];
        })
