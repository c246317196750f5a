-- ===== src/Tests/ResultTests.antt =====
-- The theorems on domain/results.py at concrete results and exceptions.
use gemini_web_mcp.Common.{String, true, false, ◌≡◌, ◌↔◌, refl, none, some, [], ◌∷◌, returned}
use gemini_web_mcp.Domain.Codes.{OperationState, DomainErrorCode}
use gemini_web_mcp.Domain.Results.{Drawn, DomainResult, construct, create, no_options}
use gemini_web_mcp.Domain.Results.Valid.{IsValid, construct_iff}
use gemini_web_mcp.Domain.Classify.{PyException, classify_exception, is_transient_transport_error}
use gemini_web_mcp.Domain.Classify.Retryable.{
  IsSound, classify_exception-IsSound, transient-retryable,
}

abbrev drawn : Drawn
drawn = record { new_request_id = "request_1"; now = "2026-01-01" }

abbrev mismatched : DomainResult String String
unfolding create
mismatched = record {
  ok = false;
  result = none;
  error = some (record {
    code = DomainErrorCode.timed_out;
    message = "late";
    retryable = true;
    suggested_action = none;
    diagnostic_id = some "diagnostic_1";
  });
  warnings = [];
  meta = create drawn OperationState.timed_out none no_options;
}

construct_iff_example : (construct mismatched ≡ returned mismatched) ↔ IsValid mismatched
construct_iff_example = construct_iff mismatched

abbrev refused : PyException
refused = record {
  is_cancelled_error = false;
  is_timeout_error = false;
  is_permission_error = false;
  is_value_error = false;
  is_connection_error = true;
  mro = ("builtins", "ConnectionRefusedError") ∷ [];
  code = "";
  text = "connection refused";
}

-- Letters that have no other case are what the tests use.
abbrev same_case : String → String
same_case s = s

refused_transport : is_transient_transport_error refused ≡ true
unfolding is_transient_transport_error
refused_transport = refl

classify_exception-IsSound_example : IsSound (classify_exception same_case same_case refused)
classify_exception-IsSound_example = classify_exception-IsSound same_case same_case refused

transient-retryable_example : (classify_exception same_case same_case refused).retryable ≡ true
transient-retryable_example =
    transient-retryable same_case same_case refused refused_transport refl refl
