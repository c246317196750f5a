-- ===== src/Domain/Classify/Retryable.antt =====
-- Classified exceptions: what they say about a retry, and the results made of them.
use gemini_web_mcp.Common.{
  String, Bool, true, false, Option, none, some, List, [], ◌∷◌, arith, ◌≡◌, All, Bool-cases, inl,
  inr, or_text, Option-cases,
}
use gemini_web_mcp.Domain.Codes.{DomainErrorCode, is_failure_state}
use gemini_web_mcp.Domain.Results.{DomainResult, Drawn}
use gemini_web_mcp.Domain.Classify.{
  PyException, Classification, TextRule, is_transient_transport_error,
  exception_type_classification, text_classification_rules, first_match, classify_exception,
}

-- The codes after which a caller may repeat the call unchanged.
abbrev pub may_retry : DomainErrorCode → Bool
may_retry DomainErrorCode.cancelled = true
may_retry DomainErrorCode.timed_out = true
may_retry DomainErrorCode.network_error = true
may_retry DomainErrorCode.rate_limited = true
may_retry _ = false

-- The flag `retryable` follows from the code, and the state is one of a failure.
pub record IsSound (c : Classification) : Type 0 where
  pub by_code : c.retryable ≡ may_retry c.code
  pub fails : is_failure_state c.state ≡ true

rules-IsSound : All (λ (rule : TextRule). IsSound rule.1) text_classification_rules
unfolding text_classification_rules
rules-IsSound = ground arith

first_match-IsSound :
    (rules : List TextRule) (code text : String)
    → All (λ (rule : TextRule). IsSound rule.1) rules
    → IsSound (first_match rules code text)
unfolding first_match
first_match-IsSound [] code text h = ground arith
first_match-IsSound ((matches, c) ∷ rules) code text h = elim (Bool-cases (matches code text)) [
  | inl e ↦ rw e h.0
  | inr e ↦ rw e (first_match-IsSound rules code text h.1)
]

exception_type-IsSound :
    (error : PyException) (c : Classification)
    → exception_type_classification error ≡ some c
    → IsSound c
unfolding exception_type_classification
exception_type-IsSound error c h = ground arith

-- The result that carries a classification.
abbrev carried :
    {V : Type 0} (T : Type 0)
    → Classification
    → (String → V)
    → Drawn
    → String
    → String
    → Option String
    → DomainResult V T
carried T c detail drawn diagnostic_id operation request_id = record {
  ok = false;
  result = none;
  error = some (record {
    code = c.code;
    message = c.message;
    retryable = c.retryable;
    suggested_action = c.suggested_action;
    diagnostic_id = some diagnostic_id;
  });
  warnings = [];
  meta = record {
    request_id = or_text (some (or_text request_id drawn.new_request_id)) drawn.new_request_id;
    operation_state = c.state;
    observed_at = drawn.now;
    requested_backend = none;
    effective_backend = none;
    verification_status = "exception_classified";
    diagnostic_id = some diagnostic_id;
    details = ("operation", detail operation) ∷ [];
  };
}

module _ (upper lower : String → String) (error : PyException) where
  -- Every exception gets a failure state, and it is marked retryable exactly if its code is one of
  -- CANCELLED, TIMED_OUT, NETWORK_ERROR and RATE_LIMITED.
  pub classify_exception-IsSound : IsSound (classify_exception upper lower error)
  unfolding classify_exception
  classify_exception-IsSound = elim (Option-cases (exception_type_classification error)) [
    | inl e ↦
        rw (e, classify_exception)
          (first_match-IsSound text_classification_rules (upper error.code) (lower error.text)
            rules-IsSound)
    | inr (c, e) ↦ rw (e, classify_exception) (exception_type-IsSound error c e)
  ]

  -- A connection error or time-out of the transport that is no permission or value error is
  -- classified as retryable, whatever its text says.
  pub transient-retryable :
      is_transient_transport_error error ≡ true
      → error.is_permission_error ≡ false
      → error.is_value_error ≡ false
      → (classify_exception upper lower error).retryable ≡ true
  unfolding classify_exception is_transient_transport_error exception_type_classification
  transient-retryable t p v = ground arith
