-- ===== src/Domain/Results.antt =====
-- `ResultMeta`, `DomainResult` and the factories of domain/results.py. `V` stands for the values of
-- the mapping `details`, which the source types `Any`. Request and diagnostic ids come from
-- `uuid4`, and `observed_at` from the clock: the ids and the time that a call draws are arguments.
pub mod Valid
use gemini_web_mcp.Common.{
  String, Bool, true, false, not, ◌&&◌, Option, none, some, List, [], map, if◌then◌else◌, is_some,
  or_text, ◌==◌, Dict, Outcome, returned, PyError, value_error, raise_if, ◌>>=◌, ◌>>◌,
}
use gemini_web_mcp.Domain.Codes.{
  DomainErrorCode, OperationState, domain_error_code_value, operation_state_value, is_failure_state,
}

pub record DomainError : Type 0 where
  pub code : DomainErrorCode
  pub message : String
  pub retryable : Bool
  pub suggested_action : Option String
  pub diagnostic_id : Option String

pub record DomainWarning : Type 0 where
  pub code : String
  pub message : String
  pub suggested_action : Option String

pub record ResultMeta (V : Type 0) : Type 0 where
  pub request_id : String
  pub operation_state : OperationState
  pub observed_at : String
  pub requested_backend : Option String
  pub effective_backend : Option String
  pub verification_status : String
  pub diagnostic_id : Option String
  pub details : Dict V

pub record DomainResult (V T : Type 0) : Type 0 where
  pub ok : Bool
  pub result : Option T
  pub error : Option DomainError
  pub warnings : List DomainWarning
  pub meta : ResultMeta V

-- What a call draws from `uuid4` and the clock.
pub record Drawn : Type 0 where
  pub new_request_id : String
  pub now : String

-- The keyword arguments that the factories share, with the source's defaults in `no_options`.
pub record MetaOptions (V : Type 0) : Type 0 where
  pub request_id : Option String
  pub requested_backend : Option String
  pub effective_backend : Option String
  pub verification_status : String
  pub details : Dict V

abbrev pub no_options : {V : Type 0} → MetaOptions V
no_options = record {
  request_id = none;
  requested_backend = none;
  effective_backend = none;
  verification_status = "not_applicable";
  details = [];
}

-- `ResultMeta.create`; no caller of the factories passes `observed_at`.
unfoldable pub create :
    {V : Type 0} → Drawn → OperationState → Option String → MetaOptions V → ResultMeta V
create drawn operation_state diagnostic_id options = record {
  request_id = or_text options.request_id drawn.new_request_id;
  operation_state = operation_state;
  observed_at = drawn.now;
  requested_backend = options.requested_backend;
  effective_backend = options.effective_backend;
  verification_status = options.verification_status;
  diagnostic_id = diagnostic_id;
  details = options.details;
}

-- `==` on optional texts
unfoldable pub same_text : Option String → Option String → Bool
same_text none none = true
same_text (some a) (some b) = a == b
same_text none (some b) = false
same_text (some a) none = false

-- `self.error is not None and self.error.diagnostic_id != self.meta.diagnostic_id`
unfoldable pub diagnostics_differ : Option DomainError → Option String → Bool
unfolding same_text
diagnostics_differ none diagnostic_id = false
diagnostics_differ (some e) diagnostic_id = not (same_text e.diagnostic_id diagnostic_id)

module _ {V T : Type 0} where
  -- `DomainResult.__post_init__`
  unfoldable pub post_init : DomainResult V T → Outcome (Unit {0})
  unfolding diagnostics_differ
  post_init r = do
    raise_if (r.ok && is_some r.error)
        (value_error "successful DomainResult cannot contain an error")
    raise_if (not r.ok && not (is_some r.error))
        (value_error "failed DomainResult requires an error")
    raise_if (r.ok && is_failure_state r.meta.operation_state)
        (value_error "successful DomainResult cannot use a failure operation state")
    raise_if (not r.ok && not (is_failure_state r.meta.operation_state))
        (value_error "failed DomainResult requires a failure operation state")
    raise_if (diagnostics_differ r.error r.meta.diagnostic_id)
        (value_error "error and result metadata diagnostic IDs must match")

  -- `cls(...)`: the fields are stored, then `__post_init__` runs.
  unfoldable pub construct : DomainResult V T → Outcome (DomainResult V T)
  unfolding post_init
  construct r = do post_init r; returned r

  -- `DomainResult.success`
  unfoldable pub success :
      Drawn
      → Option T
      → OperationState
      → List DomainWarning
      → MetaOptions V
      → Outcome (DomainResult V T)
  unfolding create construct
  success drawn value operation_state warnings options = construct (record {
    ok = true;
    result = value;
    error = none;
    warnings = warnings;
    meta = create drawn operation_state none options;
  })

  -- `DomainResult.failure`: the error comes in as one record, which the source builds from
  -- `code`, `message`, `retryable`, `suggested_action` and `diagnostic_id`.
  unfoldable pub failure :
      Drawn
      → DomainError
      → Option T
      → OperationState
      → List DomainWarning
      → MetaOptions V
      → Outcome (DomainResult V T)
  unfolding create construct
  failure drawn error value operation_state warnings options = construct (record {
    ok = false;
    result = value;
    error = some error;
    warnings = warnings;
    meta = create drawn operation_state error.diagnostic_id options;
  })

  -- the properties of `DomainResult`
  unfoldable pub error_code : DomainResult V T → Option String
  error_code r = elim r.error [ none ↦ none | some e ↦ some (domain_error_code_value e.code) ]

  unfoldable pub operation_state : DomainResult V T → String
  operation_state r = operation_state_value r.meta.operation_state

  unfoldable pub retryable : DomainResult V T → Bool
  retryable r = elim r.error [ none ↦ false | some e ↦ e.retryable ]

  unfoldable pub suggested_action : DomainResult V T → Option String
  suggested_action r = elim r.error [ none ↦ none | some e ↦ e.suggested_action ]
