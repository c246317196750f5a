-- ===== src/Sessions/Outcomes.antt =====
-- `SessionOperationResult`: the factories `success`, `not_found` and `authentication_changed`.
-- The detail `lifecycle` is the one value in `details`; `R` is the type of upstream responses.
use gemini_web_mcp.Common.{
  String, true, false, ◌||◌, Option, none, some, List, [], ◌∷◌, Outcome, or_default,
}
use gemini_web_mcp.Domain.Codes.{DomainErrorCode, OperationState}
use gemini_web_mcp.Domain.Results.{DomainWarning, DomainResult, Drawn, create, construct}
use gemini_web_mcp.Domain.Conversations.{
  SessionLifecycleState, CleanupState, CleanupObservation, no_observation,
  ConversationLifecycleMetadata,
}
use gemini_web_mcp.Sessions.State.{SessionState, Ref, cid_or, or_else}

-- `SessionOperationData`
pub record SessionOperationData (R : Type 0) : Type 0 where
  pub state : Option Ref
  pub response : Option R

abbrev pub SessionOperationResult : Type 0 → Type 0
SessionOperationResult R = DomainResult ConversationLifecycleMetadata (SessionOperationData R)

-- `getattr(session.session, "cid", None) or session.upstream_chat_id`
unfoldable pub known_chat_id : SessionState → Option String
known_chat_id item = or_else (cid_or item.session none) item.upstream_chat_id

abbrev lifecycle_of :
    Option SessionState → SessionLifecycleState → CleanupObservation → ConversationLifecycleMetadata
lifecycle_of none state cleanup = record {
  session_id = none;
  upstream_chat_id = none;
  session_state = state;
  retain_chat = false;
  delete_after_seconds = none;
  cleanup = cleanup;
}
lifecycle_of (some item) state cleanup = record {
  session_id = some item.session_id;
  upstream_chat_id = known_chat_id item;
  session_state = state;
  retain_chat = item.retain_chat || (item.task_pending || item.recovery_pending);
  delete_after_seconds = item.delete_after_seconds;
  cleanup = cleanup;
}

-- `lifecycle_state or (session.lifecycle_state if session is not None else STATELESS)`
abbrev observed_state : Option SessionLifecycleState → Option SessionState → SessionLifecycleState
observed_state (some state) session = state
observed_state none (some item) = item.lifecycle_state
observed_state none none = SessionLifecycleState.stateless

abbrev model_of : Option SessionState → Option String
model_of none = none
model_of (some item) = some item.model

-- The keyword arguments of `success`; `plain` has their defaults.
pub record SuccessOptions : Type 0 where
  pub verification_status : String
  pub cleanup : Option CleanupObservation
  pub lifecycle_state : Option SessionLifecycleState
  pub operation_state : OperationState
  pub warnings : List DomainWarning
  pub request_id : Option String

abbrev pub plain : String → SuccessOptions
plain status = record {
  verification_status = status;
  cleanup = none;
  lifecycle_state = none;
  operation_state = OperationState.completed;
  warnings = [];
  request_id = none;
}

module _ {R : Type 0} (drawn : Drawn) where
  -- `success`: the reference, and the object that it names at the time of the call.
  unfoldable pub success :
      Option Ref
      → Option SessionState
      → Option R
      → SuccessOptions
      → Outcome (SessionOperationResult R)
  unfolding construct create
  success ref session response options = construct (record {
    ok = true;
    result = some (record { state = ref; response = response });
    error = none;
    warnings = options.warnings;
    meta = create drawn options.operation_state none (record {
      request_id = options.request_id;
      requested_backend = model_of session;
      effective_backend = none;
      verification_status = options.verification_status;
      details =
          (
            "lifecycle",
            lifecycle_of session (observed_state options.lifecycle_state session)
                (or_default options.cleanup no_observation),
          )
          ∷ [];
    });
  })

  unfoldable pub not_found : Option String → Outcome (SessionOperationResult R)
  unfolding construct create
  not_found session_id = construct (record {
    ok = false;
    result = none;
    error = some (record {
      code = DomainErrorCode.session_not_found;
      message = "The requested session does not exist.";
      retryable = false;
      suggested_action = some "Create a session with gemini_start_chat and use the returned ID.";
      diagnostic_id = none;
    });
    warnings = [];
    meta = create drawn OperationState.failed none (record {
      request_id = none;
      requested_backend = none;
      effective_backend = none;
      verification_status = "local_state_absent";
      details =
          (
            "lifecycle",
            record {
              session_id = session_id;
              upstream_chat_id = none;
              session_state = SessionLifecycleState.absent;
              retain_chat = false;
              delete_after_seconds = none;
              cleanup = no_observation;
            },
          )
          ∷ [];
    });
  })

  -- `authentication_changed`, after it has set the object's `lifecycle_state` to REMOVED. The
  -- diagnostic id is drawn. `session.session_id or None` drops an empty id.
  unfoldable pub authentication_changed :
      String → Ref → SessionState → Outcome (SessionOperationResult R)
  unfolding construct create
  authentication_changed diagnostic_id ref session =
      let cid = known_chat_id session in
      construct (record {
        ok = false;
        result = some (record { state = some ref; response = none });
        error = some (record {
          code = DomainErrorCode.cancelled;
          message = "Authentication changed while the old session was in use.";
          retryable = false;
          suggested_action =
              some
                "Switch back to the original account before explicitly resuming its chat cleanup.";
          diagnostic_id = some diagnostic_id;
        });
        warnings = [];
        meta = create drawn OperationState.cancelled (some diagnostic_id) (record {
          request_id = none;
          requested_backend = none;
          effective_backend = none;
          verification_status = "authentication_context_changed";
          details =
              (
                "lifecycle",
                record {
                  session_id = or_else (some session.session_id) none;
                  upstream_chat_id = cid;
                  session_state = SessionLifecycleState.removed;
                  retain_chat = session.retain_chat;
                  delete_after_seconds = session.delete_after_seconds;
                  cleanup = record {
                    state = CleanupState.cancelled;
                    upstream_chat_id = cid;
                    attempts = 0;
                    diagnostic_id = some diagnostic_id;
                    idempotent = false;
                    cancellation_reason = some "authentication_context_changed";
                    source = "";
                    delete_at = none;
                  };
                },
              )
              ∷ [];
        });
      })
