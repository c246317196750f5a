-- ===== src/Domain/Conversations.antt =====
-- domain/conversations.py: the lifecycle contracts of conversations, and the test on chat ids.
use gemini_web_mcp.Common.{
  or_default, ℕ, String, Bool, false, ◌&&◌, Option, none, some, if◌then◌else◌, ltb, length, points,
  starts_with,
}

pub data SessionLifecycleState : Type 0 where
  stateless active removed expired absent : SessionLifecycleState

pub data CleanupState : Type 0 where
  not_applicable retained pending completed already_completed failed cancelled : CleanupState
  invalid_id : CleanupState

pub data StreamDelivery : Type 0 where
  collected : StreamDelivery

pub data StreamChunkSemantics : Type 0 where
  empty delta cumulative mixed : StreamChunkSemantics

pub record StreamCollectionMetadata : Type 0 where
  pub delivery : StreamDelivery
  pub chunk_semantics : StreamChunkSemantics
  pub chunk_count : ℕ
  pub emitted_piece_count : ℕ
  pub duplicate_chunk_count : ℕ
  pub text_length : ℕ
  pub upstream_stream : Bool

-- Times are numbers of clock ticks.
pub record CleanupObservation : Type 0 where
  pub state : CleanupState
  pub upstream_chat_id : Option String
  pub attempts : ℕ
  pub diagnostic_id : Option String
  pub idempotent : Bool
  pub cancellation_reason : Option String
  pub source : String
  pub delete_at : Option ℕ

-- `CleanupObservation()`
abbrev pub no_observation : CleanupObservation
no_observation = record {
  state = CleanupState.not_applicable;
  upstream_chat_id = none;
  attempts = 0;
  diagnostic_id = none;
  idempotent = false;
  cancellation_reason = none;
  source = "";
  delete_at = none;
}

pub record ConversationLifecycleMetadata : Type 0 where
  pub session_id : Option String
  pub upstream_chat_id : Option String
  pub session_state : SessionLifecycleState
  pub retain_chat : Bool
  pub delete_after_seconds : Option ℕ
  pub cleanup : CleanupObservation

unfoldable pub cleanup_observation_for_policy :
    Option String → Bool → String → Option ℕ → CleanupObservation
cleanup_observation_for_policy none retain_chat source delete_at = record no_observation {
  source = source;
}
cleanup_observation_for_policy (some cid) retain_chat source delete_at = record no_observation {
  state = if retain_chat then CleanupState.retained else CleanupState.pending;
  upstream_chat_id = some cid;
  source = source;
  delete_at = delete_at;
}

-- The argument is a text already: `isinstance(value, str)` is its type.
unfoldable pub is_valid_remote_chat_id : String → Bool
is_valid_remote_chat_id value =
    starts_with (points value) (points "c_") && ltb 2 (length (points value))

-- `ConversationLifecycleMetadata.stateless`
unfoldable pub stateless_metadata :
    Option String → Bool → Option ℕ → Option CleanupObservation → ConversationLifecycleMetadata
stateless_metadata upstream_chat_id retain_chat delete_after_seconds cleanup = record {
  session_id = none;
  upstream_chat_id = upstream_chat_id;
  session_state = SessionLifecycleState.stateless;
  retain_chat = retain_chat;
  delete_after_seconds = delete_after_seconds;
  cleanup = or_default cleanup no_observation;
}
