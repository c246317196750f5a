-- ===== src/Sessions/State.antt =====
-- The state of session_manager.py. A `SessionState` is a shared mutable object, so it lives on a
-- heap and the table holds references. Times are numbers of clock ticks. A lock is the answer of
-- `locked()`. The upstream handle `session` is what the code reads of it, its attribute `cid`.
use gemini_web_mcp.Common.{
  ℕ, String, Bool, false, Option, none, some, List, ◌==◌, eqb, if◌then◌else◌, Dict,
}
use gemini_web_mcp.Domain.Conversations.{SessionLifecycleState}

-- `getattr(x, "cid")`: `none` where there is no such attribute.
abbrev pub CidAttribute : Type 0
CidAttribute = Option (Option String)

-- `getattr(x, "cid", default)`
abbrev pub cid_or : CidAttribute → Option String → Option String
cid_or none d = d
cid_or (some cid) d = cid

-- `cid or default`: the empty text is falsy.
abbrev pub or_else : Option String → Option String → Option String
or_else none d = d
or_else (some cid) d = if cid == "" then d else some cid

pub record SessionState : Type 0 where
  pub session : CidAttribute
  pub session_id : String
  pub model : String
  pub thinking_level : String
  pub learning_mode : Option String
  pub temporary : Bool
  pub created_at : ℕ
  pub updated_at : ℕ
  pub upstream_chat_id : Option String
  pub retain_chat : Bool
  pub delete_after_seconds : Option ℕ
  pub task_mode : Bool
  pub task_pending : Bool
  pub recovery_pending : Bool
  pub lifecycle_state : SessionLifecycleState
  pub authentication_invalidated : Bool
  pub authentication_generation : Option ℕ
  pub send_lock : Bool
  pub workflow_lock : Bool

-- A reference to a session object.
abbrev pub Ref : Type 0
Ref = ℕ

abbrev pub Heap : Type 0
Heap = Ref → SessionState

unfoldable pub write : Ref → SessionState → Heap → Heap
write r item heap q = if eqb q r then item else heap q

pub record SessionService : Type 0 where
  pub heap : Heap
  pub next : Ref
  pub sessions : Dict Ref
  pub expired_sessions : List Ref
  pub max_age : ℕ

-- The options of `create_session` and `store_session`.
pub record SessionOptions : Type 0 where
  pub model : String
  pub thinking_level : String
  pub learning_mode : Option String
  pub temporary : Bool
  pub retain_chat : Bool
  pub delete_after_seconds : Option ℕ
  pub task_mode : Bool

-- `_build_session_data`
unfoldable pub build_session_data : ℕ → String → CidAttribute → SessionOptions → SessionState
build_session_data now session_id session options = record {
  session = session;
  session_id = session_id;
  model = options.model;
  thinking_level = options.thinking_level;
  learning_mode = options.learning_mode;
  temporary = options.temporary;
  created_at = now;
  updated_at = now;
  upstream_chat_id = cid_or session none;
  retain_chat = options.retain_chat;
  delete_after_seconds = options.delete_after_seconds;
  task_mode = options.task_mode;
  task_pending = options.task_mode;
  recovery_pending = false;
  lifecycle_state = SessionLifecycleState.active;
  authentication_invalidated = false;
  authentication_generation = none;
  send_lock = false;
  workflow_lock = false;
}
