-- ===== src/Sessions/Calls.antt =====
-- Every piece of every operation as one data type, and runs of pieces in any order: what can
-- happen to a service while its sends wait for the upstream.
pub mod Changes
pub mod Valid
pub mod Cut
pub mod Invalidated
use gemini_web_mcp.Common.{ℕ, String, Bool, Option, none, some, List, [], ◌∷◌, Outcome}
use gemini_web_mcp.Domain.Results.{Drawn}
use gemini_web_mcp.Sessions.State.{CidAttribute, SessionState, Ref, SessionService, SessionOptions}
use gemini_web_mcp.Sessions.Outcomes.{SessionOperationResult}
use gemini_web_mcp.Sessions.Service.{
  clean_expired_sessions, create_session, store_session, reset_one, reset_all,
  invalidate_authentication_context, drain_expired_sessions,
}
use gemini_web_mcp.Sessions.Sends.{
  Upstream, enter_send, finish_send, set_workflow_lock, enter_reset, reset_all_round,
}

-- `clean` stands for `get_session`, `lookup_session`, `list_sessions` and
-- `cleanup_expired_sessions`, and `workflow` for a caller that takes or leaves a workflow lock. A
-- response is its `cid`.
pub data Call : Type 0 where
  clean : ℕ → Call
  create : ℕ → (ℕ → String) → ℕ → ℕ → CidAttribute → SessionOptions → Call
  store : ℕ → String → CidAttribute → SessionOptions → Call
  reset : ℕ → String → Call
  reset_every : ℕ → Call
  invalidate : Call
  drain : Call
  enter : ℕ → String → Ref → Call
  finish : ℕ → String → Ref → CidAttribute → Upstream (Option String) → Call
  workflow : Bool → Ref → Call
  enter_async_reset : ℕ → String → Ref → Call
  async_reset_round : Ref → Call

-- A search for an id that does not end leaves the table as it was cleaned: the lock is held.
abbrev or_cleaned : {A : Type 0} → Option (SessionService × A) → SessionService → SessionService
or_cleaned none s = s
or_cleaned (some r) s = r.0

abbrev pub R : Type 0
R = Option String

module _ (drawn : Drawn) (diagnostic_id : String) where
  unfoldable pub run_call : Call → SessionService → SessionService
  run_call (clean now) s = clean_expired_sessions now s
  run_call (create fuel ids now now' session options) s =
      or_cleaned (create_session {R = R} drawn fuel ids now now' session options s)
        (clean_expired_sessions now s)
  run_call (store now sid session options) s = (store_session now sid session options s).0
  run_call (reset now sid) s = (reset_one {R = R} drawn now sid s).0
  run_call (reset_every now) s = (reset_all now s).0
  run_call invalidate s = (invalidate_authentication_context s).0
  run_call drain s = (drain_expired_sessions s).0
  run_call (enter now sid r) s = (enter_send {R = R} drawn now sid r s).0
  run_call (finish now sid r cid end) s =
      (finish_send {R = R} drawn (λ c. c) diagnostic_id now sid r cid end s).0
  run_call (workflow b r) s = set_workflow_lock b r s
  run_call (enter_async_reset now sid r) s = (enter_reset {R = R} drawn now sid r s).0
  run_call (async_reset_round r) s = (reset_all_round r s).0

  unfoldable pub run_calls : List Call → SessionService → SessionService
  unfolding run_call
  run_calls [] s = s
  run_calls (call ∷ calls) s = run_calls calls (run_call call s)
