-- ===== src/Sessions/Sends.antt =====
-- The operations that wait: `send_message`, `send_message_stream`, `reset_one_async` and
-- `reset_all_async`, cut where they wait. Between two pieces any other operation may run.
use gemini_web_mcp.Common.{
  ℕ, String, Bool, true, false, Option, none, some, List, [], ◌∷◌, if◌then◌else◌, eqb, lookup,
  erase, Outcome,
}
use gemini_web_mcp.Domain.Conversations.{SessionLifecycleState}
use gemini_web_mcp.Domain.Results.{Drawn}
use gemini_web_mcp.Sessions.State.{
  CidAttribute, cid_or, or_else, SessionState, Ref, write, SessionService,
}
use gemini_web_mcp.Sessions.Outcomes.{
  SessionOperationResult, success, plain, not_found, authentication_changed,
}
use gemini_web_mcp.Sessions.Service.{clean_expired_sessions, set_lifecycle}

-- A field of the object behind a reference is changed in place.
unfoldable pub change : Ref → (SessionState → SessionState) → SessionService → SessionService
unfolding write
change r f s = record s { heap = write r (f (s.heap r)) s.heap }

abbrev pub with_send_lock : Bool → SessionState → SessionState
with_send_lock b item = record item { send_lock = b }

abbrev pub with_workflow_lock : Bool → SessionState → SessionState
with_workflow_lock b item = record item { workflow_lock = b }

abbrev pub with_session : CidAttribute → SessionState → SessionState
with_session cid item = record item { session = cid }

-- `data.upstream_chat_id = getattr(response, "cid", None) or data.upstream_chat_id`
abbrev pub with_response_cid : Option String → SessionState → SessionState
with_response_cid cid item = record item { upstream_chat_id = or_else cid item.upstream_chat_id }

-- `data.updated_at = time.time()` and
-- `data.upstream_chat_id = getattr(data.session, "cid", data.upstream_chat_id)`
abbrev pub with_reply : ℕ → SessionState → SessionState
with_reply now item = record item {
  updated_at = now;
  upstream_chat_id = cid_or item.session item.upstream_chat_id;
}

unfoldable pub set_send_lock : Bool → Ref → SessionService → SessionService
unfolding change
set_send_lock b r s = change r (with_send_lock b) s

unfoldable pub set_workflow_lock : Bool → Ref → SessionService → SessionService
unfolding change
set_workflow_lock b r s = change r (with_workflow_lock b) s

-- `self._sessions.get(session_id) is data`
unfoldable pub is_current : String → Ref → SessionService → Bool
is_current session_id r s = elim (lookup session_id s.sessions) [ none ↦ false | some q ↦ eqb q r ]

-- The upstream call ends: the handle has the `cid` that the upstream left in it.
unfoldable pub upstream_sets_cid : CidAttribute → Ref → SessionService → SessionService
unfolding change
upstream_sets_cid cid r s = change r (with_session cid) s

-- How a piece ends: the call goes on to the upstream, or it returns.
pub data Piece (A : Type 0) : Type 0 where
  goes_on : Piece A
  returns : Outcome A → Piece A
  reraises : Piece A

-- What the upstream call ends with. The handle's attribute `cid` may have changed meanwhile.
pub data Upstream (R : Type 0) : Type 0 where
  answered : R → Upstream R
  failed_or_cancelled : Upstream R

module _ {R : Type 0} (drawn : Drawn) where
  -- `send_message`, once `_send_lock` is acquired: the session must still be the one looked up.
  unfoldable pub enter_send :
      ℕ → String → Ref → SessionService → SessionService × Piece (SessionOperationResult R)
  unfolding set_send_lock is_current clean_expired_sessions
  enter_send now session_id r s =
      let c = clean_expired_sessions now (set_send_lock true r s) in
      if is_current session_id r c
      then (c, goes_on)
      else (set_send_lock false r c, returns (not_found drawn (some session_id)))

  -- `authentication_changed(data)`, on the object as it is then.
  unfoldable pub report_changed :
      String → Ref → SessionService → SessionService × Piece (SessionOperationResult R)
  unfolding set_lifecycle
  report_changed diagnostic_id r s =
      let t = record s { heap = set_lifecycle SessionLifecycleState.removed r s.heap } in
      (t, returns (authentication_changed drawn diagnostic_id r (t.heap r)))

  -- `send_message` after the upstream call, before the lock is released. `cid_of` reads the
  -- response's `cid`; it answers `none` where there is no such attribute.
  unfoldable pub settle_send :
      (R → Option String)
      → String
      → ℕ
      → String
      → Ref
      → Upstream R
      → SessionService
      → SessionService × Piece (SessionOperationResult R)
  unfolding change is_current report_changed
  settle_send cid_of diagnostic_id now session_id r failed_or_cancelled s =
      if (s.heap r).authentication_invalidated
      then report_changed diagnostic_id r s
      else (s, reraises)
  settle_send cid_of diagnostic_id now session_id r (answered response) s =
      if (s.heap r).authentication_invalidated
      then report_changed diagnostic_id r (change r (with_response_cid (cid_of response)) s)
      else (let t = if is_current session_id r s then change r (with_reply now) s else s in
          (
            t,
            returns (
                success drawn (some r) (some (t.heap r)) (some response)
                  (plain "upstream_response_received")),
          ))

  -- The rest of `send_message`: `async with` releases the lock on every way out.
  unfoldable pub finish_send :
      (R → Option String)
      → String
      → ℕ
      → String
      → Ref
      → CidAttribute
      → Upstream R
      → SessionService
      → SessionService × Piece (SessionOperationResult R)
  unfolding settle_send upstream_sets_cid set_send_lock
  finish_send cid_of diagnostic_id now session_id r cid end s =
      let (t, piece) =
        settle_send cid_of diagnostic_id now session_id r end (upstream_sets_cid cid r s) in
      (set_send_lock false r t, piece)

-- `responses[-1]` of `send_message_stream`, where there is one, read for its `cid`.
unfoldable pub last_cid : {R : Type 0} → (R → Option String) → List R → Option String
last_cid cid_of [] = none
last_cid cid_of (response ∷ []) = cid_of response
last_cid cid_of (response ∷ next ∷ rest) = last_cid cid_of (next ∷ rest)

module _ {R : Type 0} (drawn : Drawn) where
  -- `send_message_stream` after the stream ended: the collected responses are the response.
  unfoldable pub finish_send_stream :
      (R → Option String)
      → String
      → ℕ
      → String
      → Ref
      → CidAttribute
      → Upstream (List R)
      → SessionService
      → SessionService × Piece (SessionOperationResult (List R))
  unfolding finish_send last_cid
  finish_send_stream cid_of = finish_send drawn (last_cid cid_of)

  -- `reset_one_async`, once both locks are acquired; they are released on the way out.
  unfoldable pub enter_reset :
      ℕ → String → Ref → SessionService → SessionService × Outcome (SessionOperationResult R)
  unfolding set_send_lock set_workflow_lock is_current clean_expired_sessions set_lifecycle
  enter_reset now session_id r s =
      let c = clean_expired_sessions now (set_send_lock true r (set_workflow_lock true r s)) in
      let released = λ (t : SessionService). set_workflow_lock false r (set_send_lock false r t) in
      if is_current session_id r c
      then (let t = record c {
        sessions = erase session_id c.sessions;
        heap = set_lifecycle SessionLifecycleState.removed r c.heap;
      } in
          (released t, success drawn (some r) (some (t.heap r)) none (plain "local_state_removed")))
      else (released c, not_found drawn (some session_id))

-- One round of the loop of `reset_all_async`, once both locks of the object are acquired. The id
-- is the object's own. The flag says whether the object was removed.
unfoldable pub reset_all_round : Ref → SessionService → SessionService × Bool
unfolding is_current set_lifecycle
reset_all_round r s =
    let sid = (s.heap r).session_id in
    if is_current sid r s
    then (
      record s {
        sessions = erase sid s.sessions;
        heap = set_lifecycle SessionLifecycleState.removed r s.heap;
      },
      true,
    )
    else (s, false)
