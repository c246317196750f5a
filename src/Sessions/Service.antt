-- ===== src/Sessions/Service.antt =====
-- The operations of `SessionService` that run in one piece under its lock. An operation takes the
-- readings of the clock and the ids that it draws, and returns the new state beside its result.
pub mod Valid
pub mod Lookup
use gemini_web_mcp.Common.{
  ℕ, zero, suc, ◌+◌, String, Bool, true, false, not, ◌&&◌, Option, none, some, List, [], ◌∷◌, ◌++◌,
  ◌==◌, if◌then◌else◌, is_some, ltb, Dict, lookup, insert, erase, map, Outcome,
}
use gemini_web_mcp.Domain.Conversations.{SessionLifecycleState}
use gemini_web_mcp.Domain.Results.{Drawn}
use gemini_web_mcp.Sessions.State.{
  CidAttribute, SessionState, Ref, Heap, write, SessionService, SessionOptions, build_session_data,
}
use gemini_web_mcp.Sessions.Outcomes.{SessionOperationResult, success, plain, not_found}

-- `data.lifecycle_state = state`
unfoldable pub set_lifecycle : SessionLifecycleState → Ref → Heap → Heap
unfolding write
set_lifecycle state r heap = write r (record (heap r) { lifecycle_state = state }) heap

unfoldable pub set_lifecycles : SessionLifecycleState → List Ref → Heap → Heap
unfolding set_lifecycle
set_lifecycles state [] heap = heap
set_lifecycles state (r ∷ refs) heap = set_lifecycles state refs (set_lifecycle state r heap)

-- The test of `_clean_expired_sessions`: `now - created_at > max_age` and no lock is held.
unfoldable pub is_expired : ℕ → ℕ → SessionState → Bool
is_expired now max_age item =
    ltb (item.created_at + max_age) now && (not item.send_lock && not item.workflow_lock)

-- The entries that stay in the table, and the references of those that go, in the table's order.
unfoldable pub kept : ℕ → ℕ → Heap → Dict Ref → Dict Ref
unfolding is_expired
kept now max_age heap [] = []
kept now max_age heap ((sid, r) ∷ rest) =
    let others = kept now max_age heap rest in
    if is_expired now max_age (heap r) then others else (sid, r) ∷ others

unfoldable pub gone : ℕ → ℕ → Heap → Dict Ref → List Ref
unfolding is_expired
gone now max_age heap [] = []
gone now max_age heap ((sid, r) ∷ rest) =
    let others = gone now max_age heap rest in
    if is_expired now max_age (heap r) then r ∷ others else others

-- `_clean_expired_sessions`: the ids are collected first, and then each object leaves the table,
-- turns EXPIRED and joins the expired list.
unfoldable pub clean_expired_sessions : ℕ → SessionService → SessionService
unfolding kept gone set_lifecycles
clean_expired_sessions now s =
    let expired = gone now s.max_age s.heap s.sessions in
    record s {
      sessions = kept now s.max_age s.heap s.sessions;
      expired_sessions = s.expired_sessions ++ expired;
      heap = set_lifecycles SessionLifecycleState.expired expired s.heap;
    }

-- `_next_session_id`: `ids` are the answers of the id factory, and `none` says that none of the
-- first `fuel` was fit for use.
unfoldable pub next_session_id : ℕ → (ℕ → String) → ℕ → Dict Ref → Option String
next_session_id zero ids i sessions = none
next_session_id (suc fuel) ids i sessions =
    let rest = next_session_id fuel ids (suc i) sessions in
    if not (ids i == "") && not (is_some (lookup (ids i) sessions)) then some (ids i) else rest

-- `self._sessions[session_id] = data` for an object made on the spot
unfoldable pub add_session :
    ℕ → String → CidAttribute → SessionOptions → SessionService → SessionService
unfolding write
add_session now session_id session options s = record s {
  heap = write s.next (build_session_data now session_id session options) s.heap;
  next = suc s.next;
  sessions = insert session_id s.next s.sessions;
}

-- `store_session`
unfoldable pub store_session :
    ℕ → String → CidAttribute → SessionOptions → SessionService → SessionService × Ref
unfolding add_session
store_session now session_id session options s =
    (add_session now session_id session options s, s.next)

module _ {R : Type 0} (drawn : Drawn) where
  -- `create_session`: `none` where the search for an id does not end within the fuel.
  unfoldable pub create_session :
      ℕ
      → (ℕ → String)
      → ℕ
      → ℕ
      → CidAttribute
      → SessionOptions
      → SessionService
      → Option (SessionService × Outcome (SessionOperationResult R))
  unfolding next_session_id add_session clean_expired_sessions
  create_session fuel ids now now' session options s =
      let c = clean_expired_sessions now s in
      elim (next_session_id fuel ids 0 c.sessions) [
        | none ↦ none
        | some sid ↦
            let t = add_session now' sid session options c in
            some (
              t,
              success drawn (some c.next) (some (t.heap c.next)) none (plain "local_state_created"),
            )
      ]

-- `get_session`
unfoldable pub get_session : ℕ → String → SessionService → SessionService × Option Ref
unfolding clean_expired_sessions
get_session now session_id s =
    let c = clean_expired_sessions now s in (c, lookup session_id c.sessions)

module _ {R : Type 0} (drawn : Drawn) where
  -- `lookup_session`
  unfoldable pub lookup_session :
      ℕ → String → SessionService → SessionService × Outcome (SessionOperationResult R)
  unfolding get_session
  lookup_session now session_id s =
      let (c, found) = get_session now session_id s in
      (
        c,
        elim found [
          | none ↦ not_found drawn (some session_id)
          | some r ↦ success drawn (some r) (some (c.heap r)) none (plain "local_state_found")
        ],
      )

  -- The end of `reset_one`: the popped object turns REMOVED.
  unfoldable pub detach :
      String → Option Ref → SessionService → SessionService × Outcome (SessionOperationResult R)
  unfolding set_lifecycle
  detach session_id none s = (s, not_found drawn (some session_id))
  detach session_id (some r) s =
      let t = record s { heap = set_lifecycle SessionLifecycleState.removed r s.heap } in
      (t, success drawn (some r) (some (t.heap r)) none (plain "local_state_removed"))

  -- `reset_one`
  unfoldable pub reset_one :
      ℕ → String → SessionService → SessionService × Outcome (SessionOperationResult R)
  unfolding clean_expired_sessions detach
  reset_one now session_id s =
      let c = clean_expired_sessions now s in
      detach session_id (lookup session_id c.sessions)
        (record c { sessions = erase session_id c.sessions })

-- `list(self._sessions.values())`
unfoldable pub values : Dict Ref → List Ref
values [] = []
values ((sid, r) ∷ rest) = r ∷ values rest

-- `reset_all`
unfoldable pub reset_all : ℕ → SessionService → SessionService × List Ref
unfolding clean_expired_sessions set_lifecycles values
reset_all now s =
    let c = clean_expired_sessions now s in
    let refs = values c.sessions in
    (
      record c { sessions = []; heap = set_lifecycles SessionLifecycleState.removed refs c.heap },
      refs,
    )

-- `list_sessions`
unfoldable pub list_sessions : ℕ → SessionService → SessionService × Dict Ref
unfolding clean_expired_sessions
list_sessions now s = let c = clean_expired_sessions now s in (c, c.sessions)

-- An object's lifecycle and authentication as the loop below leaves them.
abbrev pub cut_off : SessionState → SessionState
cut_off item = record item {
  lifecycle_state = SessionLifecycleState.removed;
  authentication_invalidated = true;
}

-- The loop of `invalidate_authentication_context` over the detached objects.
unfoldable pub invalidate_all : List Ref → Heap → Heap
unfolding write
invalidate_all [] heap = heap
invalidate_all (r ∷ refs) heap = invalidate_all refs (write r (cut_off (heap r)) heap)

-- `invalidate_authentication_context`
unfoldable pub invalidate_authentication_context : SessionService → SessionService × List Ref
unfolding invalidate_all values
invalidate_authentication_context s =
    let detached = values s.sessions ++ s.expired_sessions in
    (
      record s { sessions = []; expired_sessions = []; heap = invalidate_all detached s.heap },
      detached,
    )

-- `drain_expired_sessions`
unfoldable pub drain_expired_sessions : SessionService → SessionService × List Ref
drain_expired_sessions s = (record s { expired_sessions = [] }, s.expired_sessions)
