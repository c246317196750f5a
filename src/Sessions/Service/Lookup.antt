-- ===== src/Sessions/Service/Lookup.antt =====
-- What is found in the table after each operation: expiry, isolation of resets, fresh ids.
use gemini_web_mcp.Common.{
  ℕ, zero, suc, ◌+◌, ◌<◌, ◌≤◌, String, false, ◌≡◌, ◌≢◌, refl, ◌∙◌, not, ◌&&◌, Option, none, some,
  [], ◌∷◌, ◌==◌, eq_iff, if◌then◌else◌, is_some, Dict, lookup, erase, arith, lookup-insert,
  lookup-erase, Bool-cases, Option-cases, inl, inr, Outcome, eqb_iff,
}
use gemini_web_mcp.Domain.Results.{Drawn}
use gemini_web_mcp.Sessions.State.{
  CidAttribute, Ref, Heap, SessionService, SessionOptions, build_session_data, write,
}
use gemini_web_mcp.Sessions.Outcomes.{success, plain, SessionOperationResult}
use gemini_web_mcp.Sessions.Service.{
  is_expired, kept, clean_expired_sessions, next_session_id, add_session, create_session,
  get_session, detach, reset_one,
}
use gemini_web_mcp.Sessions.Service.Valid.{Table, IsValid}

-- What a lookup finds once the expired sessions are gone.
abbrev pub unless_expired : ℕ → SessionService → Option Ref → Option Ref
unless_expired now s none = none
unless_expired now s (some r) = if is_expired now s.max_age (s.heap r) then none else some r

lookup-kept :
    (now age : ℕ) (heap : Heap) (n : ℕ) (sid : String) (d : Dict Ref)
    → Table heap n d
    → lookup sid (kept now age heap d) ≡ elim (lookup sid d) [
      | none ↦ none
      | some r ↦ if is_expired now age (heap r) then none else some r
    ]
unfolding lookup kept
lookup-kept now age heap n sid [] t = refl
lookup-kept now age heap n sid ((j, q) ∷ d) t =
    ground (arith, lookup-kept now age heap n sid d t.2, eq_iff j sid, t.1)

-- In a valid service, `get_session` finds a session exactly if it is in the table and has not
-- expired: it is not older than the maximal age, or a send or workflow holds one of its locks.
pub get_session_lem :
    (now : ℕ) (sid : String) (s : SessionService)
    → IsValid s
    → (get_session now sid s).1 ≡ unless_expired now s (lookup sid s.sessions)
unfolding get_session clean_expired_sessions
get_session_lem now sid s v = elim (Option-cases (lookup sid s.sessions)) [
  | inl e ↦ ground (arith, lookup-kept now s.max_age s.heap s.next sid s.sessions v.table)
  | inr (r, e) ↦ ground (arith, lookup-kept now s.max_age s.heap s.next sid s.sessions v.table)
]

-- `reset_one` takes away the session of its id and no other: any other id is found as
-- `get_session` finds it.
pub reset_one_isolated :
    (R : Type 0) (drawn : Drawn) (now : ℕ) (sid j : String) (s : SessionService)
    → lookup j (reset_one {R = R} drawn now sid s).0.sessions
      ≡ (if sid == j then none else (get_session now j s).1)
unfolding reset_one get_session
reset_one_isolated R drawn now sid j s =
    detached (lookup sid (clean_expired_sessions now s).sessions)
      (record (clean_expired_sessions now s) {
        sessions = erase sid (clean_expired_sessions now s).sessions;
      })
    ∙ lookup-erase sid j (clean_expired_sessions now s).sessions
  where
    detached :
        (found : Option Ref) (t : SessionService)
        → lookup j (detach {R = R} drawn sid found t).0.sessions ≡ lookup j t.sessions
    detached none t = refl
    detached (some r) t = refl

-- The id that the search returns is not empty and not in use.
next_session_id_fresh :
    (fuel : ℕ) (ids : ℕ → String) (i : ℕ) (d : Dict Ref) (sid : String)
    → next_session_id fuel ids i d ≡ some sid
    → ((sid == "") ≡ false) × (lookup sid d ≡ none)
unfolding next_session_id
next_session_id_fresh zero ids i d sid h = cc
next_session_id_fresh (suc fuel) ids i d sid h =
    elim (Bool-cases (not (ids i == "") && not (is_some (lookup (ids i) d)))) [
      | inl e ↦ let same : ids i ≡ sid = ground (arith) in rw (← same) (ground (arith))
      | inr e ↦ next_session_id_fresh fuel ids (suc i) d sid (rw e at h)
    ]

-- The id that a factory answers at `m` is fit for use.
abbrev pub IsFit : (ℕ → String) → Dict Ref → ℕ → Type 0
IsFit ids d m = ((ids m == "") ≡ false) × (lookup (ids m) d ≡ none)

-- The search ends when the factory answers a fit id within the fuel.
next_session_id_total :
    (fuel : ℕ) (ids : ℕ → String) (i m : ℕ) (d : Dict Ref)
    → IsFit ids d m
    → i ≤ m
    → m < i + fuel
    → next_session_id fuel ids i d ≢ none
unfolding next_session_id
next_session_id_total zero ids i m d fit low high h = absurd (omega arith)
next_session_id_total (suc fuel) ids i m d fit low high h =
    elim (Bool-cases (not (ids i == "") && not (is_some (lookup (ids i) d)))) [
      | inl e ↦ ground arith
      | inr e ↦ next_session_id_total fuel ids (suc i) m d fit (above e) (omega arith) (rw e at h)
    ]
  where
    above : (not (ids i == "") && not (is_some (lookup (ids i) d))) ≡ false → suc i ≤ m
    above e = ground (arith, fit)

-- `create_session` ends when one of the ids that the factory answers is fit for use and the search
-- is given rounds enough to reach it. It then adds a new session under an id that is not empty and
-- was not in use, and every other id is found as `get_session` finds it.
pub create_session_lem :
    (R : Type 0) (drawn : Drawn) (fuel : ℕ) (ids : ℕ → String) (m now now' : ℕ)
    (session : CidAttribute) (options : SessionOptions) (s : SessionService)
    → IsFit ids (clean_expired_sessions now s).sessions m
    → m < fuel
    → (sid : String) × (t : SessionService) × (result : Outcome (SessionOperationResult R))
      × (create_session {R = R} drawn fuel ids now now' session options s ≡ some (t, result))
      × ((sid == "") ≡ false)
      × ((get_session now sid s).1 ≡ none)
      × (t.heap s.next ≡ build_session_data now' sid session options)
      × ((j : String)
          → lookup j t.sessions ≡ (if sid == j then some s.next else (get_session now j s).1))
unfolding create_session get_session
create_session_lem R drawn fuel ids m now now' session options s fit lt =
    let c = clean_expired_sessions now s in
    elim (Option-cases (next_session_id fuel ids 0 c.sessions)) [
      | inl e ↦
          absurd (next_session_id_total fuel ids 0 m c.sessions fit (omega arith) (omega arith) e)
      | inr (sid, e) ↦
          let t = add_session now' sid session options c in
          let fresh = next_session_id_fresh fuel ids 0 c.sessions sid e in
          (
            sid,
            t,
            success drawn (some c.next) (some (t.heap c.next)) none (plain "local_state_created"),
            rw (e, create_session),
            fresh.0,
            fresh.1,
            unfold write in ground (arith, eqb_iff s.next s.next),
            λ j. lookup-insert sid j s.next c.sessions,
          )
    ]
