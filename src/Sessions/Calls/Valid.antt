-- ===== src/Sessions/Calls/Valid.antt =====
-- The invariant of the session table under the pieces of every operation, and under runs of them.
use gemini_web_mcp.Common.{
  ℕ, ◌<◌, String, true, false, ◌≡◌, refl, ap, ◌∙◌, Option, none, some, List, [], ◌∷◌, eqb_iff,
  lookup, erase, arith, if_elim, Bool-cases, Option-cases, inl, inr,
}
use gemini_web_mcp.Domain.Results.{Drawn}
use gemini_web_mcp.Domain.Conversations.{SessionLifecycleState}
use gemini_web_mcp.Sessions.State.{
  CidAttribute, SessionState, Ref, Heap, write, SessionService, SessionOptions, build_session_data,
}
use gemini_web_mcp.Sessions.Service.{
  values, set_lifecycles, clean_expired_sessions, add_session, create_session, detach, reset_one,
  reset_all, store_session, next_session_id, invalidate_authentication_context,
  drain_expired_sessions,
}
use gemini_web_mcp.Sessions.Service.Valid.{
  IsGone, IsValid, Table-map, Table-insert, All-map, clean-IsValid, values-ne, set_lifecycles-other,
}
use gemini_web_mcp.Sessions.Outcomes.{SessionOperationResult}
use gemini_web_mcp.Sessions.Sends.{
  Piece, Upstream, answered, failed_or_cancelled, change, with_response_cid, with_reply,
  set_send_lock, set_workflow_lock, is_current, enter_send, upstream_sets_cid, settle_send,
  finish_send, enter_reset, reset_all_round,
}
use gemini_web_mcp.Sessions.Calls.{
  Call, clean, create, store, reset, reset_every, invalidate, drain, enter, finish, workflow,
  enter_async_reset, async_reset_round, run_call, run_calls, R, or_cleaned,
}
use gemini_web_mcp.Sessions.Calls.Changes.{
  change-IsValid, neutral, send_lock-IsValid, workflow_lock-IsValid, upstream-IsValid,
  remove-IsValid, drop_absent-IsValid, report_changed-IsValid, is_current-found,
}

module _ (drawn : Drawn) (diagnostic_id : String) where
  settle-IsValid :
      (now : ℕ) (sid : String) (r : Ref) (end : Upstream R) (s : SessionService)
      → IsValid s
      → IsValid (settle_send {R = R} drawn (λ c. c) diagnostic_id now sid r end s).0
  unfolding settle_send
  settle-IsValid now sid r failed_or_cancelled s v =
      if_elim (λ (t : SessionService × Piece (SessionOperationResult R)). IsValid t.0)
        (s.heap r).authentication_invalidated _ _
        (λ e. report_changed-IsValid R drawn diagnostic_id r s e v) (λ _. v)
  settle-IsValid now sid r (answered response) s v =
      if_elim (λ (t : SessionService × Piece (SessionOperationResult R)). IsValid t.0)
        (s.heap r).authentication_invalidated _ _
        (λ e.
          report_changed-IsValid R drawn diagnostic_id r (change r (with_response_cid response) s)
            (unfold change write in ground (arith, eqb_iff r r))
            (change-IsValid r (with_response_cid response) s
              (neutral (with_response_cid response) (λ x. (refl, refl, refl))) v))
        (λ _.
          if_elim IsValid (is_current sid r s) _ _
            (λ _.
              change-IsValid r (with_reply now) s
                (neutral (with_reply now) (λ x. (refl, refl, refl))) v)
            (λ _. v))

  finish-IsValid :
      (now : ℕ) (sid : String) (r : Ref) (cid : CidAttribute) (end : Upstream R)
      (s : SessionService)
      → IsValid s
      → IsValid (finish_send {R = R} drawn (λ c. c) diagnostic_id now sid r cid end s).0
  unfolding finish_send
  finish-IsValid now sid r cid end s v =
      send_lock-IsValid false r
        (settle_send {R = R} drawn (λ c. c) diagnostic_id now sid r end
          (upstream_sets_cid cid r s)).0
        (settle-IsValid now sid r end (upstream_sets_cid cid r s) (upstream-IsValid cid r s v))

  enter_send-IsValid :
      (now : ℕ) (sid : String) (r : Ref) (s : SessionService)
      → IsValid s
      → IsValid (enter_send {R = R} drawn now sid r s).0
  unfolding enter_send
  enter_send-IsValid now sid r s v =
      let c = clean_expired_sessions now (set_send_lock true r s) in
      let w = clean-IsValid now (set_send_lock true r s) (send_lock-IsValid true r s v) in
      elim (Bool-cases (is_current sid r c)) [
        | inl e ↦ rw e w
        | inr e ↦ rw e (send_lock-IsValid false r c w)
      ]

  enter_reset-IsValid :
      (now : ℕ) (sid : String) (r : Ref) (s : SessionService)
      → IsValid s
      → IsValid (enter_reset {R = R} drawn now sid r s).0
  unfolding enter_reset
  enter_reset-IsValid now sid r s v =
      let t = set_send_lock true r (set_workflow_lock true r s) in
      let c = clean_expired_sessions now t in
      let w = clean-IsValid now t (
        send_lock-IsValid true r (set_workflow_lock true r s) (workflow_lock-IsValid true r s v)) in
      elim (Bool-cases (is_current sid r c)) [
        | inl e ↦ rw e (
            workflow_lock-IsValid false r _
              (send_lock-IsValid false r _ (remove-IsValid sid r c w (is_current-found sid r c e))))
        | inr e ↦ rw e (
            workflow_lock-IsValid false r (set_send_lock false r c) (send_lock-IsValid false r c w))
      ]

reset_all_round-IsValid :
    (r : Ref) (s : SessionService) → IsValid s → IsValid (reset_all_round r s).0
unfolding reset_all_round
reset_all_round-IsValid r s v =
    let sid = (s.heap r).session_id in
    elim (Bool-cases (is_current sid r s)) [
      | inl e ↦ rw e (remove-IsValid sid r s v (is_current-found sid r s e))
      | inr e ↦ rw e v
    ]

detach-IsValid :
    (A : Type 0) (drawn : Drawn) (sid : String) (found : Option Ref) (s : SessionService)
    → IsValid s
    → lookup sid s.sessions ≡ found
    → IsValid (detach {R = A} drawn sid found (record s { sessions = erase sid s.sessions })).0
unfolding detach
detach-IsValid A drawn sid none s v e = drop_absent-IsValid sid s v
detach-IsValid A drawn sid (some r) s v e = remove-IsValid sid r s v e

drain-IsValid : (s : SessionService) → IsValid s → IsValid (drain_expired_sessions s).0
unfolding drain_expired_sessions
drain-IsValid s v = record { table = v.table; expired = tt }

-- A new object joins under an id.
add_session-IsValid :
    (now : ℕ) (sid : String) (session : CidAttribute) (options : SessionOptions)
    (s : SessionService)
    → IsValid s
    → IsValid (add_session now sid session options s)
unfolding add_session build_session_data
add_session-IsValid now sid session options s v =
    let h = write s.next (build_session_data now sid session options) s.heap in
    let apart : (q : Ref) → q < s.next → h q ≡ s.heap q =
      λ q lt. unfold write in ground (arith, eqb_iff q s.next) in
    record {
      table =
          Table-insert sid s.next s.sessions
            (record {
              made = omega arith;
              named = unfold write in ground (arith, eqb_iff s.next s.next);
              active = unfold write in ground (arith, eqb_iff s.next s.next);
              authenticated = unfold write in ground (arith, eqb_iff s.next s.next);
            })
            (Table-map s.sessions
              (λ j q l. record {
                made = omega (arith, l.made);
                named = ap (λ (x : SessionState). x.session_id) (apart q l.made) ∙ l.named;
                active = ap (λ (x : SessionState). x.lifecycle_state) (apart q l.made) ∙ l.active;
                authenticated =
                    ap (λ (x : SessionState). x.authentication_invalidated) (apart q l.made)
                    ∙ l.authenticated;
              })
              v.table);
      expired =
          All-map s.expired_sessions
            (λ q g. record {
              made = omega (arith, g.made);
              expired = ap (λ (x : SessionState). x.lifecycle_state) (apart q g.made) ∙ g.expired;
              authenticated =
                  ap (λ (x : SessionState). x.authentication_invalidated) (apart q g.made)
                  ∙ g.authenticated;
            })
            v.expired;
    }

create-IsValid :
    (drawn : Drawn) (fuel : ℕ) (ids : ℕ → String) (now now' : ℕ) (session : CidAttribute)
    (options : SessionOptions) (s : SessionService)
    → IsValid s
    → IsValid (
        or_cleaned
          (create_session {R = R} drawn fuel ids now now' session options s)
          (clean_expired_sessions now s))
unfolding create_session
create-IsValid drawn fuel ids now now' session options s v =
    let c = clean_expired_sessions now s in
    elim (Option-cases (next_session_id fuel ids 0 c.sessions)) [
      | inl e ↦ rw (e, or_cleaned) (clean-IsValid now s v)
      | inr (sid, e) ↦
          rw (e, or_cleaned)
            (add_session-IsValid now' sid session options c (clean-IsValid now s v))
    ]

IsGone-same : (g h : Heap) (n : ℕ) (q : Ref) → h q ≡ g q → IsGone g n q → IsGone h n q
IsGone-same g h n q p gone = record {
  made = gone.made;
  expired = ap (λ (x : SessionState). x.lifecycle_state) p ∙ gone.expired;
  authenticated = ap (λ (x : SessionState). x.authentication_invalidated) p ∙ gone.authenticated;
}

-- Marking the table's objects reaches none of the expired ones.
reset_all-IsValid : (now : ℕ) (s : SessionService) → IsValid s → IsValid (reset_all now s).0
unfolding reset_all
reset_all-IsValid now s v =
    let c = clean_expired_sessions now s in
    let w = clean-IsValid now s v in
    let removed = SessionLifecycleState.removed in
    let refs = values c.sessions in
    record {
      table = tt;
      expired =
          All-map c.expired_sessions
            (λ q g.
              IsGone-same c.heap (set_lifecycles removed refs c.heap) c.next q
                (set_lifecycles-other removed refs c.heap q
                  (values-ne c.heap c.next q c.sessions w.table g.expired))
                g)
            w.expired;
    }

module _ (drawn : Drawn) (diagnostic_id : String) where
  run_call-IsValid :
      (call : Call) (s : SessionService) → IsValid s → IsValid (run_call drawn diagnostic_id call s)
  unfolding run_call
  run_call-IsValid (clean now) s v = clean-IsValid now s v
  run_call-IsValid (create fuel ids now now' session options) s v =
      create-IsValid drawn fuel ids now now' session options s v
  run_call-IsValid (store now sid session options) s v =
      unfold store_session in add_session-IsValid now sid session options s v
  run_call-IsValid (reset now sid) s v =
      let c = clean_expired_sessions now s in
      unfold reset_one in
      detach-IsValid R drawn sid (lookup sid c.sessions) c (clean-IsValid now s v) refl
  run_call-IsValid (reset_every now) s v = reset_all-IsValid now s v
  run_call-IsValid invalidate s v =
      unfold invalidate_authentication_context in record { table = tt; expired = tt }
  run_call-IsValid drain s v = drain-IsValid s v
  run_call-IsValid (enter now sid r) s v = enter_send-IsValid drawn diagnostic_id now sid r s v
  run_call-IsValid (finish now sid r cid end) s v =
      finish-IsValid drawn diagnostic_id now sid r cid end s v
  run_call-IsValid (workflow b r) s v = workflow_lock-IsValid b r s v
  run_call-IsValid (enter_async_reset now sid r) s v =
      enter_reset-IsValid drawn diagnostic_id now sid r s v
  run_call-IsValid (async_reset_round r) s v = reset_all_round-IsValid r s v

  -- Whatever pieces of operations run, in whatever order, the table holds one active object for
  -- each id, made under that id, the expired list holds expired ones, and neither holds an object
  -- whose authentication was invalidated.
  pub run_calls-IsValid :
      (calls : List Call) (s : SessionService)
      → IsValid s
      → IsValid (run_calls drawn diagnostic_id calls s)
  unfolding run_calls
  run_calls-IsValid [] s v = v
  run_calls-IsValid (call ∷ calls) s v =
      run_calls-IsValid calls (run_call drawn diagnostic_id call s) (run_call-IsValid call s v)
