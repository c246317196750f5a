-- ===== src/Sessions/Calls/Cut.antt =====
-- Objects whose authentication was invalidated, under the pieces of session_manager.py.
use gemini_web_mcp.Common.{
  ℕ, ◌<◌, String, Bool, true, false, ◌≡◌, refl, ◌∙◌, Option, none, some, List, [], ◌∷◌, ◌++◌,
  eqb_iff, Dict, lookup, erase, All, arith, if_elim, Option-cases, inl, inr, Outcome,
}
use gemini_web_mcp.Domain.Results.{Drawn}
use gemini_web_mcp.Domain.Conversations.{SessionLifecycleState}
use gemini_web_mcp.Sessions.State.{
  CidAttribute, SessionState, Ref, Heap, write, SessionService, SessionOptions,
}
use gemini_web_mcp.Sessions.Outcomes.{SessionOperationResult}
use gemini_web_mcp.Sessions.Service.{
  set_lifecycle, values, invalidate_all, cut_off, clean_expired_sessions, add_session,
  create_session, detach, reset_one, reset_all, store_session, next_session_id,
  invalidate_authentication_context, drain_expired_sessions, gone,
}
use gemini_web_mcp.Sessions.Service.Valid.{set_lifecycles-keeps}
use gemini_web_mcp.Sessions.Sends.{
  Piece, Upstream, answered, failed_or_cancelled, change, with_send_lock, with_workflow_lock,
  with_session, with_response_cid, with_reply, set_send_lock, set_workflow_lock, is_current,
  enter_send, upstream_sets_cid, report_changed, settle_send, finish_send, enter_reset,
  reset_all_round,
}
use gemini_web_mcp.Sessions.Calls.{
  Call, clean, create, store, reset, reset_every, invalidate, drain, enter, finish, workflow,
  enter_async_reset, async_reset_round, run_call, run_calls, R, or_cleaned,
}

-- The object was made, and its authentication is invalidated.
pub record IsCut (r : Ref) (s : SessionService) : Type 0 where
  pub made : r < s.next
  pub cut : (s.heap r).authentication_invalidated ≡ true

module _ (r : Ref) where
  change-IsCut :
      (q : Ref) (f : SessionState → SessionState) (s : SessionService)
      → ((x : SessionState) → (f x).authentication_invalidated ≡ x.authentication_invalidated)
      → IsCut r s
      → IsCut r (change q f s)
  unfolding change write
  change-IsCut q f s n c = record {
    made = c.made;
    cut = ground (arith, eqb_iff r q, n (s.heap q), c.cut);
  }

  send_lock-IsCut :
      (b : Bool) (q : Ref) (s : SessionService) → IsCut r s → IsCut r (set_send_lock b q s)
  unfolding set_send_lock
  send_lock-IsCut b q s c = change-IsCut q (with_send_lock b) s (λ x. refl) c

  workflow_lock-IsCut :
      (b : Bool) (q : Ref) (s : SessionService) → IsCut r s → IsCut r (set_workflow_lock b q s)
  unfolding set_workflow_lock
  workflow_lock-IsCut b q s c = change-IsCut q (with_workflow_lock b) s (λ x. refl) c

  clean-IsCut : (now : ℕ) (s : SessionService) → IsCut r s → IsCut r (clean_expired_sessions now s)
  unfolding clean_expired_sessions
  clean-IsCut now s c = record {
    made = c.made;
    cut =
        (set_lifecycles-keeps SessionLifecycleState.expired (gone now s.max_age s.heap s.sessions)
          s.heap r).1
        ∙ c.cut;
  }

  lifecycle-keeps :
      (state : SessionLifecycleState) (q : Ref) (h : Heap)
      → (set_lifecycle state q h r).authentication_invalidated ≡ (h r).authentication_invalidated
  unfolding set_lifecycle
  lifecycle-keeps state q h = ground (arith, eqb_iff r q)

  add-IsCut :
      (now : ℕ) (sid : String) (session : CidAttribute) (options : SessionOptions)
      (s : SessionService)
      → IsCut r s
      → IsCut r (add_session now sid session options s)
  unfolding add_session
  add-IsCut now sid session options s c = record {
    made = omega (arith, c.made);
    cut = ground (arith, c.cut, c.made, eqb_iff r s.next);
  }

  pub invalidate_all-keeps :
      (refs : List Ref) (h : Heap)
      → (h r).authentication_invalidated ≡ true
      → (invalidate_all refs h r).authentication_invalidated ≡ true
  unfolding invalidate_all
  invalidate_all-keeps [] h e = e
  invalidate_all-keeps (q ∷ refs) h e =
      invalidate_all-keeps refs (write q (cut_off (h q)) h) (ground (arith, eqb_iff r q))

  -- Turning another object REMOVED.
  marked-IsCut :
      (q : Ref) (s : SessionService) (sessions : Dict Ref)
      → IsCut r s
      → IsCut r (record s {
        sessions = sessions;
        heap = set_lifecycle SessionLifecycleState.removed q s.heap;
      })
  marked-IsCut q s sessions c = record {
    made = c.made;
    cut = lifecycle-keeps SessionLifecycleState.removed q s.heap ∙ c.cut;
  }

module _ (drawn : Drawn) (diagnostic_id : String) (r : Ref) where
  abbrev Settled : Type 0
  Settled = SessionService × Piece (SessionOperationResult R)

  report-IsCut :
      (q : Ref) (s : SessionService)
      → IsCut r s
      → IsCut r (report_changed {R = R} drawn diagnostic_id q s).0
  unfolding report_changed
  report-IsCut q s c = marked-IsCut r q s s.sessions c

  settle-IsCut :
      (now : ℕ) (sid : String) (q : Ref) (end : Upstream R) (s : SessionService)
      → IsCut r s
      → IsCut r (settle_send {R = R} drawn (λ c. c) diagnostic_id now sid q end s).0
  unfolding settle_send
  settle-IsCut now sid q failed_or_cancelled s c =
      if_elim (λ (t : Settled). IsCut r t.0) (s.heap q).authentication_invalidated _ _
        (λ _. report-IsCut q s c) (λ _. c)
  settle-IsCut now sid q (answered response) s c =
      if_elim (λ (t : Settled). IsCut r t.0) (s.heap q).authentication_invalidated _ _
        (λ _.
          report-IsCut q (change q (with_response_cid response) s)
            (change-IsCut r q (with_response_cid response) s (λ x. refl) c))
        (λ _.
          if_elim (IsCut r) (is_current sid q s) _ _
            (λ _. change-IsCut r q (with_reply now) s (λ x. refl) c) (λ _. c))

  finish-IsCut :
      (now : ℕ) (sid : String) (q : Ref) (cid : CidAttribute) (end : Upstream R)
      (s : SessionService)
      → IsCut r s
      → IsCut r (finish_send {R = R} drawn (λ c. c) diagnostic_id now sid q cid end s).0
  unfolding finish_send upstream_sets_cid
  finish-IsCut now sid q cid end s c =
      send_lock-IsCut r false q
        (settle_send {R = R} drawn (λ c. c) diagnostic_id now sid q end
          (change q (with_session cid) s)).0
        (settle-IsCut now sid q end (change q (with_session cid) s)
          (change-IsCut r q (with_session cid) s (λ x. refl) c))

  enter_send-IsCut :
      (now : ℕ) (sid : String) (q : Ref) (s : SessionService)
      → IsCut r s
      → IsCut r (enter_send {R = R} drawn now sid q s).0
  unfolding enter_send
  enter_send-IsCut now sid q s c =
      let t = clean_expired_sessions now (set_send_lock true q s) in
      let w = clean-IsCut r now (set_send_lock true q s) (send_lock-IsCut r true q s c) in
      if_elim (λ (t : Settled). IsCut r t.0) (is_current sid q t) _ _ (λ _. w)
        (λ _. send_lock-IsCut r false q t w)

  enter_reset-IsCut :
      (now : ℕ) (sid : String) (q : Ref) (s : SessionService)
      → IsCut r s
      → IsCut r (enter_reset {R = R} drawn now sid q s).0
  unfolding enter_reset
  enter_reset-IsCut now sid q s c =
      let b = set_send_lock true q (set_workflow_lock true q s) in
      let t = clean_expired_sessions now b in
      let w = clean-IsCut r now b (
        send_lock-IsCut r true q (set_workflow_lock true q s) (workflow_lock-IsCut r true q s c)) in
      if_elim (λ (t : SessionService × Outcome (SessionOperationResult R)). IsCut r t.0)
        (is_current sid q t) _ _
        (λ _.
          workflow_lock-IsCut r false q _
            (send_lock-IsCut r false q _ (marked-IsCut r q t (erase sid t.sessions) w)))
        (λ _.
          workflow_lock-IsCut r false q (set_send_lock false q t) (send_lock-IsCut r false q t w))

  round-IsCut : (q : Ref) (s : SessionService) → IsCut r s → IsCut r (reset_all_round q s).0
  unfolding reset_all_round
  round-IsCut q s c =
      if_elim (λ (t : SessionService × Bool). IsCut r t.0) (is_current (s.heap q).session_id q s) _
        _ (λ _. marked-IsCut r q s (erase (s.heap q).session_id s.sessions) c) (λ _. c)

  detach-IsCut :
      (sid : String) (found : Option Ref) (s : SessionService)
      → IsCut r s
      → IsCut r (detach {R = R} drawn sid found s).0
  unfolding detach
  detach-IsCut sid none s c = c
  detach-IsCut sid (some q) s c = marked-IsCut r q s s.sessions c

  create-IsCut :
      (fuel : ℕ) (ids : ℕ → String) (now now' : ℕ) (session : CidAttribute)
      (options : SessionOptions) (s : SessionService)
      → IsCut r s
      → IsCut r (
          or_cleaned
            (create_session {R = R} drawn fuel ids now now' session options s)
            (clean_expired_sessions now s))
  unfolding create_session
  create-IsCut fuel ids now now' session options s c =
      let t = clean_expired_sessions now s in
      elim (Option-cases (next_session_id fuel ids 0 t.sessions)) [
        | inl e ↦ rw (e, or_cleaned) (clean-IsCut r now s c)
        | inr (sid, e) ↦
            rw (e, or_cleaned) (add-IsCut r now' sid session options t (clean-IsCut r now s c))
      ]

  -- No piece gives an object its authentication back.
  run_call-IsCut :
      (call : Call) (s : SessionService) → IsCut r s → IsCut r (run_call drawn diagnostic_id call s)
  unfolding run_call
  run_call-IsCut (clean now) s c = clean-IsCut r now s c
  run_call-IsCut (create fuel ids now now' session options) s c =
      create-IsCut fuel ids now now' session options s c
  run_call-IsCut (store now sid session options) s c =
      unfold store_session in add-IsCut r now sid session options s c
  run_call-IsCut (reset now sid) s c =
      let t = clean_expired_sessions now s in
      let w = clean-IsCut r now s c in
      unfold reset_one in
      detach-IsCut sid (lookup sid t.sessions) (record t { sessions = erase sid t.sessions })
        (record { made = w.made; cut = w.cut })
  run_call-IsCut (reset_every now) s c =
      let t = clean_expired_sessions now s in
      let w = clean-IsCut r now s c in
      unfold reset_all in
      record {
        made = w.made;
        cut =
            (set_lifecycles-keeps SessionLifecycleState.removed (values t.sessions) t.heap r).1
            ∙ w.cut;
      }
  run_call-IsCut invalidate s c =
      unfold invalidate_authentication_context in
      record {
        made = c.made;
        cut = invalidate_all-keeps r (values s.sessions ++ s.expired_sessions) s.heap c.cut;
      }
  run_call-IsCut drain s c = unfold drain_expired_sessions in record { made = c.made; cut = c.cut }
  run_call-IsCut (enter now sid q) s c = enter_send-IsCut now sid q s c
  run_call-IsCut (finish now sid q cid end) s c = finish-IsCut now sid q cid end s c
  run_call-IsCut (workflow b q) s c = workflow_lock-IsCut r b q s c
  run_call-IsCut (enter_async_reset now sid q) s c = enter_reset-IsCut now sid q s c
  run_call-IsCut (async_reset_round q) s c = round-IsCut q s c

  pub run_calls-IsCut :
      (calls : List Call) (s : SessionService)
      → IsCut r s
      → IsCut r (run_calls drawn diagnostic_id calls s)
  unfolding run_calls
  run_calls-IsCut [] s c = c
  run_calls-IsCut (call ∷ calls) s c =
      run_calls-IsCut calls (run_call drawn diagnostic_id call s) (run_call-IsCut call s c)

-- Every object that is detached is cut.
pub invalidate_all-sets :
    (refs : List Ref) (h : Heap)
    → All (λ q. (invalidate_all refs h q).authentication_invalidated ≡ true) refs
unfolding invalidate_all
invalidate_all-sets [] h = tt
invalidate_all-sets (q ∷ refs) h = (
  invalidate_all-keeps q refs (write q (cut_off (h q)) h) (ground (arith, eqb_iff q q)),
  invalidate_all-sets refs (write q (cut_off (h q)) h),
)
