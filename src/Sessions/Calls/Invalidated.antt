-- ===== src/Sessions/Calls/Invalidated.antt =====
-- Sends that are under way when `invalidate_authentication_context` runs.
use gemini_web_mcp.Common.{
  ℕ, String, true, ◌≡◌, refl, Option, none, some, List, [], ◌∷◌, ◌++◌, eqb_iff, Dict, lookup, All,
  arith, if_elim, Bool-cases, inl, inr, returned, ◌==◌,
}
use mathlib.Core.Path.{subst}
use text.Mathlib.TextPositions.{eq_refl}
use gemini_web_mcp.Domain.Codes.{OperationState}
use gemini_web_mcp.Domain.Results.{Drawn, create}
use gemini_web_mcp.Sessions.State.{CidAttribute, Ref, Heap, write, SessionService}
use gemini_web_mcp.Sessions.Outcomes.{SessionOperationResult, authentication_changed}
use gemini_web_mcp.Sessions.Service.{values, invalidate_all, invalidate_authentication_context}
use gemini_web_mcp.Sessions.Service.Valid.{IsValid, Table, Table-lookup}
use gemini_web_mcp.Sessions.Sends.{
  Piece, returns, Upstream, answered, failed_or_cancelled, change, with_session, with_response_cid,
  upstream_sets_cid, report_changed, settle_send, finish_send,
}
use gemini_web_mcp.Sessions.Calls.{Call, run_calls, R}
use gemini_web_mcp.Sessions.Calls.Cut.{IsCut, invalidate_all-sets, run_calls-IsCut}

-- The operation state that a piece reports, if it returns a result.
abbrev pub reported : Piece (SessionOperationResult R) → Option OperationState
reported (returns (returned r)) = some r.meta.operation_state
reported _ = none

-- The reference that a result carries.
abbrev pub reported_session : Piece (SessionOperationResult R) → Option Ref
reported_session (returns (returned r)) = elim r.result [ none ↦ none | some d ↦ d.state ]
reported_session _ = none

module _ (drawn : Drawn) (diagnostic_id : String) (r : Ref) where
  report_changed-reported :
      (s : SessionService)
      → (reported (report_changed {R = R} drawn diagnostic_id r s).1
          ≡ some OperationState.cancelled)
        × (reported_session (report_changed {R = R} drawn diagnostic_id r s).1 ≡ some r)
  unfolding report_changed authentication_changed create
  report_changed-reported s = rw eq_refl (refl, refl)

  settle-reported :
      (now : ℕ) (sid : String) (end : Upstream R) (s : SessionService)
      → (s.heap r).authentication_invalidated ≡ true
      → (reported (settle_send {R = R} drawn (λ c. c) diagnostic_id now sid r end s).1
          ≡ some OperationState.cancelled)
        × (reported_session (settle_send {R = R} drawn (λ c. c) diagnostic_id now sid r end s).1
            ≡ some r)
  unfolding settle_send
  settle-reported now sid failed_or_cancelled s e =
      if_elim
        (λ (t : SessionService × Piece (SessionOperationResult R)).
          (reported t.1 ≡ some OperationState.cancelled) × (reported_session t.1 ≡ some r))
        (s.heap r).authentication_invalidated _ _ (λ _. report_changed-reported s) (λ n. cc)
  settle-reported now sid (answered response) s e =
      if_elim
        (λ (t : SessionService × Piece (SessionOperationResult R)).
          (reported t.1 ≡ some OperationState.cancelled) × (reported_session t.1 ≡ some r))
        (s.heap r).authentication_invalidated _ _
        (λ _. report_changed-reported (change r (with_response_cid response) s)) (λ n. cc)

  -- A send whose session is cut reports a cancelled operation on that session.
  finish-reported :
      (now : ℕ) (sid : String) (cid : CidAttribute) (end : Upstream R) (s : SessionService)
      → IsCut r s
      → (reported (finish_send {R = R} drawn (λ c. c) diagnostic_id now sid r cid end s).1
          ≡ some OperationState.cancelled)
        × (reported_session (finish_send {R = R} drawn (λ c. c) diagnostic_id now sid r cid end s).1
            ≡ some r)
  unfolding finish_send upstream_sets_cid
  finish-reported now sid cid end s c =
      settle-reported now sid end (change r (with_session cid) s)
        (unfold change write in ground (arith, eqb_iff r r, c.cut))

All-values :
    (P : Ref → Type 0) (h : Heap) (n : ℕ) (sid : String) (r : Ref) (d : Dict Ref)
    → Table h n d
    → lookup sid d ≡ some r
    → All P (values d)
    → P r
unfolding lookup values
All-values P h n sid r [] t e a = cc
All-values P h n sid r ((j, q) ∷ d) t e a = elim (Bool-cases (j == sid)) [
  | inl p ↦ let same : q ≡ r = ground (arith) in subst P same a.0
  | inr p ↦ All-values P h n sid r d t.2 (rw p at e) a.1
]

All-left : (P : Ref → Type 0) (xs ys : List Ref) → All P (xs ++ ys) → All P xs
All-left P [] ys h = tt
All-left P (x ∷ xs) ys h = (h.0, All-left P xs ys h.1)

-- The authentication context is invalidated while a session of the table is in use. Then the send
-- that is under way on it reports a cancelled operation on that session, whatever pieces of other
-- operations run in between, and whether the upstream answered or failed.
pub finish_send_after_invalidation :
    (drawn : Drawn) (diagnostic_id : String) (s : SessionService) (sid : String) (r : Ref)
    (calls : List Call) (now : ℕ) (cid : CidAttribute) (end : Upstream R)
    → IsValid s
    → lookup sid s.sessions ≡ some r
    → let t = run_calls drawn diagnostic_id calls (invalidate_authentication_context s).0 in
      let piece = (finish_send {R = R} drawn (λ c. c) diagnostic_id now sid r cid end t).1 in
      (reported piece ≡ some OperationState.cancelled) × (reported_session piece ≡ some r)
finish_send_after_invalidation drawn diagnostic_id s sid r calls now cid end v found =
    let refs = values s.sessions ++ s.expired_sessions in
    let t = (invalidate_authentication_context s).0 in
    finish-reported drawn diagnostic_id r now sid cid end (run_calls drawn diagnostic_id calls t) (
      run_calls-IsCut drawn diagnostic_id r calls t (
        unfold invalidate_authentication_context in
        record {
          made = (Table-lookup sid r s.sessions v.table found).made;
          cut =
              All-values (λ q. (invalidate_all refs s.heap q).authentication_invalidated ≡ true)
                s.heap s.next sid r s.sessions v.table found
                (All-left (λ q. (invalidate_all refs s.heap q).authentication_invalidated ≡ true)
                  (values s.sessions) s.expired_sessions (invalidate_all-sets refs s.heap));
        }))
