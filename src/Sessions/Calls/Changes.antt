-- ===== src/Sessions/Calls/Changes.antt =====
-- Changes of one session object and the invariant of the session table.
use gemini_web_mcp.Common.{
  ℕ, String, Bool, true, false, ◌≡◌, ◌≢◌, refl, sym, ap, ◌∙◌, some, eqb_iff, lookup, erase, arith,
  Option-cases, inl, inr,
}
use gemini_web_mcp.Domain.Results.{Drawn}
use gemini_web_mcp.Domain.Conversations.{SessionLifecycleState}
use gemini_web_mcp.Sessions.State.{CidAttribute, SessionState, Ref, Heap, write, SessionService}
use gemini_web_mcp.Sessions.Service.{set_lifecycle}
use gemini_web_mcp.Sessions.Service.Valid.{
  IsLive, IsGone, IsValid, Table-lookup, Table-map, Table-erase, All-map,
}
use gemini_web_mcp.Sessions.Sends.{
  change, with_send_lock, with_workflow_lock, with_session, set_send_lock, set_workflow_lock,
  is_current, upstream_sets_cid, report_changed,
}

-- What the invariant reads of an object is the same in two heaps.
pub record Agree (g h : Heap) (q : Ref) : Type 0 where
  pub named : (h q).session_id ≡ (g q).session_id
  pub lifecycle : (h q).lifecycle_state ≡ (g q).lifecycle_state
  pub authenticated : (h q).authentication_invalidated ≡ (g q).authentication_invalidated

pub Agree-IsLive :
    (g h : Heap) (n : ℕ) (j : String) (q : Ref) → Agree g h q → IsLive g n j q → IsLive h n j q
Agree-IsLive g h n j q a l = record {
  made = l.made;
  named = a.named ∙ l.named;
  active = a.lifecycle ∙ l.active;
  authenticated = a.authenticated ∙ l.authenticated;
}

pub Agree-IsGone : (g h : Heap) (n : ℕ) (q : Ref) → Agree g h q → IsGone g n q → IsGone h n q
Agree-IsGone g h n q a l = record {
  made = l.made;
  expired = a.lifecycle ∙ l.expired;
  authenticated = a.authenticated ∙ l.authenticated;
}

-- A change of an object that leaves those fields alone.
pub record IsNeutral (f : SessionState → SessionState) : Type 0 where
  pub named : (x : SessionState) → (f x).session_id ≡ x.session_id
  pub lifecycle : (x : SessionState) → (f x).lifecycle_state ≡ x.lifecycle_state
  pub authenticated :
      (x : SessionState) → (f x).authentication_invalidated ≡ x.authentication_invalidated

write-Agree :
    (f : SessionState → SessionState) (r : Ref) (h : Heap) (q : Ref)
    → IsNeutral f
    → Agree h (write r (f (h r)) h) q
unfolding write
write-Agree f r h q n = record {
  named = ground (arith, eqb_iff q r, n.named (h r));
  lifecycle = ground (arith, eqb_iff q r, n.lifecycle (h r));
  authenticated = ground (arith, eqb_iff q r, n.authenticated (h r));
}

pub change-IsValid :
    (r : Ref) (f : SessionState → SessionState) (s : SessionService)
    → IsNeutral f
    → IsValid s
    → IsValid (change r f s)
unfolding change
change-IsValid r f s n v =
    let a = λ (q : Ref). write-Agree f r s.heap q n in
    record {
      table =
          Table-map s.sessions
            (λ j q l. Agree-IsLive s.heap (write r (f (s.heap r)) s.heap) s.next j q (a q) l)
            v.table;
      expired =
          All-map s.expired_sessions
            (λ q g. Agree-IsGone s.heap (write r (f (s.heap r)) s.heap) s.next q (a q) g) v.expired;
    }

-- The changes of the locks, of the handle and after a response.
pub neutral :
    (f : SessionState → SessionState)
    → ((x : SessionState)
        → ((f x).session_id ≡ x.session_id)
          × ((f x).lifecycle_state ≡ x.lifecycle_state)
          × ((f x).authentication_invalidated ≡ x.authentication_invalidated))
    → IsNeutral f
neutral f h = record {
  named = λ x. (h x).0;
  lifecycle = λ x. (h x).1;
  authenticated = λ x. (h x).2;
}

pub send_lock-IsValid :
    (b : Bool) (r : Ref) (s : SessionService) → IsValid s → IsValid (set_send_lock b r s)
unfolding set_send_lock
send_lock-IsValid b r s v =
    change-IsValid r (with_send_lock b) s (neutral (with_send_lock b) (λ x. (refl, refl, refl))) v

pub workflow_lock-IsValid :
    (b : Bool) (r : Ref) (s : SessionService) → IsValid s → IsValid (set_workflow_lock b r s)
unfolding set_workflow_lock
workflow_lock-IsValid b r s v =
    change-IsValid r (with_workflow_lock b) s
      (neutral (with_workflow_lock b) (λ x. (refl, refl, refl))) v

pub upstream-IsValid :
    (cid : CidAttribute) (r : Ref) (s : SessionService)
    → IsValid s
    → IsValid (upstream_sets_cid cid r s)
unfolding upstream_sets_cid
upstream-IsValid cid r s v =
    change-IsValid r (with_session cid) s (neutral (with_session cid) (λ x. (refl, refl, refl))) v

-- An object outside the table and the expired list may turn REMOVED.
pub set_lifecycle-other :
    (h : Heap) (r q : Ref) → q ≢ r → Agree h (set_lifecycle SessionLifecycleState.removed r h) q
unfolding set_lifecycle
set_lifecycle-other h r q ne = record {
  named = ground (arith, eqb_iff q r);
  lifecycle = ground (arith, eqb_iff q r);
  authenticated = ground (arith, eqb_iff q r);
}

-- Removing a live object by its id: the table loses the id, and the object turns REMOVED.
pub remove-IsValid :
    (sid : String) (r : Ref) (s : SessionService)
    → IsValid s
    → lookup sid s.sessions ≡ some r
    → IsValid (record s {
      sessions = erase sid s.sessions;
      heap = set_lifecycle SessionLifecycleState.removed r s.heap;
    })
remove-IsValid sid r s v found =
    let live = Table-lookup sid r s.sessions v.table found in
    let h = set_lifecycle SessionLifecycleState.removed r s.heap in
    record {
      table =
          Table-erase sid s.sessions
            (λ j q l ne.
              Agree-IsLive s.heap h s.next j q
                (set_lifecycle-other s.heap r q
                  (λ p. ne (sym l.named ∙ ap (λ x. (s.heap x).session_id) p ∙ live.named)))
                l)
            v.table;
      expired =
          All-map s.expired_sessions
            (λ q g.
              Agree-IsGone s.heap h s.next q
                (set_lifecycle-other s.heap r q
                  (λ p. cc (sym g.expired ∙ ap (λ x. (s.heap x).lifecycle_state) p ∙ live.active)))
                g)
            v.expired;
    }

-- The table without an id that it does not have.
pub drop_absent-IsValid :
    (sid : String) (s : SessionService)
    → IsValid s
    → IsValid (record s { sessions = erase sid s.sessions })
drop_absent-IsValid sid s v = record {
  table = Table-erase sid s.sessions (λ j q l ne. l) v.table;
  expired = v.expired;
}

-- An object whose authentication was invalidated is in neither list.
pub report_changed-IsValid :
    (A : Type 0) (drawn : Drawn) (diagnostic_id : String) (r : Ref) (s : SessionService)
    → (s.heap r).authentication_invalidated ≡ true
    → IsValid s
    → IsValid (report_changed {R = A} drawn diagnostic_id r s).0
unfolding report_changed
report_changed-IsValid A drawn diagnostic_id r s gone v =
    let h = set_lifecycle SessionLifecycleState.removed r s.heap in
    let apart : (q : Ref) → (s.heap q).authentication_invalidated ≡ false → q ≢ r =
      λ q e p. cc (sym e ∙ ap (λ x. (s.heap x).authentication_invalidated) p ∙ gone) in
    record {
      table =
          Table-map s.sessions
            (λ j q l.
              Agree-IsLive s.heap h s.next j q
                (set_lifecycle-other s.heap r q (apart q l.authenticated)) l)
            v.table;
      expired =
          All-map s.expired_sessions
            (λ q g.
              Agree-IsGone s.heap h s.next q
                (set_lifecycle-other s.heap r q (apart q g.authenticated)) g)
            v.expired;
    }

pub is_current-found :
    (sid : String) (r : Ref) (s : SessionService)
    → is_current sid r s ≡ true
    → lookup sid s.sessions ≡ some r
unfolding is_current
is_current-found sid r s h = elim (Option-cases (lookup sid s.sessions)) [
  | inl e ↦ ground arith
  | inr (q, e) ↦ ground (arith, eqb_iff q r)
]
