-- ===== src/Cleanup/Outcomes/Decisions.antt =====
-- Decisions on a chat one after the other in `RemoteChatCleanupManager`, without a state store.
use gemini_web_mcp.Common.{
  ℕ, ◌+◌, String, Bool, true, false, not, ◌&&◌, ◌≡◌, refl, sym, subst, ap, ◌∙◌, Option, none, some,
  arith, if_elim, if◌then◌else◌, or_default, returned, is_some, lookup, Dict, lookup-insert_same,
  lookup-erase_same,
}
use gemini_web_mcp.Domain.Conversations.{CleanupObservation, is_valid_remote_chat_id}
use gemini_web_mcp.Store.Transactions.{StateStore}
use gemini_web_mcp.Cleanup.State.{Manager, CleanupTask, store_observation, scoped}
use gemini_web_mcp.Cleanup.Durable.{
  drop_pending, durable_schedule, claim_durable, claim_in_scope, schedule_in_scope,
  unavailable_observation, Claim,
}
use gemini_web_mcp.Cleanup.Schedule.{
  Draws, ScheduleRequest, retained_observation, invalid_observation, schedule_open,
  schedule_in_memory, after_durable, schedule_valid, schedule_cleanup_result,
}
use gemini_web_mcp.Cleanup.Delete.{
  Expected, Start, is_withdrawn, is_still_due, with_worker, start_worker, source_of, join_or_start,
  delete_open, lacks_scope, delete_valid, delete_chat_result,
}
use gemini_web_mcp.Cleanup.Calls.Kept.{store_observation-IsSameWork, store_observation-Keeps}
use gemini_web_mcp.Cleanup.Outcomes.Withdrawn.{current_branch}

-- A manager without a store, which has not deleted the chat.
abbrev pub IsOpen : String → Manager → Type 0
IsOpen cid m =
    (is_valid_remote_chat_id cid ≡ true) × (m.state_store ≡ none) × (lookup cid m.completed ≡ none)

-- The request to retain a chat.
abbrev pub retaining : String → String → ScheduleRequest
retaining cid source = record {
  cid = some cid;
  retain_chat = true;
  delete_after_seconds = none;
  source = source;
  authentication_generation = none;
}

durable_schedule-none :
    (t : ℕ → ℕ) (job_id cid : String) (retain_chat explicit_delay : Bool) (delete_at : ℕ)
    (source : String) (m : Manager)
    → m.state_store ≡ none
    → durable_schedule t job_id cid retain_chat explicit_delay delete_at source m
      ≡ (returned none, m)
unfolding durable_schedule
durable_schedule-none t job_id cid retain_chat explicit_delay delete_at source m h =
    ap
      (λ (o : Option StateStore).
        scoped none (some (unavailable_observation cid source))
          (λ scope.
            schedule_in_scope t job_id scope cid retain_chat explicit_delay delete_at source)
          o m.authentication_scope m)
      h

claim_durable-none :
    (t : ℕ → ℕ) (job_id lease_id cid : String) (expected : Option (Option ℕ)) (allow_durable : Bool)
    (source : String) (m : Manager)
    → m.state_store ≡ none
    → claim_durable t job_id lease_id cid expected allow_durable source m
      ≡ (returned Claim.unclaimed, m)
unfolding claim_durable
claim_durable-none t job_id lease_id cid expected allow_durable source m h =
    ap
      (λ (o : Option StateStore).
        scoped Claim.unclaimed Claim.unclaimed
          (λ scope. claim_in_scope t job_id lease_id scope cid expected allow_durable source) o
          m.authentication_scope m)
      h

-- The manager after a request to retain.
abbrev pub retained_manager : String → String → Manager → Manager
retained_manager cid source m =
    store_observation cid (retained_observation cid source) m.authentication_generation
      (drop_pending cid m)

retained_lem :
    (t : ℕ → ℕ) (d : Draws) (cid source : String) (m : Manager)
    → IsOpen cid m
    → schedule_cleanup_result t d (retaining cid source) m
      ≡ (retained_observation cid source, retained_manager cid source m)
unfolding schedule_cleanup_result schedule_valid after_durable schedule_in_memory schedule_open
retained_lem t d cid source m h =
    ap
      (λ (b : Bool).
        if b
        then schedule_valid t d (retaining cid source) cid m
        else (invalid_observation source, m))
      h.0
    ∙ current_branch
        (λ (p : CleanupObservation × Manager).
          Path (CleanupObservation × Manager) p
            (retained_observation cid source, retained_manager cid source m))
        m.authentication_generation m _ _ refl
        (ap (after_durable d cid m.authentication_generation (retaining cid source) 0)
            (durable_schedule-none t d.job_id cid true false 0 source m h.1)
          ∙ ap
              (λ (o : Option CleanupObservation).
                schedule_in_memory cid m.authentication_generation true false 0 source o m)
              h.2)

is_withdrawn_lem :
    (now : ℕ) (cid : String) (expected : Expected) (m : Manager)
    → lookup cid m.pending ≡ none
    → is_withdrawn now cid (some expected) m ≡ true
is_withdrawn_lem now cid expected m h =
    ap (λ (o : Option CleanupTask). not (is_still_due now expected o (lookup cid m.inflight))) h

no_scope : (o : Option StateStore) (b : Bool) → o ≡ none → (is_some o && not b) ≡ true → ⊥
no_scope none b e l = ground arith
no_scope (some s) b e l = ground arith

withdrawn_start :
    (t : ℕ → ℕ) (d : Draws) (cid : String) (generation : Option ℕ) (expected : Expected)
    (source : String) (allow_durable : Bool) (m : Manager)
    → m.state_store ≡ none
    → or_default generation m.authentication_generation ≡ m.authentication_generation
    → lookup cid m.pending ≡ none
    → (delete_valid t d cid generation (some expected) source allow_durable m).0 ≡ Start.nothing
unfolding delete_valid
withdrawn_start t d cid generation expected source allow_durable m h g e =
    current_branch (λ (p : Start × Manager). p.0 ≡ Start.nothing)
      (or_default generation m.authentication_generation) m _ _ g
      (if_elim (λ (p : Start × Manager). p.0 ≡ Start.nothing) (lacks_scope m) _ _
        (λ l. absurd (no_scope m.state_store (is_some m.authentication_scope) h l))
        (λ l.
          if_elim (λ (p : Start × Manager). p.0 ≡ Start.nothing)
            (is_withdrawn (t 0) cid (some expected) m) _ _ (λ w. refl)
            (λ w. absurd (ground (arith, is_withdrawn_lem (t 0) cid expected m e)))))

-- After a request to retain a chat that a manager without a state store has not deleted, an automatic
-- deletion of the chat in the current generation does nothing, whatever task, due time and attempts
-- its decision saw, and whatever the clock reads.
pub retain_withdraws :
    (t t' : ℕ → ℕ) (d d' : Draws) (cid source source' : String) (generation : Option ℕ)
    (expected : Expected) (allow_durable : Bool) (m : Manager)
    → IsOpen cid m
    → or_default generation m.authentication_generation ≡ m.authentication_generation
    → (delete_chat_result t' d'
        (some cid)
        generation
        (some expected)
        source'
        allow_durable
        (schedule_cleanup_result t d (retaining cid source) m).1).0
      ≡ Start.nothing
unfolding delete_chat_result
retain_withdraws t t' d d' cid source source' generation expected allow_durable m h g =
    let dropped = drop_pending cid m in
    let o = retained_observation cid source in
    let same = store_observation-IsSameWork cid o m.authentication_generation dropped in
    let context = (store_observation-Keeps cid o m.authentication_generation dropped).0.0 in
    rw (retained_lem t d cid source m h, h.0)
      (withdrawn_start t' d' cid generation expected source' allow_durable
        (retained_manager cid source m) (same.3 ∙ h.1)
        (subst (λ (n : ℕ). or_default generation n ≡ n) (sym context) g)
        (ap (λ (tasks : Dict CleanupTask). lookup cid tasks) same.0
          ∙ lookup-erase_same cid m.pending))

started_lem :
    (t : ℕ → ℕ) (d : Draws) (cid source : String) (allow_durable : Bool) (m : Manager)
    → IsOpen cid m
    → lookup cid m.inflight ≡ none
    → delete_chat_result t d (some cid) none none source allow_durable m
      ≡ (Start.works m.next (source_of (lookup cid m.pending) source), with_worker cid m)
unfolding delete_chat_result delete_valid delete_open join_or_start start_worker
started_lem t d cid source allow_durable m h w =
    let started : Start × Manager =
      (Start.works m.next (source_of (lookup cid m.pending) source), with_worker cid m) in
    rw h.0 (
      current_branch (λ (p : Start × Manager). Path (Start × Manager) p started)
        m.authentication_generation m _ _ refl
        (if_elim (λ (p : Start × Manager). Path (Start × Manager) p started) (lacks_scope m) _ _
          (λ l. absurd (no_scope m.state_store (is_some m.authentication_scope) h.1 l))
          (λ l.
            ap
              (λ (o : Option CleanupObservation).
                delete_open t d cid m.authentication_generation none source allow_durable o m)
              h.2
            ∙ ap (λ (o : Option ℕ). join_or_start t d cid none source allow_durable o m) w
            ∙ ap (start_worker cid (source_of (lookup cid m.pending) source) d.diagnostic_id none) (
                claim_durable-none (λ i. t (i + 1)) d.job_id d.lease_id cid none allow_durable
                  (source_of (lookup cid m.pending) source) m h.1))))

joined_lem :
    (t : ℕ → ℕ) (d : Draws) (cid source : String) (allow_durable : Bool) (m : Manager) (worker : ℕ)
    → IsOpen cid m
    → lookup cid m.inflight ≡ some worker
    → (delete_chat_result t d (some cid) none none source allow_durable m).0 ≡ Start.joins worker
unfolding delete_chat_result delete_valid delete_open join_or_start
joined_lem t d cid source allow_durable m worker h w = rw h.0 (
    current_branch (λ (p : Start × Manager). p.0 ≡ Start.joins worker) m.authentication_generation m
      _ _ refl
      (if_elim (λ (p : Start × Manager). p.0 ≡ Start.joins worker) (lacks_scope m) _ _
        (λ l. absurd (no_scope m.state_store (is_some m.authentication_scope) h.1 l))
        (λ l.
          ap
            (λ (o : Option CleanupObservation).
              (delete_open t d cid m.authentication_generation none source allow_durable o m).0)
            h.2
          ∙ ap (λ (o : Option ℕ). (join_or_start t d cid none source allow_durable o m).0) w)))

busy_lem :
    (now : ℕ) (expected : Expected) (task : Option CleanupTask) (worker : ℕ)
    → is_still_due now expected task (some worker) ≡ false
busy_lem now expected none worker = refl
busy_lem now expected (some task) worker = ground arith

busy_start :
    (t : ℕ → ℕ) (d : Draws) (cid : String) (expected : Expected) (source : String)
    (allow_durable : Bool) (m : Manager) (worker : ℕ)
    → IsOpen cid m
    → lookup cid m.inflight ≡ some worker
    → (delete_chat_result t d (some cid) none (some expected) source allow_durable m).0
      ≡ Start.nothing
unfolding delete_chat_result delete_valid
busy_start t d cid expected source allow_durable m worker h w = rw h.0 (
    current_branch (λ (p : Start × Manager). p.0 ≡ Start.nothing) m.authentication_generation m _ _
      refl
      (if_elim (λ (p : Start × Manager). p.0 ≡ Start.nothing) (lacks_scope m) _ _
        (λ l. absurd (no_scope m.state_store (is_some m.authentication_scope) h.1 l))
        (λ l.
          if_elim (λ (p : Start × Manager). p.0 ≡ Start.nothing)
            (is_withdrawn (t 0) cid (some expected) m) _ _ (λ e. refl)
            (λ e.
              absurd (
                ground
                  (arith, busy_lem (t 0) expected (lookup cid m.pending) worker, rw w at e))))))

-- In a manager without a state store that has not deleted a chat and has no worker for it, a request
-- to delete the chat starts a worker; a second request waits for that worker, and an automatic
-- deletion does nothing, whatever its decision saw: no second worker starts.
pub delete_starts_once :
    (t t' u : ℕ → ℕ) (d d' e : Draws) (cid source source' : String) (expected : Expected)
    (allow_durable : Bool) (m : Manager)
    → IsOpen cid m
    → lookup cid m.inflight ≡ none
    → (let started = delete_chat_result t d (some cid) none none source allow_durable m in
        (started.0 ≡ Start.works m.next (source_of (lookup cid m.pending) source))
        × ((delete_chat_result t' d' (some cid) none none source' allow_durable started.1).0
            ≡ Start.joins m.next)
        × ((delete_chat_result u e
              (some cid)
              none
              (some expected)
              source'
              allow_durable
              started.1).0
            ≡ Start.nothing))
delete_starts_once t t' u d d' e cid source source' expected allow_durable m h w =
    let n = with_worker cid m in
    let found : lookup cid n.inflight ≡ some m.next = lookup-insert_same cid m.next m.inflight in
    rw (started_lem t d cid source allow_durable m h w) (
      refl,
      joined_lem t' d' cid source' allow_durable n m.next h found,
      busy_start u e cid expected source' allow_durable n m.next h found,
    )
