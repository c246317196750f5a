-- ===== src/Cleanup/Calls/Pieces.antt =====
-- The pieces of scheduling and of deletions in `RemoteChatCleanupManager`, and what they keep.
use gemini_web_mcp.Common.{
  ℕ, suc, String, Bool, true, false, ◌&&◌, not, ◌≡◌, refl, sym, ◌∙◌, subst, Option, none, some,
  arith, if_elim, ltb, eqb, if◌then◌else◌, Outcome, returned, raised, or_default, is_some, lookup,
  insert,
}
use gemini_web_mcp.Domain.Conversations.{CleanupObservation, is_valid_remote_chat_id}
use gemini_web_mcp.Cleanup.State.{
  Manager, CleanupTask, store_observation, cancelled_for_generation, storage_failure,
}
use gemini_web_mcp.Cleanup.Durable.{drop_pending, durable_schedule}
use gemini_web_mcp.Cleanup.Schedule.{
  Draws, ScheduleRequest, already, pending_observation, repeated_observation, with_pending,
  new_task, schedule_pending, retained_observation, schedule_open, schedule_in_memory,
  after_durable, schedule_valid, schedule_chat, schedule_cleanup_result, delete_at_of,
}
use gemini_web_mcp.Cleanup.Calls.Kept.{
  Keeps, Keeps-refl, Keeps-trans, IsValid, IsTaskOf, All-insert, All-lookup,
  store_observation-Keeps, cancelled_for_generation-Keeps, storage_failure-Keeps, pending-Keeps,
}
use gemini_web_mcp.Cleanup.Calls.Jobs.{IsKept-Keeps, drop_pending-Keeps}
use gemini_web_mcp.Cleanup.Calls.Durable.{durable_schedule-IsKept}

-- A change that keeps, and then an observation.
pub observed-Keeps :
    (cid : String) (o : CleanupObservation) (generation : ℕ) (m n : Manager)
    → Keeps m n
    → Keeps m (store_observation cid o generation n)
observed-Keeps cid o generation m n h =
    Keeps-trans m n (store_observation cid o generation n) h
      (store_observation-Keeps cid o generation n)

-- A pending task of the current generation.
pub with_pending-Keeps :
    (cid : String) (task : CleanupTask) (next : ℕ) (m : Manager)
    → (IsValid m → task.authentication_generation ≡ m.authentication_generation)
    → Keeps m (record (with_pending cid task m) { next = next })
with_pending-Keeps cid task next m h =
    pending-Keeps (insert cid task m.pending) next m
      (λ v. All-insert (IsTaskOf m.authentication_generation) cid task m.pending (h v) v.0)

pub found_current :
    (cid : String) (task : CleanupTask) (m : Manager)
    → lookup cid m.pending ≡ some task
    → IsValid m
    → task.authentication_generation ≡ m.authentication_generation
found_current cid task m e v =
    (All-lookup (IsTaskOf m.authentication_generation) cid task m.pending v.0 e).1

-- Work of an old generation is cancelled; other work goes on in the current one.
pub in_generation :
    {A : Type 0} (cid : String) (generation : ℕ) (diagnostic_id : String) (m : Manager)
    (x y : A × Manager)
    → x.1 ≡ (cancelled_for_generation cid generation diagnostic_id m).1
    → (generation ≡ m.authentication_generation → Keeps m y.1)
    → Keeps m (if not (eqb generation m.authentication_generation) then x else y).1
in_generation {A = A} cid generation diagnostic_id m x y e k =
    if_elim (λ (p : A × Manager). Keeps m p.1) (not (eqb generation m.authentication_generation)) x
      y
      (λ b.
        subst (λ (n : Manager). Keeps m n) (sym e)
          (cancelled_for_generation-Keeps cid generation diagnostic_id m))
      (λ b. k (same b))
  where
    same :
        not (eqb generation m.authentication_generation) ≡ false
        → generation ≡ m.authentication_generation
    same b = ground arith

schedule_pending-Keeps :
    (cid : String) (generation : ℕ) (explicit_delay : Bool) (delete_at : ℕ) (source : String)
    (found : Option CleanupTask) (m : Manager)
    → generation ≡ m.authentication_generation
    → lookup cid m.pending ≡ found
    → Keeps m (schedule_pending cid generation explicit_delay delete_at source found m).1
unfolding schedule_pending
schedule_pending-Keeps cid generation explicit_delay delete_at source none m g e =
    let task = new_task m.next delete_at source generation in
    observed-Keeps cid (pending_observation cid task false) generation m
      (record (with_pending cid task m) { next = suc m.next })
      (with_pending-Keeps cid task (suc m.next) m (λ v. g))
schedule_pending-Keeps cid generation explicit_delay delete_at source (some task) m g e =
    let moved : CleanupTask = record task { delete_at = delete_at } in
    if_elim (λ (p : CleanupObservation × Manager). Keeps m p.1)
      (explicit_delay && ltb delete_at task.delete_at) _ _
      (λ b.
        observed-Keeps cid (pending_observation cid moved true) generation m
          (with_pending cid moved m)
          (with_pending-Keeps cid moved m.next m (λ v. found_current cid task m e v)))
      (λ b.
        store_observation-Keeps cid (repeated_observation cid task (lookup cid m.observations))
          generation m)

schedule_in_memory-Keeps :
    (cid : String) (generation : ℕ) (retain_chat explicit_delay : Bool) (delete_at : ℕ)
    (source : String) (completed : Option CleanupObservation) (m : Manager)
    → generation ≡ m.authentication_generation
    → Keeps m
        (schedule_in_memory cid generation retain_chat explicit_delay delete_at source completed
          m).1
unfolding schedule_in_memory schedule_open
schedule_in_memory-Keeps cid generation retain_chat explicit_delay delete_at source (some o) m g =
    store_observation-Keeps cid (already o) generation m
schedule_in_memory-Keeps cid generation true explicit_delay delete_at source none m g =
    observed-Keeps cid (retained_observation cid source) generation m (drop_pending cid m)
      (drop_pending-Keeps cid m)
schedule_in_memory-Keeps cid generation false explicit_delay delete_at source none m g =
    schedule_pending-Keeps cid generation explicit_delay delete_at source (lookup cid m.pending) m g
      refl

after_durable-Keeps :
    (d : Draws) (cid : String) (generation : ℕ) (q : ScheduleRequest) (delete_at : ℕ) (m : Manager)
    (p : Outcome (Option CleanupObservation) × Manager)
    → generation ≡ m.authentication_generation
    → Keeps m p.1
    → Keeps m (after_durable d cid generation q delete_at p).1
unfolding after_durable
after_durable-Keeps d cid generation q delete_at m (raised e, n) g h =
    Keeps-trans m n (storage_failure cid q.source 0 d.diagnostic_id n).1 h
      (storage_failure-Keeps cid q.source 0 d.diagnostic_id n)
after_durable-Keeps d cid generation q delete_at m (returned (some o), n) g h =
    observed-Keeps cid o generation m n h
after_durable-Keeps d cid generation q delete_at m (returned none, n) g h =
    let explicit_delay = is_some q.delete_after_seconds in
    let found = lookup cid n.completed in
    Keeps-trans m n
      (schedule_in_memory cid generation q.retain_chat explicit_delay delete_at q.source found n).1
      h
      (schedule_in_memory-Keeps cid generation q.retain_chat explicit_delay delete_at q.source found
        n (g ∙ sym h.0.0))

schedule_valid-Keeps :
    (t : ℕ → ℕ) (d : Draws) (q : ScheduleRequest) (cid : String) (m : Manager)
    → Keeps m (schedule_valid t d q cid m).1
unfolding schedule_valid
schedule_valid-Keeps t d q cid m =
    let generation = or_default q.authentication_generation m.authentication_generation in
    let delete_at = delete_at_of (t 0) q d m in
    let explicit_delay = is_some q.delete_after_seconds in
    in_generation cid generation d.diagnostic_id m _ _ refl (λ g.
      after_durable-Keeps d cid generation q delete_at m
        (durable_schedule t d.job_id cid q.retain_chat explicit_delay delete_at q.source m) g
        (IsKept-Keeps _
          (durable_schedule-IsKept t d.job_id cid q.retain_chat explicit_delay delete_at q.source)
          m))

pub schedule_cleanup_result-Keeps :
    (t : ℕ → ℕ) (d : Draws) (q : ScheduleRequest) (m : Manager)
    → Keeps m (schedule_cleanup_result t d q m).1
unfolding schedule_cleanup_result
schedule_cleanup_result-Keeps t d q m = for_chat q.cid
  where
    for_chat : (cid : Option String) → Keeps m (schedule_chat t d q m cid).1
    for_chat none = Keeps-refl m
    for_chat (some cid) =
        if_elim (λ (p : CleanupObservation × Manager). Keeps m p.1) (is_valid_remote_chat_id cid) _
          _ (λ e. schedule_valid-Keeps t d q cid m) (λ e. Keeps-refl m)
