-- ===== src/Cleanup/Calls/Deletions.antt =====
-- The pieces of deletions in `RemoteChatCleanupManager`, and what they keep.
use gemini_web_mcp.Common.{
  ℕ, suc, ◌+◌, String, Bool, ◌≡◌, refl, Option, none, some, if_elim, Outcome, returned, raised,
  or_default, lookup, insert,
}
use gemini_web_mcp.Domain.Conversations.{CleanupObservation, is_valid_remote_chat_id}
use gemini_web_mcp.Cleanup.State.{Manager, CleanupTask, storage_failure}
use gemini_web_mcp.Cleanup.Durable.{drop_pending, claim_durable, Claim}
use gemini_web_mcp.Cleanup.Schedule.{Draws, already, with_pending}
use gemini_web_mcp.Cleanup.Delete.{
  Expected, Start, start_worker, source_of, expected_version, join_or_start, delete_open,
  lacks_scope, is_withdrawn, delete_valid, delete_chat_result, check_generation, next_attempt,
  count_attempt, enter_delete, check_delete, completed_observation, entry_observation,
  failure_observation, complete_delete, failed_task, record_failure, record_cleanup_failure,
}
use gemini_web_mcp.Cleanup.Calls.Kept.{
  Keeps, Keeps-refl, Keeps-trans, IsValid, IsCompleted, All-insert, store_observation-Keeps,
  storage_failure-Keeps,
}
use gemini_web_mcp.Cleanup.Calls.Jobs.{IsKept-Keeps, drop_pending-Keeps}
use gemini_web_mcp.Cleanup.Calls.Durable.{claim_durable-IsKept}
use gemini_web_mcp.Cleanup.Calls.Pieces.{
  observed-Keeps, with_pending-Keeps, found_current, in_generation,
}

start_worker-Keeps :
    (cid source diagnostic_id : String) (expected : Option Expected) (m : Manager)
    (p : Outcome Claim × Manager)
    → Keeps m p.1
    → Keeps m (start_worker cid source diagnostic_id expected p).1
unfolding start_worker
start_worker-Keeps cid source diagnostic_id expected m (raised e, n) h =
    Keeps-trans m n (storage_failure cid source 0 diagnostic_id n).1 h
      (storage_failure-Keeps cid source 0 diagnostic_id n)
start_worker-Keeps cid source diagnostic_id expected m (returned Claim.unclaimed, n) h = h
start_worker-Keeps cid source diagnostic_id expected m (returned (Claim.claimed r), n) h = h
start_worker-Keeps cid source diagnostic_id expected m (returned (Claim.observed o), n) h = h

join_or_start-Keeps :
    (t : ℕ → ℕ) (d : Draws) (cid : String) (expected : Option Expected) (source : String)
    (allow_durable : Bool) (worker : Option ℕ) (m : Manager)
    → Keeps m (join_or_start t d cid expected source allow_durable worker m).1
unfolding join_or_start
join_or_start-Keeps t d cid expected source allow_durable (some worker) m = Keeps-refl m
join_or_start-Keeps t d cid expected source allow_durable none m =
    let delete_source = source_of (lookup cid m.pending) source in
    let claim =
      claim_durable (λ i. t (i + 1)) d.job_id d.lease_id cid (expected_version expected)
        allow_durable delete_source in
    start_worker-Keeps cid delete_source d.diagnostic_id expected m (claim m) (
      IsKept-Keeps claim
        (claim_durable-IsKept (λ i. t (i + 1)) d.job_id d.lease_id cid (expected_version expected)
          allow_durable delete_source)
        m)

delete_open-Keeps :
    (t : ℕ → ℕ) (d : Draws) (cid : String) (generation : ℕ) (expected : Option Expected)
    (source : String) (allow_durable : Bool) (completed : Option CleanupObservation) (m : Manager)
    → Keeps m (delete_open t d cid generation expected source allow_durable completed m).1
unfolding delete_open
delete_open-Keeps t d cid generation expected source allow_durable (some o) m =
    store_observation-Keeps cid (already o) generation m
delete_open-Keeps t d cid generation expected source allow_durable none m =
    join_or_start-Keeps t d cid expected source allow_durable (lookup cid m.inflight) m

pub delete_valid-Keeps :
    (t : ℕ → ℕ) (d : Draws) (cid : String) (authentication_generation : Option ℕ)
    (expected : Option Expected) (source : String) (allow_durable : Bool) (m : Manager)
    → Keeps m (delete_valid t d cid authentication_generation expected source allow_durable m).1
unfolding delete_valid
delete_valid-Keeps t d cid authentication_generation expected source allow_durable m =
    let generation = or_default authentication_generation m.authentication_generation in
    in_generation cid generation d.diagnostic_id m _ _ refl (λ g.
      if_elim (λ (p : Start × Manager). Keeps m p.1) (lacks_scope m) _ _ (λ e. Keeps-refl m)
        (λ e.
          if_elim (λ (p : Start × Manager). Keeps m p.1) (is_withdrawn (t 0) cid expected m) _ _
            (λ w. Keeps-refl m)
            (λ w.
              delete_open-Keeps t d cid generation expected source allow_durable
                (lookup cid m.completed) m)))

pub delete_chat_result-Keeps :
    (t : ℕ → ℕ) (d : Draws) (cid : Option String) (authentication_generation : Option ℕ)
    (expected : Option Expected) (source : String) (allow_durable : Bool) (m : Manager)
    → Keeps m
        (delete_chat_result t d cid authentication_generation expected source allow_durable m).1
unfolding delete_chat_result
delete_chat_result-Keeps t d none authentication_generation expected source allow_durable m =
    Keeps-refl m
delete_chat_result-Keeps t d (some cid) authentication_generation expected source allow_durable m =
    if_elim (λ (p : Start × Manager). Keeps m p.1) (is_valid_remote_chat_id cid) _ _
      (λ e. delete_valid-Keeps t d cid authentication_generation expected source allow_durable m)
      (λ e. Keeps-refl m)

count_attempt-Keeps :
    (cid : String) (attempts : ℕ) (found : Option CleanupTask) (m : Manager)
    → lookup cid m.pending ≡ found
    → Keeps m (count_attempt cid attempts found m)
count_attempt-Keeps cid attempts none m e = Keeps-refl m
count_attempt-Keeps cid attempts (some task) m e =
    with_pending-Keeps cid (record task { attempts = attempts }) m.next m
      (λ v. found_current cid task m e v)

pub enter_delete-Keeps :
    (cid : String) (generation : ℕ) (source diagnostic_id : String) (m : Manager)
    → Keeps m (enter_delete cid generation source diagnostic_id m).1
unfolding enter_delete check_generation
enter_delete-Keeps cid generation source diagnostic_id m =
    let attempts = next_attempt (lookup cid m.pending) in
    in_generation cid generation diagnostic_id m _ _ refl (λ g.
      observed-Keeps cid (entry_observation cid attempts source) generation m
        (count_attempt cid attempts (lookup cid m.pending) m)
        (count_attempt-Keeps cid attempts (lookup cid m.pending) m refl))

pub check_delete-Keeps :
    (cid : String) (generation : ℕ) (diagnostic_id : String) (m : Manager)
    → Keeps m (check_delete cid generation diagnostic_id m).1
unfolding check_delete check_generation
check_delete-Keeps cid generation diagnostic_id m =
    in_generation cid generation diagnostic_id m _ _ refl (λ g. Keeps-refl m)

pub complete_delete-Keeps :
    (cid : String) (generation attempts : ℕ) (source diagnostic_id : String) (m : Manager)
    → Keeps m (complete_delete cid generation attempts source diagnostic_id m).1
unfolding complete_delete
complete_delete-Keeps cid generation attempts source diagnostic_id m =
    let o = completed_observation cid attempts source in
    let n = drop_pending cid m in
    in_generation cid generation diagnostic_id m _ _ refl (λ g.
      observed-Keeps cid o generation m (record n { completed = insert cid o n.completed })
        (
          (drop_pending-Keeps cid m).0,
          λ v.
              let w = (drop_pending-Keeps cid m).1 v in
              (w.0, All-insert IsCompleted cid o m.completed refl w.1, w.2),
        ))

failed_task_current :
    (now : ℕ) (source : String) (generation : ℕ) (cid : String) (found : Option CleanupTask)
    (m : Manager)
    → generation ≡ m.authentication_generation
    → lookup cid m.pending ≡ found
    → IsValid m
    → (failed_task m.next now source generation found).authentication_generation
      ≡ m.authentication_generation
failed_task_current now source generation cid none m g e v = g
failed_task_current now source generation cid (some task) m g e v = found_current cid task m e v

pub record_failure-Keeps :
    (now : ℕ) (cid : String) (attempts : ℕ) (source : String) (authentication_generation : Option ℕ)
    (diagnostic_id : String) (m : Manager)
    → Keeps m (record_failure now cid attempts source authentication_generation diagnostic_id m).1
unfolding record_failure
record_failure-Keeps now cid attempts source authentication_generation diagnostic_id m =
    let generation = or_default authentication_generation m.authentication_generation in
    let task = failed_task m.next now source generation (lookup cid m.pending) in
    let failed : CleanupTask = record task {
      attempts = attempts;
      last_diagnostic_id = some diagnostic_id;
    } in
    in_generation cid generation diagnostic_id m _ _ refl (λ g.
      observed-Keeps cid (failure_observation cid attempts source diagnostic_id) generation m
        (record (with_pending cid failed m) { next = suc m.next })
        (with_pending-Keeps cid failed (suc m.next) m
          (λ v. failed_task_current now source generation cid (lookup cid m.pending) m g refl v)))

pub record_cleanup_failure-Keeps :
    (now : ℕ) (cid : Option String) (source diagnostic_id : String) (m : Manager)
    → Keeps m (record_cleanup_failure now cid source diagnostic_id m).1
unfolding record_cleanup_failure
record_cleanup_failure-Keeps now none source diagnostic_id m = Keeps-refl m
record_cleanup_failure-Keeps now (some cid) source diagnostic_id m =
    if_elim (λ (p : CleanupObservation × Manager). Keeps m p.1) (is_valid_remote_chat_id cid) _ _
      (λ e.
        record_failure-Keeps now cid (next_attempt (lookup cid m.pending)) source none diagnostic_id
          m)
      (λ e. Keeps-refl m)
