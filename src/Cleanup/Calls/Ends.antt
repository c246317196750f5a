-- ===== src/Cleanup/Calls/Ends.antt =====
-- How deletions and their waits end in `RemoteChatCleanupManager`, and what that keeps.
use gemini_web_mcp.Common.{
  ℕ, suc, String, not, ◌≡◌, refl, Option, none, some, List, if_elim, eqb, Outcome, returned, raised,
  or_default, lookup,
}
use gemini_web_mcp.Domain.Conversations.{CleanupObservation, is_valid_remote_chat_id}
use gemini_web_mcp.Store.Records.{CleanupJobRecord}
use gemini_web_mcp.Store.Cleanup.{get_job}
use gemini_web_mcp.Cleanup.State.{Manager, CleanupTask, ◌>>=◌, adopt, on_store}
use gemini_web_mcp.Cleanup.Schedule.{with_pending}
use gemini_web_mcp.Cleanup.Delete.{
  Expected, finish_delete, is_worker, note_timeout, timed_out_task, timeout_observed,
  is_pending_state, diagnostic_or, record_cleanup_wait_timeout,
}
use gemini_web_mcp.Cleanup.Worker.{
  Awaited, arrived, was_cancelled, failed, DeleteAnswer, is_verified, Ending, Work, fail_delete,
  cancel_delete, settle_delete,
}
use gemini_web_mcp.Cleanup.Settle.{
  Job, Verdict, Attempt, suspend, attempt_of, lost_authority, hold_authority, with_authority,
  settled_or_failed, updated_or_found, adopt_or_lost, write_verdict, settle_durable,
}
use gemini_web_mcp.Cleanup.Context.{refresh, is_old, collect_due, select_due}
use gemini_web_mcp.Cleanup.Calls.Kept.{
  Keeps, Keeps-refl, Keeps-trans, IsValid, storage_failure-Keeps,
}
use gemini_web_mcp.Cleanup.Calls.Jobs.{
  IsKept, IsKept-from, IsKept-Keeps, adopt-IsKept, bind-IsKept, answer-IsKept, on_store-IsKept,
}
use gemini_web_mcp.Cleanup.Calls.Durable.{refresh-IsKept}
use gemini_web_mcp.Cleanup.Calls.Pieces.{
  observed-Keeps, with_pending-Keeps, found_current, in_generation,
}
use gemini_web_mcp.Cleanup.Calls.Deletions.{complete_delete-Keeps, record_failure-Keeps}

pub finish_delete-Keeps :
    (cid : String) (worker : ℕ) (m : Manager) → Keeps m (finish_delete cid worker m)
unfolding finish_delete
finish_delete-Keeps cid worker m =
    if_elim (λ (n : Manager). Keeps m n) (is_worker worker (lookup cid m.inflight)) _ _
      (λ e. Keeps-refl m) (λ e. Keeps-refl m)

timed_out_current :
    (now : ℕ) (source : String) (generation attempts : ℕ) (diagnostic_id cid : String)
    (found : Option CleanupTask) (m : Manager)
    → generation ≡ m.authentication_generation
    → lookup cid m.pending ≡ found
    → IsValid m
    → (timed_out_task m.next now source generation attempts diagnostic_id
        found).authentication_generation
      ≡ m.authentication_generation
timed_out_current now source generation attempts diagnostic_id cid none m g e v = g
timed_out_current now source generation attempts diagnostic_id cid (some task) m g e v =
    found_current cid task m e v

note_timeout-Keeps :
    (now : ℕ) (cid : String) (generation attempts : ℕ) (source diagnostic_id : String) (m : Manager)
    → generation ≡ m.authentication_generation
    → Keeps m (note_timeout now cid generation attempts source diagnostic_id m).1
unfolding note_timeout
note_timeout-Keeps now cid generation attempts source diagnostic_id m g =
    let task =
      timed_out_task m.next now source generation attempts diagnostic_id (lookup cid m.pending) in
    observed-Keeps cid (note_timeout now cid generation attempts source diagnostic_id m).0
      generation m (record (with_pending cid task m) { next = suc m.next })
      (with_pending-Keeps cid task (suc m.next) m (λ v.
        timed_out_current now source generation attempts diagnostic_id cid (lookup cid m.pending) m
          g refl v))

timeout_observed-Keeps :
    (now : ℕ) (cid : String) (generation : ℕ) (source drawn : String)
    (found : Option CleanupObservation) (m : Manager)
    → generation ≡ m.authentication_generation
    → Keeps m (timeout_observed now cid generation source drawn found m).1
unfolding timeout_observed
timeout_observed-Keeps now cid generation source drawn none m g =
    note_timeout-Keeps now cid generation 0 source drawn m g
timeout_observed-Keeps now cid generation source drawn (some o) m g =
    if_elim (λ (p : CleanupObservation × Manager). Keeps m p.1) (is_pending_state o.state) _ _
      (λ e.
        note_timeout-Keeps now cid generation o.attempts o.source
          (diagnostic_or o.diagnostic_id drawn) m g)
      (λ e. Keeps-refl m)

pub record_cleanup_wait_timeout-Keeps :
    (now : ℕ) (cid source : String) (authentication_generation : Option ℕ) (drawn : String)
    (m : Manager)
    → Keeps m (record_cleanup_wait_timeout now cid source authentication_generation drawn m).1
unfolding record_cleanup_wait_timeout
record_cleanup_wait_timeout-Keeps now cid source authentication_generation drawn m =
    let generation = or_default authentication_generation m.authentication_generation in
    if_elim (λ (p : CleanupObservation × Manager). Keeps m p.1) (not (is_valid_remote_chat_id cid))
      _ _ (λ e. Keeps-refl m)
      (λ e. in_generation cid generation drawn m _ _ refl (λ g.
        timeout_observed-Keeps now cid generation source drawn (lookup cid m.observations) m g))

pub fail_delete-Keeps :
    (w : Work) (attempts : ℕ) (m : Manager) → Keeps m (fail_delete w attempts m).1
unfolding fail_delete
fail_delete-Keeps w attempts m =
    record_failure-Keeps w.now w.cid attempts w.source (some w.generation) w.diagnostic_id m

pub cancel_delete-Keeps :
    (w : Work) (attempts : ℕ) (m : Manager) → Keeps m (cancel_delete w attempts m).1
unfolding cancel_delete
cancel_delete-Keeps w attempts m =
    record_failure-Keeps w.now w.cid attempts w.source (some w.generation) w.diagnostic_id m

pub settle_delete-Keeps :
    (w : Work) (attempts : ℕ) (deletion : Awaited DeleteAnswer) (m : Manager)
    → Keeps m (settle_delete w attempts deletion m).1
unfolding settle_delete
settle_delete-Keeps w attempts was_cancelled m = cancel_delete-Keeps w attempts m
settle_delete-Keeps w attempts (failed name) m = fail_delete-Keeps w attempts m
settle_delete-Keeps w attempts (arrived a) m =
    if_elim (λ (p : Ending × Manager). Keeps m p.1) (is_verified a) _ _
      (λ e. complete_delete-Keeps w.cid w.generation attempts w.source w.diagnostic_id m)
      (λ e. fail_delete-Keeps w attempts m)

pub suspend-Keeps : (j : Job) (m : Manager) → Keeps m (suspend j m)
suspend-Keeps j m =
    if_elim (λ (n : Manager). Keeps m n) (eqb j.generation m.authentication_generation) _ _
      (λ e. Keeps-refl m) (λ e. Keeps-refl m)

attempt_of-Keeps :
    (m : Manager) (p : Outcome CleanupObservation × Manager)
    → Keeps m p.1
    → Keeps m (attempt_of p).1
attempt_of-Keeps m (returned o, n) h = h
attempt_of-Keeps m (raised e, n) h = h

hold_authority-Keeps :
    (j : Job) (next : Manager → Attempt × Manager) (m : Manager)
    (p : Outcome (Option CleanupJobRecord) × Manager)
    → Keeps m p.1
    → ((n : Manager) → Keeps n (next n).1)
    → Keeps m (hold_authority j next p).1
unfolding hold_authority
hold_authority-Keeps j next m (raised e, n) h k = h
hold_authority-Keeps j next m (returned none, n) h k = h
hold_authority-Keeps j next m (returned (some r), n) h k =
    if_elim (λ (p : Attempt × Manager). Keeps m p.1) (lost_authority j.claimed r) _ _
      (λ e.
        Keeps-trans m n (attempt_of (adopt r n)).1 h
          (attempt_of-Keeps n (adopt r n) (IsKept-Keeps (adopt r) (adopt-IsKept r) n)))
      (λ e. Keeps-trans m n (next n).1 h (k n))

pub with_authority-Keeps :
    (clock : ℕ) (j : Job) (next : Manager → Attempt × Manager) (m : Manager)
    → ((n : Manager) → Keeps n (next n).1)
    → Keeps m (with_authority clock j next m).1
unfolding with_authority
with_authority-Keeps clock j next m k =
    let call = get_job clock j.claimed.scope_id j.claimed.resource_id in
    in_generation j.claimed.resource_id j.generation j.diagnostic_id m _ _ refl (λ g.
      hold_authority-Keeps j next m (on_store call m)
        (IsKept-Keeps (on_store call) (on_store-IsKept call) m) k)

updated_or_found-IsKept :
    (clock : ℕ) (scope cid : String) (o : Option CleanupJobRecord)
    → IsKept (updated_or_found clock scope cid o)
updated_or_found-IsKept clock scope cid none = on_store-IsKept _
updated_or_found-IsKept clock scope cid (some r) = answer-IsKept (some r)

adopt_or_lost-IsKept : (j : Job) (o : Option CleanupJobRecord) → IsKept (adopt_or_lost j o)
unfolding adopt_or_lost
adopt_or_lost-IsKept j none = answer-IsKept _
adopt_or_lost-IsKept j (some r) = adopt-IsKept r

write_verdict-IsKept : (t : ℕ → ℕ) (j : Job) (v : Verdict) → IsKept (write_verdict t j v)
unfolding write_verdict
write_verdict-IsKept t j v = bind-IsKept _ _ (on_store-IsKept _) (λ before.
    bind-IsKept _ _ (on_store-IsKept _) (λ updated.
      bind-IsKept _ _
        (updated_or_found-IsKept (t 4) j.claimed.scope_id j.claimed.resource_id updated)
        (λ current. adopt_or_lost-IsKept j current)))

settled_or_failed-Keeps :
    (j : Job) (m : Manager) (p : Outcome CleanupObservation × Manager)
    → Keeps m p.1
    → Keeps m (settled_or_failed j p).1
settled_or_failed-Keeps j m (returned o, n) h = h
settled_or_failed-Keeps j m (raised e, n) h =
    Keeps-trans m n (settled_or_failed j (raised e, n)).1 h (
      in_generation j.claimed.resource_id j.generation j.diagnostic_id n _ _ refl (λ g.
        storage_failure-Keeps j.claimed.resource_id j.claimed.source j.claimed.attempts
          j.diagnostic_id n))

pub settle_durable-Keeps :
    (t : ℕ → ℕ) (j : Job) (v : Verdict) (m : Manager) → Keeps m (settle_durable t j v m).1
unfolding settle_durable
settle_durable-Keeps t j v m =
    in_generation j.claimed.resource_id j.generation j.diagnostic_id m _ _ refl (λ g.
      settled_or_failed-Keeps j m (write_verdict t j v m)
        (IsKept-Keeps (write_verdict t j v) (write_verdict-IsKept t j v) m))

collect_due-IsKept : (now : ℕ) (limit : Option ℕ) → IsKept (collect_due now limit)
unfolding collect_due
collect_due-IsKept now limit = IsKept-from _ (λ m. Keeps-refl m)

pub select_due-Keeps :
    (now rounds : ℕ) (t : ℕ → ℕ) (generation limit : Option ℕ) (m : Manager)
    → Keeps m (select_due now rounds t generation limit m).1
unfolding select_due
select_due-Keeps now rounds t generation limit m =
    if_elim (λ (p : Outcome (List (String × Expected)) × Manager). Keeps m p.1)
      (is_old generation m) _ _ (λ e. Keeps-refl m)
      (λ e.
        IsKept-Keeps (refresh rounds t >>= λ u. collect_due now limit)
          (bind-IsKept _ _ (refresh-IsKept rounds t) (λ u. collect_due-IsKept now limit)) m)
