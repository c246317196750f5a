-- ===== src/Cleanup/Delete/Pieces.antt =====
-- The pieces of `_execute_delete` of `RemoteChatCleanupManager` between its waits: a worker enters,
-- checks, and ends as verified or failed.
use gemini_web_mcp.Common.{
  ℕ, suc, ◌+◌, String, Bool, false, not, Option, none, some, if◌then◌else◌, eqb, lookup, insert,
  erase, or_default,
}
use gemini_web_mcp.Domain.Conversations.{CleanupObservation, CleanupState, no_observation}
use gemini_web_mcp.Cleanup.State.{Manager, CleanupTask, store_observation, cancelled_for_generation}
use gemini_web_mcp.Cleanup.Durable.{drop_pending}
use gemini_web_mcp.Cleanup.Schedule.{observe_as, with_pending, new_task}

-- A worker stops with an observation or goes on.
pub data Progress (A : Type 0) : Type 0 where
  stops : CleanupObservation → Progress A
  goes_on : A → Progress A

-- `if authentication_generation != self._authentication_generation: return …`
unfoldable pub check_generation :
    {A : Type 0}
    → String
    → ℕ
    → String
    → (Manager → Progress A × Manager)
    → Manager
    → Progress A × Manager
unfolding cancelled_for_generation
check_generation cid generation diagnostic_id next m =
    if not (eqb generation m.authentication_generation)
    then (let cancelled = cancelled_for_generation cid generation diagnostic_id m in
        (stops cancelled.0, cancelled.1))
    else next m

-- `(pending.attempts if pending is not None else 0) + 1`
abbrev pub next_attempt : Option CleanupTask → ℕ
next_attempt none = 1
next_attempt (some task) = task.attempts + 1

-- `if pending is not None: pending.attempts = attempts`
abbrev pub count_attempt : String → ℕ → Option CleanupTask → Manager → Manager
count_attempt cid attempts none m = m
count_attempt cid attempts (some task) m = with_pending cid (record task { attempts = attempts }) m

-- The observation of a deletion under way.
abbrev pub entry_observation : String → ℕ → String → CleanupObservation
entry_observation cid attempts source = record no_observation {
  state = CleanupState.pending;
  upstream_chat_id = some cid;
  attempts = attempts;
  source = source;
}

-- The entry of `_execute_delete`: the attempt is counted.
unfoldable pub enter_delete : String → ℕ → String → String → Manager → Progress ℕ × Manager
unfolding check_generation store_observation lookup insert
enter_delete cid generation source diagnostic_id m =
    check_generation cid generation diagnostic_id
      (λ n.
        let attempts = next_attempt (lookup cid n.pending) in
        let o = entry_observation cid attempts source in
        (
          goes_on attempts,
          store_observation cid o generation (count_attempt cid attempts (lookup cid n.pending) n),
        ))
      m

-- The check after the client is resolved, before the upstream is called.
unfoldable pub check_delete : String → ℕ → String → Manager → Progress (Unit {0}) × Manager
unfolding check_generation
check_delete cid generation diagnostic_id m =
    check_generation cid generation diagnostic_id (λ n. (goes_on tt, n)) m

-- The observation of a verified deletion.
abbrev pub completed_observation : String → ℕ → String → CleanupObservation
completed_observation cid attempts source = record no_observation {
  state = CleanupState.completed;
  upstream_chat_id = some cid;
  attempts = attempts;
  source = source;
}

-- The end of `_execute_delete` when the upstream's absence was verified.
unfoldable pub complete_delete :
    String → ℕ → ℕ → String → String → Manager → CleanupObservation × Manager
unfolding cancelled_for_generation store_observation insert
complete_delete cid generation attempts source diagnostic_id m =
    if not (eqb generation m.authentication_generation)
    then cancelled_for_generation cid generation diagnostic_id m
    else (let o = completed_observation cid attempts source in
        let n = drop_pending cid m in
        observe_as cid generation o (record n { completed = insert cid o n.completed }))

-- The pending task that a failure leaves behind.
abbrev pub failed_task : ℕ → ℕ → String → ℕ → Option CleanupTask → CleanupTask
failed_task ref now source generation none = new_task ref now source generation
failed_task ref now source generation (some task) = task

-- The observation of a failed deletion.
abbrev pub failure_observation : String → ℕ → String → String → CleanupObservation
failure_observation cid attempts source diagnostic_id = record no_observation {
  state = CleanupState.failed;
  upstream_chat_id = some cid;
  attempts = attempts;
  diagnostic_id = some diagnostic_id;
  source = source;
}

-- `_record_failure`, without the log line.
unfoldable pub record_failure :
    ℕ → String → ℕ → String → Option ℕ → String → Manager → CleanupObservation × Manager
unfolding cancelled_for_generation store_observation lookup insert
record_failure now cid attempts source authentication_generation diagnostic_id m =
    let generation = or_default authentication_generation m.authentication_generation in
    if not (eqb generation m.authentication_generation)
    then cancelled_for_generation cid generation diagnostic_id m
    else (let task = failed_task m.next now source generation (lookup cid m.pending) in
        let o = failure_observation cid attempts source diagnostic_id in
        observe_as cid generation o (
          with_pending cid
            (record task { attempts = attempts; last_diagnostic_id = some diagnostic_id })
            (record m { next = suc m.next })))

-- `_finish_delete`: the worker leaves its place, if it is still its own.
abbrev pub is_worker : ℕ → Option ℕ → Bool
is_worker worker none = false
is_worker worker (some w) = eqb w worker

unfoldable pub finish_delete : String → ℕ → Manager → Manager
unfolding lookup erase
finish_delete cid worker m =
    if is_worker worker (lookup cid m.inflight)
    then record m { inflight = erase cid m.inflight }
    else m
