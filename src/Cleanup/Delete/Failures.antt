-- ===== src/Cleanup/Delete/Failures.antt =====
-- `record_cleanup_failure` and `record_cleanup_wait_timeout` of `RemoteChatCleanupManager`.
use gemini_web_mcp.Common.{
  ℕ, suc, String, Bool, true, false, not, Option, none, some, if◌then◌else◌, eqb, ◌==◌, lookup,
  insert, or_default,
}
use gemini_web_mcp.Domain.Conversations.{
  CleanupObservation, CleanupState, no_observation, is_valid_remote_chat_id,
}
use gemini_web_mcp.Cleanup.State.{Manager, CleanupTask, store_observation, cancelled_for_generation}
use gemini_web_mcp.Cleanup.Schedule.{observe_as, with_pending, new_task, invalid_observation}
use gemini_web_mcp.Cleanup.Delete.Pieces.{next_attempt, record_failure}

-- `record_cleanup_failure`
unfoldable pub record_cleanup_failure :
    ℕ → Option String → String → String → Manager → CleanupObservation × Manager
unfolding is_valid_remote_chat_id record_failure lookup
record_cleanup_failure now none source diagnostic_id m =
    (record no_observation { source = source }, m)
record_cleanup_failure now (some cid) source diagnostic_id m =
    if is_valid_remote_chat_id cid
    then record_failure now cid (next_attempt (lookup cid m.pending)) source none diagnostic_id m
    else (invalid_observation source, m)

-- `observed is not None and observed.state is not CleanupState.PENDING`
abbrev pub is_pending_state : CleanupState → Bool
is_pending_state CleanupState.pending = true
is_pending_state _ = false

-- `(observed.diagnostic_id if observed is not None else None) or new_diagnostic_id()`
abbrev pub diagnostic_or : Option String → String → String
diagnostic_or none drawn = drawn
diagnostic_or (some id) drawn = if id == "" then drawn else id

-- The pending task of a chat whose caller stopped waiting.
abbrev pub timed_out_task : ℕ → ℕ → String → ℕ → ℕ → String → Option CleanupTask → CleanupTask
timed_out_task ref now source generation attempts diagnostic_id none =
    record (new_task ref now source generation) {
      attempts = attempts;
      last_diagnostic_id = some diagnostic_id;
    }
timed_out_task ref now source generation attempts diagnostic_id (some task) = record task {
  last_diagnostic_id = some diagnostic_id;
}

-- A caller's wait has timed out while the deletion is pending: its worker is left alone.
unfoldable pub note_timeout :
    ℕ → String → ℕ → ℕ → String → String → Manager → CleanupObservation × Manager
unfolding store_observation lookup insert
note_timeout now cid generation attempts source diagnostic_id m =
    let task =
      timed_out_task m.next now source generation attempts diagnostic_id (lookup cid m.pending) in
    let o : CleanupObservation = record no_observation {
      state = CleanupState.pending;
      upstream_chat_id = some cid;
      attempts = attempts;
      diagnostic_id = some diagnostic_id;
      source = task.source;
      delete_at = some task.delete_at;
    } in
    observe_as cid generation o (with_pending cid task (record m { next = suc m.next }))

-- `record_cleanup_wait_timeout`, by what was observed of the chat.
unfoldable pub timeout_observed :
    ℕ
    → String
    → ℕ
    → String
    → String
    → Option CleanupObservation
    → Manager
    → CleanupObservation × Manager
unfolding note_timeout
timeout_observed now cid generation source drawn none m =
    note_timeout now cid generation 0 source drawn m
timeout_observed now cid generation source drawn (some o) m =
    if is_pending_state o.state
    then note_timeout now cid generation o.attempts o.source (diagnostic_or o.diagnostic_id drawn) m
    else (o, m)

-- `record_cleanup_wait_timeout`
unfoldable pub record_cleanup_wait_timeout :
    ℕ → String → String → Option ℕ → String → Manager → CleanupObservation × Manager
unfolding is_valid_remote_chat_id cancelled_for_generation timeout_observed lookup
record_cleanup_wait_timeout now cid source authentication_generation drawn m =
    let generation = or_default authentication_generation m.authentication_generation in
    if not (is_valid_remote_chat_id cid)
    then (invalid_observation source, m)
    else if not (eqb generation m.authentication_generation)
    then cancelled_for_generation cid generation drawn m
    else timeout_observed now cid generation source drawn (lookup cid m.observations) m
