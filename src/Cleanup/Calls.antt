-- ===== src/Cleanup/Calls.antt =====
-- The pieces of the operations of `RemoteChatCleanupManager` as data, and their sequences: a piece is
-- what runs under the lock without a wait.
pub mod Kept
pub mod Jobs
pub mod Durable
pub mod Pieces
pub mod Deletions
pub mod Ends
pub mod Runs
use gemini_web_mcp.Common.{ℕ, String, Bool, false, Option, none, some, List, [], ◌∷◌}
use gemini_web_mcp.Store.Transactions.{StateStore}
use gemini_web_mcp.Cleanup.State.{Manager}
use gemini_web_mcp.Cleanup.Schedule.{Draws, ScheduleRequest, schedule_cleanup_result}
use gemini_web_mcp.Cleanup.Delete.{
  Expected, delete_chat_result, enter_delete, check_delete, finish_delete, record_cleanup_failure,
  record_cleanup_wait_timeout,
}
use gemini_web_mcp.Cleanup.Worker.{
  Awaited, DeleteAnswer, Work, fail_delete, cancel_delete, settle_delete,
}
use gemini_web_mcp.Cleanup.Settle.{
  Job, Verdict, suspend, settle_durable, with_authority, ends, reaches,
}
use gemini_web_mcp.Cleanup.Context.{
  bind_authentication_scope, cancel_durable_job, invalidate_authentication_context,
  record_authentication_context_change, select_due,
}

-- A piece with its arguments, the readings of the clock and the ids that it draws. `stores` is what
-- other processes do to the state store.
pub data CleanupCall : Type 0 where
  schedules : (ℕ → ℕ) → Draws → ScheduleRequest → CleanupCall
  deletes :
      (ℕ → ℕ) → Draws → Option String → Option ℕ → Option Expected → String → Bool → CleanupCall
  enters : Work → CleanupCall
  checks : Work → CleanupCall
  fails : Work → ℕ → CleanupCall
  settles : Work → ℕ → Awaited DeleteAnswer → CleanupCall
  leaves : String → ℕ → CleanupCall
  authorizes : ℕ → Job → CleanupCall
  suspends : Job → CleanupCall
  settles_durable : (ℕ → ℕ) → Job → Verdict → CleanupCall
  records_failure : ℕ → Option String → String → String → CleanupCall
  times_out : ℕ → String → String → Option ℕ → String → CleanupCall
  selects_due : ℕ → ℕ → (ℕ → ℕ) → Option ℕ → Option ℕ → CleanupCall
  cancels_job : (ℕ → ℕ) → String → CleanupCall
  invalidates : ℕ → (ℕ → ℕ) → (ℕ → ℕ) → (ℕ → String) → List String → CleanupCall
  records_change : Option String → ℕ → String → CleanupCall
  binds :
      ℕ
      → (ℕ → ℕ)
      → (ℕ → ℕ)
      → (ℕ → ℕ)
      → (ℕ → String)
      → Option String
      → Option StateStore
      → Bool
      → CleanupCall
  stores : StateStore → CleanupCall

unfoldable pub run_cleanup_call : CleanupCall → Manager → Manager
unfolding schedule_cleanup_result delete_chat_result enter_delete check_delete fail_delete
    settle_delete finish_delete with_authority settle_durable record_cleanup_failure
    record_cleanup_wait_timeout select_due cancel_durable_job invalidate_authentication_context
    record_authentication_context_change bind_authentication_scope
run_cleanup_call (CleanupCall.schedules t d q) m = (schedule_cleanup_result t d q m).1
run_cleanup_call (CleanupCall.deletes t d cid generation expected source allow_durable) m =
    (delete_chat_result t d cid generation expected source allow_durable m).1
run_cleanup_call (CleanupCall.enters w) m =
    (enter_delete w.cid w.generation w.source w.diagnostic_id m).1
run_cleanup_call (CleanupCall.checks w) m = (check_delete w.cid w.generation w.diagnostic_id m).1
run_cleanup_call (CleanupCall.fails w attempts) m = (fail_delete w attempts m).1
run_cleanup_call (CleanupCall.settles w attempts deletion) m =
    (settle_delete w attempts deletion m).1
run_cleanup_call (CleanupCall.leaves cid worker) m = finish_delete cid worker m
run_cleanup_call (CleanupCall.authorizes clock j) m =
    (with_authority clock j
      (λ n. (reaches (record { verified = false; error_code = none; verification_status = "" }), n))
      m).1
run_cleanup_call (CleanupCall.suspends j) m = suspend j m
run_cleanup_call (CleanupCall.settles_durable t j v) m = (settle_durable t j v m).1
run_cleanup_call (CleanupCall.records_failure now cid source diagnostic_id) m =
    (record_cleanup_failure now cid source diagnostic_id m).1
run_cleanup_call (CleanupCall.times_out now cid source generation drawn) m =
    (record_cleanup_wait_timeout now cid source generation drawn m).1
run_cleanup_call (CleanupCall.selects_due now rounds t generation limit) m =
    (select_due now rounds t generation limit m).1
run_cleanup_call (CleanupCall.cancels_job t job_id) m = (cancel_durable_job t job_id m).1
run_cleanup_call (CleanupCall.invalidates rounds t u drawn chat_ids) m =
    (invalidate_authentication_context rounds t u drawn chat_ids m).1
run_cleanup_call (CleanupCall.records_change cid generation diagnostic_id) m =
    (record_authentication_context_change cid generation diagnostic_id m).1
run_cleanup_call (CleanupCall.binds rounds t v u drawn scope_id given store_changed) m =
    (bind_authentication_scope rounds t v u drawn scope_id given store_changed m).1
run_cleanup_call (CleanupCall.stores s) m = record m { state_store = some s }

unfoldable pub run_cleanup_calls : List CleanupCall → Manager → Manager
unfolding run_cleanup_call
run_cleanup_calls [] m = m
run_cleanup_calls (call ∷ calls) m = run_cleanup_calls calls (run_cleanup_call call m)
