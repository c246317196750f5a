-- ===== src/Cleanup/Calls/Runs.antt =====
-- Sequences of the pieces of `RemoteChatCleanupManager`, changes of the authentication included.
use gemini_web_mcp.Common.{
  ℕ, suc, String, Bool, Option, none, some, List, [], ◌∷◌, arith, if_elim, Outcome, returned,
  raised,
}
use gemini_web_mcp.Domain.Conversations.{CleanupObservation, is_valid_remote_chat_id}
use gemini_web_mcp.Store.Transactions.{StateStore}
use gemini_web_mcp.Cleanup.State.{Manager, Locked, next_step, cancelled_for_generation}
use gemini_web_mcp.Cleanup.Context.{
  cancel_open_jobs, withdraw, old_ids, cancel_ids, next_generation, invalidate_memory,
  invalidate_authentication_context, record_authentication_context_change, refresh, changes_scope,
  store_or, bind_scope, bind_authentication_scope,
}
use gemini_web_mcp.Cleanup.Calls.{CleanupCall, run_cleanup_call, run_cleanup_calls}
use gemini_web_mcp.Cleanup.Context.{cancel_durable_job}
use gemini_web_mcp.Cleanup.Calls.Kept.{
  IsLater, IsValid, Keeps, Keeps-refl, Keeps-trans, cancelled_for_generation-Keeps,
}
use gemini_web_mcp.Cleanup.Calls.Jobs.{IsKept-Keeps}
use gemini_web_mcp.Cleanup.Calls.Durable.{
  cancel_open_jobs-IsKept, cancel_durable_job-IsKept, refresh-IsKept,
}
use gemini_web_mcp.Cleanup.Calls.Pieces.{schedule_cleanup_result-Keeps}
use gemini_web_mcp.Cleanup.Calls.Deletions.{
  delete_chat_result-Keeps, enter_delete-Keeps, check_delete-Keeps, record_cleanup_failure-Keeps,
}
use gemini_web_mcp.Cleanup.Calls.Ends.{
  finish_delete-Keeps, record_cleanup_wait_timeout-Keeps, fail_delete-Keeps, settle_delete-Keeps,
  suspend-Keeps, with_authority-Keeps, settle_durable-Keeps, select_due-Keeps,
}

-- What every piece keeps.
abbrev pub Ages : Manager → Manager → Type 0
Ages m n = IsLater m n × (IsValid m → IsValid n)

Keeps-Ages : (m n : Manager) → Keeps m n → Ages m n
Keeps-Ages m n h = ((omega (arith, h.0.0), h.0.1), h.1)

pub Ages-refl : (m : Manager) → Ages m m
Ages-refl m = Keeps-Ages m m (Keeps-refl m)

pub Ages-trans : (m n k : Manager) → Ages m n → Ages n k → Ages m k
Ages-trans m n k a b = (
  (
    omega (arith, a.0.0, b.0.0),
    λ cid g h.
        let x = a.0.1 cid g h in let y = b.0.1 cid x.0 x.1 in (y.0, y.1, omega (arith, x.2, y.2)),
  ),
  λ v. b.1 (a.1 v),
)

cancel_ids-Keeps :
    (drawn : ℕ → String) (i generation : ℕ) (ids : List String) (m : Manager)
    → Keeps m (cancel_ids drawn i generation ids m).1
unfolding cancel_ids
cancel_ids-Keeps drawn i generation [] m = Keeps-refl m
cancel_ids-Keeps drawn i generation (cid ∷ ids) m =
    let n = (cancelled_for_generation cid generation (drawn i) m).1 in
    if_elim (λ (p : List CleanupObservation × Manager). Keeps m p.1) (is_valid_remote_chat_id cid) _
      _
      (λ e.
        Keeps-trans m n (cancel_ids drawn (suc i) generation ids n).1
          (cancelled_for_generation-Keeps cid generation (drawn i) m)
          (cancel_ids-Keeps drawn (suc i) generation ids n))
      (λ e. cancel_ids-Keeps drawn i generation ids m)

invalidate_memory-Ages :
    (drawn : ℕ → String) (chat_ids : List String) (m : Manager)
    → Ages m (invalidate_memory drawn chat_ids m).1
unfolding invalidate_memory
invalidate_memory-Ages drawn chat_ids m =
    let n = next_generation m in
    Ages-trans m n (invalidate_memory drawn chat_ids m).1
      ((omega arith, λ cid g h. (g, h, omega arith)), λ v. (tt, tt, v.2))
      (Keeps-Ages n (invalidate_memory drawn chat_ids m).1
        (cancel_ids-Keeps drawn 0 m.authentication_generation (old_ids chat_ids m) n))

step-Ages :
    {A B : Type 0} (m : Manager) (p : Outcome A × Manager) (f : A → Locked B)
    → Ages m p.1
    → ((a : A) (n : Manager) → Ages n (f a n).1)
    → Ages m (next_step p f).1
step-Ages m (returned a, n) f h k = Ages-trans m n (f a n).1 h (k a n)
step-Ages m (raised e, n) f h k = h

withdraw-Ages :
    (drawn : ℕ → String) (chat_ids : List String) (m : Manager)
    → Ages m (withdraw drawn chat_ids m).1
unfolding withdraw
withdraw-Ages drawn chat_ids m = invalidate_memory-Ages drawn chat_ids m

pub invalidate-Ages :
    (rounds : ℕ) (t u : ℕ → ℕ) (drawn : ℕ → String) (chat_ids : List String) (m : Manager)
    → Ages m (invalidate_authentication_context rounds t u drawn chat_ids m).1
unfolding invalidate_authentication_context
invalidate-Ages rounds t u drawn chat_ids m =
    let cancel = cancel_open_jobs rounds t u in
    step-Ages m (cancel m) (λ c. withdraw drawn chat_ids)
      (Keeps-Ages m (cancel m).1 (IsKept-Keeps cancel (cancel_open_jobs-IsKept rounds t u) m))
      (λ c n. withdraw-Ages drawn chat_ids n)

bind_scope-Ages :
    (rounds : ℕ) (t : ℕ → ℕ) (scope_id : Option String) (given : Option StateStore) (m : Manager)
    → Ages m (bind_scope rounds t scope_id given m).1
unfolding bind_scope
bind_scope-Ages rounds t scope_id given m =
    let n = record m {
      state_store = store_or given m.state_store;
      authentication_scope = scope_id;
      suspended = [];
    } in
    Keeps-Ages m (bind_scope rounds t scope_id given m).1 (
      Keeps-trans m n (bind_scope rounds t scope_id given m).1 (Keeps-refl m)
        (IsKept-Keeps (refresh rounds t) (refresh-IsKept rounds t) n))

bind-Ages :
    (rounds : ℕ) (t v u : ℕ → ℕ) (drawn : ℕ → String) (scope_id : Option String)
    (given : Option StateStore) (store_changed : Bool) (m : Manager)
    → Ages m (bind_authentication_scope rounds t v u drawn scope_id given store_changed m).1
unfolding bind_authentication_scope
bind-Ages rounds t v u drawn scope_id given store_changed m =
    if_elim (λ (p : Outcome (Unit {0}) × Manager). Ages m p.1)
      (changes_scope m.authentication_scope scope_id store_changed) _ _
      (λ e.
        step-Ages m (invalidate_authentication_context rounds v u drawn [] m)
          (λ c. bind_scope rounds t scope_id given) (invalidate-Ages rounds v u drawn [] m)
          (λ c n. bind_scope-Ages rounds t scope_id given n))
      (λ e. bind_scope-Ages rounds t scope_id given m)

change-Keeps :
    (cid : Option String) (generation : ℕ) (diagnostic_id : String) (m : Manager)
    → Keeps m (record_authentication_context_change cid generation diagnostic_id m).1
unfolding record_authentication_context_change
change-Keeps none generation diagnostic_id m = Keeps-refl m
change-Keeps (some cid) generation diagnostic_id m =
    if_elim (λ (p : CleanupObservation × Manager). Keeps m p.1) (is_valid_remote_chat_id cid) _ _
      (λ e. cancelled_for_generation-Keeps cid generation diagnostic_id m) (λ e. Keeps-refl m)

run_cleanup_call-Ages : (call : CleanupCall) (m : Manager) → Ages m (run_cleanup_call call m)
unfolding run_cleanup_call
run_cleanup_call-Ages (CleanupCall.schedules t d q) m =
    Keeps-Ages m (run_cleanup_call (CleanupCall.schedules t d q) m)
      (schedule_cleanup_result-Keeps t d q m)
run_cleanup_call-Ages (CleanupCall.deletes t d cid generation expected source allow_durable) m =
    Keeps-Ages m
      (run_cleanup_call (CleanupCall.deletes t d cid generation expected source allow_durable) m)
      (delete_chat_result-Keeps t d cid generation expected source allow_durable m)
run_cleanup_call-Ages (CleanupCall.enters w) m =
    Keeps-Ages m (run_cleanup_call (CleanupCall.enters w) m)
      (enter_delete-Keeps w.cid w.generation w.source w.diagnostic_id m)
run_cleanup_call-Ages (CleanupCall.checks w) m =
    Keeps-Ages m (run_cleanup_call (CleanupCall.checks w) m)
      (check_delete-Keeps w.cid w.generation w.diagnostic_id m)
run_cleanup_call-Ages (CleanupCall.fails w attempts) m =
    Keeps-Ages m (run_cleanup_call (CleanupCall.fails w attempts) m)
      (fail_delete-Keeps w attempts m)
run_cleanup_call-Ages (CleanupCall.settles w attempts deletion) m =
    Keeps-Ages m (run_cleanup_call (CleanupCall.settles w attempts deletion) m)
      (settle_delete-Keeps w attempts deletion m)
run_cleanup_call-Ages (CleanupCall.leaves cid worker) m =
    Keeps-Ages m (run_cleanup_call (CleanupCall.leaves cid worker) m)
      (finish_delete-Keeps cid worker m)
run_cleanup_call-Ages (CleanupCall.authorizes clock j) m =
    Keeps-Ages m (run_cleanup_call (CleanupCall.authorizes clock j) m)
      (with_authority-Keeps clock j _ m (λ n. Keeps-refl n))
run_cleanup_call-Ages (CleanupCall.suspends j) m =
    Keeps-Ages m (run_cleanup_call (CleanupCall.suspends j) m) (suspend-Keeps j m)
run_cleanup_call-Ages (CleanupCall.settles_durable t j v) m =
    Keeps-Ages m (run_cleanup_call (CleanupCall.settles_durable t j v) m)
      (settle_durable-Keeps t j v m)
run_cleanup_call-Ages (CleanupCall.records_failure now cid source diagnostic_id) m =
    Keeps-Ages m (run_cleanup_call (CleanupCall.records_failure now cid source diagnostic_id) m)
      (record_cleanup_failure-Keeps now cid source diagnostic_id m)
run_cleanup_call-Ages (CleanupCall.times_out now cid source generation drawn) m =
    Keeps-Ages m (run_cleanup_call (CleanupCall.times_out now cid source generation drawn) m)
      (record_cleanup_wait_timeout-Keeps now cid source generation drawn m)
run_cleanup_call-Ages (CleanupCall.selects_due now rounds t generation limit) m =
    Keeps-Ages m (run_cleanup_call (CleanupCall.selects_due now rounds t generation limit) m)
      (select_due-Keeps now rounds t generation limit m)
run_cleanup_call-Ages (CleanupCall.cancels_job t job_id) m =
    Keeps-Ages m (run_cleanup_call (CleanupCall.cancels_job t job_id) m)
      (IsKept-Keeps (cancel_durable_job t job_id) (cancel_durable_job-IsKept t job_id) m)
run_cleanup_call-Ages (CleanupCall.invalidates rounds t u drawn chat_ids) m =
    invalidate-Ages rounds t u drawn chat_ids m
run_cleanup_call-Ages (CleanupCall.records_change cid generation diagnostic_id) m =
    Keeps-Ages m (run_cleanup_call (CleanupCall.records_change cid generation diagnostic_id) m)
      (change-Keeps cid generation diagnostic_id m)
run_cleanup_call-Ages (CleanupCall.binds rounds t v u drawn scope_id given store_changed) m =
    bind-Ages rounds t v u drawn scope_id given store_changed m
run_cleanup_call-Ages (CleanupCall.stores s) m =
    Keeps-Ages m (run_cleanup_call (CleanupCall.stores s) m) (Keeps-refl m)

pub run_cleanup_calls-Ages :
    (calls : List CleanupCall) (m : Manager) → Ages m (run_cleanup_calls calls m)
unfolding run_cleanup_calls
run_cleanup_calls-Ages [] m = Ages-refl m
run_cleanup_calls-Ages (call ∷ calls) m =
    Ages-trans m (run_cleanup_call call m) (run_cleanup_calls calls (run_cleanup_call call m))
      (run_cleanup_call-Ages call m) (run_cleanup_calls-Ages calls (run_cleanup_call call m))

-- Whatever pieces run, in whatever order, changes of the authentication included, on a valid manager:
-- each pending task is one of the current generation, what is kept as completed has the state
-- COMPLETED, and what is kept as cancelled has the state CANCELLED.
pub run_cleanup_calls-IsValid :
    (calls : List CleanupCall) (m : Manager) → IsValid m → IsValid (run_cleanup_calls calls m)
run_cleanup_calls-IsValid calls m v = (run_cleanup_calls-Ages calls m).1 v
