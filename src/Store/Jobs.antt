-- ===== src/Store/Jobs.antt =====
-- The calls of `CleanupRepository` in infrastructure/state_store.py as data, and their sequences.
pub mod Sound
pub mod Runs
pub mod Exclusive
use gemini_web_mcp.Common.{ℕ, String, Option, none, some, List, [], ◌∷◌}
use gemini_web_mcp.Store.Records.{CleanupJobRecord}
use gemini_web_mcp.Store.Transactions.{StateStore}
use gemini_web_mcp.Store.Cleanup.{JobChanges, upsert, get_job, get_by_job_id, update_job, renew_job}
use gemini_web_mcp.Store.Claims.{claim_job, delete_job, prune_jobs, list_jobs}

-- A call with its arguments and the readings of the clock.
pub data JobCall : Type 0 where
  upsert_call : ℕ → CleanupJobRecord → JobCall
  get_call : ℕ → String → String → JobCall
  get_by_job_id_call : ℕ → String → String → JobCall
  list_call : ℕ → String → ℕ → ℕ → List String → JobCall
  update_call : ℕ → ℕ → String → String → Option ℕ → Option String → JobChanges → JobCall
  claim_call : ℕ → String → String → ℕ → String → ℕ → ℕ → JobCall
  renew_call : ℕ → ℕ → String → String → String → ℕ → JobCall
  delete_call : ℕ → String → String → JobCall
  prune_call : ℕ → ℕ → JobCall

-- The store after a call, which has answered or raised.
unfoldable pub run_job_call : JobCall → StateStore → StateStore
unfolding upsert get_job get_by_job_id list_jobs update_job claim_job renew_job delete_job
    prune_jobs
run_job_call (JobCall.upsert_call clock r) s = (upsert clock r s).1
run_job_call (JobCall.get_call clock scope_id resource_id) s =
    (get_job clock scope_id resource_id s).1
run_job_call (JobCall.get_by_job_id_call clock scope_id job_id) s =
    (get_by_job_id clock scope_id job_id s).1
run_job_call (JobCall.list_call clock scope_id limit offset states) s =
    (list_jobs clock scope_id limit offset states s).1
run_job_call (JobCall.update_call clock now scope_id resource_id expected_version lease_id c) s =
    (update_job clock now scope_id resource_id expected_version lease_id c s).1
run_job_call
      (JobCall.claim_call clock scope_id resource_id expected_version lease_id lease_until now) s =
    (claim_job clock scope_id resource_id expected_version lease_id lease_until now s).1
run_job_call (JobCall.renew_call clock now scope_id resource_id lease_id lease_until) s =
    (renew_job clock now scope_id resource_id lease_id lease_until s).1
run_job_call (JobCall.delete_call clock scope_id resource_id) s =
    (delete_job clock scope_id resource_id s).1
run_job_call (JobCall.prune_call clock now) s = (prune_jobs clock now s).1

unfoldable pub run_job_calls : List JobCall → StateStore → StateStore
unfolding run_job_call
run_job_calls [] s = s
run_job_calls (call ∷ calls) s = run_job_calls calls (run_job_call call s)
