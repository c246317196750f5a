-- ===== src/Store/Jobs/Runs.antt =====
-- Sequences of calls of `CleanupRepository` and the soundness of the cleanup jobs.
use gemini_web_mcp.Common.{
  ℕ, String, not, ◌&&◌, ◌||◌, ◌≡◌, refl, subst, Option, none, some, List, [], ◌∷◌, arith, All,
  Outcome, returned, Bool-cases, inl, inr, ◌==◌, raise_if, value_error, ltb, eqb, take, drop,
  length,
}
use gemini_web_mcp.Store.Labels.{identifier}
use gemini_web_mcp.Store.Records.{CleanupJobRecord}
use gemini_web_mcp.Store.Transactions.{
  StateStore, filter, find, update_where, begin, transaction, is_disposable,
}
use gemini_web_mcp.Store.Rows.{All-filter, All-update, begin-cleanup_jobs, transaction-keeps}
use gemini_web_mcp.Store.Cleanup.{
  no_job_changes, check_job, insert_or_ignore, is_for, upsert, get_job, get_by_job_id, renew_job,
}
use gemini_web_mcp.Store.Claims.{
  claim_job, claim_job_row, running_job, is_eligible, delete_job, prune_jobs, list_jobs, is_listed,
  ordered,
}
use gemini_web_mcp.Store.Jobs.{JobCall, run_job_call, run_job_calls}
use gemini_web_mcp.Store.Jobs.Sound.{
  IsSoundJob, IsSoundStore, IsProper, IsUnleased, after-keeps, insert_sound, check_job-IsVerified,
  update_job_sound, replacing_sound,
}

upsert_sound :
    (clock : ℕ) (r : CleanupJobRecord) (s : StateStore)
    → IsUnleased r
    → IsSoundStore s
    → IsSoundStore (upsert clock r s).1
unfolding upsert
upsert_sound clock r s k h =
    after-keeps (λ (u : StateStore). IsSoundStore u) (check_job r) s
      (transaction clock
        (λ t. returned (
          find (is_for r.scope_id r.resource_id) (insert_or_ignore r t.cleanup_jobs),
          record t { cleanup_jobs = insert_or_ignore r t.cleanup_jobs },
        ))
        s)
      h
      (λ ok.
        replacing_sound clock
          (λ t. find (is_for r.scope_id r.resource_id) (insert_or_ignore r t.cleanup_jobs))
          (insert_or_ignore r) s (λ jobs o. insert_sound r jobs (check_job-IsVerified r ok, k) o) h)

running_sound :
    (now : ℕ) (lease_id : String) (lease_until : ℕ) (job : CleanupJobRecord)
    → IsSoundJob (running_job now lease_id lease_until job)
running_sound now lease_id lease_until job =
    ((λ e. absurd (ground arith)), (λ e. absurd (ground arith)))

claim_row_sound :
    (now : ℕ) (scope_id resource_id : String) (expected_version : ℕ) (lease_id : String)
    (lease_until : ℕ) (found : Option CleanupJobRecord) (s t : StateStore)
    (a : Option CleanupJobRecord)
    → IsSoundStore s
    → claim_job_row now scope_id resource_id expected_version lease_id lease_until found s
      ≡ returned (a, t)
    → IsSoundStore t
unfolding claim_job_row
claim_row_sound now scope_id resource_id expected_version lease_id lease_until none s t a h e =
    let same : s ≡ t = ground arith in subst (λ (u : StateStore). IsSoundStore u) same h
claim_row_sound now scope_id resource_id expected_version lease_id lease_until (some job) s t a h
      e =
    elim (Bool-cases
      (eqb job.version expected_version && is_eligible now job && ltb now lease_until)) [
        | inr r ↦
            let same : s ≡ t = ground arith in subst (λ (u : StateStore). IsSoundStore u) same h
        | inl r ↦
            let same : record s {
              cleanup_jobs =
                  update_where (is_for scope_id resource_id) (running_job now lease_id lease_until)
                    s.cleanup_jobs;
            }
                ≡ t =
              ground arith in
            subst (λ (u : StateStore). IsSoundStore u) same
              (All-update IsSoundJob (is_for scope_id resource_id)
                (running_job now lease_id lease_until) s.cleanup_jobs
                (λ old o. running_sound now lease_id lease_until old) h)
      ]

claim_job_sound :
    (clock : ℕ) (scope_id resource_id : String) (expected_version : ℕ) (lease_id : String)
    (lease_until now : ℕ) (s : StateStore)
    → IsSoundStore s
    → IsSoundStore
        (claim_job clock scope_id resource_id expected_version lease_id lease_until now s).1
unfolding claim_job
claim_job_sound clock scope_id resource_id expected_version lease_id lease_until now s h =
    let body : StateStore → Outcome (Option CleanupJobRecord × StateStore) = λ t.
      claim_job_row now scope_id resource_id expected_version lease_id lease_until
        (find (is_for scope_id resource_id) t.cleanup_jobs) t in
    after-keeps (λ (u : StateStore). IsSoundStore u) (identifier lease_id) s
      (transaction clock body s) h
      (λ ok.
        transaction-keeps (λ (u : StateStore). IsSoundStore u) clock body s h
          (λ a t e.
            claim_row_sound now scope_id resource_id expected_version lease_id lease_until
              (find (is_for scope_id resource_id) (begin clock s).cleanup_jobs) (begin clock s) t a
              (begin-cleanup_jobs IsSoundJob clock s h) e))

run_job_call_sound :
    (call : JobCall) (s : StateStore)
    → IsProper call
    → IsSoundStore s
    → IsSoundStore (run_job_call call s)
unfolding run_job_call get_job get_by_job_id list_jobs delete_job prune_jobs renew_job
run_job_call_sound (JobCall.upsert_call clock r) s k h = upsert_sound clock r s k h
run_job_call_sound (JobCall.get_call clock scope_id resource_id) s k h =
    replacing_sound clock (λ t. find (is_for scope_id resource_id) t.cleanup_jobs) (λ jobs. jobs) s
      (λ jobs o. o) h
run_job_call_sound (JobCall.get_by_job_id_call clock scope_id job_id) s k h =
    replacing_sound clock
      (λ t. find (λ job. job.scope_id == scope_id && job.job_id == job_id) t.cleanup_jobs)
      (λ jobs. jobs) s (λ jobs o. o) h
run_job_call_sound (JobCall.list_call clock scope_id limit offset states) s k h =
    after-keeps (λ (u : StateStore). IsSoundStore u)
      (raise_if (ltb limit 1 || ltb 101 limit) (value_error "Invalid cleanup pagination.")) s
      (transaction clock
        (λ t. returned (
          take limit (drop offset (ordered (filter (is_listed scope_id states) t.cleanup_jobs))),
          t,
        ))
        s)
      h
      (λ ok.
        replacing_sound clock
          (λ t.
            take limit (drop offset (ordered (filter (is_listed scope_id states) t.cleanup_jobs))))
          (λ jobs. jobs) s (λ jobs o. o) h)
run_job_call_sound (JobCall.update_call clock now scope_id resource_id expected_version lease_id c)
      s k h =
    update_job_sound clock now scope_id resource_id expected_version lease_id c s k h
run_job_call_sound
      (JobCall.claim_call clock scope_id resource_id expected_version lease_id lease_until now) s k
      h =
    claim_job_sound clock scope_id resource_id expected_version lease_id lease_until now s h
run_job_call_sound (JobCall.renew_call clock now scope_id resource_id lease_id lease_until) s k h =
    update_job_sound clock now scope_id resource_id none (some lease_id)
      (record no_job_changes { lease_until = some (some lease_until) }) s (λ e. refl) h
run_job_call_sound (JobCall.delete_call clock scope_id resource_id) s k h =
    replacing_sound clock (λ t. tt) (filter (λ job. not (is_for scope_id resource_id job))) s
      (λ jobs o. All-filter IsSoundJob (λ job. not (is_for scope_id resource_id job)) jobs o) h
run_job_call_sound (JobCall.prune_call clock now) s k h =
    replacing_sound clock (λ t. length (filter (is_disposable now) t.cleanup_jobs))
      (filter (λ job. not (is_disposable now job))) s
      (λ jobs o. All-filter IsSoundJob (λ job. not (is_disposable now job)) jobs o) h

-- After every sequence of calls on a sound store, calls that raise included, each completed cleanup
-- job is `verified_absent`, and each job that is not running is under no lease, provided that a new
-- job that is not running comes without a lease and that a verification status is written together
-- with a state.
pub run_job_calls_sound :
    (calls : List JobCall) (s : StateStore)
    → All IsProper calls
    → IsSoundStore s
    → IsSoundStore (run_job_calls calls s)
unfolding run_job_calls
run_job_calls_sound [] s k h = h
run_job_calls_sound (call ∷ calls) s k h =
    run_job_calls_sound calls (run_job_call call s) k.1 (run_job_call_sound call s k.0 h)
