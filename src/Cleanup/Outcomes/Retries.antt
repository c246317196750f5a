-- ===== src/Cleanup/Outcomes/Retries.antt =====
-- The time at which a durable job of `RemoteChatCleanupManager` may be tried again.
use gemini_web_mcp.Common.{
  not, ◌&&◌, leb, ℕ, ◌+◌, ◌^◌, ◌≤◌, ◌<◌, min, String, Bool, true, false, ◌≡◌, refl, subst, ap, ◌∙◌,
  Option, none, some, arith, if_elim, Bool-cases, inl, inr, Outcome, returned, ◌==◌,
}
use native.Mathlib.Nat.{one-le-pow, pow-le-pow_right}
use gemini_web_mcp.Store.Records.{CleanupJobRecord}
use gemini_web_mcp.Store.Transactions.{StateStore, find, transaction}
use gemini_web_mcp.Store.Rows.{transaction_returned}
use gemini_web_mcp.Store.Guards.{after_returned}
use gemini_web_mcp.Store.Cleanup.{
  JobChanges, check_job_changes, is_for, is_refused, replaced, unleased, update_job_row, update_job,
}
use gemini_web_mcp.Store.Claims.{is_eligible}
use gemini_web_mcp.Cleanup.Settle.{Job, Verdict, backoff, settled_state, settled_changes}

pub backoff_bounds :
    (attempts : ℕ)
    → (backoff attempts ≡ 2 ^ min attempts 10) × (1 ≤ backoff attempts) × (backoff attempts ≤ 1024)
backoff_bounds attempts =
    let k = min attempts 10 in
    let low = one-le-pow k 2 (omega arith) in
    let high = pow-le-pow_right {n = 2} (omega arith) {i = k} {j = 10} (omega arith) in
    (omega (arith, high), omega (arith, low), omega (arith, high))

updated_lem :
    (now : ℕ) (scope_id resource_id : String) (lease_id : Option String) (c : JobChanges)
    (found : Option CleanupJobRecord) (s t : StateStore) (r : CleanupJobRecord)
    → update_job_row now scope_id resource_id none lease_id c found s ≡ returned (some r, t)
    → (job : CleanupJobRecord) × (r ≡ unleased (replaced now c job))
unfolding update_job_row
updated_lem now scope_id resource_id lease_id c none s t r h = absurd (ground arith)
updated_lem now scope_id resource_id lease_id c (some job) s t r h =
    elim (Bool-cases (is_refused none lease_id c job)) [
      | inl e ↦ absurd (ground arith)
      | inr e ↦ (job, ground arith)
    ]

-- What the terminal write makes of a job.
written_lem :
    (now now' : ℕ) (j : Job) (retains : Bool) (v : Verdict) (job : CleanupJobRecord)
    → let r = unleased (replaced now' (settled_changes now j retains v) job) in
      (r.due_at ≡ now + backoff j.claimed.attempts) × (r.state ≡ settled_state retains v.verified)
unfolding replaced
written_lem now now' j retains v job =
    let r = replaced now' (settled_changes now j retains v) job in
    if_elim
      (λ (x : CleanupJobRecord).
        (x.due_at ≡ now + backoff j.claimed.attempts)
        × (x.state ≡ settled_state retains v.verified))
      (r.state == "running") _ _ (λ e. (refl, refl)) (λ e. (refl, refl))

-- Only a failed job is tried again.
eligible_lem :
    (u : ℕ) (r : CleanupJobRecord) (retains verified : Bool)
    → r.state ≡ settled_state retains verified
    → is_eligible u r ≡ (not retains && not verified && leb r.due_at u)
eligible_lem u r true verified e = rw e refl
eligible_lem u r false true e = rw e refl
eligible_lem u r false false e = rw e (ground arith)

-- A job that the terminal write of a deletion put back is due 2 ^ min attempts 10 seconds after the
-- write, which is at least one and at most 1024, as retained, completed or failed alike; and a time
-- makes it eligible for a claim exactly if it was neither retained nor verified and the time is not
-- before that due time.
pub settled_due :
    (clock now now' u : ℕ) (scope_id resource_id : String) (lease_id : Option String) (j : Job)
    (retains : Bool) (v : Verdict) (s : StateStore) (r : CleanupJobRecord)
    → (update_job clock now' scope_id resource_id none lease_id
        (settled_changes now j retains v)
        s).0
      ≡ returned (some r)
    → (r.due_at ≡ now + 2 ^ min j.claimed.attempts 10)
      × (now < r.due_at)
      × (r.due_at ≤ now + 1024)
      × (is_eligible u r
          ≡ (not retains && not v.verified && leb (now + 2 ^ min j.claimed.attempts 10) u))
unfolding update_job
settled_due clock now now' u scope_id resource_id lease_id j retains v s r h =
    let c = settled_changes now j retains v in
    let body : StateStore → Outcome (Option CleanupJobRecord × StateStore) = λ t.
      update_job_row now' scope_id resource_id none lease_id c
        (find (is_for scope_id resource_id) t.cleanup_jobs) t in
    let same = after_returned (check_job_changes c) s (transaction clock body s) (some r) h in
    let ran = transaction_returned clock body s (some r) (
      subst (λ (o : Outcome (Option CleanupJobRecord) × StateStore). o.0 ≡ returned (some r)) same
        h) in
    let made = updated_lem now' scope_id resource_id lease_id c _ _ _ r ran in
    let written = written_lem now now' j retains v made.0 in
    let bounds = backoff_bounds j.claimed.attempts in
    let due : r.due_at ≡ now + backoff j.claimed.attempts =
      ap (λ (x : CleanupJobRecord). x.due_at) made.1 ∙ written.0 in
    let state : r.state ≡ settled_state retains v.verified =
      ap (λ (x : CleanupJobRecord). x.state) made.1 ∙ written.1 in
    let at : r.due_at ≡ now + 2 ^ min j.claimed.attempts 10 =
      due ∙ ap (λ (n : ℕ). now + n) bounds.0 in
    (
      at,
      omega (arith, due, bounds.1),
      omega (arith, due, bounds.2),
      eligible_lem u r retains v.verified state
          ∙ ap (λ (n : ℕ). not retains && not v.verified && leb n u) at,
    )
