-- ===== src/Store/Jobs/Sound.antt =====
-- The soundness of cleanup jobs: the verification of a completed one and the lease of one that is
-- not running, under the calls of `CleanupRepository`.
use gemini_web_mcp.Common.{
  ℕ, String, true, false, not, ◌&&◌, ◌≡◌, refl, subst, Option, none, some, List, [], ◌∷◌, arith,
  All, All-append, if_elim, any, Outcome, returned, raised, Bool-cases, Option-cases, inl, inr,
  ◌==◌, eq_iff, is_some, or_default, ◌>>◌, raise_if, value_error,
}
use gemini_web_mcp.Domain.Results.{same_text}
use gemini_web_mcp.Store.Labels.{identifier_if}
use gemini_web_mcp.Store.Records.{CleanupJobRecord}
use gemini_web_mcp.Store.Transactions.{StateStore, find, update_where, begin, transaction}
use gemini_web_mcp.Store.Rows.{All-find, All-update, begin-cleanup_jobs, transaction-keeps}
use gemini_web_mcp.Store.Operations.{after}
use gemini_web_mcp.Store.Cleanup.{
  completion_error, check_source, is_cleanup_state, JobChanges, check_job, check_job_changes,
  insert_or_ignore, collides, is_for, replaced, unleased, stored_over, is_refused, update_job_row,
  update_job,
}
use gemini_web_mcp.Store.Updates.{passed}
use gemini_web_mcp.Store.Jobs.{JobCall}

-- A job that is not running is under no lease.
abbrev pub IsUnleased : CleanupJobRecord → Type 0
IsUnleased job = (job.state == "running") ≡ false → (job.lease_id ≡ none) × (job.lease_until ≡ none)

-- A completed job was observed to be absent.
abbrev pub IsVerified : CleanupJobRecord → Type 0
IsVerified job = (job.state == "completed") ≡ true → job.verification_status ≡ "verified_absent"

abbrev pub IsSoundJob : CleanupJobRecord → Type 0
IsSoundJob job = IsVerified job × IsUnleased job

abbrev pub IsSoundStore : StateStore → Type 0
IsSoundStore s = All IsSoundJob s.cleanup_jobs

-- What the callers keep to: a new job that is not running comes without a lease, and a verification
-- status is written together with a state.
abbrev pub IsProper : JobCall → Type 0
IsProper (JobCall.upsert_call clock r) = IsUnleased r
IsProper (JobCall.update_call clock now scope_id resource_id expected_version lease_id c) =
    c.state ≡ none → c.verification_status ≡ none
IsProper _ = Unit

pub after-keeps :
    {A : Type 0} (P : StateStore → Type 0) (o : Outcome (Unit {0})) (s : StateStore)
    (next : Outcome A × StateStore)
    → P s
    → (o ≡ returned tt → P next.1)
    → P (after o s next).1
after-keeps P (returned tt) s next h k = k refl
after-keeps P (raised e) s next h k = h

pub check_job-IsVerified : (r : CleanupJobRecord) → check_job r ≡ returned tt → IsVerified r
unfolding check_job
check_job-IsVerified r h e = ground (arith, eq_iff r.verification_status "verified_absent")

pub insert_sound :
    (r : CleanupJobRecord) (jobs : List CleanupJobRecord)
    → IsSoundJob r
    → All IsSoundJob jobs
    → All IsSoundJob (insert_or_ignore r jobs)
unfolding insert_or_ignore
insert_sound r jobs k h =
    if_elim (λ (l : List CleanupJobRecord). All IsSoundJob l) (any (collides r) jobs) _ _ (λ e. h)
      (λ e. All-append IsSoundJob jobs (r ∷ []) h (k, tt))

then_returned : (m k : Outcome (Unit {0})) → (m >> k) ≡ returned tt → k ≡ returned tt
then_returned (returned u) k h = h
then_returned (raised e) k h = absurd (ground arith)

last_check :
    (c : JobChanges)
    → check_job_changes c ≡ returned tt
    → raise_if
        (same_text c.state (some "completed")
          && not (same_text c.verification_status (some "verified_absent")))
        completion_error
      ≡ returned tt
unfolding check_job_changes
last_check c ok =
    let last =
      raise_if
        (same_text c.state (some "completed")
          && not (same_text c.verification_status (some "verified_absent")))
        completion_error in
    let source = check_source c.source >> last in
    let error = identifier_if (passed c.error_code) >> source in
    let status = identifier_if c.verification_status >> error in
    let diagnostic = identifier_if (passed c.diagnostic_id) >> status in
    then_returned (check_source c.source) last (
      then_returned (identifier_if (passed c.error_code)) source (
        then_returned (identifier_if c.verification_status) error (
          then_returned (identifier_if (passed c.diagnostic_id)) status (
            then_returned
              (raise_if (is_some c.state && not (is_cleanup_state (or_default c.state "")))
                (value_error "Invalid cleanup state."))
              diagnostic ok))))

status_of_completed :
    (state status : Option String)
    → raise_if
        (same_text state (some "completed") && not (same_text status (some "verified_absent")))
        completion_error
      ≡ returned tt
    → state ≡ some "completed"
    → status ≡ some "verified_absent"
unfolding same_text
status_of_completed none status h e = absurd (ground arith)
status_of_completed (some st) none h e = absurd (ground (arith, eq_iff st "completed"))
status_of_completed (some st) (some v) h e =
    ground (arith, eq_iff st "completed", eq_iff v "verified_absent")

-- The job that an update makes of a sound one is sound.
updated_sound :
    (now : ℕ) (c : JobChanges) (job old : CleanupJobRecord)
    → IsSoundJob job
    → (c.state ≡ none → c.verification_status ≡ none)
    → (c.state ≡ some "completed" → c.verification_status ≡ some "verified_absent")
    → IsSoundJob (stored_over (unleased (replaced now c job)) old)
unfolding replaced
updated_sound now c job old h k ok =
    let new = replaced now c job in
    if_elim (λ (j : CleanupJobRecord). IsSoundJob (stored_over j old)) (new.state == "running") new
      _ (λ e. (verified, λ n. absurd (ground arith))) (λ e. (verified, λ n. (refl, refl)))
  where
    verified :
        (or_default c.state job.state == "completed") ≡ true
        → or_default c.verification_status job.verification_status ≡ "verified_absent"
    verified e = elim (Option-cases c.state) [
      | inl n ↦ ground (arith, h.0, k n)
      | inr (st, n) ↦ ground (arith, ok, eq_iff st "completed")
    ]

update_row_sound :
    (now : ℕ) (scope_id resource_id : String) (expected_version : Option ℕ)
    (lease_id : Option String) (c : JobChanges) (found : Option CleanupJobRecord) (s t : StateStore)
    (a : Option CleanupJobRecord)
    → ((job : CleanupJobRecord) → found ≡ some job → IsSoundJob job)
    → (c.state ≡ none → c.verification_status ≡ none)
    → check_job_changes c ≡ returned tt
    → IsSoundStore s
    → update_job_row now scope_id resource_id expected_version lease_id c found s ≡ returned (a, t)
    → IsSoundStore t
unfolding update_job_row
update_row_sound now scope_id resource_id expected_version lease_id c none s t a f k ok h e =
    let same : s ≡ t = ground arith in subst (λ (u : StateStore). IsSoundStore u) same h
update_row_sound now scope_id resource_id expected_version lease_id c (some job) s t a f k ok h e =
    elim (Bool-cases (is_refused expected_version lease_id c job)) [
      | inl r ↦ let same : s ≡ t = ground arith in subst (λ (u : StateStore). IsSoundStore u) same h
      | inr r ↦
          let new = unleased (replaced now c job) in
          let same : record s {
            cleanup_jobs =
                update_where (is_for scope_id resource_id) (stored_over new) s.cleanup_jobs;
          }
              ≡ t =
            ground arith in
          subst (λ (u : StateStore). IsSoundStore u) same
            (All-update IsSoundJob (is_for scope_id resource_id) (stored_over new) s.cleanup_jobs
              (λ old o.
                updated_sound now c job old (f job refl) k
                  (status_of_completed c.state c.verification_status (last_check c ok)))
              h)
    ]

pub update_job_sound :
    (clock now : ℕ) (scope_id resource_id : String) (expected_version : Option ℕ)
    (lease_id : Option String) (c : JobChanges) (s : StateStore)
    → (c.state ≡ none → c.verification_status ≡ none)
    → IsSoundStore s
    → IsSoundStore (update_job clock now scope_id resource_id expected_version lease_id c s).1
unfolding update_job
update_job_sound clock now scope_id resource_id expected_version lease_id c s k h =
    let body : StateStore → Outcome (Option CleanupJobRecord × StateStore) = λ t.
      update_job_row now scope_id resource_id expected_version lease_id c
        (find (is_for scope_id resource_id) t.cleanup_jobs) t in
    let begun = begin-cleanup_jobs IsSoundJob clock s h in
    after-keeps (λ (u : StateStore). IsSoundStore u) (check_job_changes c) s
      (transaction clock body s) h
      (λ ok.
        transaction-keeps (λ (u : StateStore). IsSoundStore u) clock body s h
          (λ a t e.
            update_row_sound now scope_id resource_id expected_version lease_id c
              (find (is_for scope_id resource_id) (begin clock s).cleanup_jobs) (begin clock s) t a
              (λ job f.
                (All-find IsSoundJob (is_for scope_id resource_id) (begin clock s).cleanup_jobs job
                  begun f).1)
              k ok begun e))

-- A transaction whose body puts a list of sound jobs in place of the jobs keeps the store sound.
pub replacing_sound :
    {A : Type 0} (clock : ℕ) (answer : StateStore → A)
    (next : List CleanupJobRecord → List CleanupJobRecord) (s : StateStore)
    → ((jobs : List CleanupJobRecord) → All IsSoundJob jobs → All IsSoundJob (next jobs))
    → IsSoundStore s
    → IsSoundStore
        (transaction clock
          (λ t. returned (answer t, record t { cleanup_jobs = next t.cleanup_jobs }))
          s).1
replacing_sound {A = A} clock answer next s k h =
    transaction-keeps (λ (u : StateStore). IsSoundStore u) clock
      (λ t. returned (answer t, record t { cleanup_jobs = next t.cleanup_jobs })) s h
      (λ a t e.
        let same : Path (A × StateStore)
            (
              answer (begin clock s),
              record (begin clock s) { cleanup_jobs = next (begin clock s).cleanup_jobs },
            )
            (a, t) =
          ground arith in
        subst (λ (q : A × StateStore). IsSoundStore q.1) same
          (k (begin clock s).cleanup_jobs (begin-cleanup_jobs IsSoundJob clock s h)))
