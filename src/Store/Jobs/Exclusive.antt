-- ===== src/Store/Jobs/Exclusive.antt =====
-- Claims of cleanup jobs in infrastructure/state_store.py and the claims of others.
use gemini_web_mcp.Common.{
  ℕ, ◌<◌, String, Bool, true, false, not, ◌&&◌, ◌||◌, ◌≡◌, refl, sym, ap, ◌∙◌, subst, Option, none,
  some, List, [], ◌∷◌, arith, All, if_elim, Outcome, returned, Bool-cases, inl, inr, ◌==◌, eq_iff,
  leb, ltb, eqb,
}
use gemini_web_mcp.Store.Labels.{identifier}
use gemini_web_mcp.Store.Records.{CleanupJobRecord}
use gemini_web_mcp.Store.Transactions.{
  StateStore, filter, find, update_where, begin, transaction, is_disposable, must_prune,
  schema_version,
}
use gemini_web_mcp.Store.Rows.{
  All-find, update_where_marks, begin-cleanup_jobs, transaction_returned,
}
use gemini_web_mcp.Store.Guards.{after_returned}
use gemini_web_mcp.Store.Cleanup.{is_for, get_job}
use gemini_web_mcp.Store.Claims.{claim_job, claim_job_row, is_eligible, running_job}

-- A job that runs under a lease with this end.
abbrev pub IsHeldJob : ℕ → CleanupJobRecord → Type 0
IsHeldJob until job = (job.state ≡ "running") × (job.lease_until ≡ some until)

-- The store has a job for the chat, and each such job is held.
abbrev pub IsHeld : String → String → ℕ → StateStore → Type 0
IsHeld scope_id resource_id until s =
    All (λ (job : CleanupJobRecord). is_for scope_id resource_id job ≡ true → IsHeldJob until job)
      s.cleanup_jobs
    × (job : CleanupJobRecord) × (find (is_for scope_id resource_id) s.cleanup_jobs ≡ some job)

find-filter :
    {A : Type 0} (p q : A → Bool) (xs : List A) (x : A)
    → All (λ y. p y ≡ true → q y ≡ true) xs
    → find p xs ≡ some x
    → find p (filter q xs) ≡ some x
unfolding find filter
find-filter p q [] x h e = cc
find-filter p q (y ∷ ys) x h e = elim (Bool-cases (p y)) [
  | inl b ↦ ground (arith, h.0 b)
  | inr b ↦
      let rest = find-filter p q ys x h.1 (rw b at e) in
      elim (Bool-cases (q y)) [ inl c ↦ ground (arith, rest) | inr c ↦ ground (arith, rest) ]
]

-- A running job is not pruned.
running_kept :
    (now : ℕ) (job : CleanupJobRecord) → job.state ≡ "running" → not (is_disposable now job) ≡ true
running_kept now job h =
    ap
      (λ (state : String). not (
        leb job.expires_at now
        && (state == "completed" || state == "cancelled" || state == "retained")))
      h
    ∙ kept (leb job.expires_at now)
  where
    kept : (b : Bool) → not (b && false) ≡ true
    kept true = refl
    kept false = refl

All-map :
    {A : Type 0} (P Q : A → Type 0) (xs : List A) → ((x : A) → P x → Q x) → All P xs → All Q xs
All-map P Q [] k h = tt
All-map P Q (x ∷ xs) k h = (k x h.0, All-map P Q xs k h.1)

pub begin-IsHeld :
    (clock : ℕ) (scope_id resource_id : String) (until : ℕ) (s : StateStore)
    → IsHeld scope_id resource_id until s
    → IsHeld scope_id resource_id until (begin clock s)
unfolding begin
begin-IsHeld clock scope_id resource_id until s h = (
  begin-cleanup_jobs
      (λ (job : CleanupJobRecord). is_for scope_id resource_id job ≡ true → IsHeldJob until job)
      clock s h.0,
  found.0,
  found.1,
)
  where
    found :
        (job : CleanupJobRecord) × (find (is_for scope_id resource_id) (begin clock s).cleanup_jobs
          ≡ some job)
    found =
        if_elim
          (λ (t : StateStore).
            (job : CleanupJobRecord) × (find (is_for scope_id resource_id) t.cleanup_jobs
              ≡ some job))
          (must_prune clock s.last_prune_at) _ _
          (λ e. (
            h.1,
            find-filter (is_for scope_id resource_id) (λ job. not (is_disposable clock job))
                s.cleanup_jobs h.1
                (All-map
                  (λ (job : CleanupJobRecord).
                    is_for scope_id resource_id job ≡ true → IsHeldJob until job)
                  (λ (job : CleanupJobRecord).
                    is_for scope_id resource_id job ≡ true → not (is_disposable clock job) ≡ true)
                  s.cleanup_jobs (λ job k e. running_kept clock job (k e).0) h.0)
                h.2,
          ))
          (λ e. (h.1, h.2))

claim_row-IsHeld :
    (now : ℕ) (scope_id resource_id : String) (expected_version : ℕ) (lease_id : String) (until : ℕ)
    (found : Option CleanupJobRecord) (s t : StateStore) (r : CleanupJobRecord)
    → claim_job_row now scope_id resource_id expected_version lease_id until found s
      ≡ returned (some r, t)
    → IsHeld scope_id resource_id until t
unfolding claim_job_row
claim_row-IsHeld now scope_id resource_id expected_version lease_id until none s t r h =
    absurd (ground arith)
claim_row-IsHeld now scope_id resource_id expected_version lease_id until (some job) s t r h =
    elim (Bool-cases (eqb job.version expected_version && is_eligible now job && ltb now until)) [
      | inr e ↦ absurd (ground arith)
      | inl e ↦
          let jobs =
            update_where (is_for scope_id resource_id) (running_job now lease_id until)
              s.cleanup_jobs in
          let same : record s { cleanup_jobs = jobs } ≡ t = ground arith in
          let there : find (is_for scope_id resource_id) jobs ≡ some r = ground arith in
          subst (λ (u : StateStore). IsHeld scope_id resource_id until u) same
            (
              update_where_marks (λ (x : CleanupJobRecord). IsHeldJob until x)
                  (is_for scope_id resource_id) (running_job now lease_id until) s.cleanup_jobs
                  (λ x. (refl, refl)),
              r,
              there,
            )
    ]

-- A claim that succeeds leaves the chat's job held.
pub claim_job-IsHeld :
    (clock now : ℕ) (scope_id resource_id : String) (expected_version : ℕ) (lease_id : String)
    (until : ℕ) (s : StateStore) (r : CleanupJobRecord)
    → (claim_job clock scope_id resource_id expected_version lease_id until now s).0
      ≡ returned (some r)
    → IsHeld scope_id resource_id until
        (claim_job clock scope_id resource_id expected_version lease_id until now s).1
unfolding claim_job
claim_job-IsHeld clock now scope_id resource_id expected_version lease_id until s r h =
    let body : StateStore → Outcome (Option CleanupJobRecord × StateStore) = λ t.
      claim_job_row now scope_id resource_id expected_version lease_id until
        (find (is_for scope_id resource_id) t.cleanup_jobs) t in
    let tr = transaction clock body s in
    let same = after_returned (identifier lease_id) s tr (some r) h in
    let ran = transaction_returned clock body s (some r) (
      subst (λ (o : Outcome (Option CleanupJobRecord) × StateStore). o.0 ≡ returned (some r)) same
        h) in
    subst
      (λ (o : Outcome (Option CleanupJobRecord) × StateStore).
        IsHeld scope_id resource_id until o.1)
      (sym same)
      (claim_row-IsHeld now scope_id resource_id expected_version lease_id until
        (find (is_for scope_id resource_id) (begin clock s).cleanup_jobs) (begin clock s) tr.1 r
        ran)

not_eligible :
    (now until : ℕ) (job : CleanupJobRecord)
    → IsHeldJob until job
    → now < until
    → is_eligible now job ≡ false
not_eligible now until job h lt = rw (h.0, h.1) (ground arith)

claim_row_blocked :
    (now : ℕ) (scope_id resource_id : String) (expected_version : ℕ) (lease_id : String)
    (lease_until until : ℕ) (s : StateStore) (found : Option CleanupJobRecord)
    → ((job : CleanupJobRecord) → found ≡ some job → IsHeldJob until job)
    → now < until
    → claim_job_row now scope_id resource_id expected_version lease_id lease_until found s
      ≡ returned (none, s)
unfolding claim_job_row
claim_row_blocked now scope_id resource_id expected_version lease_id lease_until until s none h lt =
    refl
claim_row_blocked now scope_id resource_id expected_version lease_id lease_until until s (some job)
      h lt =
    ground (arith, not_eligible now until job (h job refl) lt)

found-IsHeldJob :
    (scope_id resource_id : String) (until : ℕ) (s : StateStore)
    → IsHeld scope_id resource_id until s
    → (job : CleanupJobRecord) → find (is_for scope_id resource_id) s.cleanup_jobs ≡ some job
    → (is_for scope_id resource_id job ≡ true) × IsHeldJob until job
found-IsHeldJob scope_id resource_id until s h job e =
    let it =
      All-find (λ (x : CleanupJobRecord). is_for scope_id resource_id x ≡ true → IsHeldJob until x)
        (is_for scope_id resource_id) s.cleanup_jobs job h.0 e in
    (it.0, it.1 it.0)

-- While the job is held, no claim of it succeeds.
pub claim_job_blocked :
    (clock now : ℕ) (scope_id resource_id : String) (expected_version : ℕ) (lease_id : String)
    (lease_until until : ℕ) (s : StateStore) (r : CleanupJobRecord)
    → IsHeld scope_id resource_id until s
    → now < until
    → (claim_job clock scope_id resource_id expected_version lease_id lease_until now s).0
      ≡ returned (some r)
    → ⊥
unfolding claim_job
claim_job_blocked clock now scope_id resource_id expected_version lease_id lease_until until s r h
      lt e =
    let body : StateStore → Outcome (Option CleanupJobRecord × StateStore) = λ t.
      claim_job_row now scope_id resource_id expected_version lease_id lease_until
        (find (is_for scope_id resource_id) t.cleanup_jobs) t in
    let tr = transaction clock body s in
    let same = after_returned (identifier lease_id) s tr (some r) e in
    let ran = transaction_returned clock body s (some r) (
      subst (λ (o : Outcome (Option CleanupJobRecord) × StateStore). o.0 ≡ returned (some r)) same
        e) in
    let u = begin clock s in
    let held = begin-IsHeld clock scope_id resource_id until s h in
    let blocked =
      claim_row_blocked now scope_id resource_id expected_version lease_id lease_until until u
        (find (is_for scope_id resource_id) u.cleanup_jobs)
        (λ job f. (found-IsHeldJob scope_id resource_id until u held job f).1) lt in
    clash (tr.1) u (sym ran ∙ blocked)
  where
    clash :
        (t u : StateStore)
        → Path
            (Outcome (Option CleanupJobRecord × StateStore))
            (returned (some r, t))
            (returned (none, u))
        → ⊥
    clash t u d = ground arith

-- What a reading of a held job answers, if it answers.
pub get_job-IsHeld :
    (clock : ℕ) (scope_id resource_id : String) (until : ℕ) (s : StateStore)
    → IsHeld scope_id resource_id until s
    → IsHeld scope_id resource_id until (get_job clock scope_id resource_id s).1
unfolding get_job transaction
get_job-IsHeld clock scope_id resource_id until s h =
    if_elim
      (λ (o : Outcome (Option CleanupJobRecord) × StateStore).
        IsHeld scope_id resource_id until o.1)
      (ltb schema_version s.user_version) _ _ (λ e. h)
      (λ e. begin-IsHeld clock scope_id resource_id until s h)

pub get_job_held :
    (clock : ℕ) (scope_id resource_id : String) (until : ℕ) (s : StateStore)
    (o : Option CleanupJobRecord)
    → IsHeld scope_id resource_id until s
    → (get_job clock scope_id resource_id s).0 ≡ returned o
    → (job : CleanupJobRecord) × (o ≡ some job) × (job.scope_id ≡ scope_id) × IsHeldJob until job
unfolding get_job
get_job_held clock scope_id resource_id until s o h e =
    let ran =
      transaction_returned clock
        (λ t. returned (find (is_for scope_id resource_id) t.cleanup_jobs, t)) s o e in
    let u = begin clock s in
    let held = begin-IsHeld clock scope_id resource_id until s h in
    let it = found-IsHeldJob scope_id resource_id until u held held.1 held.2 in
    (
      held.1,
      sym (answered (find (is_for scope_id resource_id) u.cleanup_jobs) o u _ ran) ∙ held.2,
      scope held.1 it.0,
      it.1,
    )
  where
    answered :
        (x y : Option CleanupJobRecord) (t k : StateStore)
        → Path (Outcome (Option CleanupJobRecord × StateStore)) (returned (x, t)) (returned (y, k))
        → x ≡ y
    answered x y t k d = ground arith

    scope :
        (job : CleanupJobRecord) → is_for scope_id resource_id job ≡ true → job.scope_id ≡ scope_id
    scope job d = ground (arith, eq_iff job.scope_id scope_id)
