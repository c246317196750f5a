-- ===== src/Store/Claims.antt =====
-- `claim`, `delete`, `prune` and `list` of `CleanupRepository` in infrastructure/state_store.py.
use gemini_web_mcp.Common.{
  ℕ, ◌+◌, String, Bool, true, false, not, ◌&&◌, ◌||◌, Option, none, some, List, [], ◌∷◌,
  if◌then◌else◌, ltb, leb, eqb, any, ◌==◌, length, Outcome, returned, raise_if, value_error,
}
use gemini_web_mcp.Store.Labels.{identifier}
use gemini_web_mcp.Store.Transactions.{StateStore, transaction, filter, find, update_where}
use gemini_web_mcp.Common.{Points, points, drop, take}
use gemini_web_mcp.Store.Records.{CleanupJobRecord}
use gemini_web_mcp.Store.Transactions.{is_disposable}
use gemini_web_mcp.Store.Operations.{after}
use gemini_web_mcp.Store.Leases.{until_or_0}
use gemini_web_mcp.Store.Cleanup.{is_for}

-- `eligible` in `claim`
abbrev pub is_eligible : ℕ → CleanupJobRecord → Bool
is_eligible now job =
    (job.state == "pending" || job.state == "failed") && leb job.due_at now
    || job.state == "running" && leb (until_or_0 job.lease_until) now

abbrev pub running_job : ℕ → String → ℕ → CleanupJobRecord → CleanupJobRecord
running_job now lease_id lease_until job = record job {
  state = "running";
  attempts = job.attempts + 1;
  version = job.version + 1;
  updated_at = now;
  lease_id = some lease_id;
  lease_until = some lease_until;
}

-- The body of `claim` on the row it found.
unfoldable pub claim_job_row :
    ℕ
    → String
    → String
    → ℕ
    → String
    → ℕ
    → Option CleanupJobRecord
    → StateStore
    → Outcome (Option CleanupJobRecord × StateStore)
unfolding update_where find
claim_job_row now scope_id resource_id expected_version lease_id lease_until none s =
    returned (none, s)
claim_job_row now scope_id resource_id expected_version lease_id lease_until (some job) s =
    if eqb job.version expected_version && is_eligible now job && ltb now lease_until
    then (let jobs =
          update_where (is_for scope_id resource_id) (running_job now lease_id lease_until)
            s.cleanup_jobs in
        returned (find (is_for scope_id resource_id) jobs, record s { cleanup_jobs = jobs }))
    else returned (none, s)

-- `claim`
unfoldable pub claim_job :
    ℕ
    → String
    → String
    → ℕ
    → String
    → ℕ
    → ℕ
    → StateStore
    → Outcome (Option CleanupJobRecord) × StateStore
unfolding identifier transaction find claim_job_row
claim_job clock scope_id resource_id expected_version lease_id lease_until now s =
    after (identifier lease_id) s (
      transaction clock
        (λ t.
          claim_job_row now scope_id resource_id expected_version lease_id lease_until
            (find (is_for scope_id resource_id) t.cleanup_jobs) t)
        s)

-- `delete`
unfoldable pub delete_job : ℕ → String → String → StateStore → Outcome (Unit {0}) × StateStore
unfolding transaction filter
delete_job clock scope_id resource_id s =
    transaction clock
      (λ t. returned (
        tt,
        record t {
          cleanup_jobs = filter (λ job. not (is_for scope_id resource_id job)) t.cleanup_jobs;
        },
      ))
      s

-- `prune`
unfoldable pub prune_jobs : ℕ → ℕ → StateStore → Outcome ℕ × StateStore
unfolding transaction filter
prune_jobs clock now s =
    transaction clock
      (λ t. returned (
        length (filter (is_disposable now) t.cleanup_jobs),
        record t { cleanup_jobs = filter (λ job. not (is_disposable now job)) t.cleanup_jobs },
      ))
      s

-- The binary collation of texts.
abbrev pub text_leb : Points → Points → Bool
text_leb [] b = true
text_leb (x ∷ a) [] = false
text_leb (x ∷ a) (y ∷ b) = ltb x y || eqb x y && text_leb a b

-- `ORDER BY created_at,job_id`
abbrev pub comes_first : CleanupJobRecord → CleanupJobRecord → Bool
comes_first a b =
    ltb a.created_at b.created_at
    || eqb a.created_at b.created_at && text_leb (points a.job_id) (points b.job_id)

unfoldable pub insert_ordered : CleanupJobRecord → List CleanupJobRecord → List CleanupJobRecord
insert_ordered job [] = job ∷ []
insert_ordered job (other ∷ jobs) =
    if comes_first job other then job ∷ other ∷ jobs else other ∷ insert_ordered job jobs

unfoldable pub ordered : List CleanupJobRecord → List CleanupJobRecord
unfolding insert_ordered
ordered [] = []
ordered (job ∷ jobs) = insert_ordered job (ordered jobs)

-- `scope_id=?` and, where states are given, `state IN (…)`
abbrev pub is_listed : String → List String → CleanupJobRecord → Bool
is_listed scope_id [] job = job.scope_id == scope_id
is_listed scope_id (state ∷ states) job =
    job.scope_id == scope_id && any (λ t. job.state == t) (state ∷ states)

-- `list`; an offset is a natural number, so the test for a negative one has no counterpart.
unfoldable pub list_jobs :
    ℕ → String → ℕ → ℕ → List String → StateStore → Outcome (List CleanupJobRecord) × StateStore
unfolding transaction filter ordered
list_jobs clock scope_id limit offset states s =
    after (raise_if (ltb limit 1 || ltb 101 limit) (value_error "Invalid cleanup pagination.")) s (
      transaction clock
        (λ t. returned (
          take limit (drop offset (ordered (filter (is_listed scope_id states) t.cleanup_jobs))),
          t,
        ))
        s)
