-- ===== src/Store/Cleanup.antt =====
-- `CleanupRepository` of infrastructure/state_store.py.
use gemini_web_mcp.Common.{
  ℕ, ◌+◌, String, Bool, not, ◌&&◌, ◌||◌, Option, none, some, List, [], ◌∷◌, ◌++◌, if◌then◌else◌,
  any, ◌==◌, is_some, PyError, Outcome, returned, raised, raise_if, value_error, or_default, ◌>>=◌,
  ◌>>◌,
}
use gemini_web_mcp.Domain.Results.{same_text}
use gemini_web_mcp.Store.Labels.{identifier, identifier_if}
use gemini_web_mcp.Store.Transactions.{StateStore, transaction, find, update_where}
use gemini_web_mcp.Common.{type_error, any}
use gemini_web_mcp.Store.Labels.{matches_label}
use gemini_web_mcp.Store.Records.{CleanupJobRecord}
use gemini_web_mcp.Store.Operations.{after}
use gemini_web_mcp.Store.Updates.{passed, is_stale, lost_lease}

-- `_CLEANUP_STATES`
abbrev pub is_cleanup_state : String → Bool
is_cleanup_state state =
    state == "pending"
    || state == "running"
    || state == "completed"
    || state == "failed"
    || state == "retained"
    || state == "cancelled"

-- `scope_id=? AND resource_id=?`
abbrev pub is_for : String → String → CleanupJobRecord → Bool
is_for scope_id resource_id job = job.scope_id == scope_id && job.resource_id == resource_id

abbrev pub completion_error : PyError
completion_error = value_error "Cleanup completion requires observed absence."

-- `if source and not _LABEL.fullmatch(source)`
abbrev pub check_source : Option String → Outcome (Unit {0})
check_source none = returned tt
check_source (some source) =
    raise_if (not (source == "") && not (matches_label source))
      (value_error "Cleanup source must be a controlled operation kind.")

-- The checks that come before the transaction of `upsert`.
unfoldable pub check_job : CleanupJobRecord → Outcome (Unit {0})
unfolding identifier
check_job r = do
  identifier r.job_id
  identifier r.scope_id
  identifier r.resource_id
  identifier r.resource_type
  check_source (some r.source)
  raise_if (not (is_cleanup_state r.state)) (value_error "Invalid cleanup state.")
  raise_if (r.state == "completed" && not (r.verification_status == "verified_absent"))
      completion_error

-- The job breaks a constraint: its id is taken, or its resource is taken in its scope.
abbrev pub collides : CleanupJobRecord → CleanupJobRecord → Bool
collides new job = job.job_id == new.job_id || is_for new.scope_id new.resource_id job

-- `INSERT OR IGNORE`
unfoldable pub insert_or_ignore : CleanupJobRecord → List CleanupJobRecord → List CleanupJobRecord
insert_or_ignore r jobs = if any (collides r) jobs then jobs else jobs ++ (r ∷ [])

-- `CleanupJobRecord(**dict(row))`: `dict(None)` raises `TypeError`.
abbrev pub existing_job : Option CleanupJobRecord → Outcome CleanupJobRecord
existing_job none = raised (type_error "'NoneType' object is not iterable")
existing_job (some job) = returned job

-- `upsert`: the job that holds the resource afterwards.
unfoldable pub upsert : ℕ → CleanupJobRecord → StateStore → Outcome CleanupJobRecord × StateStore
unfolding check_job transaction insert_or_ignore find
upsert clock r s =
    let t : Outcome (Option CleanupJobRecord) × StateStore = after (check_job r) s (
      transaction clock
        (λ t.
          let jobs = insert_or_ignore r t.cleanup_jobs in
          returned (find (is_for r.scope_id r.resource_id) jobs, record t { cleanup_jobs = jobs }))
        s) in
    (t.0 >>= existing_job, t.1)

-- `get`
unfoldable pub get_job :
    ℕ → String → String → StateStore → Outcome (Option CleanupJobRecord) × StateStore
unfolding transaction find
get_job clock scope_id resource_id s =
    transaction clock (λ t. returned (find (is_for scope_id resource_id) t.cleanup_jobs, t)) s

-- `get_by_job_id`
unfoldable pub get_by_job_id :
    ℕ → String → String → StateStore → Outcome (Option CleanupJobRecord) × StateStore
unfolding transaction find
get_by_job_id clock scope_id job_id s =
    transaction clock
      (λ t.
        returned (find (λ job. job.scope_id == scope_id && job.job_id == job_id) t.cleanup_jobs, t))
      s

-- `UPDATE cleanup_jobs SET …` in `update`: the keyword arguments, `none` for one that was not
-- passed. `lease_id` is a parameter of its own, so it is never among them.
pub record JobChanges : Type 0 where
  pub state : Option String
  pub due_at : Option ℕ
  pub attempts : Option ℕ
  pub diagnostic_id : Option (Option String)
  pub verification_status : Option String
  pub source : Option String
  pub error_code : Option (Option String)
  pub lease_until : Option (Option ℕ)
  pub expires_at : Option ℕ

abbrev pub no_job_changes : JobChanges
no_job_changes = record {
  state = none;
  due_at = none;
  attempts = none;
  diagnostic_id = none;
  verification_status = none;
  source = none;
  error_code = none;
  lease_until = none;
  expires_at = none;
}

-- The checks that come before the transaction of `update`.
unfoldable pub check_job_changes : JobChanges → Outcome (Unit {0})
unfolding identifier_if
check_job_changes c = do
  raise_if (is_some c.state && not (is_cleanup_state (or_default c.state "")))
      (value_error "Invalid cleanup state.")
  identifier_if (passed c.diagnostic_id)
  identifier_if c.verification_status
  identifier_if (passed c.error_code)
  check_source c.source
  raise_if
      (same_text c.state (some "completed")
        && not (same_text c.verification_status (some "verified_absent")))
      completion_error

-- `replace(record, **changes, updated_at=…, version=record.version + 1)`
unfoldable pub replaced : ℕ → JobChanges → CleanupJobRecord → CleanupJobRecord
replaced now c job = record job {
  state = or_default c.state job.state;
  due_at = or_default c.due_at job.due_at;
  attempts = or_default c.attempts job.attempts;
  diagnostic_id = or_default c.diagnostic_id job.diagnostic_id;
  verification_status = or_default c.verification_status job.verification_status;
  source = or_default c.source job.source;
  error_code = or_default c.error_code job.error_code;
  lease_until = or_default c.lease_until job.lease_until;
  expires_at = or_default c.expires_at job.expires_at;
  updated_at = now;
  version = job.version + 1;
}

-- `if updated.state != "running": updated = replace(updated, lease_id=None, lease_until=None)`
abbrev pub unleased : CleanupJobRecord → CleanupJobRecord
unleased job =
    if job.state == "running" then job else record job { lease_id = none; lease_until = none }

-- The guards of `update` on the row it found.
abbrev pub is_refused : Option ℕ → Option String → JobChanges → CleanupJobRecord → Bool
is_refused expected_version lease_id c job =
    is_stale expected_version job.version
    || is_some lease_id && (lost_lease lease_id job.lease_id || not (job.state == "running"))
    || job.state == "completed" && not (or_default c.state "completed" == "completed")

-- The columns that are set: all but the three that name the job, which the update leaves.
abbrev pub stored_over : CleanupJobRecord → CleanupJobRecord → CleanupJobRecord
stored_over new old = record new {
  job_id = old.job_id;
  scope_id = old.scope_id;
  resource_id = old.resource_id;
}

-- The body of `update` on the row it found.
unfoldable pub update_job_row :
    ℕ
    → String
    → String
    → Option ℕ
    → Option String
    → JobChanges
    → Option CleanupJobRecord
    → StateStore
    → Outcome (Option CleanupJobRecord × StateStore)
unfolding replaced update_where
update_job_row now scope_id resource_id expected_version lease_id c none s = returned (none, s)
update_job_row now scope_id resource_id expected_version lease_id c (some job) s =
    if is_refused expected_version lease_id c job
    then returned (none, s)
    else (let updated = unleased (replaced now c job) in
        returned (
          some updated,
          record s {
            cleanup_jobs =
                update_where (is_for scope_id resource_id) (stored_over updated) s.cleanup_jobs;
          },
        ))

-- `update`
unfoldable pub update_job :
    ℕ
    → ℕ
    → String
    → String
    → Option ℕ
    → Option String
    → JobChanges
    → StateStore
    → Outcome (Option CleanupJobRecord) × StateStore
unfolding check_job_changes transaction find update_job_row
update_job clock now scope_id resource_id expected_version lease_id c s =
    after (check_job_changes c) s (
      transaction clock
        (λ t.
          update_job_row now scope_id resource_id expected_version lease_id c
            (find (is_for scope_id resource_id) t.cleanup_jobs) t)
        s)

-- `renew`
unfoldable pub renew_job :
    ℕ
    → ℕ
    → String
    → String
    → String
    → ℕ
    → StateStore
    → Outcome (Option CleanupJobRecord) × StateStore
unfolding update_job
renew_job clock now scope_id resource_id lease_id lease_until s =
    update_job clock now scope_id resource_id none (some lease_id)
      (record no_job_changes { lease_until = some (some lease_until) }) s
