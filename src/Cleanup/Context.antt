-- ===== src/Cleanup/Context.antt =====
-- The durable jobs of an authentication scope, and what a change of the authentication does, of
-- `RemoteChatCleanupManager`.
use gemini_web_mcp.Common.{
  ℕ, zero, suc, ◌+◌, String, Bool, true, false, not, ◌&&◌, ◌||◌, Option, none, some, List, [], ◌∷◌,
  ◌++◌, if◌then◌else◌, ltb, leb, eqb, ◌==◌, Dict, lookup, is_some, length, Outcome, returned,
  raised, take, points,
}
use gemini_web_mcp.Domain.Conversations.{
  CleanupObservation, no_observation, is_valid_remote_chat_id,
}
use gemini_web_mcp.Store.Records.{CleanupJobRecord}
use gemini_web_mcp.Store.Transactions.{StateStore}
use gemini_web_mcp.Store.Cleanup.{JobChanges, no_job_changes, get_job, get_by_job_id, update_job}
use gemini_web_mcp.Store.Claims.{list_jobs, text_leb}
use gemini_web_mcp.Cleanup.State.{
  Manager, CleanupTask, Locked, answer, ◌>>=◌, on_store, adopt, is_open, cancelled_for_generation,
  scoped,
}
use gemini_web_mcp.Cleanup.Durable.{retention_seconds}
use gemini_web_mcp.Cleanup.Delete.{Expected}

-- What follows a page in the loop of `_durable_records_locked`: a full page is followed by more.
abbrev pub after_page :
    (ℕ → StateStore → Outcome (List CleanupJobRecord) × StateStore)
    → ℕ
    → Outcome (List CleanupJobRecord) × StateStore
    → Outcome (List CleanupJobRecord) × StateStore
after_page next n (raised e, s) = (raised e, s)
after_page next n (returned records, s) =
    let rest = next (n + length records) s in
    if ltb (length records) 100 then (returned records, s) else elim rest.0 [
      | raised e ↦ (raised e, rest.1)
      | returned more ↦ (returned (records ++ more), rest.1)
    ]

-- `_durable_records_locked` from its loop on: `n` is the number of records read, `rounds` bounds the
-- loop, and `t` gives the clock of each page.
unfoldable pub read_pages :
    ℕ → (ℕ → ℕ) → String → ℕ → StateStore → Outcome (List CleanupJobRecord) × StateStore
unfolding list_jobs
read_pages zero t scope n s = (returned [], s)
read_pages (suc rounds) t scope n s =
    after_page (λ k u. read_pages rounds t scope k u) n (list_jobs (t n) scope 100 n [] s)

-- `_durable_records_locked`
unfoldable pub durable_records : ℕ → (ℕ → ℕ) → Locked (List CleanupJobRecord)
unfolding read_pages
durable_records rounds t m =
    scoped [] [] (λ scope. on_store (read_pages rounds t scope 0)) m.state_store
      m.authentication_scope m

unfoldable pub adopt_all : List CleanupJobRecord → Locked (Unit {0})
unfolding adopt
adopt_all [] = answer tt
adopt_all (r ∷ records) = do observation ← adopt r; adopt_all records

-- `_refresh_durable_jobs_locked`
unfoldable pub refresh : ℕ → (ℕ → ℕ) → Locked (Unit {0})
unfolding durable_records adopt_all
refresh rounds t = do records ← durable_records rounds t; adopt_all records

-- The changes that cancel a job.
abbrev pub cancelling_changes : String → ℕ → JobChanges
cancelling_changes code now = record no_job_changes {
  state = some "cancelled";
  error_code = some (some code);
  verification_status = some "not_observed";
  expires_at = some (now + retention_seconds);
}

-- The open jobs of a scope are cancelled, one after the other; `i` numbers the readings of the clock.
unfoldable pub cancel_open : (ℕ → ℕ) → ℕ → List CleanupJobRecord → Locked (Unit {0})
unfolding update_job
cancel_open t i [] = answer tt
cancel_open t i (r ∷ records) =
    if is_open r.state
    then (do
      updated ← on_store (
          update_job (t (i + 1)) (t (i + 2)) r.scope_id r.resource_id (some r.version) none
            (cancelling_changes "authentication_context_changed" (t i)))
      cancel_open t (i + 3) records)
    else cancel_open t i records

-- `sorted(…)` of a set of ids: an id that is there already has one place.
abbrev pub add_id : String → List String → List String
add_id cid [] = cid ∷ []
add_id cid (other ∷ ids) =
    if cid == other
    then other ∷ ids
    else if text_leb (points cid) (points other)
    then cid ∷ other ∷ ids
    else other ∷ add_id cid ids

abbrev pub sorted_ids : List String → List String
sorted_ids [] = []
sorted_ids (cid ∷ ids) = add_id cid (sorted_ids ids)

abbrev pub keys_of : {V : Type 0} → Dict V → List String
keys_of [] = []
keys_of ((k, v) ∷ d) = k ∷ keys_of d

-- `old_ids`, in their order
abbrev pub old_ids : List String → Manager → List String
old_ids chat_ids m = sorted_ids (keys_of m.pending ++ (keys_of m.inflight ++ chat_ids))

-- Each valid id is cancelled for the old generation, with the `i`-th id that is drawn.
unfoldable pub cancel_ids :
    (ℕ → String) → ℕ → ℕ → List String → Manager → List CleanupObservation × Manager
unfolding cancelled_for_generation is_valid_remote_chat_id
cancel_ids drawn i generation [] m = ([], m)
cancel_ids drawn i generation (cid ∷ ids) m =
    if is_valid_remote_chat_id cid
    then (let c = cancelled_for_generation cid generation (drawn i) m in
        let rest = cancel_ids drawn (suc i) generation ids c.1 in (c.0 ∷ rest.0, rest.1))
    else cancel_ids drawn i generation ids m

-- The manager of the next generation, which has no work.
abbrev pub next_generation : Manager → Manager
next_generation m = record m {
  authentication_generation = suc m.authentication_generation;
  pending = [];
  completed = [];
  inflight = [];
  authentication_scope = none;
}

-- `invalidate_authentication_context` after the jobs of the store.
unfoldable pub invalidate_memory :
    (ℕ → String) → List String → Manager → List CleanupObservation × Manager
unfolding cancel_ids
invalidate_memory drawn chat_ids m =
    cancel_ids drawn 0 m.authentication_generation (old_ids chat_ids m) (next_generation m)

-- The open jobs of the scope are cancelled.
unfoldable pub cancel_open_jobs : ℕ → (ℕ → ℕ) → (ℕ → ℕ) → Locked (Unit {0})
unfolding durable_records cancel_open
cancel_open_jobs rounds t u = do records ← durable_records rounds t; cancel_open u 0 records

unfoldable pub withdraw : (ℕ → String) → List String → Locked (List CleanupObservation)
unfolding invalidate_memory
withdraw drawn chat_ids m = let i = invalidate_memory drawn chat_ids m in (returned i.0, i.1)

-- `invalidate_authentication_context`: an exception of the store leaves the context as it is.
unfoldable pub invalidate_authentication_context :
    ℕ → (ℕ → ℕ) → (ℕ → ℕ) → (ℕ → String) → List String → Locked (List CleanupObservation)
unfolding cancel_open_jobs withdraw
invalidate_authentication_context rounds t u drawn chat_ids = do
  cancelled ← cancel_open_jobs rounds t u
  withdraw drawn chat_ids

-- `record_authentication_context_change`, for a generation that is given: its callers give one.
unfoldable pub record_authentication_context_change :
    Option String → ℕ → String → Manager → CleanupObservation × Manager
unfolding cancelled_for_generation is_valid_remote_chat_id
record_authentication_context_change none generation diagnostic_id m = (no_observation, m)
record_authentication_context_change (some cid) generation diagnostic_id m =
    if is_valid_remote_chat_id cid
    then cancelled_for_generation cid generation diagnostic_id m
    else (no_observation, m)

-- `previous_scope is not None and (previous_scope != scope_id or store_changed)`
abbrev pub changes_scope : Option String → Option String → Bool → Bool
changes_scope none scope_id store_changed = false
changes_scope (some previous) none store_changed = true
changes_scope (some previous) (some scope) store_changed = not (previous == scope) || store_changed

-- `if state_store is not None: self._state_store = state_store`
abbrev pub store_or : Option StateStore → Option StateStore → Option StateStore
store_or none held = held
store_or (some given) held = some given

-- The last part of `bind_authentication_scope`.
unfoldable pub bind_scope : ℕ → (ℕ → ℕ) → Option String → Option StateStore → Locked (Unit {0})
unfolding refresh
bind_scope rounds t scope_id given m = refresh rounds t (record m {
  state_store = store_or given m.state_store;
  authentication_scope = scope_id;
  suspended = [];
})

-- `bind_authentication_scope`; `store_changed` says whether `given` is another store than the bound
-- one. `t` is the clock of the refresh; the others are those of the invalidation.
unfoldable pub bind_authentication_scope :
    ℕ
    → (ℕ → ℕ)
    → (ℕ → ℕ)
    → (ℕ → ℕ)
    → (ℕ → String)
    → Option String
    → Option StateStore
    → Bool
    → Locked (Unit {0})
unfolding invalidate_authentication_context bind_scope
bind_authentication_scope rounds t v u drawn scope_id given store_changed m =
    if changes_scope m.authentication_scope scope_id store_changed
    then (do
      cancelled ← invalidate_authentication_context rounds v u drawn []
      bind_scope rounds t scope_id given)
        m
    else bind_scope rounds t scope_id given m

-- `list_durable_jobs`
unfoldable pub list_durable_jobs : ℕ → ℕ → ℕ → List String → Locked (List CleanupJobRecord)
unfolding list_jobs
list_durable_jobs clock limit offset states m =
    scoped [] [] (λ scope. on_store (list_jobs clock scope limit offset states)) m.state_store
      m.authentication_scope m

-- `get_durable_job`
unfoldable pub get_durable_job : ℕ → String → Locked (Option CleanupJobRecord)
unfolding get_by_job_id
get_durable_job clock job_id m =
    scoped none none (λ scope. on_store (get_by_job_id clock scope job_id)) m.state_store
      m.authentication_scope m

-- `record is None or record.state in {"completed", "retained", "cancelled"}`
abbrev pub is_settled : String → Bool
is_settled state = state == "completed" || state == "retained" || state == "cancelled"

-- `if current is not None: self._adopt_durable_record_locked(current)`
abbrev pub adopt_current : Option CleanupJobRecord → Locked (Option CleanupJobRecord)
adopt_current none = answer none
adopt_current (some r) = do observation ← adopt r; answer (some r)

-- `updated or repository.get(…)`
unfoldable pub updated_or_get :
    ℕ → CleanupJobRecord → Option CleanupJobRecord → Locked (Option CleanupJobRecord)
unfolding get_job
updated_or_get clock r none = on_store (get_job clock r.scope_id r.resource_id)
updated_or_get clock r (some updated) = answer (some updated)

-- `cancel_durable_job` on the record that it found.
unfoldable pub cancel_found : (ℕ → ℕ) → Option CleanupJobRecord → Locked (Option CleanupJobRecord)
unfolding update_job updated_or_get
cancel_found t none = answer none
cancel_found t (some r) = if is_settled r.state then answer (some r) else (do
  updated ← on_store (
      update_job (t 2) (t 3) r.scope_id r.resource_id (some r.version) none
        (cancelling_changes "cancelled_by_request" (t 1)))
  current ← updated_or_get (t 4) r updated
  adopt_current current)

-- `cancel_durable_job`
unfoldable pub cancel_durable_job : (ℕ → ℕ) → String → Locked (Option CleanupJobRecord)
unfolding get_by_job_id cancel_found
cancel_durable_job t job_id m =
    scoped none none
      (λ scope. (do found ← on_store (get_by_job_id (t 0) scope job_id); cancel_found t found))
      m.state_store m.authentication_scope m

-- `data.delete_at <= now and cid not in self._inflight_cleanup`
abbrev pub is_due : ℕ → Manager → String → CleanupTask → Bool
is_due now m cid task = leb task.delete_at now && not (is_some (lookup cid m.inflight))

-- `due_cids` of `cleanup_due_chat_results`, before its limit.
unfoldable pub due_tasks : ℕ → Manager → Dict CleanupTask → List (String × Expected)
due_tasks now m [] = []
due_tasks now m ((cid, task) ∷ tasks) =
    let rest = due_tasks now m tasks in
    let expected : Expected = record {
      task = task;
      delete_at = task.delete_at;
      attempts = task.attempts;
    } in
    if is_due now m cid task then (cid, expected) ∷ rest else rest

abbrev pub limited : {A : Type 0} → Option ℕ → List A → List A
limited none xs = xs
limited (some limit) xs = take limit xs

-- `authentication_generation is not None and authentication_generation != self._authentication_generation`
abbrev pub is_old : Option ℕ → Manager → Bool
is_old none m = false
is_old (some generation) m = not (eqb generation m.authentication_generation)

unfoldable pub collect_due : ℕ → Option ℕ → Locked (List (String × Expected))
unfolding due_tasks
collect_due now limit m = answer (limited limit (due_tasks now m m.pending)) m

-- The first part of `cleanup_due_chat_results`, under the lock.
unfoldable pub select_due :
    ℕ → ℕ → (ℕ → ℕ) → Option ℕ → Option ℕ → Locked (List (String × Expected))
unfolding refresh collect_due
select_due now rounds t generation limit m =
    if is_old generation m
    then answer [] m
    else (do refreshed ← refresh rounds t; collect_due now limit) m

-- `get_cleanup_observation`
unfoldable pub get_cleanup_observation : Option String → Manager → Option CleanupObservation
unfolding lookup is_valid_remote_chat_id
get_cleanup_observation none m = none
get_cleanup_observation (some cid) m =
    if is_valid_remote_chat_id cid then lookup cid m.observations else none
