-- ===== src/Cleanup/State.antt =====
-- The state of `RemoteChatCleanupManager`, and the helpers that run under its lock. The timers that
-- wait for a due time are left out: any timer may fire at any moment. A task object has a number,
-- its identity. Times are numbers of seconds.
use gemini_web_mcp.Common.{
  ℕ, suc, max, String, Bool, true, false, not, ◌&&◌, ◌||◌, Option, none, some, List, [], ◌∷◌,
  if◌then◌else◌, leb, eqb, ◌==◌, Dict, lookup, insert, erase, or_default, or_text, Outcome,
  returned, raised, value_error, type_error,
}
use gemini_web_mcp.Domain.Conversations.{CleanupObservation, CleanupState, no_observation}
use gemini_web_mcp.Store.Records.{CleanupJobRecord}
use gemini_web_mcp.Store.Transactions.{StateStore}

pub record CleanupTask : Type 0 where
  pub ref : ℕ
  pub delete_at : ℕ
  pub source : String
  pub attempts : ℕ
  pub last_diagnostic_id : Option String
  pub authentication_generation : ℕ
  pub durable_version : Option ℕ

-- An entry of `_cancelled_cleanup`.
pub record CancelledEntry : Type 0 where
  pub generation : ℕ
  pub cid : String
  pub observation : CleanupObservation

-- `next` is the number of the next task object. `inflight` holds the numbers of running deletions.
pub record Manager : Type 0 where
  pub pending : Dict CleanupTask
  pub observations : Dict CleanupObservation
  pub observation_generations : Dict ℕ
  pub completed : Dict CleanupObservation
  pub inflight : Dict ℕ
  pub cancelled : List CancelledEntry
  pub authentication_generation : ℕ
  pub authentication_scope : Option String
  pub suspended : List String
  pub state_store : Option StateStore
  pub default_retention : ℕ
  pub lease_seconds : ℕ
  pub next : ℕ

-- `generation >= self._observation_generations.get(cid, -1)`
abbrev pub is_recent : ℕ → Option ℕ → Bool
is_recent generation none = true
is_recent generation (some g) = leb g generation

-- `_store_observation_locked`
unfoldable pub store_observation : String → CleanupObservation → ℕ → Manager → Manager
unfolding lookup insert
store_observation cid observation generation m =
    if is_recent generation (lookup cid m.observation_generations)
    then record m {
      observations = insert cid observation m.observations;
      observation_generations = insert cid generation m.observation_generations;
    }
    else m

-- `self._cancelled_cleanup.get((generation, cid))`
unfoldable pub find_cancelled : ℕ → String → List CancelledEntry → Option CleanupObservation
find_cancelled generation cid [] = none
find_cancelled generation cid (e ∷ entries) =
    if eqb e.generation generation && e.cid == cid
    then some e.observation
    else find_cancelled generation cid entries

-- `previous.attempts if previous is not None else 0`
abbrev pub attempts_of : Option CleanupObservation → ℕ
attempts_of none = 0
attempts_of (some previous) = previous.attempts

-- The observation of a deletion that an authentication change cancelled.
abbrev pub changed_observation : String → ℕ → String → CleanupObservation
changed_observation cid attempts diagnostic_id = record no_observation {
  state = CleanupState.cancelled;
  upstream_chat_id = some cid;
  attempts = attempts;
  diagnostic_id = some diagnostic_id;
  cancellation_reason = some "authentication_context_changed";
}

-- `_cancelled_for_generation_locked` on what it finds: an observation once made is kept.
unfoldable pub keep_cancelled :
    String → ℕ → String → Option CleanupObservation → Manager → CleanupObservation × Manager
unfolding store_observation
keep_cancelled cid generation diagnostic_id (some o) m = (o, store_observation cid o generation m)
keep_cancelled cid generation diagnostic_id none m =
    let o = changed_observation cid (attempts_of (lookup cid m.observations)) diagnostic_id in
    let entry : CancelledEntry = record { generation = generation; cid = cid; observation = o } in
    (o, store_observation cid o generation (record m { cancelled = entry ∷ m.cancelled }))

-- `_cancelled_for_generation_locked`, with the diagnostic id that it is given or draws.
unfoldable pub cancelled_for_generation :
    String → ℕ → String → Manager → CleanupObservation × Manager
unfolding find_cancelled keep_cancelled
cancelled_for_generation cid generation diagnostic_id m =
    keep_cancelled cid generation diagnostic_id (find_cancelled generation cid m.cancelled) m

-- `_storage_failure_locked`
unfoldable pub storage_failure :
    String → String → ℕ → String → Manager → CleanupObservation × Manager
unfolding store_observation
storage_failure cid source attempts diagnostic_id m =
    let o : CleanupObservation = record no_observation {
      state = CleanupState.failed;
      upstream_chat_id = some cid;
      attempts = attempts;
      source = source;
      diagnostic_id = some diagnostic_id;
    } in
    (
      o,
      store_observation cid o m.authentication_generation
          (record m { suspended = cid ∷ m.suspended }),
    )

-- `CleanupState(text)`
unfoldable pub cleanup_state_of : String → Option CleanupState
cleanup_state_of s =
    if s == "not_applicable"
    then some CleanupState.not_applicable
    else if s == "retained"
    then some CleanupState.retained
    else if s == "pending"
    then some CleanupState.pending
    else if s == "completed"
    then some CleanupState.completed
    else if s == "already_completed"
    then some CleanupState.already_completed
    else if s == "failed"
    then some CleanupState.failed
    else if s == "cancelled"
    then some CleanupState.cancelled
    else if s == "invalid_id"
    then some CleanupState.invalid_id
    else none

-- `CleanupState.PENDING if record.state == "running" else CleanupState(record.state)`
abbrev pub adopted_state : String → Option CleanupState
adopted_state s = if s == "running" then some CleanupState.pending else cleanup_state_of s

-- `(record.error_code or "cancelled_by_request") if state is CleanupState.CANCELLED else None`
abbrev pub reason_of : CleanupState → Option String → Option String
reason_of CleanupState.cancelled code = some (or_text code "cancelled_by_request")
reason_of _ code = none

-- The observation that a durable record makes.
abbrev pub observation_of : CleanupState → CleanupJobRecord → CleanupObservation
observation_of state r = record {
  state = state;
  upstream_chat_id = some r.resource_id;
  attempts = r.attempts;
  diagnostic_id = r.diagnostic_id;
  idempotent = false;
  cancellation_reason = reason_of state r.error_code;
  source = r.source;
  delete_at = some r.due_at;
}

-- `record.state in {"pending", "failed", "running"}`
abbrev pub is_open : String → Bool
is_open state = state == "pending" || state == "failed" || state == "running"

-- When the job of the record may be tried.
abbrev pub due_of : CleanupJobRecord → ℕ
due_of r = if r.state == "running" then max r.due_at (or_default r.lease_until 0) else r.due_at

-- `existing is None or existing.durable_version != record.version`
abbrev pub is_outdated : ℕ → Option CleanupTask → Bool
is_outdated version none = true
is_outdated version (some task) = elim task.durable_version [
  | none ↦ true
  | some v ↦ not (eqb v version)
]

-- The task that a durable record makes.
abbrev pub task_of : ℕ → ℕ → CleanupJobRecord → CleanupTask
task_of ref generation r = record {
  ref = ref;
  delete_at = due_of r;
  source = r.source;
  attempts = r.attempts;
  last_diagnostic_id = r.diagnostic_id;
  authentication_generation = generation;
  durable_version = some r.version;
}

-- The pending task of a durable record: a job that is no longer open has none.
unfoldable pub adopt_pending : CleanupJobRecord → Manager → Manager
unfolding lookup insert erase
adopt_pending r m =
    if is_open r.state
    then (if is_outdated r.version (lookup r.resource_id m.pending)
        then record m {
          pending = insert r.resource_id (task_of m.next m.authentication_generation r) m.pending;
          next = suc m.next;
        }
        else m)
    else record m { pending = erase r.resource_id m.pending }

-- `if state is CleanupState.COMPLETED: self._completed_cleanup[cid] = observation`
unfoldable pub adopt_completed : CleanupState → String → CleanupObservation → Manager → Manager
unfolding insert
adopt_completed CleanupState.completed cid o m = record m { completed = insert cid o m.completed }
adopt_completed _ cid o m = m

-- `_adopt_durable_record_locked`, in the state that the record's text means.
unfoldable pub adopt_as :
    CleanupJobRecord → Manager → Option CleanupState → Outcome CleanupObservation × Manager
unfolding adopt_pending adopt_completed store_observation
adopt_as r m none = (raised (value_error "not a valid CleanupState"), m)
adopt_as r m (some state) =
    let o = observation_of state r in
    (
      returned o,
      store_observation r.resource_id o m.authentication_generation
          (adopt_completed state r.resource_id o (adopt_pending r m)),
    )

-- `_adopt_durable_record_locked`; an equal earlier observation is as good as the new one.
unfoldable pub adopt : CleanupJobRecord → Manager → Outcome CleanupObservation × Manager
unfolding adopt_as
adopt r m = adopt_as r m (adopted_state r.state)

-- A computation that runs under the lock, and may raise.
abbrev pub Locked : Type 0 → Type 0
Locked A = Manager → Outcome A × Manager

abbrev pub next_step : {A B : Type 0} → Outcome A × Manager → (A → Locked B) → Outcome B × Manager
next_step (returned a, m) f = f a m
next_step (raised e, m) f = (raised e, m)

infixl 5 ◌>>=◌
abbrev pub ◌>>=◌ : {A B : Type 0} → Locked A → (A → Locked B) → Locked B
◌>>=◌ x f m = next_step (x m) f

abbrev pub answer : {A : Type 0} → A → Locked A
answer a m = (returned a, m)

-- A call of the repository; without a store there is none to call.
abbrev pub called :
    {A : Type 0}
    → (StateStore → Outcome A × StateStore)
    → Manager
    → Option StateStore
    → Outcome A × Manager
called call m none = (raised (type_error "'NoneType' object has no attribute 'cleanup_jobs'"), m)
called call m (some s) = ((call s).0, record m { state_store = some (call s).1 })

abbrev pub on_store : {A : Type 0} → (StateStore → Outcome A × StateStore) → Locked A
on_store call m = called call m m.state_store

-- `self._state_store is None` and `self._authentication_scope is None`: what is answered without a
-- store, without a scope, and what is done in a scope.
abbrev pub scoped :
    {A : Type 0} → A → A → (String → Locked A) → Option StateStore → Option String → Locked A
scoped no_store no_scope run none scope = answer no_store
scoped no_store no_scope run (some s) none = answer no_scope
scoped no_store no_scope run (some s) (some scope) = run scope
