-- ===== src/Cleanup/Schedule.antt =====
-- `schedule_cleanup_result` of `RemoteChatCleanupManager`: one decision for a chat, run under the
-- lock. `t` gives the readings of the clock, in their order; the ids that a call draws are arguments.
use gemini_web_mcp.Common.{
  ℕ, suc, ◌+◌, String, Bool, true, false, not, ◌&&◌, Option, none, some, if◌then◌else◌, ltb, eqb,
  lookup, insert, or_default, Outcome, returned, raised, is_some,
}
use gemini_web_mcp.Domain.Conversations.{
  CleanupObservation, CleanupState, no_observation, is_valid_remote_chat_id,
}
use gemini_web_mcp.Cleanup.State.{
  Manager, CleanupTask, store_observation, storage_failure, cancelled_for_generation,
}
use gemini_web_mcp.Cleanup.Durable.{durable_schedule, drop_pending}

-- The arguments of `schedule_cleanup_result`; a negative delay counts as 0, as the source has it.
pub record ScheduleRequest : Type 0 where
  pub cid : Option String
  pub retain_chat : Bool
  pub delete_after_seconds : Option ℕ
  pub source : String
  pub authentication_generation : Option ℕ

-- What a call draws, and the answer of `_retention_provider`, if there is one.
pub record Draws : Type 0 where
  pub job_id : String
  pub lease_id : String
  pub diagnostic_id : String
  pub retention : Option ℕ

-- The delay before a deletion.
abbrev pub ttl_of : Option ℕ → Option ℕ → ℕ → ℕ
ttl_of (some delay) provided default_retention = delay
ttl_of none (some delay) default_retention = delay
ttl_of none none default_retention = default_retention

-- `delete_at`
abbrev pub delete_at_of : ℕ → ScheduleRequest → Draws → Manager → ℕ
delete_at_of now q d m =
    if q.retain_chat then 0 else now + ttl_of q.delete_after_seconds d.retention m.default_retention

-- `replace(completed, state=ALREADY_COMPLETED, idempotent=True)`
abbrev pub already : CleanupObservation → CleanupObservation
already o = record o { state = CleanupState.already_completed; idempotent = true }

-- The observation of a pending task.
abbrev pub pending_observation : String → CleanupTask → Bool → CleanupObservation
pending_observation cid task idempotent = record no_observation {
  state = CleanupState.pending;
  upstream_chat_id = some cid;
  attempts = task.attempts;
  diagnostic_id = task.last_diagnostic_id;
  idempotent = idempotent;
  source = task.source;
  delete_at = some task.delete_at;
}

-- `previous is not None and previous.state is CleanupState.FAILED`
abbrev pub is_failed : CleanupState → Bool
is_failed CleanupState.failed = true
is_failed _ = false

abbrev pub repeated_observation :
    String → CleanupTask → Option CleanupObservation → CleanupObservation
repeated_observation cid task none = pending_observation cid task true
repeated_observation cid task (some previous) =
    if is_failed previous.state
    then record previous { idempotent = true }
    else pending_observation cid task true

-- Each decision stores its observation and answers it.
abbrev pub observe_as : String → ℕ → CleanupObservation → Manager → CleanupObservation × Manager
observe_as cid generation o m = (o, store_observation cid o generation m)

abbrev pub with_pending : String → CleanupTask → Manager → Manager
with_pending cid task m = record m { pending = insert cid task m.pending }

-- The task that a new decision makes.
abbrev pub new_task : ℕ → ℕ → String → ℕ → CleanupTask
new_task ref delete_at source generation = record {
  ref = ref;
  delete_at = delete_at;
  source = source;
  attempts = 0;
  last_diagnostic_id = none;
  authentication_generation = generation;
  durable_version = none;
}

-- A chat that is to be deleted, by its pending task: a new one is registered; an earlier time that
-- is asked for moves it; any other request repeats it.
unfoldable pub schedule_pending :
    String → ℕ → Bool → ℕ → String → Option CleanupTask → Manager → CleanupObservation × Manager
unfolding store_observation insert lookup
schedule_pending cid generation explicit_delay delete_at source none m =
    let task = new_task m.next delete_at source generation in
    observe_as cid generation (pending_observation cid task false)
      (record (with_pending cid task m) { next = suc m.next })
schedule_pending cid generation explicit_delay delete_at source (some task) m =
    if explicit_delay && ltb delete_at task.delete_at
    then (let moved : CleanupTask = record task { delete_at = delete_at } in
        observe_as cid generation (pending_observation cid moved true) (with_pending cid moved m))
    else observe_as cid generation (repeated_observation cid task (lookup cid m.observations)) m

-- The observation of a chat that is kept.
abbrev pub retained_observation : String → String → CleanupObservation
retained_observation cid source = record no_observation {
  state = CleanupState.retained;
  upstream_chat_id = some cid;
  source = source;
}

-- The decision in memory for a chat that was not deleted yet.
unfoldable pub schedule_open :
    String → ℕ → Bool → Bool → ℕ → String → Manager → CleanupObservation × Manager
unfolding schedule_pending store_observation lookup
schedule_open cid generation retain_chat explicit_delay delete_at source m =
    if retain_chat
    then observe_as cid generation (retained_observation cid source) (drop_pending cid m)
    else schedule_pending cid generation explicit_delay delete_at source (lookup cid m.pending) m

-- The decision in memory: a chat that was deleted stays so.
unfoldable pub schedule_in_memory :
    String
    → ℕ
    → Bool
    → Bool
    → ℕ
    → String
    → Option CleanupObservation
    → Manager
    → CleanupObservation × Manager
unfolding schedule_open store_observation
schedule_in_memory cid generation retain_chat explicit_delay delete_at source (some completed) m =
    observe_as cid generation (already completed) m
schedule_in_memory cid generation retain_chat explicit_delay delete_at source none m =
    schedule_open cid generation retain_chat explicit_delay delete_at source m

-- What follows the durable decision: an error of the store never loses the chat.
unfoldable pub after_durable :
    Draws
    → String
    → ℕ
    → ScheduleRequest
    → ℕ
    → Outcome (Option CleanupObservation) × Manager
    → CleanupObservation × Manager
unfolding storage_failure store_observation schedule_in_memory lookup
after_durable d cid generation q delete_at (raised e, m) =
    storage_failure cid q.source 0 d.diagnostic_id m
after_durable d cid generation q delete_at (returned (some o), m) = observe_as cid generation o m
after_durable d cid generation q delete_at (returned none, m) =
    schedule_in_memory cid generation q.retain_chat (is_some q.delete_after_seconds) delete_at
      q.source (lookup cid m.completed) m

-- `schedule_cleanup_result` for a valid chat id.
unfoldable pub schedule_valid :
    (ℕ → ℕ) → Draws → ScheduleRequest → String → Manager → CleanupObservation × Manager
unfolding cancelled_for_generation durable_schedule after_durable
schedule_valid t d q cid m =
    let generation = or_default q.authentication_generation m.authentication_generation in
    let delete_at = delete_at_of (t 0) q d m in
    if not (eqb generation m.authentication_generation)
    then cancelled_for_generation cid generation d.diagnostic_id m
    else after_durable d cid generation q delete_at (
        durable_schedule t d.job_id cid q.retain_chat (is_some q.delete_after_seconds) delete_at
          q.source m)

-- The answers to an id that is missing or not one of a chat.
abbrev pub invalid_observation : String → CleanupObservation
invalid_observation source = record no_observation {
  state = CleanupState.invalid_id;
  source = source;
}

-- `schedule_cleanup_result`, by the id.
abbrev pub schedule_chat :
    (ℕ → ℕ) → Draws → ScheduleRequest → Manager → Option String → CleanupObservation × Manager
schedule_chat t d q m none = (record no_observation { source = q.source }, m)
schedule_chat t d q m (some cid) =
    if is_valid_remote_chat_id cid
    then schedule_valid t d q cid m
    else (invalid_observation q.source, m)

-- `schedule_cleanup_result`
unfoldable pub schedule_cleanup_result :
    (ℕ → ℕ) → Draws → ScheduleRequest → Manager → CleanupObservation × Manager
unfolding is_valid_remote_chat_id schedule_valid
schedule_cleanup_result t d q m = schedule_chat t d q m q.cid
