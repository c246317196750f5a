-- ===== src/Cleanup/Durable/Schedules.antt =====
-- `_durable_schedule_locked` of `RemoteChatCleanupManager`.
use gemini_web_mcp.Common.{
  ℕ, ◌+◌, max, String, Bool, true, ◌&&◌, ◌||◌, Option, none, some, if◌then◌else◌, ltb, ◌==◌,
}
use gemini_web_mcp.Domain.Conversations.{CleanupObservation, CleanupState, no_observation}
use gemini_web_mcp.Store.Records.{CleanupJobRecord}
use gemini_web_mcp.Store.Cleanup.{no_job_changes, get_job, update_job}
use gemini_web_mcp.Cleanup.State.{Locked, answer, ◌>>=◌, on_store, adopt, scoped}
use gemini_web_mcp.Cleanup.Durable.Jobs.{retention_seconds, enqueue_durable, latest, retain_durable}

-- `record.state in {"pending", "failed"} and explicit_delay and delete_at < record.due_at`
abbrev pub is_earlier : Bool → ℕ → CleanupJobRecord → Bool
is_earlier explicit_delay delete_at r =
    (r.state == "pending" || r.state == "failed") && explicit_delay && ltb delete_at r.due_at

-- The job of the chat: registered if there is none, and moved to an earlier time that is asked for.
unfoldable pub scheduled_job :
    (ℕ → ℕ)
    → String
    → String
    → String
    → Bool
    → ℕ
    → String
    → Option CleanupJobRecord
    → Locked CleanupJobRecord
unfolding enqueue_durable update_job
scheduled_job t job_id scope cid explicit_delay delete_at source none =
    enqueue_durable (λ i. t (i + 2)) job_id scope cid delete_at source
scheduled_job t job_id scope cid explicit_delay delete_at source (some r) =
    if is_earlier explicit_delay delete_at r
    then (do
      updated ← on_store (
          update_job (t 3) (t 4) scope cid (some r.version) none (record no_job_changes {
            due_at = some delete_at;
            expires_at = some (max (t 2) delete_at + retention_seconds);
          }))
      latest (t 5) scope cid r updated)
    else answer r

-- The end of `_durable_schedule_locked`.
unfoldable pub adopt_scheduled : CleanupJobRecord → Locked (Option CleanupObservation)
unfolding adopt
adopt_scheduled r = do
  observation ← adopt r
  if r.state == "completed"
      then answer
          (some (record observation { state = CleanupState.already_completed; idempotent = true }))
      else answer (some observation)

-- `CleanupObservation(state=CANCELLED, …, cancellation_reason="authentication_context_unavailable")`
abbrev pub unavailable_observation : String → String → CleanupObservation
unavailable_observation cid source = record no_observation {
  state = CleanupState.cancelled;
  upstream_chat_id = some cid;
  cancellation_reason = some "authentication_context_unavailable";
  source = source;
}

-- `_durable_schedule_locked` in a scope.
unfoldable pub schedule_in_scope :
    (ℕ → ℕ)
    → String
    → String
    → String
    → Bool
    → Bool
    → ℕ
    → String
    → Locked (Option CleanupObservation)
unfolding get_job retain_durable scheduled_job adopt_scheduled
schedule_in_scope t job_id scope cid retain_chat explicit_delay delete_at source = do
  found ← on_store (get_job (t 1) scope cid)
  if retain_chat then retain_durable t scope cid found else (do
    r ← scheduled_job t job_id scope cid explicit_delay delete_at source found
    adopt_scheduled r)

-- `_durable_schedule_locked`
unfoldable pub durable_schedule :
    (ℕ → ℕ) → String → String → Bool → Bool → ℕ → String → Locked (Option CleanupObservation)
unfolding schedule_in_scope
durable_schedule t job_id cid retain_chat explicit_delay delete_at source m =
    scoped none (some (unavailable_observation cid source))
      (λ scope. schedule_in_scope t job_id scope cid retain_chat explicit_delay delete_at source)
      m.state_store m.authentication_scope m
