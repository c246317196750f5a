-- ===== src/Cleanup/Durable/Jobs.antt =====
-- Durable jobs of `RemoteChatCleanupManager`, and the request to retain their chats. `t` gives the
-- readings of the clock of a call, in their order; ids are drawn.
use gemini_web_mcp.Common.{
  ℕ, ◌+◌, max, String, Bool, ◌&&◌, Option, none, some, List, [], ◌∷◌, if◌then◌else◌, ltb, any, ◌==◌,
  erase, or_default,
}
use gemini_web_mcp.Domain.Conversations.{CleanupObservation, CleanupState}
use gemini_web_mcp.Domain.Results.{same_text}
use gemini_web_mcp.Store.Records.{CleanupJobRecord}
use gemini_web_mcp.Store.Cleanup.{JobChanges, no_job_changes, upsert, get_job, update_job}
use gemini_web_mcp.Cleanup.State.{Manager, Locked, answer, ◌>>=◌, on_store, adopt}

-- `_PERSISTENT_SOURCES`
abbrev pub persistent_sources : List String
persistent_sources =
    "generated_chat" ∷ "research" ∷ "gemini_ask" ∷ "gemini_chat" ∷ "gemini_chat_stream"
    ∷ "gemini_send_message" ∷ "gemini_send_message_stream" ∷ "gemini_upload_file"
    ∷ "gemini_analyze_url" ∷ "gemini_deep_research" ∷ "gemini_deep_research:fallback"
    ∷ "gemini_generate_media" ∷ "gemini_image" ∷ "gemini_generate_image" ∷ "gemini_edit_image"
    ∷ "gemini_generate_video" ∷ "gemini_generate_music" ∷ "skill_create" ∷ "skill_chat"
    ∷ "skill_chat:session" ∷ "skill_session:send" ∷ "creation:image" ∷ "creation:image_edit"
    ∷ "creation:video" ∷ "creation:music" ∷ "creation.recover:image" ∷ "creation.recover:image_edit"
    ∷ "creation.recover:video" ∷ "creation.recover:music" ∷ "gemini_generate_media:image"
    ∷ "gemini_generate_media:image_edit" ∷ "gemini_generate_media:video"
    ∷ "gemini_generate_media:music" ∷ "skill_create:image" ∷ "skill_create:image_edit"
    ∷ "skill_create:video" ∷ "skill_create:music" ∷ "session_reset" ∷ "session_reset_all"
    ∷ "session_remove" ∷ "session_pop" ∷ "session_clear" ∷ "session_expired" ∷ []

-- `_persistent_source`
unfoldable pub persistent_source : String → String
unfolding any
persistent_source source =
    if any (λ known. known == source) persistent_sources then source else "generated_chat"

-- `RETENTION_SECONDS`
abbrev pub retention_seconds : ℕ
retention_seconds = 604800

-- The job that `_enqueue_durable_locked` registers.
abbrev pub new_job : ℕ → String → String → String → ℕ → String → CleanupJobRecord
new_job now job_id scope cid delete_at source = record {
  job_id = job_id;
  scope_id = scope;
  resource_id = cid;
  state = "pending";
  due_at = delete_at;
  created_at = now;
  updated_at = now;
  expires_at = max now delete_at + retention_seconds;
  resource_type = "chat";
  attempts = 0;
  diagnostic_id = none;
  verification_status = "not_observed";
  source = persistent_source source;
  error_code = none;
  version = 0;
  lease_id = none;
  lease_until = none;
}

-- `_enqueue_durable_locked`; `job_id` is "cleanup_" and a drawn number.
unfoldable pub enqueue_durable :
    (ℕ → ℕ) → String → String → String → ℕ → String → Locked CleanupJobRecord
unfolding upsert
enqueue_durable t job_id scope cid delete_at source =
    on_store (upsert (t 1) (new_job (t 0) job_id scope cid delete_at source))

-- `updated or repository.get(…) or record`
abbrev pub latest :
    ℕ → String → String → CleanupJobRecord → Option CleanupJobRecord → Locked CleanupJobRecord
latest clock scope cid r (some updated) = answer updated
latest clock scope cid r none = do
  found ← on_store (get_job clock scope cid)
  answer (or_default found r)

-- A running job whose lease has not ended keeps running: only its retry is prevented.
abbrev pub retain_changes : ℕ → CleanupJobRecord → JobChanges
retain_changes now r =
    if r.state == "running" && ltb now (or_default r.lease_until 0)
    then record no_job_changes { error_code = some (some "RETAIN_AFTER_CLAIM") }
    else record no_job_changes {
      state = some "retained";
      verification_status = some "retained_by_request";
    }

-- `record.state == "running" and record.error_code == "RETAIN_AFTER_CLAIM"`
abbrev pub is_retained_after_claim : CleanupJobRecord → Bool
is_retained_after_claim r =
    r.state == "running" && same_text r.error_code (some "RETAIN_AFTER_CLAIM")

abbrev pub drop_pending : String → Manager → Manager
drop_pending cid m = record m { pending = erase cid m.pending }

-- The observation after a request to retain, for the record as it now is.
unfoldable pub adopt_retained : String → CleanupJobRecord → Locked CleanupObservation
unfolding adopt
adopt_retained cid r = do
  observation ← adopt r
  λ m.
      if is_retained_after_claim r
      then answer (record observation { state = CleanupState.retained }) (drop_pending cid m)
      else answer observation m

-- `_durable_schedule_locked`, where the chat is to be retained: `None` where there is no job.
unfoldable pub retain_durable :
    (ℕ → ℕ) → String → String → Option CleanupJobRecord → Locked (Option CleanupObservation)
unfolding update_job adopt_retained
retain_durable t scope cid none = answer none
retain_durable t scope cid (some r) =
    if r.state == "completed"
    then (do observation ← adopt_retained cid r; answer (some observation))
    else (do
      updated ←
          on_store (update_job (t 3) (t 4) scope cid (some r.version) none (retain_changes (t 2) r))
      current ← latest (t 5) scope cid r updated
      observation ← adopt_retained cid current
      answer (some observation))
