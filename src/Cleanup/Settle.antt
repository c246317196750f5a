-- ===== src/Cleanup/Settle.antt =====
-- `_execute_durable_delete` of `RemoteChatCleanupManager`: a worker whose authority is the lease of a
-- job in the state store. Its heartbeat only ever cancels it, so it is part of how its waits end.
use gemini_web_mcp.Common.{
  ℕ, ◌+◌, ◌^◌, min, String, Bool, true, false, not, ◌&&◌, ◌||◌, Option, none, some, ◌∷◌,
  if◌then◌else◌, ltb, eqb, ◌==◌, PyError, value_error, state_store_error, runtime_error, type_error,
  sqlite_error, Outcome, returned, raised,
}
use gemini_web_mcp.Domain.Conversations.{CleanupObservation, CleanupState, no_observation}
use gemini_web_mcp.Domain.Results.{same_text}
use gemini_web_mcp.Store.Records.{CleanupJobRecord}
use gemini_web_mcp.Store.Cleanup.{JobChanges, no_job_changes, get_job, update_job}
use gemini_web_mcp.Cleanup.State.{
  Manager, Locked, answer, ◌>>=◌, on_store, adopt, storage_failure, cancelled_for_generation,
}
use gemini_web_mcp.Cleanup.Durable.{retention_seconds}
use gemini_web_mcp.Cleanup.Worker.{
  Awaited, arrived, was_cancelled, failed, DeleteAnswer, is_verified,
}

-- What is known of the deletion: `verified`, `error_code` and `verification_status`.
pub record Verdict : Type 0 where
  pub verified : Bool
  pub error_code : Option String
  pub verification_status : String

-- The work before the terminal write: it ends with an observation, or reaches a verdict.
pub data Attempt : Type 0 where
  ends : CleanupObservation → Attempt
  reaches : Verdict → Attempt

-- `type(error).__name__`
abbrev pub error_name : PyError → String
error_name (value_error message) = "ValueError"
error_name (state_store_error message) = "StateStoreError"
error_name (runtime_error message) = "RuntimeError"
error_name (type_error message) = "TypeError"
error_name (sqlite_error message) = "Error"

abbrev pub unverified : String → Verdict
unverified code = record {
  verified = false;
  error_code = some code;
  verification_status = "not_observed";
}

-- `CleanupObservation(state=CANCELLED, …, cancellation_reason="cleanup_authority_lost")`
abbrev pub lost_observation : String → String → CleanupObservation
lost_observation cid source = record no_observation {
  state = CleanupState.cancelled;
  upstream_chat_id = some cid;
  cancellation_reason = some "cleanup_authority_lost";
  source = source;
}

-- `current.state != "running" or current.lease_id != record.lease_id`
abbrev pub lost_authority : CleanupJobRecord → CleanupJobRecord → Bool
lost_authority r current =
    not (current.state == "running") || not (same_text current.lease_id r.lease_id)

-- A durable worker: the job that it claimed, its generation and the ids that it draws.
pub record Job : Type 0 where
  pub claimed : CleanupJobRecord
  pub generation : ℕ
  pub diagnostic_id : String

-- `except Exception`, around what the store and the adoption of a record answer.
abbrev pub attempt_of : Outcome CleanupObservation × Manager → Attempt × Manager
attempt_of (returned o, m) = (ends o, m)
attempt_of (raised e, m) = (reaches (unverified (error_name e)), m)

-- What follows the reading of the job.
unfoldable pub hold_authority :
    Job
    → (Manager → Attempt × Manager)
    → Outcome (Option CleanupJobRecord) × Manager
    → Attempt × Manager
unfolding adopt
hold_authority j next (raised e, m) = (reaches (unverified (error_name e)), m)
hold_authority j next (returned none, m) = (ends (lost_observation j.claimed.resource_id ""), m)
hold_authority j next (returned (some current), m) =
    if lost_authority j.claimed current then attempt_of (adopt current m) else next m

-- Before each call of the upstream: the generation, and the lease in the store.
unfoldable pub with_authority :
    ℕ → Job → (Manager → Attempt × Manager) → Manager → Attempt × Manager
unfolding cancelled_for_generation hold_authority get_job
with_authority clock j next m =
    if not (eqb j.generation m.authentication_generation)
    then (let c = cancelled_for_generation j.claimed.resource_id j.generation j.diagnostic_id m in
        (ends c.0, c.1))
    else hold_authority j next (on_store (get_job clock j.claimed.scope_id j.claimed.resource_id) m)

-- `if authentication_generation == self._authentication_generation: self._suspended_cleanup.add(cid)`
abbrev pub suspend : Job → Manager → Manager
suspend j m =
    if eqb j.generation m.authentication_generation
    then record m { suspended = j.claimed.resource_id ∷ m.suspended }
    else m

-- What follows a wait: a cancellation suspends the chat; it and an exception leave a code.
unfoldable pub after_wait :
    {A : Type 0} → Job → Awaited A → (A → Manager → Attempt × Manager) → Manager → Attempt × Manager
after_wait j (arrived a) next m = next a m
after_wait j was_cancelled next m = (reaches (unverified "CANCELLED"), suspend j m)
after_wait j (failed name) next m = (reaches (unverified name), m)

-- `result.error.code.value if result.error is not None else "VERIFICATION_FAILED"`
abbrev pub code_of : Option String → String
code_of none = "VERIFICATION_FAILED"
code_of (some code) = code

-- The verdict that the answer to the deletion gives.
abbrev pub verdict_of : DeleteAnswer → Verdict
verdict_of a = record {
  verified = is_verified a;
  error_code = if is_verified a then none else some (code_of a.error_code);
  verification_status = a.verification_status;
}

-- The waits of a durable worker: for the client, for the chat's absence, and for the deletion.
pub record Waits : Type 0 where
  pub client : Awaited (Unit {0})
  pub absent : Awaited Bool
  pub deletion : Awaited DeleteAnswer

abbrev pub absence_verdict : Verdict
absence_verdict = record {
  verified = true;
  error_code = none;
  verification_status = "not_observed";
}

-- The deletion, with the authority checked right before it.
unfoldable pub delete_upstream :
    ℕ → Job → Waits → (ℕ → Manager → Manager) → Manager → Attempt × Manager
unfolding with_authority after_wait
delete_upstream clock j waits others m =
    with_authority clock j
      (λ n. after_wait j waits.deletion (λ a k. (reaches (verdict_of a), k)) (others 2 n)) m

-- A job that was tried before may have lost its process after the deletion: it looks first.
unfoldable pub delete_or_observe :
    ℕ → Job → Waits → (ℕ → Manager → Manager) → Manager → Attempt × Manager
unfolding delete_upstream after_wait
delete_or_observe clock j waits others m =
    if ltb 1 j.claimed.attempts
    then after_wait j waits.absent
        (λ absent n.
          if absent then (reaches absence_verdict, n) else delete_upstream clock j waits others n)
        (others 1 m)
    else delete_upstream clock j waits others m

-- `_execute_durable_delete` up to its terminal write.
unfoldable pub attempt_delete :
    (ℕ → ℕ) → Job → Waits → (ℕ → Manager → Manager) → Manager → Attempt × Manager
unfolding after_wait with_authority delete_or_observe
attempt_delete t j waits others m =
    after_wait j waits.client
      (λ u n. with_authority (t 0) j (delete_or_observe (t 1) j waits others) n) (others 0 m)

-- `min(3600, 2 ** min(record.attempts, 10))`
abbrev pub backoff : ℕ → ℕ
backoff attempts = min 3600 (2 ^ min attempts 10)

-- `current is not None and current.error_code == "RETAIN_AFTER_CLAIM" and not verified`
abbrev pub is_to_retain : Option CleanupJobRecord → Bool → Bool
is_to_retain none verified = false
is_to_retain (some current) verified =
    same_text current.error_code (some "RETAIN_AFTER_CLAIM") && not verified

-- `state`
abbrev pub settled_state : Bool → Bool → String
settled_state retains verified =
    if retains then "retained" else if verified then "completed" else "failed"

-- The status that is written.
abbrev pub settled_status : Bool → Verdict → String
settled_status retains v =
    if v.verified
    then "verified_absent"
    else if retains
    then "retained_after_claim"
    else v.verification_status

-- The changes of the terminal write.
abbrev pub settled_changes : ℕ → Job → Bool → Verdict → JobChanges
settled_changes now j retains v = record no_job_changes {
  state = some (settled_state retains v.verified);
  verification_status = some (settled_status retains v);
  diagnostic_id = some (if v.verified then none else some j.diagnostic_id);
  error_code = some v.error_code;
  due_at = some (now + backoff j.claimed.attempts);
  expires_at = some (now + retention_seconds);
}

-- `updated or repository.get(…)`
abbrev pub updated_or_found :
    ℕ → String → String → Option CleanupJobRecord → Locked (Option CleanupJobRecord)
updated_or_found clock scope cid (some updated) = answer (some updated)
updated_or_found clock scope cid none = on_store (get_job clock scope cid)

-- What is observed of the job, if there still is one.
unfoldable pub adopt_or_lost : Job → Option CleanupJobRecord → Locked CleanupObservation
unfolding adopt
adopt_or_lost j none = answer (lost_observation j.claimed.resource_id j.claimed.source)
adopt_or_lost j (some r) = adopt r

-- The terminal write and what is observed of it.
unfoldable pub write_verdict : (ℕ → ℕ) → Job → Verdict → Locked CleanupObservation
unfolding get_job update_job adopt_or_lost
write_verdict t j v = do
  before ← on_store (get_job (t 0) j.claimed.scope_id j.claimed.resource_id)
  updated ← on_store (
      update_job (t 2) (t 3) j.claimed.scope_id j.claimed.resource_id none j.claimed.lease_id
        (settled_changes (t 1) j (is_to_retain before v.verified) v))
  current ← updated_or_found (t 4) j.claimed.scope_id j.claimed.resource_id updated
  adopt_or_lost j current

-- `except Exception` of the terminal write.
abbrev pub settled_or_failed :
    Job → Outcome CleanupObservation × Manager → CleanupObservation × Manager
settled_or_failed j (returned o, m) = (o, m)
settled_or_failed j (raised e, m) =
    if not (eqb j.generation m.authentication_generation)
    then cancelled_for_generation j.claimed.resource_id j.generation j.diagnostic_id m
    else storage_failure j.claimed.resource_id j.claimed.source j.claimed.attempts j.diagnostic_id m

-- The end of `_execute_durable_delete`.
unfoldable pub settle_durable : (ℕ → ℕ) → Job → Verdict → Manager → CleanupObservation × Manager
unfolding cancelled_for_generation write_verdict
settle_durable t j v m =
    if not (eqb j.generation m.authentication_generation)
    then cancelled_for_generation j.claimed.resource_id j.generation j.diagnostic_id m
    else settled_or_failed j (write_verdict t j v m)

abbrev pub settle_attempt :
    (ℕ → ℕ) → Job → (ℕ → Manager → Manager) → Attempt × Manager → CleanupObservation × Manager
settle_attempt t j others (ends o, m) = (o, others 3 m)
settle_attempt t j others (reaches v, m) = settle_durable t j v (others 3 m)

-- `_execute_durable_delete`; the wait for the heartbeat to end comes before the terminal write.
unfoldable pub execute_durable_delete :
    (ℕ → ℕ) → Job → Waits → (ℕ → Manager → Manager) → Manager → CleanupObservation × Manager
unfolding attempt_delete settle_durable
execute_durable_delete t j waits others m =
    settle_attempt (λ i. t (i + 2)) j others (attempt_delete t j waits others m)
