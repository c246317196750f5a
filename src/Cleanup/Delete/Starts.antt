-- ===== src/Cleanup/Delete/Starts.antt =====
-- `_delete_chat_result` of `RemoteChatCleanupManager` up to the point where it waits.
use gemini_web_mcp.Common.{
  ℕ, suc, ◌+◌, String, Bool, true, false, not, ◌&&◌, Option, none, some, if◌then◌else◌, leb, eqb,
  lookup, insert, or_default, Outcome, returned, raised, is_some,
}
use gemini_web_mcp.Domain.Conversations.{
  CleanupObservation, CleanupState, no_observation, is_valid_remote_chat_id,
}
use gemini_web_mcp.Store.Records.{CleanupJobRecord}
use gemini_web_mcp.Cleanup.State.{
  Manager, CleanupTask, store_observation, storage_failure, cancelled_for_generation,
}
use gemini_web_mcp.Cleanup.Durable.{claim_durable, Claim, unavailable_observation}
use gemini_web_mcp.Cleanup.Schedule.{Draws, already, invalid_observation}

-- `expected_due`: the due decision that an automatic deletion saw, with its task object.
pub record Expected : Type 0 where
  pub task : CleanupTask
  pub delete_at : ℕ
  pub attempts : ℕ

-- How a request to delete goes on: nothing is done, an answer at once, a wait for a worker that runs,
-- or a new worker, in memory or for a durable job.
pub data Start : Type 0 where
  nothing : Start
  answers : CleanupObservation → Start
  joins : ℕ → Start
  works : ℕ → String → Start
  works_durable : ℕ → CleanupJobRecord → Start

-- The due decision is still the current one.
abbrev pub is_still_due : ℕ → Expected → Option CleanupTask → Option ℕ → Bool
is_still_due now expected none worker = false
is_still_due now expected (some task) worker =
    eqb task.ref expected.task.ref
    && eqb task.delete_at expected.delete_at
    && leb task.delete_at now
    && eqb task.attempts expected.attempts
    && not (is_some worker)

-- `expected_due is not None` and the decision is not current
abbrev pub is_withdrawn : ℕ → String → Option Expected → Manager → Bool
is_withdrawn now cid none m = false
is_withdrawn now cid (some expected) m =
    not (is_still_due now expected (lookup cid m.pending) (lookup cid m.inflight))

-- `self._inflight_cleanup[cid] = task` for a new worker
abbrev pub with_worker : String → Manager → Manager
with_worker cid m = record m { inflight = insert cid m.next m.inflight; next = suc m.next }

-- `None if expected_due is not None else claim`
abbrev pub unless_automatic : Option Expected → CleanupObservation → Start
unless_automatic none o = Start.answers o
unless_automatic (some expected) o = Start.nothing

-- A worker starts as the claim allows; without the store's word nothing is deleted.
unfoldable pub start_worker :
    String → String → String → Option Expected → Outcome Claim × Manager → Start × Manager
unfolding storage_failure insert
start_worker cid source diagnostic_id expected (raised e, m) =
    let failed = storage_failure cid source 0 diagnostic_id m in (Start.answers failed.0, failed.1)
start_worker cid source diagnostic_id expected (returned Claim.unclaimed, m) =
    (Start.works m.next source, with_worker cid m)
start_worker cid source diagnostic_id expected (returned (Claim.claimed r), m) =
    (Start.works_durable m.next r, with_worker cid m)
start_worker cid source diagnostic_id expected (returned (Claim.observed o), m) =
    (unless_automatic expected o, m)

-- `pending.source if pending is not None else source`
abbrev pub source_of : Option CleanupTask → String → String
source_of none source = source
source_of (some task) source = task.source

-- `expected_due[0].durable_version`, if there is an expectation
abbrev pub expected_version : Option Expected → Option (Option ℕ)
expected_version none = none
expected_version (some expected) = some expected.task.durable_version

-- The claim and the start, or the wait for the worker that runs.
unfoldable pub join_or_start :
    (ℕ → ℕ)
    → Draws
    → String
    → Option Expected
    → String
    → Bool
    → Option ℕ
    → Manager
    → Start × Manager
unfolding claim_durable start_worker lookup
join_or_start t d cid expected source allow_durable (some worker) m = (Start.joins worker, m)
join_or_start t d cid expected source allow_durable none m =
    let delete_source = source_of (lookup cid m.pending) source in
    start_worker cid delete_source d.diagnostic_id expected (
      claim_durable (λ i. t (i + 1)) d.job_id d.lease_id cid (expected_version expected)
        allow_durable delete_source m)

-- A chat that was deleted is not deleted again.
unfoldable pub delete_open :
    (ℕ → ℕ)
    → Draws
    → String
    → ℕ
    → Option Expected
    → String
    → Bool
    → Option CleanupObservation
    → Manager
    → Start × Manager
unfolding store_observation join_or_start lookup
delete_open t d cid generation expected source allow_durable (some completed) m =
    (Start.answers (already completed), store_observation cid (already completed) generation m)
delete_open t d cid generation expected source allow_durable none m =
    join_or_start t d cid expected source allow_durable (lookup cid m.inflight) m

-- `self._state_store is not None and self._authentication_scope is None`
abbrev pub lacks_scope : Manager → Bool
lacks_scope m = is_some m.state_store && not (is_some m.authentication_scope)

-- `_delete_chat_result` for a valid chat id, up to its wait.
unfoldable pub delete_valid :
    (ℕ → ℕ)
    → Draws
    → String
    → Option ℕ
    → Option Expected
    → String
    → Bool
    → Manager
    → Start × Manager
unfolding cancelled_for_generation delete_open lookup
delete_valid t d cid authentication_generation expected source allow_durable m =
    let generation = or_default authentication_generation m.authentication_generation in
    if not (eqb generation m.authentication_generation)
    then (let cancelled = cancelled_for_generation cid generation d.diagnostic_id m in
        (Start.answers cancelled.0, cancelled.1))
    else if lacks_scope m
    then (Start.answers (unavailable_observation cid source), m)
    else if is_withdrawn (t 0) cid expected m
    then (Start.nothing, m)
    else delete_open t d cid generation expected source allow_durable (lookup cid m.completed) m

-- `_delete_chat_result` up to its wait, by the id.
abbrev pub delete_chat :
    (ℕ → ℕ)
    → Draws
    → Option ℕ
    → Option Expected
    → String
    → Bool
    → Manager
    → Option String
    → Start × Manager
delete_chat t d authentication_generation expected source allow_durable m none =
    (Start.answers (record no_observation { source = source }), m)
delete_chat t d authentication_generation expected source allow_durable m (some cid) =
    if is_valid_remote_chat_id cid
    then delete_valid t d cid authentication_generation expected source allow_durable m
    else (Start.answers (invalid_observation source), m)

-- `_delete_chat_result` up to its wait
unfoldable pub delete_chat_result :
    (ℕ → ℕ)
    → Draws
    → Option String
    → Option ℕ
    → Option Expected
    → String
    → Bool
    → Manager
    → Start × Manager
unfolding is_valid_remote_chat_id delete_valid
delete_chat_result t d cid authentication_generation expected source allow_durable m =
    delete_chat t d authentication_generation expected source allow_durable m cid

-- The observation of a caller that waited for a worker that another one started.
abbrev pub joined_observation : CleanupObservation → CleanupObservation
joined_observation o = elim o.state [
  | CleanupState.completed ↦ already o
  | _ ↦ record o { idempotent = true }
]
