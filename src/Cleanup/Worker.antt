-- ===== src/Cleanup/Worker.antt =====
-- `_execute_delete` of `RemoteChatCleanupManager` from its start to its end. `others` is what the
-- other operations do to the manager while the worker waits, for the first and the second wait.
use gemini_web_mcp.Common.{ℕ, String, Bool, ◌&&◌, Option, some, if◌then◌else◌, ◌==◌}
use gemini_web_mcp.Domain.Conversations.{CleanupObservation, CleanupState}
use gemini_web_mcp.Cleanup.State.{Manager}
use gemini_web_mcp.Cleanup.Delete.{
  Progress, stops, goes_on, enter_delete, check_delete, complete_delete, record_failure,
}

-- How a wait ends: with a value, by a cancellation of the worker, or with an exception of a class.
pub data Awaited (A : Type 0) : Type 0 where
  arrived : A → Awaited A
  was_cancelled : Awaited A
  failed : String → Awaited A

-- What the worker reads of the answer of `services.history.delete_chat_result`: `deleted` says
-- whether its data has a `deleted` that is `True`.
pub record DeleteAnswer : Type 0 where
  pub ok : Bool
  pub deleted : Bool
  pub verification_status : String
  pub error_code : Option String

-- The upstream has shown that the chat is gone.
abbrev pub is_verified : DeleteAnswer → Bool
is_verified answer = answer.ok && answer.deleted && answer.verification_status == "verified_absent"

-- What a worker ends with: an observation, or the cancellation goes on.
pub data Ending : Type 0 where
  observed : CleanupObservation → Ending
  cancels : Ending

-- `if observation.state is CleanupState.CANCELLED: return observation` and `raise`
abbrev pub unless_cancelled : CleanupObservation → Ending
unless_cancelled o = elim o.state [
  | CleanupState.cancelled ↦ Ending.observed o
  | _ ↦ Ending.cancels
]

-- A worker of a chat: its arguments, the reading of the clock and the id that a failure draws.
pub record Work : Type 0 where
  pub cid : String
  pub generation : ℕ
  pub source : String
  pub diagnostic_id : String
  pub now : ℕ

abbrev pub fail : Work → ℕ → Manager → CleanupObservation × Manager
fail w attempts m =
    record_failure w.now w.cid attempts w.source (some w.generation) w.diagnostic_id m

-- The handler of an exception, or of an answer that does not verify the deletion.
unfoldable pub fail_delete : Work → ℕ → Manager → Ending × Manager
unfolding record_failure
fail_delete w attempts m = let f = fail w attempts m in (Ending.observed f.0, f.1)

-- The handler of a cancellation.
unfoldable pub cancel_delete : Work → ℕ → Manager → Ending × Manager
unfolding record_failure
cancel_delete w attempts m = let f = fail w attempts m in (unless_cancelled f.0, f.1)

-- What follows the answer to the deletion.
unfoldable pub settle_delete : Work → ℕ → Awaited DeleteAnswer → Manager → Ending × Manager
unfolding fail_delete cancel_delete complete_delete
settle_delete w attempts was_cancelled m = cancel_delete w attempts m
settle_delete w attempts (failed name) m = fail_delete w attempts m
settle_delete w attempts (arrived answer) m =
    if is_verified answer
    then (let c = complete_delete w.cid w.generation attempts w.source w.diagnostic_id m in
        (Ending.observed c.0, c.1))
    else fail_delete w attempts m

-- The upstream is called, and answers.
unfoldable pub call_upstream :
    Work
    → (ℕ → Manager → Manager)
    → ℕ
    → Awaited DeleteAnswer
    → Progress (Unit {0}) × Manager
    → Ending × Manager
unfolding settle_delete
call_upstream w others attempts deletion (stops o, m) = (Ending.observed o, m)
call_upstream w others attempts deletion (goes_on u, m) =
    settle_delete w attempts deletion (others 1 m)

-- What follows the wait for the client.
unfoldable pub with_client :
    Work
    → (ℕ → Manager → Manager)
    → ℕ
    → Awaited (Unit {0})
    → Awaited DeleteAnswer
    → Manager
    → Ending × Manager
unfolding fail_delete cancel_delete check_delete call_upstream
with_client w others attempts was_cancelled deletion m = cancel_delete w attempts m
with_client w others attempts (failed name) deletion m = fail_delete w attempts m
with_client w others attempts (arrived u) deletion m =
    call_upstream w others attempts deletion (check_delete w.cid w.generation w.diagnostic_id m)

-- What follows the entry.
unfoldable pub after_entry :
    Work
    → (ℕ → Manager → Manager)
    → Awaited (Unit {0})
    → Awaited DeleteAnswer
    → Progress ℕ × Manager
    → Ending × Manager
unfolding with_client
after_entry w others client deletion (stops o, m) = (Ending.observed o, m)
after_entry w others client deletion (goes_on attempts, m) =
    with_client w others attempts client deletion (others 0 m)

-- `_execute_delete`
unfoldable pub execute_delete :
    Work
    → (ℕ → Manager → Manager)
    → Awaited (Unit {0})
    → Awaited DeleteAnswer
    → Manager
    → Ending × Manager
unfolding enter_delete after_entry
execute_delete w others client deletion m =
    after_entry w others client deletion
      (enter_delete w.cid w.generation w.source w.diagnostic_id m)
