-- ===== src/Cleanup/Outcomes/Verified.antt =====
-- Workers of `RemoteChatCleanupManager` that end as COMPLETED.
use gemini_web_mcp.Common.{
  ℕ, String, true, not, ◌≡◌, ◌≢◌, refl, ap, ◌∙◌, eq_iff, none, some, List, arith, if_elim, eqb,
  lookup, Dict, insert, lookup-insert_same, lookup-erase_same,
}
use gemini_web_mcp.Domain.Conversations.{CleanupObservation, CleanupState}
use gemini_web_mcp.Cleanup.State.{Manager, CleanupTask, cancelled_for_generation, store_observation}
use gemini_web_mcp.Cleanup.Durable.{drop_pending}
use gemini_web_mcp.Cleanup.Delete.{
  Progress, stops, goes_on, check_generation, enter_delete, check_delete, complete_delete,
  record_failure, completed_observation,
}
use gemini_web_mcp.Cleanup.Worker.{
  Awaited, arrived, was_cancelled, failed, DeleteAnswer, is_verified, Ending, unless_cancelled,
  Work, fail_delete, cancel_delete, settle_delete, call_upstream, with_client, after_entry,
  execute_delete,
}
use gemini_web_mcp.Cleanup.Calls.{CleanupCall, run_cleanup_calls}
use gemini_web_mcp.Cleanup.Calls.Kept.{
  IsValid, cancelled_for_generation_lem, store_observation-IsSameWork,
}
use gemini_web_mcp.Cleanup.Calls.Runs.{run_cleanup_calls-IsValid}
use gemini_web_mcp.Cleanup.Calls.Deletions.{enter_delete-Keeps}

-- The chat is kept as completed with the observation, and is not pending.
abbrev pub IsDone : String → CleanupObservation → Manager → Type 0
IsDone cid o m = (lookup cid m.completed ≡ some o) × (lookup cid m.pending ≡ none)

-- The upstream's answer to the deletion says that it succeeded and that the chat is gone.
abbrev pub IsAnswered : Awaited DeleteAnswer → Type 0
IsAnswered deletion =
    (a : DeleteAnswer) × (deletion ≡ arrived a)
    × (a.ok ≡ true)
    × (a.deleted ≡ true)
    × (a.verification_status ≡ "verified_absent")

is_verified_lem :
    (a : DeleteAnswer)
    → is_verified a ≡ true
    → (a.ok ≡ true) × (a.deleted ≡ true) × (a.verification_status ≡ "verified_absent")
is_verified_lem a h =
    (ground arith, ground arith, ground (arith, eq_iff a.verification_status "verified_absent"))

abbrev IsHonest : Work → Awaited DeleteAnswer → Ending × Manager → Type 0
IsHonest w deletion p =
    (o : CleanupObservation)
    → p.0 ≡ Ending.observed o
    → o.state ≡ CleanupState.completed
    → IsAnswered deletion × IsDone w.cid o p.1

abbrev IsStop : Progress ℕ → Type 0
IsStop (stops o) = o.state ≡ CleanupState.cancelled
IsStop (goes_on attempts) = Unit

unless_cancelled_completed :
    (x o : CleanupObservation)
    → unless_cancelled x ≡ Ending.observed o
    → o.state ≡ CleanupState.completed
    → ⊥
unless_cancelled_completed x o e c = by_state x.state refl e
  where
    by_state :
        (s : CleanupState)
        → x.state ≡ s
        → elim s as (λ k. Ending) [
          | CleanupState.cancelled ↦ Ending.observed x
          | _ ↦ Ending.cancels
        ]
          ≡ Ending.observed o
        → ⊥
    by_state CleanupState.not_applicable h f = ground arith
    by_state CleanupState.retained h f = ground arith
    by_state CleanupState.pending h f = ground arith
    by_state CleanupState.completed h f = ground arith
    by_state CleanupState.already_completed h f = ground arith
    by_state CleanupState.failed h f = ground arith
    by_state CleanupState.cancelled h f = ground arith
    by_state CleanupState.invalid_id h f = ground arith

module _ (w : Work) (attempts : ℕ) (deletion : Awaited DeleteAnswer) (n : Manager)
    (v : IsValid n) where
  cancelled-IsHonest :
      (c : CleanupObservation × Manager)
      → c.0.state ≡ CleanupState.cancelled
      → IsHonest w deletion (Ending.observed c.0, c.1)
  cancelled-IsHonest c h o e d = absurd (ground arith)

  failure_state :
      (record_failure w.now w.cid attempts w.source (some w.generation) w.diagnostic_id n).0.state
      ≢ CleanupState.completed
  unfolding record_failure
  failure_state =
      if_elim (λ (p : CleanupObservation × Manager). p.0.state ≢ CleanupState.completed)
        (not (eqb w.generation n.authentication_generation)) _ _
        (λ e c.
          absurd (
            ground
              (arith, (cancelled_for_generation_lem w.cid w.generation w.diagnostic_id n v).0)))
        (λ e c. absurd (ground arith))

  fail_delete-IsHonest : IsHonest w deletion (fail_delete w attempts n)
  unfolding fail_delete
  fail_delete-IsHonest o e d = absurd (failure_state (ground arith))

  cancel_delete-IsHonest : IsHonest w deletion (cancel_delete w attempts n)
  unfolding cancel_delete
  cancel_delete-IsHonest o e d = absurd (unless_cancelled_completed _ o e d)

  complete_delete_lem :
      IsAnswered deletion
      → IsHonest w deletion (
        Ending.observed (complete_delete w.cid w.generation attempts w.source w.diagnostic_id n).0,
        (complete_delete w.cid w.generation attempts w.source w.diagnostic_id n).1,
      )
  unfolding complete_delete
  complete_delete_lem a =
      if_elim (λ (p : CleanupObservation × Manager). IsHonest w deletion (Ending.observed p.0, p.1))
        (not (eqb w.generation n.authentication_generation)) _ _
        (λ e.
          cancelled-IsHonest (cancelled_for_generation w.cid w.generation w.diagnostic_id n)
            (cancelled_for_generation_lem w.cid w.generation w.diagnostic_id n v).0)
        (λ e o s d. (a, done o s))
    where
      completed : CleanupObservation
      completed = completed_observation w.cid attempts w.source

      dropped : Manager
      dropped = drop_pending w.cid n

      kept : Manager
      kept = record dropped { completed = insert w.cid completed dropped.completed }

      done :
          (o : CleanupObservation)
          → Ending.observed completed ≡ Ending.observed o
          → IsDone w.cid o (store_observation w.cid completed w.generation kept)
      done o s =
          let same = store_observation-IsSameWork w.cid completed w.generation kept in
          (
            ap (λ (d : Dict CleanupObservation). lookup w.cid d) same.1
                ∙ lookup-insert_same w.cid completed n.completed
                ∙ ap (λ (c : CleanupObservation). some c) (ground (arith)),
            ap (λ (d : Dict CleanupTask). lookup w.cid d) same.0
                ∙ lookup-erase_same w.cid n.pending,
          )

settle_delete-IsHonest :
    (w : Work) (attempts : ℕ) (deletion : Awaited DeleteAnswer) (n : Manager)
    → IsValid n
    → IsHonest w deletion (settle_delete w attempts deletion n)
unfolding settle_delete
settle_delete-IsHonest w attempts was_cancelled n v =
    cancel_delete-IsHonest w attempts was_cancelled n v
settle_delete-IsHonest w attempts (failed name) n v =
    fail_delete-IsHonest w attempts (failed name) n v
settle_delete-IsHonest w attempts (arrived a) n v =
    if_elim (λ (p : Ending × Manager). IsHonest w (arrived a) p) (is_verified a) _ _
      (λ e.
        complete_delete_lem w attempts (arrived a) n v
          (a, refl, (is_verified_lem a e).0, (is_verified_lem a e).1, (is_verified_lem a e).2))
      (λ e. fail_delete-IsHonest w attempts (arrived a) n v)

module _ (w : Work) (calls : ℕ → List CleanupCall) (deletion : Awaited DeleteAnswer) where
  abbrev others : ℕ → Manager → Manager
  others i = run_cleanup_calls (calls i)

  call_upstream-IsHonest :
      (attempts : ℕ) (n : Manager)
      → IsValid n
      → IsHonest w deletion (
          call_upstream w others attempts deletion
            (check_delete w.cid w.generation w.diagnostic_id n))
  unfolding call_upstream check_delete check_generation
  call_upstream-IsHonest attempts n v =
      if_elim
        (λ (p : Progress (Unit {0}) × Manager).
          IsHonest w deletion (call_upstream w others attempts deletion p))
        (not (eqb w.generation n.authentication_generation)) _ _
        (λ e.
          cancelled-IsHonest w attempts deletion n v
            (cancelled_for_generation w.cid w.generation w.diagnostic_id n)
            (cancelled_for_generation_lem w.cid w.generation w.diagnostic_id n v).0)
        (λ e.
          settle_delete-IsHonest w attempts deletion (others 1 n)
            (run_cleanup_calls-IsValid (calls 1) n v))

  with_client-IsHonest :
      (attempts : ℕ) (client : Awaited (Unit {0})) (n : Manager)
      → IsValid n
      → IsHonest w deletion (with_client w others attempts client deletion n)
  unfolding with_client
  with_client-IsHonest attempts was_cancelled n v = cancel_delete-IsHonest w attempts deletion n v
  with_client-IsHonest attempts (failed name) n v = fail_delete-IsHonest w attempts deletion n v
  with_client-IsHonest attempts (arrived u) n v = call_upstream-IsHonest attempts n v

  after_entry-IsHonest :
      (client : Awaited (Unit {0})) (p : Progress ℕ × Manager)
      → IsStop p.0
      → IsValid p.1
      → IsHonest w deletion (after_entry w others client deletion p)
  unfolding after_entry
  after_entry-IsHonest client (stops o, n) h v = cancelled-IsHonest w 0 deletion n v (o, n) h
  after_entry-IsHonest client (goes_on attempts, n) h v =
      with_client-IsHonest attempts client (others 0 n) (run_cleanup_calls-IsValid (calls 0) n v)

  entered-IsStop :
      (m : Manager)
      → IsValid m
      → IsStop (enter_delete w.cid w.generation w.source w.diagnostic_id m).0
  unfolding enter_delete check_generation
  entered-IsStop m v =
      if_elim (λ (p : Progress ℕ × Manager). IsStop p.0)
        (not (eqb w.generation m.authentication_generation)) _ _
        (λ e. (cancelled_for_generation_lem w.cid w.generation w.diagnostic_id m v).0) (λ e. tt)

-- A worker on a valid manager that ends with an observation in the state COMPLETED, whatever pieces
-- of other operations ran in its waits, was answered that the deletion succeeded with the chat
-- verified to be absent, and has left the chat kept as completed with that observation and without a
-- pending task.
pub execute_delete_verified :
    (w : Work) (calls : ℕ → List CleanupCall) (client : Awaited (Unit {0}))
    (deletion : Awaited DeleteAnswer) (m : Manager) (o : CleanupObservation)
    → IsValid m
    → (execute_delete w (λ i. run_cleanup_calls (calls i)) client deletion m).0 ≡ Ending.observed o
    → o.state ≡ CleanupState.completed
    → IsAnswered deletion
      × IsDone w.cid o (execute_delete w (λ i. run_cleanup_calls (calls i)) client deletion m).1
unfolding execute_delete
execute_delete_verified w calls client deletion m o v e d =
    after_entry-IsHonest w calls deletion client
      (enter_delete w.cid w.generation w.source w.diagnostic_id m)
      (entered-IsStop w calls deletion m v)
      ((enter_delete-Keeps w.cid w.generation w.source w.diagnostic_id m).1 v) o e d
