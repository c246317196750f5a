-- ===== src/Cleanup/Outcomes/Withdrawn.antt =====
-- Workers of `RemoteChatCleanupManager` whose authentication changed while they waited.
use gemini_web_mcp.Common.{
  ℕ, false, not, ◌≡◌, ◌≢◌, refl, sym, subst, some, List, arith, if_elim, eqb, if◌then◌else◌,
}
use gemini_web_mcp.Domain.Conversations.{CleanupObservation, CleanupState}
use gemini_web_mcp.Cleanup.State.{Manager}
use gemini_web_mcp.Cleanup.Delete.{
  Progress, goes_on, check_generation, enter_delete, check_delete, complete_delete, record_failure,
}
use gemini_web_mcp.Cleanup.Worker.{
  Awaited, arrived, was_cancelled, failed, DeleteAnswer, is_verified, Ending, unless_cancelled,
  Work, fail_delete, cancel_delete, settle_delete, call_upstream, with_client, after_entry,
  execute_delete,
}
use gemini_web_mcp.Cleanup.Calls.{CleanupCall, run_cleanup_calls}
use gemini_web_mcp.Cleanup.Calls.Kept.{IsValid, IsSameWork, cancelled_for_generation_lem}
use gemini_web_mcp.Cleanup.Calls.Runs.{run_cleanup_calls-IsValid}
use gemini_web_mcp.Cleanup.Calls.Deletions.{enter_delete-Keeps}

-- The worker ends with a cancelled observation, and leaves the work of `n` alone.
abbrev pub IsWithdrawn : Manager → Ending × Manager → Type 0
IsWithdrawn n p =
    (o : CleanupObservation) × (p.0 ≡ Ending.observed o)
    × (o.state ≡ CleanupState.cancelled)
    × IsSameWork n p.1

-- The test on the generation takes the branch of an old one.
pub old_branch :
    {A : Type 0} (P : A → Type 0) (generation : ℕ) (n : Manager) (x y : A)
    → generation ≢ n.authentication_generation
    → P x
    → P (if not (eqb generation n.authentication_generation) then x else y)
old_branch P generation n x y d p =
    if_elim P (not (eqb generation n.authentication_generation)) x y (λ e. p)
      (λ e. absurd (d (same e)))
  where
    same :
        not (eqb generation n.authentication_generation) ≡ false
        → generation ≡ n.authentication_generation
    same e = ground arith

unless_cancelled_lem :
    (o : CleanupObservation)
    → o.state ≡ CleanupState.cancelled
    → unless_cancelled o ≡ Ending.observed o
unless_cancelled_lem o h = rw h refl

module _ (w : Work) (attempts : ℕ) (n : Manager) (v : IsValid n)
    (old : w.generation ≢ n.authentication_generation) where
  failure_lem :
      ((record_failure w.now w.cid attempts w.source (some w.generation) w.diagnostic_id n).0.state
        ≡ CleanupState.cancelled)
      × IsSameWork n
          (record_failure w.now w.cid attempts w.source (some w.generation) w.diagnostic_id n).1
  unfolding record_failure
  failure_lem =
      old_branch
        (λ (p : CleanupObservation × Manager).
          (p.0.state ≡ CleanupState.cancelled) × IsSameWork n p.1)
        w.generation n _ _ old (cancelled_for_generation_lem w.cid w.generation w.diagnostic_id n v)

  fail_delete-IsWithdrawn : IsWithdrawn n (fail_delete w attempts n)
  unfolding fail_delete
  fail_delete-IsWithdrawn = (_, refl, failure_lem.0, failure_lem.1)

  cancel_delete-IsWithdrawn : IsWithdrawn n (cancel_delete w attempts n)
  unfolding cancel_delete
  cancel_delete-IsWithdrawn =
      (_, unless_cancelled_lem _ failure_lem.0, failure_lem.0, failure_lem.1)

  complete_delete_lem :
      ((complete_delete w.cid w.generation attempts w.source w.diagnostic_id n).0.state
        ≡ CleanupState.cancelled)
      × IsSameWork n (complete_delete w.cid w.generation attempts w.source w.diagnostic_id n).1
  unfolding complete_delete
  complete_delete_lem =
      old_branch
        (λ (p : CleanupObservation × Manager).
          (p.0.state ≡ CleanupState.cancelled) × IsSameWork n p.1)
        w.generation n _ _ old (cancelled_for_generation_lem w.cid w.generation w.diagnostic_id n v)

  settle_delete-IsWithdrawn :
      (deletion : Awaited DeleteAnswer) → IsWithdrawn n (settle_delete w attempts deletion n)
  unfolding settle_delete
  settle_delete-IsWithdrawn was_cancelled = cancel_delete-IsWithdrawn
  settle_delete-IsWithdrawn (failed name) = fail_delete-IsWithdrawn
  settle_delete-IsWithdrawn (arrived a) =
      if_elim (λ (p : Ending × Manager). IsWithdrawn n p) (is_verified a) _ _
        (λ e. (_, refl, complete_delete_lem.0, complete_delete_lem.1))
        (λ e. fail_delete-IsWithdrawn)

  check_delete_lem :
      (others : ℕ → Manager → Manager) (deletion : Awaited DeleteAnswer)
      → IsWithdrawn n (
          call_upstream w others attempts deletion
            (check_delete w.cid w.generation w.diagnostic_id n))
  unfolding call_upstream check_delete check_generation
  check_delete_lem others deletion =
      let c = cancelled_for_generation_lem w.cid w.generation w.diagnostic_id n v in
      old_branch
        (λ (p : Progress (Unit {0}) × Manager).
          IsWithdrawn n (call_upstream w others attempts deletion p))
        w.generation n _ _ old (_, refl, c.0, c.1)

  with_client-IsWithdrawn :
      (others : ℕ → Manager → Manager) (client : Awaited (Unit {0}))
      (deletion : Awaited DeleteAnswer)
      → IsWithdrawn n (with_client w others attempts client deletion n)
  unfolding with_client
  with_client-IsWithdrawn others was_cancelled deletion = cancel_delete-IsWithdrawn
  with_client-IsWithdrawn others (failed name) deletion = fail_delete-IsWithdrawn
  with_client-IsWithdrawn others (arrived u) deletion = check_delete_lem others deletion

-- The test on the generation takes the branch of the current one.
pub current_branch :
    {A : Type 0} (P : A → Type 0) (generation : ℕ) (n : Manager) (x y : A)
    → generation ≡ n.authentication_generation
    → P y
    → P (if not (eqb generation n.authentication_generation) then x else y)
current_branch P generation n x y e p =
    if_elim P (not (eqb generation n.authentication_generation)) x y (λ d. absurd (ground arith))
      (λ d. p)

-- The manager after the worker's first wait, and after its second one, where `calls` runs meanwhile.
abbrev pub first_wait : Work → (ℕ → List CleanupCall) → Manager → Manager
first_wait w calls m =
    run_cleanup_calls (calls 0) (enter_delete w.cid w.generation w.source w.diagnostic_id m).1

abbrev pub second_wait : Work → (ℕ → List CleanupCall) → Manager → Manager
second_wait w calls m = run_cleanup_calls (calls 1) (first_wait w calls m)

module _ (w : Work) (calls : ℕ → List CleanupCall) (deletion : Awaited DeleteAnswer) (m : Manager)
    (v : IsValid m) (g : w.generation ≡ m.authentication_generation) where
  abbrev others : ℕ → Manager → Manager
  others i = run_cleanup_calls (calls i)

  entered-IsValid : IsValid (first_wait w calls m)
  entered-IsValid =
      run_cleanup_calls-IsValid (calls 0)
        (enter_delete w.cid w.generation w.source w.diagnostic_id m).1
        ((enter_delete-Keeps w.cid w.generation w.source w.diagnostic_id m).1 v)

  entered :
      (attempts : ℕ) × Path
        (Progress ℕ × Manager)
        (enter_delete w.cid w.generation w.source w.diagnostic_id m)
        (goes_on attempts, (enter_delete w.cid w.generation w.source w.diagnostic_id m).1)
  unfolding enter_delete check_generation
  entered =
      current_branch
        (λ (p : Progress ℕ × Manager).
          (attempts : ℕ) × Path (Progress ℕ × Manager) p (goes_on attempts, p.1))
        w.generation m _ _ g (_, refl)

  first-IsWithdrawn :
      (client : Awaited (Unit {0}))
      → w.generation ≢ (first_wait w calls m).authentication_generation
      → IsWithdrawn (first_wait w calls m) (execute_delete w others client deletion m)
  unfolding execute_delete after_entry
  first-IsWithdrawn client old =
      subst
        (λ (p : Progress ℕ × Manager).
          IsWithdrawn (first_wait w calls m) (after_entry w others client deletion p))
        (sym entered.1)
        (with_client-IsWithdrawn w entered.0 (first_wait w calls m) entered-IsValid old others
          client deletion)

  second-IsWithdrawn :
      w.generation ≡ (first_wait w calls m).authentication_generation
      → w.generation ≢ (second_wait w calls m).authentication_generation
      → IsWithdrawn (second_wait w calls m) (execute_delete w others (arrived tt) deletion m)
  unfolding execute_delete after_entry with_client call_upstream check_delete check_generation
  second-IsWithdrawn same old =
      subst
        (λ (p : Progress ℕ × Manager).
          IsWithdrawn (second_wait w calls m) (after_entry w others (arrived tt) deletion p))
        (sym entered.1)
        (current_branch
          (λ (p : Progress (Unit {0}) × Manager).
            IsWithdrawn (second_wait w calls m) (call_upstream w others entered.0 deletion p))
          w.generation (first_wait w calls m) _ _ same
          (settle_delete-IsWithdrawn w entered.0 (second_wait w calls m)
            (run_cleanup_calls-IsValid (calls 1) (first_wait w calls m) entered-IsValid) old
            deletion))

-- `IsChanged w calls client m n`: the authentication has changed in a wait of the worker, and `n` is
-- the manager at the end of that wait; it is the first one, or the second one of a worker with its
-- client there.
pub data IsChanged (w : Work) (calls : ℕ → List CleanupCall) (client : Awaited (Unit {0}))
    (m : Manager) (n : Manager) : Type 0 where
  in_first :
      n ≡ first_wait w calls m
      → w.generation ≢ n.authentication_generation
      → IsChanged w calls client m n
  in_second :
      client ≡ arrived tt
      → w.generation ≡ (first_wait w calls m).authentication_generation
      → n ≡ second_wait w calls m
      → w.generation ≢ n.authentication_generation
      → IsChanged w calls client m n

-- A worker of the current generation on a valid manager, whose authentication has changed at the end
-- of its first wait, or, with its client there, at the end of its second wait, ends with an
-- observation in the state CANCELLED and leaves the pending tasks, the completed chats, the running
-- deletions and the state store as the pieces of other operations that ran up to the end of that very
-- wait left them, whatever the upstream answered.
pub execute_delete-IsWithdrawn :
    (w : Work) (calls : ℕ → List CleanupCall) (client : Awaited (Unit {0}))
    (deletion : Awaited DeleteAnswer) (m n : Manager)
    → IsValid m
    → w.generation ≡ m.authentication_generation
    → IsChanged w calls client m n
    → IsWithdrawn n (execute_delete w (λ i. run_cleanup_calls (calls i)) client deletion m)
execute_delete-IsWithdrawn w calls client deletion m n v g (in_first at old) =
    let ended = execute_delete w (λ i. run_cleanup_calls (calls i)) client deletion m in
    subst (λ (k : Manager). IsWithdrawn k ended) (sym at)
      (first-IsWithdrawn w calls deletion m v g client
        (subst (λ (k : Manager). w.generation ≢ k.authentication_generation) at old))
execute_delete-IsWithdrawn w calls client deletion m n v g (in_second here same at old) =
    subst
      (λ (c : Awaited (Unit {0})).
        IsWithdrawn n (execute_delete w (λ i. run_cleanup_calls (calls i)) c deletion m))
      (sym here)
      (subst
        (λ (k : Manager).
          IsWithdrawn k
            (execute_delete w (λ i. run_cleanup_calls (calls i)) (arrived tt) deletion m))
        (sym at)
        (second-IsWithdrawn w calls deletion m v g same
          (subst (λ (k : Manager). w.generation ≢ k.authentication_generation) at old)))
