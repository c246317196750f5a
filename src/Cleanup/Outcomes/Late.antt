-- ===== src/Cleanup/Outcomes/Late.antt =====
-- The pieces of `RemoteChatCleanupManager` that belong to an earlier authentication context, and the
-- observations that later ones have made.
use gemini_web_mcp.Common.{
  ℕ, Bool, ◌<◌, ◌≤◌, String, true, not, ◌≡◌, ◌≢◌, refl, ◌∙◌, Option, none, some, List, [], ◌∷◌,
  arith, All, if_elim, Bool-cases, inl, inr, lookup, lookup-insert, eq_iff, ◌==◌,
}
use gemini_web_mcp.Domain.Conversations.{CleanupObservation, is_valid_remote_chat_id}
use gemini_web_mcp.Cleanup.State.{
  Manager, is_recent, store_observation, find_cancelled, keep_cancelled, cancelled_for_generation,
}
use gemini_web_mcp.Cleanup.Schedule.{Draws}
use gemini_web_mcp.Cleanup.Delete.{
  Progress, Start, check_generation, enter_delete, check_delete, complete_delete, record_failure,
  finish_delete, delete_valid, delete_chat_result, is_worker, record_cleanup_wait_timeout, Expected,
}
use gemini_web_mcp.Cleanup.Worker.{
  Awaited, arrived, was_cancelled, failed, DeleteAnswer, is_verified, Ending, Work, fail_delete,
  cancel_delete, settle_delete,
}
use gemini_web_mcp.Cleanup.Context.{record_authentication_context_change}
use gemini_web_mcp.Cleanup.Calls.{CleanupCall, run_cleanup_call, run_cleanup_calls}
use gemini_web_mcp.Cleanup.Outcomes.Withdrawn.{old_branch}

-- An observation of the generation `bound` or a later one stays.
abbrev Spares : ℕ → Manager → Manager → Type 0
Spares bound m n =
    (n.authentication_generation ≡ m.authentication_generation)
    × ((cid : String) (g : ℕ)
        → lookup cid m.observation_generations ≡ some g
        → bound ≤ g
        → (lookup cid n.observations ≡ lookup cid m.observations)
          × (lookup cid n.observation_generations ≡ some g))

Spares-refl : (bound : ℕ) (m : Manager) → Spares bound m m
Spares-refl bound m = (refl, λ cid g h b. (refl, h))

Spares-trans :
    (bound : ℕ) (m n k : Manager) → Spares bound m n → Spares bound n k → Spares bound m k
Spares-trans bound m n k a b =
    (b.0 ∙ a.0, λ cid g h l. let x = a.1 cid g h l in let y = b.1 cid g x.1 l in (y.0 ∙ x.0, y.1))

not_recent :
    (generation bound g : ℕ) (o : Option ℕ)
    → generation < bound
    → bound ≤ g
    → o ≡ some g
    → is_recent generation o ≡ true
    → ⊥
not_recent generation bound g none l b e r = ground arith
not_recent generation bound g (some k) l b e r = ground arith

store_observation-Spares :
    (bound : ℕ) (cid : String) (o : CleanupObservation) (generation : ℕ) (m : Manager)
    → generation < bound
    → Spares bound m (store_observation cid o generation m)
unfolding store_observation
store_observation-Spares bound cid o generation m l =
    if_elim (λ (n : Manager). Spares bound m n)
      (is_recent generation (lookup cid m.observation_generations)) _ _
      (λ r. (
        refl,
        λ key g h b. elim (Bool-cases (cid == key)) [
          | inl e ↦ absurd (
              not_recent generation bound g (lookup cid m.observation_generations) l b
                (rw ((eq_iff cid key).0 e) h) r)
          | inr e ↦ (
            rw (lookup-insert cid key o m.observations, e) refl,
            rw (lookup-insert cid key generation m.observation_generations, e) h,
          )
        ],
      ))
      (λ r. Spares-refl bound m)

keep_cancelled-Spares :
    (bound : ℕ) (cid : String) (generation : ℕ) (diagnostic_id : String)
    (found : Option CleanupObservation) (m : Manager)
    → generation < bound
    → Spares bound m (keep_cancelled cid generation diagnostic_id found m).1
unfolding keep_cancelled
keep_cancelled-Spares bound cid generation diagnostic_id (some o) m l =
    store_observation-Spares bound cid o generation m l
keep_cancelled-Spares bound cid generation diagnostic_id none m l =
    let it = store_observation-Spares bound cid _ generation (record m { cancelled = _ }) l in
    (it.0, it.1)

module _ (bound generation : ℕ) (m : Manager) (l : generation < bound)
    (b : bound ≤ m.authentication_generation) where
  cancelled-Spares :
      (cid diagnostic_id : String)
      → Spares bound m (cancelled_for_generation cid generation diagnostic_id m).1
  unfolding cancelled_for_generation
  cancelled-Spares cid diagnostic_id =
      keep_cancelled-Spares bound cid generation diagnostic_id
        (find_cancelled generation cid m.cancelled) m l

  is_old : generation ≢ m.authentication_generation
  is_old e = omega (arith, l, b, e)

  enter-Spares :
      (cid source diagnostic_id : String)
      → Spares bound m (enter_delete cid generation source diagnostic_id m).1
  unfolding enter_delete check_generation
  enter-Spares cid source diagnostic_id =
      old_branch (λ (p : Progress ℕ × Manager). Spares bound m p.1) generation m _ _ is_old
        (cancelled-Spares cid diagnostic_id)

  check-Spares :
      (cid diagnostic_id : String) → Spares bound m (check_delete cid generation diagnostic_id m).1
  unfolding check_delete check_generation
  check-Spares cid diagnostic_id =
      old_branch (λ (p : Progress (Unit {0}) × Manager). Spares bound m p.1) generation m _ _ is_old
        (cancelled-Spares cid diagnostic_id)

  failure-Spares :
      (now : ℕ) (cid : String) (attempts : ℕ) (source diagnostic_id : String)
      → Spares bound m (record_failure now cid attempts source (some generation) diagnostic_id m).1
  unfolding record_failure
  failure-Spares now cid attempts source diagnostic_id =
      old_branch (λ (p : CleanupObservation × Manager). Spares bound m p.1) generation m _ _ is_old
        (cancelled-Spares cid diagnostic_id)

  complete-Spares :
      (cid : String) (attempts : ℕ) (source diagnostic_id : String)
      → Spares bound m (complete_delete cid generation attempts source diagnostic_id m).1
  unfolding complete_delete
  complete-Spares cid attempts source diagnostic_id =
      old_branch (λ (p : CleanupObservation × Manager). Spares bound m p.1) generation m _ _ is_old
        (cancelled-Spares cid diagnostic_id)

  change-Spares :
      (cid : Option String) (diagnostic_id : String)
      → Spares bound m (record_authentication_context_change cid generation diagnostic_id m).1
  unfolding record_authentication_context_change
  change-Spares none diagnostic_id = Spares-refl bound m
  change-Spares (some cid) diagnostic_id =
      if_elim (λ (p : CleanupObservation × Manager). Spares bound m p.1)
        (is_valid_remote_chat_id cid) _ _ (λ e. cancelled-Spares cid diagnostic_id)
        (λ e. Spares-refl bound m)

  delete-Spares :
      (t : ℕ → ℕ) (d : Draws) (cid : Option String) (expected : Option Expected) (source : String)
      (allow_durable : Bool)
      → Spares bound m
          (delete_chat_result t d cid (some generation) expected source allow_durable m).1
  unfolding delete_chat_result delete_valid
  delete-Spares t d none expected source allow_durable = Spares-refl bound m
  delete-Spares t d (some cid) expected source allow_durable =
      if_elim (λ (p : Start × Manager). Spares bound m p.1) (is_valid_remote_chat_id cid) _ _
        (λ e.
          old_branch (λ (p : Start × Manager). Spares bound m p.1) generation m _ _ is_old
            (cancelled-Spares cid d.diagnostic_id))
        (λ e. Spares-refl bound m)

  timeout-Spares :
      (now : ℕ) (cid source drawn : String)
      → Spares bound m (record_cleanup_wait_timeout now cid source (some generation) drawn m).1
  unfolding record_cleanup_wait_timeout
  timeout-Spares now cid source drawn =
      if_elim (λ (p : CleanupObservation × Manager). Spares bound m p.1)
        (not (is_valid_remote_chat_id cid)) _ _ (λ e. Spares-refl bound m)
        (λ e.
          old_branch (λ (p : CleanupObservation × Manager). Spares bound m p.1) generation m _ _
            is_old (cancelled-Spares cid drawn))

finish-Spares :
    (bound : ℕ) (cid : String) (worker : ℕ) (m : Manager)
    → Spares bound m (finish_delete cid worker m)
unfolding finish_delete
finish-Spares bound cid worker m =
    if_elim (λ (n : Manager). Spares bound m n) (is_worker worker (lookup cid m.inflight)) _ _
      (λ e. (refl, λ key g h b. (refl, h))) (λ e. Spares-refl bound m)

module _ (bound : ℕ) (w : Work) (attempts : ℕ) (m : Manager) (l : w.generation < bound)
    (b : bound ≤ m.authentication_generation) where
  fail-Spares : Spares bound m (fail_delete w attempts m).1
  unfolding fail_delete
  fail-Spares =
      failure-Spares bound w.generation m l b w.now w.cid attempts w.source w.diagnostic_id

  cancel-Spares : Spares bound m (cancel_delete w attempts m).1
  unfolding cancel_delete
  cancel-Spares =
      failure-Spares bound w.generation m l b w.now w.cid attempts w.source w.diagnostic_id

  settle-Spares :
      (deletion : Awaited DeleteAnswer) → Spares bound m (settle_delete w attempts deletion m).1
  unfolding settle_delete
  settle-Spares was_cancelled = cancel-Spares
  settle-Spares (failed name) = fail-Spares
  settle-Spares (arrived a) =
      if_elim (λ (p : Ending × Manager). Spares bound m p.1) (is_verified a) _ _
        (λ e. complete-Spares bound w.generation m l b w.cid attempts w.source w.diagnostic_id)
        (λ e. fail-Spares)

-- A piece of a deletion that was asked for before the generation `bound`, or one that works on no
-- observation.
abbrev pub IsLate : ℕ → CleanupCall → Type 0
IsLate bound (CleanupCall.deletes t d cid (some generation) expected source allow_durable) =
    generation < bound
IsLate bound (CleanupCall.enters w) = w.generation < bound
IsLate bound (CleanupCall.checks w) = w.generation < bound
IsLate bound (CleanupCall.fails w attempts) = w.generation < bound
IsLate bound (CleanupCall.settles w attempts deletion) = w.generation < bound
IsLate bound (CleanupCall.times_out now cid source (some generation) drawn) = generation < bound
IsLate bound (CleanupCall.records_change cid generation diagnostic_id) = generation < bound
IsLate bound (CleanupCall.leaves cid worker) = Unit
IsLate bound (CleanupCall.stores s) = Unit
IsLate bound _ = ⊥

late_call-Spares :
    (bound : ℕ) (call : CleanupCall) (m : Manager)
    → bound ≤ m.authentication_generation
    → IsLate bound call
    → Spares bound m (run_cleanup_call call m)
unfolding run_cleanup_call
late_call-Spares bound (CleanupCall.deletes t d cid (some generation) expected source allow_durable)
      m b l =
    delete-Spares bound generation m l b t d cid expected source allow_durable
late_call-Spares bound (CleanupCall.enters w) m b l =
    enter-Spares bound w.generation m l b w.cid w.source w.diagnostic_id
late_call-Spares bound (CleanupCall.checks w) m b l =
    check-Spares bound w.generation m l b w.cid w.diagnostic_id
late_call-Spares bound (CleanupCall.fails w attempts) m b l = fail-Spares bound w attempts m l b
late_call-Spares bound (CleanupCall.settles w attempts deletion) m b l =
    settle-Spares bound w attempts m l b deletion
late_call-Spares bound (CleanupCall.times_out now cid source (some generation) drawn) m b l =
    timeout-Spares bound generation m l b now cid source drawn
late_call-Spares bound (CleanupCall.records_change cid generation diagnostic_id) m b l =
    change-Spares bound generation m l b cid diagnostic_id
late_call-Spares bound (CleanupCall.leaves cid worker) m b l = finish-Spares bound cid worker m
late_call-Spares bound (CleanupCall.stores s) m b l = (refl, λ cid g h k. (refl, h))
late_call-Spares bound (CleanupCall.deletes t d cid none expected source allow_durable) m b l =
    absurd l
late_call-Spares bound (CleanupCall.times_out now cid source none drawn) m b l = absurd l
late_call-Spares bound (CleanupCall.schedules t d q) m b l = absurd l
late_call-Spares bound (CleanupCall.authorizes clock j) m b l = absurd l
late_call-Spares bound (CleanupCall.suspends j) m b l = absurd l
late_call-Spares bound (CleanupCall.settles_durable t j v) m b l = absurd l
late_call-Spares bound (CleanupCall.records_failure now cid source diagnostic_id) m b l = absurd l
late_call-Spares bound (CleanupCall.selects_due now rounds t generation limit) m b l = absurd l
late_call-Spares bound (CleanupCall.cancels_job t job_id) m b l = absurd l
late_call-Spares bound (CleanupCall.invalidates rounds t u drawn chat_ids) m b l = absurd l
late_call-Spares bound (CleanupCall.binds rounds t v u drawn scope_id given store_changed) m b l =
    absurd l

late_calls-Spares :
    (bound : ℕ) (calls : List CleanupCall) (m : Manager)
    → bound ≤ m.authentication_generation
    → All (IsLate bound) calls
    → Spares bound m (run_cleanup_calls calls m)
unfolding run_cleanup_calls
late_calls-Spares bound [] m b l = Spares-refl bound m
late_calls-Spares bound (call ∷ calls) m b l =
    let n = run_cleanup_call call m in
    let first = late_call-Spares bound call m b l.0 in
    Spares-trans bound m n (run_cleanup_calls calls n) first
      (late_calls-Spares bound calls n (omega (arith, b, first.0)) l.1)

-- Pieces of deletions of earlier authentication contexts, in any order and whatever the upstream
-- answered, leave a chat's observation and its generation as they are, if that generation and the
-- current one are not before a bound that the generation of each of the pieces is before: requests
-- to delete, entries, checks and ends of workers, time-outs of the wait for them, and records of a
-- changed context; other processes may write to the state store in between.
pub late_calls_spared :
    (bound : ℕ) (calls : List CleanupCall) (m : Manager) (cid : String) (g : ℕ)
    → bound ≤ m.authentication_generation
    → All (IsLate bound) calls
    → lookup cid m.observation_generations ≡ some g
    → bound ≤ g
    → (lookup cid (run_cleanup_calls calls m).observations ≡ lookup cid m.observations)
      × (lookup cid (run_cleanup_calls calls m).observation_generations ≡ some g)
late_calls_spared bound calls m cid g b l h k = (late_calls-Spares bound calls m b l).1 cid g h k
