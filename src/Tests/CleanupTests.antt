-- ===== src/Tests/CleanupTests.antt =====
-- A manager of chats to delete, and the theorems on remote_chat_cleanup_manager.py at it.
use gemini_web_mcp.Common.{
  ℕ, zero, starts_with, ◌+◌, ◌^◌, ◌≤◌, ◌<◌, ◌≡◌, refl, true, false, none, some, List, [], ◌∷◌,
  String, arith, returned, lookup, All, leb, not, ◌&&◌,
}
use gemini_web_mcp.Domain.Conversations.{CleanupObservation, is_valid_remote_chat_id}
use gemini_web_mcp.Domain.Results.{same_text}
use gemini_web_mcp.Store.Records.{CleanupJobRecord}
use gemini_web_mcp.Store.Transactions.{StateStore, must_prune, filter}
use gemini_web_mcp.Store.Cleanup.{update_job}
use gemini_web_mcp.Store.Claims.{claim_job, ordered, is_eligible}
use gemini_web_mcp.Cleanup.State.{Manager, CleanupTask}
use gemini_web_mcp.Cleanup.Schedule.{Draws, schedule_cleanup_result}
use gemini_web_mcp.Cleanup.Delete.{
  Expected, Start, delete_chat_result, enter_delete, completed_observation,
}
use gemini_web_mcp.Cleanup.Worker.{arrived, DeleteAnswer, Ending, Work, execute_delete}
use gemini_web_mcp.Cleanup.Settle.{Job, Verdict, settled_changes}
use gemini_web_mcp.Cleanup.Context.{durable_records}
use gemini_web_mcp.Cleanup.Pages.{jobs_of, durable_records_lem}
use gemini_web_mcp.Cleanup.Calls.{CleanupCall, run_cleanup_calls}
use gemini_web_mcp.Cleanup.Calls.Kept.{IsValid}
use gemini_web_mcp.Cleanup.Calls.Runs.{run_cleanup_calls-IsValid}
use gemini_web_mcp.Cleanup.Outcomes.Withdrawn.{
  IsWithdrawn, first_wait, in_first, execute_delete-IsWithdrawn,
}
use gemini_web_mcp.Cleanup.Outcomes.Late.{IsLate, late_calls_spared}
use gemini_web_mcp.Cleanup.Outcomes.Verified.{IsDone, IsAnswered, execute_delete_verified}
use gemini_web_mcp.Cleanup.Outcomes.Decisions.{
  IsOpen, retaining, retain_withdraws, delete_starts_once,
}
use gemini_web_mcp.Cleanup.Outcomes.Exclusive.{starts_worker, delete_excluded}
use gemini_web_mcp.Cleanup.Outcomes.Retries.{settled_due}

abbrev task : CleanupTask
task = record {
  ref = 0;
  delete_at = 50;
  source = "gemini_ask";
  attempts = 0;
  last_diagnostic_id = none;
  authentication_generation = 2;
  durable_version = none;
}

abbrev manager : Manager
manager = record {
  pending = ("c_1", task) ∷ [];
  observations = [];
  observation_generations = ("c_1", 2) ∷ [];
  completed = [];
  inflight = [];
  cancelled = [];
  authentication_generation = 2;
  authentication_scope = none;
  suspended = [];
  state_store = none;
  default_retention = 3600;
  lease_seconds = 60;
  next = 1;
}

manager-IsValid : IsValid manager
manager-IsValid = ((refl, tt), tt, tt)

abbrev clock : ℕ → ℕ
clock i = 100 + i

abbrev drawn : ℕ → String
drawn i = "diag_1"

abbrev draws : Draws
draws = record {
  job_id = "cleanup_1";
  lease_id = "lease_1";
  diagnostic_id = "diag_1";
  retention = none;
}

abbrev work : Work
work = record {
  cid = "c_1";
  generation = 2;
  source = "gemini_ask";
  diagnostic_id = "diag_1";
  now = 100;
}

abbrev verified_answer : DeleteAnswer
verified_answer = record {
  ok = true;
  deleted = true;
  verification_status = "verified_absent";
  error_code = none;
}

-- The authentication changes while the worker waits for its client.
abbrev changing : ℕ → List CleanupCall
changing zero = CleanupCall.invalidates 1 clock clock drawn [] ∷ []
changing _ = []

abbrev quiet : ℕ → List CleanupCall
quiet i = []

changed : (first_wait work changing manager).authentication_generation ≡ 3
unfolding run_cleanup_calls enter_delete starts_with
changed = refl

execute_delete-IsWithdrawn_example : IsWithdrawn (first_wait work changing manager) (
    execute_delete work
      (λ i. run_cleanup_calls (changing i))
      (arrived tt)
      (arrived verified_answer)
      manager)
execute_delete-IsWithdrawn_example =
    execute_delete-IsWithdrawn work changing (arrived tt) (arrived verified_answer) manager
      (first_wait work changing manager) manager-IsValid refl
      (in_first refl (omega (arith, changed)))

abbrev done : CleanupObservation
done = completed_observation "c_1" 1 "gemini_ask"

ended :
    (execute_delete work
      (λ i. run_cleanup_calls (quiet i))
      (arrived tt)
      (arrived verified_answer)
      manager).0
    ≡ Ending.observed done
unfolding execute_delete run_cleanup_calls
ended = refl

execute_delete_verified_example :
    IsAnswered (arrived verified_answer)
    × IsDone "c_1" done
        (execute_delete work
          (λ i. run_cleanup_calls (quiet i))
          (arrived tt)
          (arrived verified_answer)
          manager).1
execute_delete_verified_example =
    execute_delete_verified work quiet (arrived tt) (arrived verified_answer) manager done
      manager-IsValid ended refl

abbrev calls : List CleanupCall
calls =
    CleanupCall.deletes clock draws (some "c_1") none none "" false
    ∷ CleanupCall.enters work
    ∷ CleanupCall.invalidates 1 clock clock drawn ("c_2" ∷ [])
    ∷ CleanupCall.settles work 1 (arrived verified_answer)
    ∷ []

run_cleanup_calls-IsValid_example : IsValid (run_cleanup_calls calls manager)
run_cleanup_calls-IsValid_example = run_cleanup_calls-IsValid calls manager manager-IsValid

-- The chat was seen in the present generation, and a worker of the one before it is still there.
abbrev later_manager : Manager
later_manager = record manager {
  pending = [];
  observations = ("c_1", completed_observation "c_1" 4 "gemini_chat") ∷ [];
  observation_generations = ("c_1", 3) ∷ [];
  authentication_generation = 3;
}

abbrev late_calls : List CleanupCall
late_calls =
    CleanupCall.deletes clock draws (some "c_1") (some 2) none "" false
    ∷ CleanupCall.checks work
    ∷ CleanupCall.settles work 1 (arrived verified_answer)
    ∷ CleanupCall.leaves "c_1" 0
    ∷ CleanupCall.times_out 100 "c_1" "gemini_ask" (some 2) "diag_2"
    ∷ []

late_calls-IsLate : All (IsLate 3) late_calls
late_calls-IsLate = (omega arith, (omega arith, (omega arith, (tt, (omega arith, tt)))))

seen_later : lookup "c_1" later_manager.observation_generations ≡ some 3
unfolding lookup
seen_later = refl

late_calls_spared_example :
    (lookup "c_1" (run_cleanup_calls late_calls later_manager).observations
      ≡ lookup "c_1" later_manager.observations)
    × (lookup "c_1" (run_cleanup_calls late_calls later_manager).observation_generations ≡ some 3)
late_calls_spared_example =
    late_calls_spared 3 late_calls later_manager "c_1" 3 (omega arith) late_calls-IsLate seen_later
      (omega arith)

valid_id : is_valid_remote_chat_id "c_1" ≡ true
unfolding is_valid_remote_chat_id starts_with
valid_id = refl

manager-IsOpen : IsOpen "c_1" manager
unfolding lookup
manager-IsOpen = (valid_id, refl, refl)

abbrev expected : Expected
expected = record { task = task; delete_at = 50; attempts = 0 }

retain_withdraws_example :
    (delete_chat_result clock draws
      (some "c_1")
      (some 2)
      (some expected)
      ""
      false
      (schedule_cleanup_result clock draws (retaining "c_1" "gemini_ask") manager).1).0
    ≡ Start.nothing
retain_withdraws_example =
    retain_withdraws clock clock draws draws "c_1" "gemini_ask" "" (some 2) expected false manager
      manager-IsOpen refl

idle : lookup "c_1" manager.inflight ≡ none
unfolding lookup
idle = refl

delete_starts_once_example :
    (let started = delete_chat_result clock draws (some "c_1") none none "" false manager in
      (started.0 ≡ Start.works 1 "gemini_ask")
      × ((delete_chat_result clock draws (some "c_1") none none "" false started.1).0
          ≡ Start.joins 1)
      × ((delete_chat_result clock draws (some "c_1") none (some expected) "" false started.1).0
          ≡ Start.nothing))
unfolding lookup
delete_starts_once_example =
    delete_starts_once clock clock clock draws draws draws "c_1" "" "" expected false manager
      manager-IsOpen idle

abbrev job : CleanupJobRecord
job = record {
  job_id = "cleanup_1";
  scope_id = "scope_a";
  resource_id = "c_1";
  state = "running";
  due_at = 100;
  created_at = 60;
  updated_at = 100;
  expires_at = 700000;
  resource_type = "chat";
  attempts = 3;
  diagnostic_id = none;
  verification_status = "not_observed";
  source = "gemini_ask";
  error_code = none;
  version = 4;
  lease_id = some "lease_1";
  lease_until = some 160;
}

abbrev state_store : StateStore
state_store = record {
  operations = [];
  cleanup_jobs = job ∷ [];
  user_version = 4;
  last_prune_at = some 99;
}

abbrev still : ℕ → ℕ
still i = 100

not_due : (i : ℕ) → must_prune (still i) state_store.last_prune_at ≡ false
not_due i = refl

abbrev durable_manager : Manager
durable_manager = record manager {
  state_store = some state_store;
  authentication_scope = some "scope_a";
}

durable_records_example :
    durable_records 1 still durable_manager
    ≡ (returned (jobs_of "scope_a" state_store), durable_manager)
unfolding ordered filter
durable_records_example =
    durable_records_lem 1 still "scope_a" state_store durable_manager refl refl not_due refl
      (omega arith)

abbrev durable_work : Job
durable_work = record { claimed = job; generation = 2; diagnostic_id = "diag_1" }

abbrev unverified : Verdict
unverified = record {
  verified = false;
  error_code = some "TIMED_OUT";
  verification_status = "not_observed";
}

abbrev failed_job : CleanupJobRecord
failed_job = record job {
  state = "failed";
  due_at = 128;
  updated_at = 121;
  expires_at = 604920;
  error_code = some "TIMED_OUT";
  diagnostic_id = some "diag_1";
  version = 5;
  lease_id = none;
  lease_until = none;
}

written :
    (update_job 120 121 "scope_a" "c_1" none
      (some "lease_1")
      (settled_changes 120 durable_work false unverified)
      state_store).0
    ≡ returned (some failed_job)
unfolding update_job same_text
written = refl

settled_due_example :
    (failed_job.due_at ≡ 120 + 2 ^ 3)
    × (120 < failed_job.due_at)
    × (failed_job.due_at ≤ 120 + 1024)
    × (is_eligible 200 failed_job ≡ (not false && not false && leb (120 + 2 ^ 3) 200))
settled_due_example =
    settled_due 120 120 121 200 "scope_a" "c_1" (some "lease_1") durable_work false unverified
      state_store failed_job written

abbrev waiting_job : CleanupJobRecord
waiting_job = record job {
  state = "pending";
  attempts = 2;
  version = 3;
  lease_id = none;
  lease_until = none;
}

abbrev waiting_store : StateStore
waiting_store = record state_store { cleanup_jobs = waiting_job ∷ [] }

claimed_a :
    (claim_job 100 "scope_a" "c_1" 3 "lease_1" 160 100 waiting_store).0
    ≡ returned (some (record job { state = "running" }))
unfolding claim_job
claimed_a = refl

abbrev other_manager : Manager
other_manager = record durable_manager {
  state_store = some (claim_job 100 "scope_a" "c_1" 3 "lease_1" 160 100 waiting_store).1;
}

delete_excluded_example :
    starts_worker (delete_chat_result clock draws (some "c_1") none none "" true other_manager).0
    ≡ false
delete_excluded_example =
    delete_excluded 100 100 "scope_a" "c_1" 3 "lease_1" 160 waiting_store
      (record job { state = "running" }) clock draws none none "" true other_manager claimed_a refl
      refl (omega arith)
