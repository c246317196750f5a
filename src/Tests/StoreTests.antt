-- ===== src/Tests/StoreTests.antt =====
-- A store with one operation, and the theorems on infrastructure/state_store.py and
-- services/operations.py at it.
use gemini_web_mcp.Common.{
  ℕ, ◌<◌, true, false, ◌≡◌, refl, none, some, List, [], ◌∷◌, returned, arith, All,
}
use gemini_web_mcp.Domain.Codes.{OperationState}
use gemini_web_mcp.Store.Labels.{identifier}
use gemini_web_mcp.Store.Records.{
  OperationRow, OperationRecord, CleanupJobRecord, with_state, operation,
}
use gemini_web_mcp.Store.Transactions.{StateStore, schema_version, begin, must_prune}
use gemini_web_mcp.Store.Updates.{Changes, no_changes, check_changes, update}
use gemini_web_mcp.Store.Updates.Transition.{IsMove, update_transition}
use gemini_web_mcp.Store.Updates.Versions.{update_once}
use gemini_web_mcp.Store.Updates.Refines.{Refines, update_table, table_of, update-Refines}
use gemini_web_mcp.Store.Leases.{claim}
use gemini_web_mcp.Store.Leases.Exclusive.{claim_excludes}
use gemini_web_mcp.Store.Leases.Fenced.{update_fenced}
use gemini_web_mcp.Store.Cleanup.{no_job_changes}
use gemini_web_mcp.Store.Jobs.{JobCall, run_job_calls}
use gemini_web_mcp.Store.Jobs.Sound.{IsProper, IsSoundStore}
use gemini_web_mcp.Store.Jobs.Runs.{run_job_calls_sound}
use gemini_web_mcp.Operations.Context.{OperationContext, World, observe_chat, chat_plan}
use gemini_web_mcp.Operations.Context.Retained.{
  read_in, found_by, attempted, HoldsChat, observe_chat_retained,
}

abbrev pub row : OperationRow
row = record {
  operation_id = "op_1";
  scope_id = "scope_a";
  operation_type = "research";
  state = "running";
  created_at = 0;
  updated_at = 0;
  expires_at = 10000;
  provider_operation_id = none;
  upstream_chat_id = none;
  attempt_count = 0;
  error_code = none;
  verification_status = "not_observed";
  artifacts = [];
  version = 3;
  idempotency_key = none;
  output_dir = none;
  retain_chat = true;
  delete_after_seconds = none;
  lease_id = none;
  lease_until = none;
  filename = none;
}

abbrev state_store : StateStore
state_store = record {
  operations = row ∷ [];
  cleanup_jobs = [];
  user_version = 4;
  last_prune_at = some 50;
}

abbrev claimed : OperationRecord
unfolding with_state
claimed = record (with_state OperationState.running row) {
  lease_id = some "lease_a";
  lease_until = some 330;
  version = 4;
  updated_at = 60;
}

claim_a : (claim 60 "scope_a" "op_1" "lease_a" 330 60 state_store).0 ≡ returned (some claimed)
unfolding claim with_state operation
claim_a = refl

lease_b : identifier "lease_b" ≡ returned tt
unfolding identifier
lease_b = refl

claim_excludes_example :
    (claim 100 "scope_a" "op_1" "lease_b" 500 101
      (claim 60 "scope_a" "op_1" "lease_a" 330 60 state_store).1).0
    ≡ returned none
claim_excludes_example =
    claim_excludes 60 100 60 101 "scope_a" "op_1" "lease_a" "lease_b" 330 500 state_store claimed
      claim_a (omega arith) lease_b

abbrev completion : Changes
completion = record no_changes { state = some "completed" }

abbrev completed_record : OperationRecord
unfolding with_state
completed_record = record (with_state OperationState.completed row) { version = 4; updated_at = 61 }

update_a :
    (update 60 61 "scope_a" "op_1" (some 3) none completion state_store).0
    ≡ returned (some completed_record)
unfolding update with_state
update_a = refl

update_transition_example :
    (old : OperationRow) × IsMove "scope_a" "op_1"
      (some 3)
      none
      completion
      (begin 60 state_store).operations
      (update 60 61 "scope_a" "op_1" (some 3) none completion state_store).1.operations
      old
      completed_record
update_transition_example =
    update_transition 60 61 "scope_a" "op_1" (some 3) none completion state_store completed_record
      update_a

completion_checked : check_changes completion ≡ returned tt
unfolding check_changes
completion_checked = refl

not_due :
    must_prune 62
      (update 60 61 "scope_a" "op_1" (some 3) none completion state_store).1.last_prune_at
    ≡ false
unfolding update
not_due = refl

current_schema :
    (update 60 61 "scope_a" "op_1" (some 3) none completion state_store).1.user_version
    ≡ schema_version
unfolding update
current_schema = refl

update_once_example :
    update 62 63 "scope_a" "op_1"
      (some 3)
      none
      completion
      (update 60 61 "scope_a" "op_1" (some 3) none completion state_store).1
    ≡ (returned none, (update 60 61 "scope_a" "op_1" (some 3) none completion state_store).1)
update_once_example =
    update_once 60 62 61 63 "scope_a" "op_1" 3 none none completion completion state_store
      completed_record update_a completion_checked not_due current_schema

abbrev context : OperationContext
context = record { operation_id = "op_1"; scope_id = "scope_a"; lease_id = none }

abbrev world : World
world = record { others = λ i s. s; clocks = λ i. record { got = 60; opened = 61; updated = 62 } }

observed_once : (observe_chat world context "c_1" (some "provider_1") state_store).0 ≡ returned tt
unfolding observe_chat
observed_once = refl

observe_chat_retained_example :
    (k : ℕ) × (current : OperationRecord) × (k < 8)
    × ((read_in world context k
          (found_by world context none (chat_plan "c_1" (some "provider_1")) k 0 state_store)).0
        ≡ returned (some current))
    × ((observe_chat world context "c_1" (some "provider_1") state_store).1
        ≡ attempted world context none
            (chat_plan "c_1" (some "provider_1"))
            k
            (found_by world context none (chat_plan "c_1" (some "provider_1")) k 0 state_store))
    × HoldsChat context "c_1" current
        (observe_chat world context "c_1" (some "provider_1") state_store).1
observe_chat_retained_example =
    observe_chat_retained world context "c_1" (some "provider_1") state_store observed_once

abbrev job : CleanupJobRecord
job = record {
  job_id = "cleanup_1";
  scope_id = "scope_a";
  resource_id = "c_1";
  state = "pending";
  due_at = 100;
  created_at = 60;
  updated_at = 60;
  expires_at = 9000;
  resource_type = "chat";
  attempts = 0;
  diagnostic_id = none;
  verification_status = "not_observed";
  source = "chat";
  error_code = none;
  version = 0;
  lease_id = none;
  lease_until = none;
}

abbrev job_calls : List JobCall
job_calls =
    JobCall.upsert_call 60 job
    ∷ JobCall.claim_call 100 "scope_a" "c_1" 0 "lease_a" 400 100
    ∷ JobCall.update_call 110 111 "scope_a" "c_1" none (some "lease_a") (record no_job_changes {
      state = some "completed";
      verification_status = some "verified_absent";
    })
    ∷ []

job_calls-IsProper : All IsProper job_calls
job_calls-IsProper = ((λ e. (refl, refl)), (tt, ((λ e. cc), tt)))

run_job_calls_example : IsSoundStore (run_job_calls job_calls state_store)
run_job_calls_example = run_job_calls_sound job_calls state_store job_calls-IsProper tt

update_fenced_example :
    (update 100 101 "scope_a" "op_1" none
      (some "lease_b")
      completion
      (claim 60 "scope_a" "op_1" "lease_a" 330 60 state_store).1).0
    ≡ returned none
update_fenced_example =
    update_fenced 60 100 60 101 "scope_a" "op_1" "lease_a" "lease_b" 330 none completion state_store
      claimed claim_a refl completion_checked

fresh_row : must_prune 60 state_store.last_prune_at ≡ false
fresh_row = refl

update-Refines_example :
    Refines
      (update 60 61 "scope_a" "op_1" (some 3) none completion state_store)
      (update_table 61 "scope_a" "op_1" (some 3) none completion (table_of state_store))
update-Refines_example =
    update-Refines 60 61 "scope_a" "op_1" (some 3) none completion state_store completion_checked
      fresh_row refl
