-- ===== src/Tests/ExecutionTests.antt =====
-- The theorems on `execution` of services/operations.py at an accepted operation.
use gemini_web_mcp.Common.{ℕ, true, false, ◌≡◌, refl, none, some, [], ◌∷◌, returned, arith}
use gemini_web_mcp.Domain.Codes.{OperationState}
use gemini_web_mcp.Domain.Results.{same_text}
use gemini_web_mcp.Store.Labels.{identifier}
use gemini_web_mcp.Store.Records.{OperationRow, OperationRecord, with_state, operation}
use gemini_web_mcp.Store.Transactions.{StateStore, schema_version}
use gemini_web_mcp.Store.Leases.{claim}
use gemini_web_mcp.Operations.Context.{OperationContext}
use gemini_web_mcp.Operations.Execution.{claim_execution, enter_execution}
use gemini_web_mcp.Operations.Execution.Entered.{
  IsEntered, enter_execution-IsEntered, execution_excluded,
}
use gemini_web_mcp.Tests.StoreTests.{row}

abbrev accepted_row : OperationRow
accepted_row = record row { state = "accepted" }

abbrev accepted_store : StateStore
accepted_store = record {
  operations = accepted_row ∷ [];
  cleanup_jobs = [];
  user_version = schema_version;
  last_prune_at = some 50;
}

abbrev context : OperationContext
context = record { operation_id = "op_1"; scope_id = "scope_a"; lease_id = none }

abbrev entered_context : OperationContext
entered_context = record context { lease_id = some "lease_a" }

abbrev clocks : ℕ → ℕ
clocks i = 60

entered_true :
    (enter_execution clocks (λ s. s) "lease_a" context accepted_store).0
    ≡ returned (true, entered_context)
unfolding enter_execution same_text
entered_true = refl

enter_execution-IsEntered_example :
    (r : OperationRecord) × ((claim_execution clocks context "lease_a" accepted_store).0
      ≡ returned (some r))
    × IsEntered clocks
        (λ s. s)
        "lease_a"
        context
        entered_context
        r
        (claim_execution clocks context "lease_a" accepted_store).1
enter_execution-IsEntered_example =
    enter_execution-IsEntered clocks (λ s. s) "lease_a" context entered_context accepted_store refl
      entered_true

abbrev claimed : OperationRecord
unfolding with_state
claimed = record (with_state OperationState.accepted accepted_row) {
  lease_id = some "lease_b";
  lease_until = some 330;
  version = 4;
  updated_at = 60;
}

claim_b : (claim 60 "scope_a" "op_1" "lease_b" 330 60 accepted_store).0 ≡ returned (some claimed)
unfolding claim with_state operation
claim_b = refl

lease_a : identifier "lease_a" ≡ returned tt
unfolding identifier
lease_a = refl

execution_excluded_example :
    (enter_execution clocks
      (λ s. s)
      "lease_a"
      context
      (claim 60 "scope_a" "op_1" "lease_b" 330 60 accepted_store).1).0
    ≡ returned (false, context)
execution_excluded_example =
    execution_excluded 60 60 "lease_b" "lease_a" 330 accepted_store claimed clocks (λ s. s) context
      claim_b (omega arith) lease_a refl
