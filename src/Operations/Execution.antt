-- ===== src/Operations/Execution.antt =====
-- `OperationService.execution` of services/operations.py: how an execution is entered, and left.
-- `t` holds the readings of the clock, and `others` is what other processes do to the store between
-- the claim and the write that follows it.
pub mod Entered
use gemini_web_mcp.Common.{
  ℕ, ◌+◌, String, Bool, true, false, not, ◌&&◌, ◌||◌, Option, none, some, if◌then◌else◌, eqb,
  is_some, Outcome, returned, raised,
}
use gemini_web_mcp.Domain.Codes.{OperationState}
use gemini_web_mcp.Store.Records.{OperationRecord}
use gemini_web_mcp.Store.Transactions.{StateStore}
use gemini_web_mcp.Store.Updates.{Changes, no_changes, update}
use gemini_web_mcp.Store.Leases.{claim, release}
use gemini_web_mcp.Operations.Merge.{is_truthy}
use gemini_web_mcp.Operations.Context.{OperationContext}

-- `LEASE_SECONDS`
abbrev pub lease_seconds : ℕ
lease_seconds = 270

abbrev pub is_accepted : OperationState → Bool
is_accepted OperationState.accepted = true
is_accepted state = false

abbrev pub is_cancel_requested : OperationState → Bool
is_cancel_requested OperationState.cancel_requested = true
is_cancel_requested state = false

-- Cancellation was requested, and neither a start nor a source of the operation is known.
abbrev pub is_cancelled_before_start : OperationRecord → Bool
is_cancelled_before_start claimed =
    is_cancel_requested claimed.state
    && eqb claimed.attempt_count 0
    && not (is_truthy claimed.upstream_chat_id || is_truthy claimed.provider_operation_id)

abbrev pub running_changes : Changes
running_changes = record no_changes { state = some "running"; attempt_count = some 1 }

abbrev pub cancelled_changes : Changes
cancelled_changes = record no_changes {
  state = some "cancelled";
  error_code = some (some "CANCELLED");
  verification_status = some "local_cancelled_before_start";
}

-- What the context manager yields, with the context and the store that it leaves.
abbrev pub Entry : Type 0
Entry = Outcome (Bool × OperationContext) × StateStore

-- `context._lease_id = lease_id`, then `yield True`.
abbrev pub yield_true : OperationContext → String → StateStore → Entry
yield_true context lease_id s = (returned (true, record context { lease_id = some lease_id }), s)

-- `yield False` after a release that did not raise.
abbrev pub released : OperationContext → Outcome (Unit {0}) × StateStore → Entry
released context (raised e, s) = (raised e, s)
released context (returned u, s) = (returned (false, context), s)

-- `release(…)`, then `yield False`.
unfoldable pub yield_false : ℕ → OperationContext → String → StateStore → Entry
unfolding release
yield_false clock context lease_id s =
    released context (release clock context.scope_id context.operation_id lease_id s)

-- `if started is None: …`
abbrev pub started_or :
    OperationContext → String → Outcome (Option OperationRecord) × StateStore → Entry → Entry
started_or context lease_id (raised e, s) refused = (raised e, s)
started_or context lease_id (returned none, s) refused = refused
started_or context lease_id (returned (some r), s) refused = yield_true context lease_id s

-- The update under the new lease, of the version that was claimed.
abbrev pub update_claimed :
    (ℕ → ℕ)
    → OperationContext
    → String
    → OperationRecord
    → Changes
    → StateStore
    → Outcome (Option OperationRecord) × StateStore
update_claimed t context lease_id claimed c s =
    update (t 3) (t 4) context.scope_id context.operation_id (some claimed.version) (some lease_id)
      c s

-- An operation that was accepted starts to run.
unfoldable pub start_accepted :
    (ℕ → ℕ) → OperationContext → String → OperationRecord → StateStore → Entry
unfolding update yield_false
start_accepted t context lease_id claimed s =
    let started = update_claimed t context lease_id claimed running_changes s in
    started_or context lease_id started (yield_false (t 5) context lease_id started.1)

-- Whatever the write of a cancellation answers, its lease is released.
abbrev pub cancelled_then : Outcome (Option OperationRecord) × StateStore → Entry → Entry
cancelled_then (raised e, s) refused = (raised e, s)
cancelled_then (returned r, s) refused = refused

-- An operation that was cancelled before it started is cancelled.
unfoldable pub cancel_unstarted :
    (ℕ → ℕ) → OperationContext → String → OperationRecord → StateStore → Entry
unfolding update yield_false
cancel_unstarted t context lease_id claimed s =
    let written = update_claimed t context lease_id claimed cancelled_changes s in
    cancelled_then written (yield_false (t 5) context lease_id written.1)

-- What follows a claim that succeeded.
unfoldable pub enter_claimed :
    (ℕ → ℕ)
    → (StateStore → StateStore)
    → OperationContext
    → String
    → OperationRecord
    → StateStore
    → Entry
unfolding start_accepted cancel_unstarted
enter_claimed t others context lease_id claimed s =
    if is_accepted claimed.state
    then start_accepted t context lease_id claimed (others s)
    else if is_cancelled_before_start claimed
    then cancel_unstarted t context lease_id claimed (others s)
    else yield_true context lease_id s

-- The claim of `execution`, under the lease id that was drawn.
abbrev pub claim_execution :
    (ℕ → ℕ) → OperationContext → String → StateStore → Outcome (Option OperationRecord) × StateStore
claim_execution t context lease_id s =
    claim (t 2) context.scope_id context.operation_id lease_id (t 0 + lease_seconds) (t 1) s

-- `if claimed is None: …`
abbrev pub claimed_then :
    OperationContext
    → Outcome (Option OperationRecord) × StateStore
    → (OperationRecord → StateStore → Entry)
    → Entry
claimed_then context (raised e, s) next = (raised e, s)
claimed_then context (returned none, s) next = (returned (false, context), s)
claimed_then context (returned (some r), s) next = next r s

-- `execution` up to its `yield`: a context that holds a lease is entered again without a claim.
unfoldable pub enter_execution :
    (ℕ → ℕ) → (StateStore → StateStore) → String → OperationContext → StateStore → Entry
unfolding claim enter_claimed
enter_execution t others lease_id context s =
    if is_some context.lease_id
    then (returned (true, context), s)
    else claimed_then context (claim_execution t context lease_id s)
        (λ r u. enter_claimed t others context lease_id r u)

-- The `finally` of the `execution` that made the claim.
unfoldable pub leave_execution :
    ℕ → OperationContext → String → StateStore → Outcome (Unit {0}) × StateStore
unfolding release
leave_execution clock context lease_id s =
    release clock context.scope_id context.operation_id lease_id s
