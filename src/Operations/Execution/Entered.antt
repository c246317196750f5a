-- ===== src/Operations/Execution/Entered.antt =====
-- When `execution` of services/operations.py lets a producer run.
use gemini_web_mcp.Common.{
  is_some, ap, ◌∙◌, sym, ℕ, ◌+◌, ◌<◌, String, true, false, ◌≡◌, refl, Option, none, some, arith,
  Outcome, returned, raised, Bool-cases, inl, inr,
}
use gemini_web_mcp.Domain.Codes.{OperationState}
use gemini_web_mcp.Store.Labels.{identifier}
use gemini_web_mcp.Store.Records.{OperationRecord}
use gemini_web_mcp.Store.Transactions.{StateStore}
use gemini_web_mcp.Store.Leases.{claim, release}
use gemini_web_mcp.Store.Leases.Exclusive.{claim_excludes}
use gemini_web_mcp.Operations.Context.{OperationContext}
use gemini_web_mcp.Operations.Execution.{
  Entry, released, started_or, cancelled_then, claimed_then, update_claimed, cancelled_changes,
  is_accepted, is_cancelled_before_start, running_changes, claim_execution, enter_execution,
  enter_claimed, start_accepted, cancel_unstarted, yield_false, yield_true, lease_seconds,
}

claimed_then_refused :
    (context : OperationContext) (claimed : Outcome (Option OperationRecord) × StateStore)
    (next : OperationRecord → StateStore → Entry)
    → claimed.0 ≡ returned none
    → (claimed_then context claimed next).0 ≡ returned (false, context)
claimed_then_refused context (raised e, s) next h = absurd (ground arith)
claimed_then_refused context (returned none, s) next h = refl
claimed_then_refused context (returned (some r), s) next h = absurd (ground arith)

enter_none :
    (t : ℕ → ℕ) (others : StateStore → StateStore) (lease_id : String) (context : OperationContext)
    (s : StateStore)
    → is_some context.lease_id ≡ false
    → enter_execution t others lease_id context s
      ≡ claimed_then context
          (claim_execution t context lease_id s)
          (λ r u. enter_claimed t others context lease_id r u)
unfolding enter_execution
enter_none t others lease_id context s n = rw n refl

enter_refused :
    (t : ℕ → ℕ) (others : StateStore → StateStore) (lease_id : String) (context : OperationContext)
    (s : StateStore)
    → is_some context.lease_id ≡ false
    → (claim_execution t context lease_id s).0 ≡ returned none
    → (enter_execution t others lease_id context s).0 ≡ returned (false, context)
enter_refused t others lease_id context s n h =
    ap (λ (o : Entry). o.0) (enter_none t others lease_id context s n)
    ∙ claimed_then_refused context (claim_execution t context lease_id s)
        (λ r u. enter_claimed t others context lease_id r u) h

-- After a process has claimed an operation, an execution of it under a well-formed lease id, by a
-- context that holds no lease and whose claim reads the clock before the end of that lease, yields
-- False and leaves the context without a lease, whatever other readings of the clock there are.
pub execution_excluded :
    (clock now : ℕ) (lease_id other : String) (lease_until : ℕ) (s : StateStore)
    (r : OperationRecord) (t : ℕ → ℕ) (others : StateStore → StateStore)
    (context : OperationContext)
    → (claim clock context.scope_id context.operation_id lease_id lease_until now s).0
      ≡ returned (some r)
    → t 1 < lease_until
    → identifier other ≡ returned tt
    → is_some context.lease_id ≡ false
    → (enter_execution t others other context
        (claim clock context.scope_id context.operation_id lease_id lease_until now s).1).0
      ≡ returned (false, context)
execution_excluded clock now lease_id other lease_until s r t others context h lt ok n =
    enter_refused t others other context
      (claim clock context.scope_id context.operation_id lease_id lease_until now s).1 n
      (claim_excludes clock (t 2) now (t 1) context.scope_id context.operation_id lease_id other
        lease_until (t 0 + lease_seconds) s r h lt ok)

-- A context with the lease that an execution has taken, for an operation that it claimed: one that
-- was not cancelled before it started and, if it was only accepted, was written as running.
abbrev pub IsEntered :
    (ℕ → ℕ)
    → (StateStore → StateStore)
    → String
    → OperationContext
    → OperationContext
    → OperationRecord
    → StateStore
    → Type 0
IsEntered t others lease_id context entered r s =
    (entered ≡ record context { lease_id = some lease_id })
    × (is_cancelled_before_start r ≡ false)
    × (is_accepted r.state ≡ true
        → (started : OperationRecord) × ((update_claimed t context lease_id r running_changes
              (others s)).0
            ≡ returned (some started)))

released-true :
    (context entered : OperationContext) (freed : Outcome (Unit {0}) × StateStore)
    → (released context freed).0 ≡ returned (true, entered)
    → ⊥
released-true context entered (raised e, s) h = ground arith
released-true context entered (returned u, s) h = ground arith

yield_false-true :
    (clock : ℕ) (context entered : OperationContext) (lease_id : String) (s : StateStore)
    → (yield_false clock context lease_id s).0 ≡ returned (true, entered)
    → ⊥
unfolding yield_false
yield_false-true clock context entered lease_id s h =
    released-true context entered (release clock context.scope_id context.operation_id lease_id s) h

started_or-true :
    (context entered : OperationContext) (lease_id : String)
    (written : Outcome (Option OperationRecord) × StateStore) (refused : Entry)
    → (refused.0 ≡ returned (true, entered) → ⊥)
    → (started_or context lease_id written refused).0 ≡ returned (true, entered)
    → (started : OperationRecord) × (written.0 ≡ returned (some started))
      × (entered ≡ record context { lease_id = some lease_id })
started_or-true context entered lease_id (raised e, s) refused denied h = absurd (ground arith)
started_or-true context entered lease_id (returned none, s) refused denied h = absurd (denied h)
started_or-true context entered lease_id (returned (some r), s) refused denied h =
    (r, refl, ground arith)

cancelled_then-true :
    (entered : OperationContext) (written : Outcome (Option OperationRecord) × StateStore)
    (refused : Entry)
    → (refused.0 ≡ returned (true, entered) → ⊥)
    → (cancelled_then written refused).0 ≡ returned (true, entered)
    → ⊥
cancelled_then-true entered (raised e, s) refused denied h = ground arith
cancelled_then-true entered (returned r, s) refused denied h = denied h

accepted_unstopped :
    (r : OperationRecord) → is_accepted r.state ≡ true → is_cancelled_before_start r ≡ false
accepted_unstopped r h = states r.state h
  where
    states :
        (state : OperationState)
        → is_accepted state ≡ true
        → is_cancelled_before_start (record r { state = state }) ≡ false
    states OperationState.accepted h = refl
    states OperationState.queued h = absurd (ground arith)
    states OperationState.running h = absurd (ground arith)
    states OperationState.completed h = absurd (ground arith)
    states OperationState.partial h = absurd (ground arith)
    states OperationState.timed_out h = absurd (ground arith)
    states OperationState.cancel_requested h = absurd (ground arith)
    states OperationState.cancelled h = absurd (ground arith)
    states OperationState.expired h = absurd (ground arith)
    states OperationState.failed h = absurd (ground arith)
    states OperationState.unavailable h = absurd (ground arith)

enter_accepted :
    (t : ℕ → ℕ) (others : StateStore → StateStore) (lease_id : String) (context : OperationContext)
    (r : OperationRecord) (s : StateStore)
    → is_accepted r.state ≡ true
    → enter_claimed t others context lease_id r s ≡ start_accepted t context lease_id r (others s)
unfolding enter_claimed
enter_accepted t others lease_id context r s e = rw e refl

enter_cancelled :
    (t : ℕ → ℕ) (others : StateStore → StateStore) (lease_id : String) (context : OperationContext)
    (r : OperationRecord) (s : StateStore)
    → is_accepted r.state ≡ false
    → is_cancelled_before_start r ≡ true
    → enter_claimed t others context lease_id r s ≡ cancel_unstarted t context lease_id r (others s)
unfolding enter_claimed
enter_cancelled t others lease_id context r s e x = rw (e, x) refl

enter_other :
    (t : ℕ → ℕ) (others : StateStore → StateStore) (lease_id : String) (context : OperationContext)
    (r : OperationRecord) (s : StateStore)
    → is_accepted r.state ≡ false
    → is_cancelled_before_start r ≡ false
    → enter_claimed t others context lease_id r s ≡ yield_true context lease_id s
unfolding enter_claimed
enter_other t others lease_id context r s e x = rw (e, x) refl

start_accepted-true :
    (t : ℕ → ℕ) (context entered : OperationContext) (lease_id : String) (r : OperationRecord)
    (s : StateStore)
    → (start_accepted t context lease_id r s).0 ≡ returned (true, entered)
    → (started : OperationRecord) × ((update_claimed t context lease_id r running_changes s).0
        ≡ returned (some started))
      × (entered ≡ record context { lease_id = some lease_id })
unfolding start_accepted
start_accepted-true t context entered lease_id r s h =
    let written = update_claimed t context lease_id r running_changes s in
    started_or-true context entered lease_id written (yield_false (t 5) context lease_id written.1)
      (yield_false-true (t 5) context entered lease_id written.1) h

cancel_unstarted-true :
    (t : ℕ → ℕ) (context entered : OperationContext) (lease_id : String) (r : OperationRecord)
    (s : StateStore)
    → (cancel_unstarted t context lease_id r s).0 ≡ returned (true, entered)
    → ⊥
unfolding cancel_unstarted
cancel_unstarted-true t context entered lease_id r s h =
    let written = update_claimed t context lease_id r cancelled_changes s in
    cancelled_then-true entered written (yield_false (t 5) context lease_id written.1)
      (yield_false-true (t 5) context entered lease_id written.1) h

enter_claimed-IsEntered :
    (t : ℕ → ℕ) (others : StateStore → StateStore) (lease_id : String)
    (context entered : OperationContext) (r : OperationRecord) (s : StateStore)
    → (enter_claimed t others context lease_id r s).0 ≡ returned (true, entered)
    → IsEntered t others lease_id context entered r s
enter_claimed-IsEntered t others lease_id context entered r s h =
    elim (Bool-cases (is_accepted r.state)) [
      | inl e ↦
          let it =
            start_accepted-true t context entered lease_id r (others s) (
              ap (λ (o : Entry). o.0) (sym (enter_accepted t others lease_id context r s e)) ∙ h) in
          (it.2, accepted_unstopped r e, λ x. (it.0, it.1))
      | inr e ↦ elim (Bool-cases (is_cancelled_before_start r)) [
        | inl x ↦ absurd (
            cancel_unstarted-true t context entered lease_id r (others s) (
              ap (λ (o : Entry). o.0) (sym (enter_cancelled t others lease_id context r s e x))
              ∙ h))
        | inr x ↦
            let same =
              ap (λ (o : Entry). o.0) (sym (enter_other t others lease_id context r s e x)) ∙ h in
            (ground arith, x, λ y. absurd (ground arith))
      ]
    ]

claimed_then-true :
    (context entered : OperationContext) (claimed : Outcome (Option OperationRecord) × StateStore)
    (next : OperationRecord → StateStore → Entry)
    → (claimed_then context claimed next).0 ≡ returned (true, entered)
    → (r : OperationRecord) × (claimed.0 ≡ returned (some r))
      × ((next r claimed.1).0 ≡ returned (true, entered))
claimed_then-true context entered (raised e, s) next h = absurd (ground arith)
claimed_then-true context entered (returned none, s) next h = absurd (ground arith)
claimed_then-true context entered (returned (some r), s) next h = (r, refl, h)

-- An execution that yields True, entered by a context that holds no lease, has claimed the
-- operation, which was not one cancelled before it started; if the operation was only accepted, the
-- update to running, of the version and under the lease that were claimed, has succeeded, whatever
-- other processes did after the claim; and the context holds the lease.
pub enter_execution-IsEntered :
    (t : ℕ → ℕ) (others : StateStore → StateStore) (lease_id : String)
    (context entered : OperationContext) (s : StateStore)
    → is_some context.lease_id ≡ false
    → (enter_execution t others lease_id context s).0 ≡ returned (true, entered)
    → (r : OperationRecord) × ((claim_execution t context lease_id s).0 ≡ returned (some r))
      × IsEntered t others lease_id context entered r (claim_execution t context lease_id s).1
enter_execution-IsEntered t others lease_id context entered s n h =
    let it =
      claimed_then-true context entered (claim_execution t context lease_id s)
        (λ r u. enter_claimed t others context lease_id r u)
        (ap (λ (o : Entry). o.0) (sym (enter_none t others lease_id context s n)) ∙ h) in
    (
      it.0,
      it.1,
      enter_claimed-IsEntered t others lease_id context entered it.0
          (claim_execution t context lease_id s).1 it.2,
    )
