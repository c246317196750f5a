-- ===== src/Store/Updates/Versions.antt =====
-- The versions of operations and the writers that ask for them, in `OperationRepository.update`.
use gemini_web_mcp.Common.{
  ◌≤◌, ℕ, String, true, false, ◌≡◌, ap, ◌∙◌, Option, none, some, arith, Outcome, returned, eqb_iff,
}
use gemini_web_mcp.Domain.Codes.{operation_state_value}
use gemini_web_mcp.Store.Records.{OperationRow, OperationRecord, with_state}
use gemini_web_mcp.Store.Transactions.{
  StateStore, find, begin, transaction, schema_version, must_prune, close,
}
use gemini_web_mcp.Store.Operations.{is_at}
use gemini_web_mcp.Store.Updates.{Changes, check_changes, is_stale, update_row, update}
use gemini_web_mcp.Store.Updates.Transition.{update_transition}

begin_kept :
    (clock : ℕ) (s : StateStore)
    → must_prune clock s.last_prune_at ≡ false
    → s.user_version ≡ schema_version
    → begin clock s ≡ s
unfolding begin
begin_kept clock s h v = ground arith

-- In a current store that is not due to be pruned, a transaction is its body.
pub transaction_lem :
    {A : Type 0} (clock : ℕ) (body : StateStore → Outcome (A × StateStore)) (s : StateStore)
    → must_prune clock s.last_prune_at ≡ false
    → s.user_version ≡ schema_version
    → transaction clock body s ≡ close s (body s)
unfolding transaction
transaction_lem clock body s h v =
    current (omega arith) ∙ ap (λ (t : StateStore). close s (body t)) (begin_kept clock s h v)
  where
    current :
        s.user_version ≤ schema_version → transaction clock body s ≡ close s (body (begin clock s))
    current le = ground arith

update_row_stale :
    (now : ℕ) (scope_id operation_id : String) (expected : ℕ) (lease_id : Option String)
    (c : Changes) (s : StateStore) (row : OperationRow)
    → is_stale (some expected) row.version ≡ true
    → update_row now scope_id operation_id (some expected) lease_id c (some row) s
      ≡ returned (none, s)
unfolding update_row
update_row_stale now scope_id operation_id expected lease_id c s row h = ground arith

-- A version can be used up once: after an `update` that asked for it and succeeded, a second one
-- with well-formed changes that asks for it answers `None` and leaves the store as it is, whatever
-- lease it names, in a store of the current schema whose rows are not due to be pruned.
pub update_once :
    (clock clock' now now' : ℕ) (scope_id operation_id : String) (expected : ℕ)
    (lease_id lease_id' : Option String) (c c' : Changes) (s : StateStore) (r : OperationRecord)
    → (update clock now scope_id operation_id (some expected) lease_id c s).0 ≡ returned (some r)
    → check_changes c' ≡ returned tt
    → must_prune clock'
        (update clock now scope_id operation_id (some expected) lease_id c s).1.last_prune_at
      ≡ false
    → (update clock now scope_id operation_id (some expected) lease_id c s).1.user_version
      ≡ schema_version
    → update clock' now' scope_id operation_id
        (some expected)
        lease_id'
        c'
        (update clock now scope_id operation_id (some expected) lease_id c s).1
      ≡ (returned none, (update clock now scope_id operation_id (some expected) lease_id c s).1)
unfolding update
update_once clock clock' now now' scope_id operation_id expected lease_id lease_id' c c' s r h ok
      kept v =
    let moved =
      update_transition clock now scope_id operation_id (some expected) lease_id c s r h in
    let m = moved.1 in
    let stale : is_stale (some expected) r.version ≡ true = ground (
      arith,
      m.raised_version,
      m.is_fresh,
      eqb_iff moved.0.version expected,
      eqb_iff r.version expected,
    ) in
    refused (update clock now scope_id operation_id (some expected) lease_id c s).1
      (with_state (operation_state_value r.state) r) m.stored_row kept v stale
  where
    refused :
        (t : StateStore) (row : OperationRow)
        → find (is_at scope_id operation_id) t.operations ≡ some row
        → must_prune clock' t.last_prune_at ≡ false
        → t.user_version ≡ schema_version
        → is_stale (some expected) row.version ≡ true
        → update clock' now' scope_id operation_id (some expected) lease_id' c' t
          ≡ (returned none, t)
    refused t row f kept v stale =
        let body : StateStore → Outcome (Option OperationRecord × StateStore) = λ u.
          update_row now' scope_id operation_id (some expected) lease_id' c'
            (find (is_at scope_id operation_id) u.operations) u in
        rw ok (
          transaction_lem clock' body t kept v
          ∙ ap (λ (o : Outcome (Option OperationRecord × StateStore)). close t o)
              (ap
                  (λ (found : Option OperationRow).
                    update_row now' scope_id operation_id (some expected) lease_id' c' found t)
                  f
                ∙ update_row_stale now' scope_id operation_id expected lease_id' c' t row stale))
