-- ===== src/Store/Leases/Fenced.antt =====
-- Leases of `OperationRepository` and the updates that name another lease.
use gemini_web_mcp.Common.{
  ℕ, String, true, false, not, ◌≡◌, refl, ap, Option, none, some, arith, returned, Option-cases,
  inl, inr, ◌==◌,
}
use gemini_web_mcp.Domain.Results.{same_text}
use gemini_web_mcp.Store.Records.{OperationRow, OperationRecord}
use gemini_web_mcp.Store.Transactions.{StateStore, find, begin, transaction, schema_version}
use gemini_web_mcp.Store.Rows.{All-find, begin-operations}
use gemini_web_mcp.Store.Operations.{is_at}
use gemini_web_mcp.Store.Updates.{Changes, check_changes, update_row, update, lost_lease}
use gemini_web_mcp.Store.Leases.{claim}
use gemini_web_mcp.Store.Leases.Exclusive.{claim-IsLeased, claim-user_version}

update_row-none :
    (now : ℕ) (scope_id operation_id : String) (expected : Option ℕ) (other : String) (c : Changes)
    (s : StateStore)
    → update_row now scope_id operation_id expected (some other) c none s ≡ returned (none, s)
unfolding update_row
update_row-none now scope_id operation_id expected other c s = refl

update_row-lost_lease :
    (now : ℕ) (scope_id operation_id : String) (expected : Option ℕ) (lease_id other : String)
    (c : Changes) (s : StateStore) (row : OperationRow)
    → row.lease_id ≡ some lease_id
    → (lease_id == other) ≡ false
    → update_row now scope_id operation_id expected (some other) c (some row) s ≡ returned (none, s)
unfolding update_row same_text
update_row-lost_lease now scope_id operation_id expected lease_id other c s row e d =
    lost (rw e (ap not d))
  where
    lost :
        lost_lease (some other) row.lease_id ≡ true
        → update_row now scope_id operation_id expected (some other) c (some row) s
          ≡ returned (none, s)
    lost l = ground arith

-- After a claim of an operation that succeeded, an update of it under another lease id, with
-- well-formed changes, answers `None`, whatever version it asks for and whatever the clock reads.
pub update_fenced :
    (clock clock' now now' : ℕ) (scope_id operation_id lease_id other : String) (lease_until : ℕ)
    (expected : Option ℕ) (c : Changes) (s : StateStore) (r : OperationRecord)
    → (claim clock scope_id operation_id lease_id lease_until now s).0 ≡ returned (some r)
    → (lease_id == other) ≡ false
    → check_changes c ≡ returned tt
    → (update clock' now' scope_id operation_id expected
        (some other)
        c
        (claim clock scope_id operation_id lease_id lease_until now s).1).0
      ≡ returned none
unfolding update
update_fenced clock clock' now now' scope_id operation_id lease_id other lease_until expected c s r
      h d ok =
    let t = (claim clock scope_id operation_id lease_id lease_until now s).1 in
    let leased =
      begin-operations
        (λ (row : OperationRow).
          is_at scope_id operation_id row ≡ true
          → (row.lease_id ≡ some lease_id) × (row.lease_until ≡ some lease_until))
        clock' t (claim-IsLeased clock now scope_id operation_id lease_id lease_until s r h) in
    refused t (claim-user_version clock now scope_id operation_id lease_id lease_until s r h)
      (elim (Option-cases (find (is_at scope_id operation_id) (begin clock' t).operations)) [
        | inl e ↦
            rw e (update_row-none now' scope_id operation_id expected other c (begin clock' t))
        | inr (row, e) ↦
            let it =
              All-find
                (λ (x : OperationRow).
                  is_at scope_id operation_id x ≡ true
                  → (x.lease_id ≡ some lease_id) × (x.lease_until ≡ some lease_until))
                (is_at scope_id operation_id) (begin clock' t).operations row leased e in
            rw e (
              update_row-lost_lease now' scope_id operation_id expected lease_id other c
                (begin clock' t) row (it.1 it.0).0 d)
      ])
  where
    refused :
        (t : StateStore)
        → t.user_version ≡ schema_version
        → update_row now' scope_id operation_id expected
            (some other)
            c
            (find (is_at scope_id operation_id) (begin clock' t).operations)
            (begin clock' t)
          ≡ returned (none, begin clock' t)
        → (update clock' now' scope_id operation_id expected (some other) c t).0 ≡ returned none
    refused t v e = rw (update, ok, transaction, v, e) refl
