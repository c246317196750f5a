-- ===== src/Store/Leases/Exclusive.antt =====
-- Leases of `OperationRepository` and the claims of others.
use gemini_web_mcp.Common.{
  ℕ, ◌<◌, String, true, ◌≡◌, refl, sym, ap, ◌∙◌, subst, Option, none, some, arith, All, Outcome,
  returned, raised, Bool-cases, Option-cases, inl, inr, ◌>>=◌,
}
use gemini_web_mcp.Store.Labels.{identifier}
use gemini_web_mcp.Store.Records.{OperationRow, OperationRecord}
use gemini_web_mcp.Store.Transactions.{
  StateStore, find, update_where, begin, transaction, schema_version,
}
use gemini_web_mcp.Store.Rows.{All-find, update_where_marks, begin-operations, transaction_returned}
use gemini_web_mcp.Store.Guards.{after_returned}
use gemini_web_mcp.Store.Operations.{is_at, after, read_row}
use gemini_web_mcp.Store.Leases.{claim, claim_row, with_lease, is_claimable}

-- Every row of the operation is under this lease.
abbrev pub IsLeased : String → String → String → ℕ → StateStore → Type 0
IsLeased scope_id operation_id lease_id lease_until s =
    All
      (λ (row : OperationRow).
        is_at scope_id operation_id row ≡ true
        → (row.lease_id ≡ some lease_id) × (row.lease_until ≡ some lease_until))
      s.operations

claim_row_marks :
    (now : ℕ) (scope_id operation_id lease_id : String) (lease_until : ℕ)
    (found : Option OperationRow) (s t : StateStore) (row : OperationRow)
    → claim_row now scope_id operation_id lease_id lease_until found s ≡ returned (some row, t)
    → IsLeased scope_id operation_id lease_id lease_until t
unfolding claim_row
claim_row_marks now scope_id operation_id lease_id lease_until none s t row h =
    absurd (ground arith)
claim_row_marks now scope_id operation_id lease_id lease_until (some old) s t row h =
    elim (Bool-cases (is_claimable now lease_until old)) [
      | inl e ↦
          let same : record s {
            operations =
                update_where (is_at scope_id operation_id) (with_lease now lease_id lease_until)
                  s.operations;
          }
              ≡ t =
            ground arith in
          subst (λ (u : StateStore). IsLeased scope_id operation_id lease_id lease_until u) same
            (update_where_marks
              (λ (r : OperationRow).
                (r.lease_id ≡ some lease_id) × (r.lease_until ≡ some lease_until))
              (is_at scope_id operation_id) (with_lease now lease_id lease_until) s.operations
              (λ r. (refl, refl)))
      | inr e ↦ absurd (ground arith)
    ]

read_row-some :
    (o : Outcome (Option OperationRow)) (r : OperationRecord)
    → (o >>= read_row) ≡ returned (some r)
    → (row : OperationRow) × (o ≡ returned (some row))
read_row-some (returned none) r h = absurd (ground arith)
read_row-some (returned (some row)) r h = (row, refl)
read_row-some (raised e) r h = absurd (ground arith)

-- What `claim` runs in its transaction.
abbrev claim_body :
    ℕ → String → String → String → ℕ → StateStore → Outcome (Option OperationRow × StateStore)
claim_body now scope_id operation_id lease_id lease_until t =
    claim_row now scope_id operation_id lease_id lease_until
      (find (is_at scope_id operation_id) t.operations) t

-- A claim that succeeds has run its transaction to the end.
claim_ran :
    (clock now : ℕ) (scope_id operation_id lease_id : String) (lease_until : ℕ) (s : StateStore)
    (r : OperationRecord)
    → (claim clock scope_id operation_id lease_id lease_until now s).0 ≡ returned (some r)
    → (row : OperationRow) × (claim_body now scope_id operation_id lease_id lease_until
          (begin clock s)
        ≡ returned (some row, (claim clock scope_id operation_id lease_id lease_until now s).1))
unfolding claim
claim_ran clock now scope_id operation_id lease_id lease_until s r h =
    let body = claim_body now scope_id operation_id lease_id lease_until in
    let tr = transaction clock body s in
    let found = read_row-some (after (identifier lease_id) s tr).0 r h in
    let same = after_returned (identifier lease_id) s tr (some found.0) found.1 in
    (
      found.0,
      transaction_returned clock body s (some found.0) (
            subst
              (λ (o : Outcome (Option OperationRow) × StateStore). o.0 ≡ returned (some found.0))
              same found.1)
          ∙ ap (λ (o : Outcome (Option OperationRow) × StateStore). returned (some found.0, o.1))
              (sym same),
    )

pub claim-IsLeased :
    (clock now : ℕ) (scope_id operation_id lease_id : String) (lease_until : ℕ) (s : StateStore)
    (r : OperationRecord)
    → (claim clock scope_id operation_id lease_id lease_until now s).0 ≡ returned (some r)
    → IsLeased scope_id operation_id lease_id lease_until
        (claim clock scope_id operation_id lease_id lease_until now s).1
claim-IsLeased clock now scope_id operation_id lease_id lease_until s r h =
    let ran = claim_ran clock now scope_id operation_id lease_id lease_until s r h in
    claim_row_marks now scope_id operation_id lease_id lease_until
      (find (is_at scope_id operation_id) (begin clock s).operations) (begin clock s)
      (claim clock scope_id operation_id lease_id lease_until now s).1 ran.0 ran.1

current : (clock : ℕ) (s : StateStore) → (begin clock s).user_version ≡ schema_version
unfolding begin
current clock s = ground arith

claim_row-user_version :
    (now : ℕ) (scope_id operation_id lease_id : String) (lease_until : ℕ)
    (found : Option OperationRow) (s t : StateStore) (row : OperationRow)
    → s.user_version ≡ schema_version
    → claim_row now scope_id operation_id lease_id lease_until found s ≡ returned (some row, t)
    → t.user_version ≡ schema_version
unfolding claim_row
claim_row-user_version now scope_id operation_id lease_id lease_until none s t row v h =
    absurd (ground arith)
claim_row-user_version now scope_id operation_id lease_id lease_until (some old) s t row v h =
    elim (Bool-cases (is_claimable now lease_until old)) [
      | inl e ↦ ground arith
      | inr e ↦ absurd (ground arith)
    ]

-- A store that has been written is of the current schema.
pub claim-user_version :
    (clock now : ℕ) (scope_id operation_id lease_id : String) (lease_until : ℕ) (s : StateStore)
    (r : OperationRecord)
    → (claim clock scope_id operation_id lease_id lease_until now s).0 ≡ returned (some r)
    → (claim clock scope_id operation_id lease_id lease_until now s).1.user_version ≡ schema_version
claim-user_version clock now scope_id operation_id lease_id lease_until s r h =
    let ran = claim_ran clock now scope_id operation_id lease_id lease_until s r h in
    claim_row-user_version now scope_id operation_id lease_id lease_until
      (find (is_at scope_id operation_id) (begin clock s).operations) (begin clock s)
      (claim clock scope_id operation_id lease_id lease_until now s).1 ran.0 (current clock s) ran.1

claim_row_missing :
    (now : ℕ) (scope_id operation_id lease_id : String) (lease_until : ℕ) (s : StateStore)
    → claim_row now scope_id operation_id lease_id lease_until none s ≡ returned (none, s)
unfolding claim_row
claim_row_missing now scope_id operation_id lease_id lease_until s = refl

claim_row_refused :
    (now : ℕ) (scope_id operation_id lease_id : String) (lease_until until : ℕ) (s : StateStore)
    (row : OperationRow)
    → row.lease_until ≡ some until
    → now < until
    → claim_row now scope_id operation_id lease_id lease_until (some row) s ≡ returned (none, s)
unfolding claim_row
claim_row_refused now scope_id operation_id lease_id lease_until until s row e lt = ground arith

claim_row_blocked :
    (now : ℕ) (scope_id operation_id lease_id held : String) (lease_until until : ℕ)
    (s t : StateStore)
    → IsLeased scope_id operation_id held until t
    → now < until
    → claim_row now scope_id operation_id lease_id lease_until
        (find (is_at scope_id operation_id) t.operations)
        s
      ≡ returned (none, s)
claim_row_blocked now scope_id operation_id lease_id held lease_until until s t h lt =
    elim (Option-cases (find (is_at scope_id operation_id) t.operations)) [
      | inl e ↦ rw e (claim_row_missing now scope_id operation_id lease_id lease_until s)
      | inr (row, e) ↦
          let it =
            All-find
              (λ (r : OperationRow).
                is_at scope_id operation_id r ≡ true
                → (r.lease_id ≡ some held) × (r.lease_until ≡ some until))
              (is_at scope_id operation_id) t.operations row h e in
          rw e (
            claim_row_refused now scope_id operation_id lease_id lease_until until s row
              (it.1 it.0).1 lt)
    ]

-- While a lease runs, no other claim of its operation succeeds: after a claim that succeeded, a
-- claim by a well-formed lease id, at a time before the end of the first lease, answers `None`,
-- whatever the readings of the store's clock.
pub claim_excludes :
    (clock clock' now now' : ℕ) (scope_id operation_id lease_id other : String)
    (lease_until until : ℕ) (s : StateStore) (r : OperationRecord)
    → (claim clock scope_id operation_id lease_id lease_until now s).0 ≡ returned (some r)
    → now' < lease_until
    → identifier other ≡ returned tt
    → (claim clock' scope_id operation_id other until now'
        (claim clock scope_id operation_id lease_id lease_until now s).1).0
      ≡ returned none
unfolding claim
claim_excludes clock clock' now now' scope_id operation_id lease_id other lease_until until s r h lt
      ok =
    let t = (claim clock scope_id operation_id lease_id lease_until now s).1 in
    blocked t (claim-user_version clock now scope_id operation_id lease_id lease_until s r h) (
      claim_row_blocked now' scope_id operation_id other lease_id until lease_until (begin clock' t)
        (begin clock' t)
        (begin-operations
          (λ (row : OperationRow).
            is_at scope_id operation_id row ≡ true
            → (row.lease_id ≡ some lease_id) × (row.lease_until ≡ some lease_until))
          clock' t (claim-IsLeased clock now scope_id operation_id lease_id lease_until s r h))
        lt)
  where
    blocked :
        (t : StateStore)
        → t.user_version ≡ schema_version
        → claim_body now' scope_id operation_id other until (begin clock' t)
          ≡ returned (none, begin clock' t)
        → (claim clock' scope_id operation_id other until now' t).0 ≡ returned none
    blocked t v e = rw (claim, ok, transaction, v, e) refl
