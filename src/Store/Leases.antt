-- ===== src/Store/Leases.antt =====
-- The leases of `OperationRepository` in infrastructure/state_store.py, and its `prune`.
pub mod Exclusive
pub mod Fenced
use gemini_web_mcp.Common.{
  ℕ, zero, suc, ◌+◌, String, Bool, true, false, not, ◌&&◌, ◌||◌, Option, none, some, List, [], ◌∷◌,
  ◌++◌, if◌then◌else◌, ltb, leb, eqb, any, ◌==◌, is_some, length, Outcome, returned, raised,
  raise_if, value_error, sqlite_error, or_default, ◌>>=◌, ◌>>◌,
}
use gemini_web_mcp.Domain.Codes.{
  OperationState, operation_state_of, operation_state_value, domain_error_code_of,
}
use gemini_web_mcp.Domain.Results.{same_text}
use gemini_web_mcp.Store.Labels.{identifier, identifier_if, artifact_filename, is_relative_path}
use gemini_web_mcp.Store.Records.{
  ArtifactLocator, Operation, OperationRecord, OperationRow, operation, with_state,
}
use gemini_web_mcp.Store.Transactions.{
  StateStore, transaction, filter, find, update_where, has_expired,
}
use gemini_web_mcp.Store.Operations.{is_at, after, read_row}

-- `row["lease_until"] or 0`
abbrev pub until_or_0 : Option ℕ → ℕ
until_or_0 t = or_default t 0

-- `row["state"] in {"completed", "cancelled", "expired"}`
abbrev pub is_terminal_text : String → Bool
is_terminal_text state = state == "completed" || state == "cancelled" || state == "expired"

-- The guards of `claim`, in their order.
abbrev pub is_claimable : ℕ → ℕ → OperationRow → Bool
is_claimable now lease_until row =
    not (is_terminal_text row.state)
    && ltb now row.expires_at
    && leb (until_or_0 row.lease_until) now
    && ltb now lease_until

abbrev pub with_lease : ℕ → String → ℕ → OperationRow → OperationRow
with_lease now lease_id lease_until row = record row {
  lease_id = some lease_id;
  lease_until = some lease_until;
  version = row.version + 1;
  updated_at = now;
}

-- The body of `claim` on the row it found: it answers the row as it reads after the update.
unfoldable pub claim_row :
    ℕ
    → String
    → String
    → String
    → ℕ
    → Option OperationRow
    → StateStore
    → Outcome (Option OperationRow × StateStore)
unfolding update_where find
claim_row now scope_id operation_id lease_id lease_until none s = returned (none, s)
claim_row now scope_id operation_id lease_id lease_until (some row) s =
    if is_claimable now lease_until row
    then (let rows =
          update_where (is_at scope_id operation_id) (with_lease now lease_id lease_until)
            s.operations in
        returned (find (is_at scope_id operation_id) rows, record s { operations = rows }))
    else returned (none, s)

-- `claim`: `clock` is the reading of the store's clock, `now` the time that the caller passes.
unfoldable pub claim :
    ℕ
    → String
    → String
    → String
    → ℕ
    → ℕ
    → StateStore
    → Outcome (Option OperationRecord) × StateStore
unfolding identifier transaction find claim_row
claim clock scope_id operation_id lease_id lease_until now s =
    let t : Outcome (Option OperationRow) × StateStore = after (identifier lease_id) s (
      transaction clock
        (λ t.
          claim_row now scope_id operation_id lease_id lease_until
            (find (is_at scope_id operation_id) t.operations) t)
        s) in
    (t.0 >>= read_row, t.1)

-- `scope_id=? AND operation_id=? AND lease_id=?`
abbrev pub is_held : String → String → String → OperationRow → Bool
is_held scope_id operation_id lease_id row =
    is_at scope_id operation_id row && same_text row.lease_id (some lease_id)

-- `renew`: whether one row was updated.
unfoldable pub renew : ℕ → String → String → String → ℕ → StateStore → Outcome Bool × StateStore
unfolding transaction filter update_where
renew clock scope_id operation_id lease_id lease_until s =
    transaction clock
      (λ t. returned (
        eqb (length (filter (is_held scope_id operation_id lease_id) t.operations)) 1,
        record t {
          operations =
              update_where (is_held scope_id operation_id lease_id)
                (λ row. record row { lease_until = some lease_until }) t.operations;
        },
      ))
      s

abbrev pub without_lease : OperationRow → OperationRow
without_lease row = record row { lease_id = none; lease_until = none }

-- `release`
unfoldable pub release : ℕ → String → String → String → StateStore → Outcome (Unit {0}) × StateStore
unfolding transaction update_where
release clock scope_id operation_id lease_id s =
    transaction clock
      (λ t. returned (
        tt,
        record t {
          operations =
              update_where (is_held scope_id operation_id lease_id) without_lease t.operations;
        },
      ))
      s

-- `prune`: `now` is the time passed or, where none is, another reading of the clock.
unfoldable pub prune : ℕ → ℕ → StateStore → Outcome ℕ × StateStore
unfolding transaction filter
prune clock now s =
    transaction clock
      (λ t. returned (
        length (filter (has_expired now) t.operations),
        record t { operations = filter (λ row. not (has_expired now row)) t.operations },
      ))
      s
