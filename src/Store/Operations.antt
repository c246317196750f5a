-- ===== src/Store/Operations.antt =====
-- `OperationRepository` of infrastructure/state_store.py.
use gemini_web_mcp.Common.{
  ℕ, String, Bool, true, false, not, ◌&&◌, ◌||◌, Option, none, some, [], ◌∷◌, ◌++◌, if◌then◌else◌,
  any, ◌==◌, is_some, Outcome, returned, raised, raise_if, value_error, sqlite_error, ◌>>=◌, ◌>>◌,
}
use gemini_web_mcp.Domain.Codes.{operation_state_value, domain_error_code_of}
use gemini_web_mcp.Domain.Results.{same_text}
use gemini_web_mcp.Store.Labels.{identifier, identifier_if, artifact_filename, is_relative_path}
use gemini_web_mcp.Store.Records.{OperationRecord, OperationRow, operation, with_state}
use gemini_web_mcp.Store.Transactions.{StateStore, transaction, find}

-- `scope_id=? AND operation_id=?`
abbrev pub is_at : String → String → OperationRow → Bool
is_at scope_id operation_id row = row.scope_id == scope_id && row.operation_id == operation_id

-- `scope_id=? AND idempotency_key=?`
abbrev pub has_key : String → String → OperationRow → Bool
has_key scope_id key row = row.scope_id == scope_id && same_text row.idempotency_key (some key)

-- `if value is not None: DomainErrorCode(value)`
abbrev pub error_code_if : Option String → Outcome (Unit {0})
error_code_if none = returned tt
error_code_if (some code) =
    raise_if (not (is_some (domain_error_code_of code))) (value_error "not a valid DomainErrorCode")

-- The row breaks a constraint: its id is taken, or its key is taken in its scope.
abbrev pub conflicts : OperationRow → OperationRow → Bool
conflicts new row =
    row.operation_id == new.operation_id
    || elim new.idempotency_key [ none ↦ false | some key ↦ has_key new.scope_id key row ]

-- `INSERT INTO operations`
unfoldable pub insert_row :
    OperationRecord → StateStore → Outcome ((OperationRecord × Bool) × StateStore)
unfolding with_state
insert_row r s =
    let row = with_state (operation_state_value r.state) r in
    if any (conflicts row) s.operations
    then raised (sqlite_error "UNIQUE constraint failed")
    else returned ((r, true), record s { operations = s.operations ++ (row ∷ []) })

-- A row that holds the idempotency key is the answer, if it is of the same kind.
unfoldable pub answer_existing :
    OperationRecord
    → Option OperationRow
    → StateStore
    → Outcome ((OperationRecord × Bool) × StateStore)
unfolding insert_row
answer_existing r none s = insert_row r s
answer_existing r (some row) s = do
  existing ← operation row
  raise_if (not (existing.operation_type == r.operation_type))
      (value_error "Idempotency key belongs to another operation kind.")
  returned ((existing, false), s)

-- `if record.idempotency_key:`: the empty text counts as no key.
abbrev pub key_of : OperationRecord → Option String
key_of r = elim r.idempotency_key [ none ↦ none | some key ↦ if key == "" then none else some key ]

-- The checks that come before the transaction of `create`.
unfoldable pub check_record : OperationRecord → Outcome (Unit {0})
unfolding identifier_if is_relative_path
check_record r = do
  identifier r.operation_id
  identifier r.scope_id
  identifier r.operation_type
  identifier_if (key_of r)
  identifier r.verification_status
  error_code_if r.error_code
  raise_if (is_relative_path r.output_dir)
      (value_error "Persistent artifact destination must be absolute.")
  artifact_filename r.filename

-- A checked step before a transaction.
abbrev pub after :
    {A : Type 0} → Outcome (Unit {0}) → StateStore → Outcome A × StateStore → Outcome A × StateStore
after (returned u) s next = next
after (raised e) s next = (raised e, s)

-- `create`; a delay is a natural number, so the test for a negative one has no counterpart.
unfoldable pub create_operation :
    ℕ → OperationRecord → StateStore → Outcome (OperationRecord × Bool) × StateStore
unfolding check_record transaction answer_existing
create_operation now r s = after (check_record r) s (
    transaction now
      (λ t.
        answer_existing r
          (elim (key_of r) [ none ↦ none | some key ↦ find (has_key r.scope_id key) t.operations ])
          t)
      s)

-- `_operation(row) if row else None`, after the transaction
abbrev pub read_row : Option OperationRow → Outcome (Option OperationRecord)
read_row none = returned none
read_row (some row) = do record_ ← operation row; returned (some record_)

-- `get`
unfoldable pub get :
    ℕ → String → String → StateStore → Outcome (Option OperationRecord) × StateStore
unfolding transaction find
get now scope_id operation_id s =
    let t =
      transaction now (λ t. returned (find (is_at scope_id operation_id) t.operations, t)) s in
    (t.0 >>= read_row, t.1)
