-- ===== src/Store/Updates.antt =====
-- `OperationRepository.update` of infrastructure/state_store.py.
pub mod Transition
pub mod Versions
pub mod Refines
use gemini_web_mcp.Common.{
  ℕ, zero, suc, ◌+◌, String, Bool, true, false, not, ◌&&◌, ◌||◌, Option, none, some, List, [], ◌∷◌,
  ◌++◌, if◌then◌else◌, ltb, leb, eqb, any, ◌==◌, is_some, length, Outcome, returned, raised,
  raise_if, value_error, sqlite_error, or_default, ◌>>=◌, ◌>>◌,
}
use gemini_web_mcp.Domain.Codes.{
  OperationState, operation_state_of, operation_state_value, domain_error_code_of,
}
use gemini_web_mcp.Domain.Results.{same_text}
use gemini_web_mcp.Store.Labels.{identifier, identifier_if, artifact_filename, is_relative_path}
use gemini_web_mcp.Store.Records.{
  ArtifactLocator, Operation, OperationRecord, OperationRow, operation, with_state,
}
use gemini_web_mcp.Store.Transactions.{
  StateStore, transaction, filter, find, update_where, has_expired,
}
use gemini_web_mcp.Store.Operations.{is_at, error_code_if, after}

-- The keyword arguments of `update`: `none` is one that was not passed. Only the fields that the
-- source allows have a place here.
pub record Changes : Type 0 where
  pub state : Option String
  pub provider_operation_id : Option (Option String)
  pub upstream_chat_id : Option (Option String)
  pub attempt_count : Option ℕ
  pub error_code : Option (Option String)
  pub verification_status : Option String
  pub artifacts : Option (List ArtifactLocator)
  pub output_dir : Option (Option String)

abbrev pub no_changes : Changes
no_changes = record {
  state = none;
  provider_operation_id = none;
  upstream_chat_id = none;
  attempt_count = none;
  error_code = none;
  verification_status = none;
  artifacts = none;
  output_dir = none;
}

-- `changes.get(name)` of an argument that may be `None`
abbrev pub passed : Option (Option String) → Option String
passed none = none
passed (some value) = value

-- The checks that come before the transaction of `update`.
unfoldable pub check_changes : Changes → Outcome (Unit {0})
unfolding identifier_if is_relative_path
check_changes c = do
  identifier_if (passed c.provider_operation_id)
  identifier_if (passed c.upstream_chat_id)
  identifier_if (passed c.error_code)
  identifier_if c.verification_status
  error_code_if (passed c.error_code)
  raise_if (is_relative_path (passed c.output_dir))
      (value_error "Persistent artifact destination must be absolute.")

-- `terminal`
abbrev pub is_terminal : OperationState → Bool
is_terminal OperationState.completed = true
is_terminal OperationState.cancelled = true
is_terminal OperationState.expired = true
is_terminal _ = false

-- The states that a requested cancellation may go on to.
abbrev pub may_follow_cancel : OperationState → Bool
may_follow_cancel OperationState.cancel_requested = true
may_follow_cancel OperationState.cancelled = true
may_follow_cancel OperationState.completed = true
may_follow_cancel OperationState.partial = true
may_follow_cancel OperationState.failed = true
may_follow_cancel OperationState.timed_out = true
may_follow_cancel _ = false

-- `desired != record.state`, on the values
abbrev pub differ : OperationState → OperationState → Bool
differ a b = not (operation_state_value a == operation_state_value b)

-- `record.state == OperationState.CANCEL_REQUESTED and desired not in {…}`
abbrev pub settled_state : OperationState → OperationState → OperationState
settled_state OperationState.cancel_requested desired =
    if may_follow_cancel desired then desired else OperationState.cancel_requested
settled_state _ desired = desired

-- `if "state" in changes`: the state that is written, if one is.
unfoldable pub next_state : OperationState → Option String → Outcome OperationState
next_state state none = returned state
next_state state (some text) = elim (operation_state_of text) [
  | none ↦ raised (value_error "not a valid OperationState")
  | some desired ↦
      if is_terminal state && differ desired state
      then raised (value_error "Terminal operation state cannot be changed.")
      else returned (settled_state state desired)
]

-- `replace(record, **changes, updated_at=…, version=record.version + 1)`, and the same columns of
-- the row.
unfoldable pub apply_changes : {S : Type 0} → ℕ → S → Changes → Operation S → Operation S
apply_changes now state c r = record r {
  state = state;
  provider_operation_id = or_default c.provider_operation_id r.provider_operation_id;
  upstream_chat_id = or_default c.upstream_chat_id r.upstream_chat_id;
  attempt_count = or_default c.attempt_count r.attempt_count;
  error_code = or_default c.error_code r.error_code;
  verification_status = or_default c.verification_status r.verification_status;
  artifacts = or_default c.artifacts r.artifacts;
  output_dir = or_default c.output_dir r.output_dir;
  updated_at = now;
  version = r.version + 1;
}

-- `expected_version is not None and row["version"] != expected_version`
abbrev pub is_stale : Option ℕ → ℕ → Bool
is_stale none version = false
is_stale (some expected) version = not (eqb version expected)

-- `lease_id is not None and row["lease_id"] != lease_id`
abbrev pub lost_lease : Option String → Option String → Bool
lost_lease none held = false
lost_lease (some lease_id) held = not (same_text held (some lease_id))

-- The body of `update` on the row it found.
unfoldable pub update_row :
    ℕ
    → String
    → String
    → Option ℕ
    → Option String
    → Changes
    → Option OperationRow
    → StateStore
    → Outcome (Option OperationRecord × StateStore)
unfolding next_state apply_changes operation update_where
update_row now scope_id operation_id expected_version lease_id c none s = returned (none, s)
update_row now scope_id operation_id expected_version lease_id c (some row) s =
    if is_stale expected_version row.version || lost_lease lease_id row.lease_id
    then returned (none, s)
    else (do
      r ← operation row
      state ← next_state r.state c.state
      returned (
        some (apply_changes now state c r),
        record s {
          operations =
              update_where (is_at scope_id operation_id)
                (λ old. apply_changes now (operation_state_value state) c old) s.operations;
        },
      ))

-- `update`
unfoldable pub update :
    ℕ
    → ℕ
    → String
    → String
    → Option ℕ
    → Option String
    → Changes
    → StateStore
    → Outcome (Option OperationRecord) × StateStore
unfolding check_changes transaction find update_row
update now now' scope_id operation_id expected_version lease_id c s = after (check_changes c) s (
    transaction now
      (λ t.
        update_row now' scope_id operation_id expected_version lease_id c
          (find (is_at scope_id operation_id) t.operations) t)
      s)
