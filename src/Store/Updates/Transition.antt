-- ===== src/Store/Updates/Transition.antt =====
-- The row that `OperationRepository.update` finds, and what it makes of it.
use gemini_web_mcp.Common.{
  PyError, or_default, ℕ, ◌+◌, String, Bool, true, false, not, ◌&&◌, ◌||◌, ◌≡◌, refl, sym, ap,
  subst, Option, none, some, List, arith, Outcome, returned, raised, Bool-cases, Option-cases, inl,
  inr, ◌>>=◌, ◌>>◌, ◌⊎◌,
}
use gemini_web_mcp.Domain.Codes.{OperationState, operation_state_of, operation_state_value}
use gemini_web_mcp.Store.Labels.{artifact_filename}
use gemini_web_mcp.Store.Records.{
  OperationRow, OperationRecord, operation, with_state, check_locators, read, stored,
}
use gemini_web_mcp.Store.Transactions.{StateStore, find, update_where, begin, transaction}
use gemini_web_mcp.Store.Rows.{find-update_where, transaction_returned}
use gemini_web_mcp.Store.Operations.{is_at}
use gemini_web_mcp.Store.Guards.{after_returned}
use gemini_web_mcp.Store.Updates.{
  Changes, check_changes, is_terminal, may_follow_cancel, differ, settled_state, next_state,
  apply_changes, is_stale, lost_lease, update_row, update,
}

-- The moves between states that the store admits: a final state stays, a requested cancellation goes
-- on to the states that settle it, and any other state may go anywhere.
abbrev pub may_become : OperationState → OperationState → Bool
may_become OperationState.cancel_requested b = may_follow_cancel b
may_become a b = not (is_terminal a && differ b a)

pub Outcome-cases :
    {A : Type 0} (o : Outcome A) → ((a : A) × (o ≡ returned a)) ⊎ ((e : PyError) × (o ≡ raised e))
Outcome-cases (returned a) = inl (a, refl)
Outcome-cases (raised e) = inr (e, refl)

-- A row that reads as a record reads its state, and has the record's other fields.
pub operation_lem :
    (row : OperationRow) (r : OperationRecord)
    → operation row ≡ returned r
    → (state : OperationState) × (operation_state_of row.state ≡ some state)
      × (r ≡ with_state state row)
unfolding operation
operation_lem row r h =
    parts (operation_state_of row.state) (artifact_filename row.filename)
      (check_locators row.artifacts) h
  where
    parts :
        (o : Option OperationState) (f c : Outcome (Unit {0}))
        → stored (read o >>= λ state. f >> (c >> returned (with_state state row))) ≡ returned r
        → (state : OperationState) × (o ≡ some state) × (r ≡ with_state state row)
    parts none f c h = absurd (ground arith)
    parts (some state) (raised e) c h = absurd (ground arith)
    parts (some state) (returned u) (raised e) h = absurd (ground arith)
    parts (some state) (returned u) (returned v) h = (state, refl, ground arith)

may_stay : (a : OperationState) → may_become a a ≡ true
unfolding operation_state_value
may_stay OperationState.accepted = refl
may_stay OperationState.queued = refl
may_stay OperationState.running = refl
may_stay OperationState.completed = refl
may_stay OperationState.partial = refl
may_stay OperationState.timed_out = refl
may_stay OperationState.cancel_requested = refl
may_stay OperationState.cancelled = refl
may_stay OperationState.expired = refl
may_stay OperationState.failed = refl
may_stay OperationState.unavailable = refl

may_move :
    (a desired : OperationState)
    → (is_terminal a && differ desired a) ≡ false
    → may_become a (settled_state a desired) ≡ true
may_move OperationState.accepted desired h = ground arith
may_move OperationState.queued desired h = ground arith
may_move OperationState.running desired h = ground arith
may_move OperationState.completed desired h = ground arith
may_move OperationState.partial desired h = ground arith
may_move OperationState.timed_out desired h = ground arith
may_move OperationState.cancel_requested desired h = ground arith
may_move OperationState.cancelled desired h = ground arith
may_move OperationState.expired desired h = ground arith
may_move OperationState.failed desired h = ground arith
may_move OperationState.unavailable desired h = ground arith

next_state-may_become :
    (a b : OperationState) (change : Option String)
    → next_state a change ≡ returned b
    → may_become a b ≡ true
unfolding next_state
next_state-may_become a b none h =
    let same : a ≡ b = ground arith in
    subst (λ (c : OperationState). may_become a c ≡ true) same (may_stay a)
next_state-may_become a b (some text) h = elim (Option-cases (operation_state_of text)) [
  | inl e ↦ absurd (ground arith)
  | inr (desired, e) ↦ elim (Bool-cases (is_terminal a && differ desired a)) [
    | inl x ↦ absurd (ground arith)
    | inr x ↦
        let same : settled_state a desired ≡ b = ground arith in
        subst (λ (c : OperationState). may_become a c ≡ true) same (may_move a desired x)
  ]
]

-- The update of the first row of the operation from `row` to `r`, in the tables `before` and `after_`.
pub record IsMove (scope_id operation_id : String) (expected_version : Option ℕ)
    (lease_id : Option String) (c : Changes) (before after_ : List OperationRow)
    (row : OperationRow) (r : OperationRecord) : Type 0 where
  pub found : find (is_at scope_id operation_id) before ≡ some row
  pub is_fresh : is_stale expected_version row.version ≡ false
  pub is_holder : lost_lease lease_id row.lease_id ≡ false
  pub state : OperationState
  pub state_read : operation_state_of row.state ≡ some state
  pub moved : may_become state r.state ≡ true
  pub raised_version : r.version ≡ row.version + 1
  pub same_kind : r.operation_type ≡ row.operation_type
  pub chat : r.upstream_chat_id ≡ or_default c.upstream_chat_id row.upstream_chat_id
  pub provider :
      r.provider_operation_id ≡ or_default c.provider_operation_id row.provider_operation_id
  pub artifacts : r.artifacts ≡ or_default c.artifacts row.artifacts
  pub stored_row :
      find (is_at scope_id operation_id) after_
      ≡ some (with_state (operation_state_value r.state) r)

-- The move that the body makes, written out.
made-IsMove :
    (now : ℕ) (scope_id operation_id : String) (expected_version : Option ℕ)
    (lease_id : Option String) (c : Changes) (row : OperationRow) (rows : List OperationRow)
    (state next : OperationState)
    → find (is_at scope_id operation_id) rows ≡ some row
    → (is_stale expected_version row.version || lost_lease lease_id row.lease_id) ≡ false
    → operation_state_of row.state ≡ some state
    → next_state state c.state ≡ returned next
    → IsMove scope_id operation_id expected_version lease_id c rows
        (update_where
          (is_at scope_id operation_id)
          (λ old. apply_changes now (operation_state_value next) c old)
          rows)
        row
        (apply_changes now next c (with_state state row))
unfolding apply_changes with_state
made-IsMove now scope_id operation_id expected_version lease_id c row rows state next f e
      known_state moved =
    record {
      found = f;
      is_fresh = ground arith;
      is_holder = ground arith;
      state = state;
      state_read = known_state;
      moved = next_state-may_become state next c.state moved;
      raised_version = refl;
      same_kind = refl;
      chat = refl;
      provider = refl;
      artifacts = refl;
      stored_row =
          find-update_where (is_at scope_id operation_id)
            (λ old. apply_changes now (operation_state_value next) c old) rows row (λ y. refl) f;
    }

update_row_lem :
    (now : ℕ) (scope_id operation_id : String) (expected_version : Option ℕ)
    (lease_id : Option String) (c : Changes) (row : OperationRow) (s t : StateStore)
    (r : OperationRecord)
    → find (is_at scope_id operation_id) s.operations ≡ some row
    → update_row now scope_id operation_id expected_version lease_id c (some row) s
      ≡ returned (some r, t)
    → IsMove scope_id operation_id expected_version lease_id c s.operations t.operations row r
unfolding update_row
update_row_lem now scope_id operation_id expected_version lease_id c row s t r f h =
    elim (Bool-cases (is_stale expected_version row.version || lost_lease lease_id row.lease_id)) [
      | inl e ↦ absurd (ground arith)
      | inr e ↦ elim (Outcome-cases (operation row)) [
        | inr e' ↦ absurd (ground arith)
        | inl (old, e') ↦ elim (Outcome-cases (next_state old.state c.state)) [
          | inr e'' ↦ absurd (ground arith)
          | inl (next, e'') ↦
              let it = operation_lem row old e' in
              let rows =
                update_where (is_at scope_id operation_id)
                  (λ o. apply_changes now (operation_state_value next) c o) s.operations in
              let read_state : next_state it.0 c.state ≡ returned next =
                subst (λ (o : OperationRecord). next_state o.state c.state ≡ returned next) it.2
                  e'' in
              let pair : Path (Option OperationRecord × StateStore)
                  (some (apply_changes now next c old), record s { operations = rows })
                  (some r, t) =
                ground arith in
              let same : apply_changes now next c (with_state it.0 row) ≡ r =
                subst (λ (o : OperationRecord). apply_changes now next c o ≡ r) it.2
                  (ground arith) in
              subst
                (λ (l : List OperationRow).
                  IsMove scope_id operation_id expected_version lease_id c s.operations l row r)
                (ap (λ (q : Option OperationRecord × StateStore). q.1.operations) pair)
                (subst
                  (λ (x : OperationRecord).
                    IsMove scope_id operation_id expected_version lease_id c s.operations rows row
                      x)
                  same
                  (made-IsMove now scope_id operation_id expected_version lease_id c row
                    s.operations it.0 next f e it.1 read_state))
        ]
      ]
    ]

update_row_found :
    (now : ℕ) (scope_id operation_id : String) (expected_version : Option ℕ)
    (lease_id : Option String) (c : Changes) (found : Option OperationRow) (s t : StateStore)
    (r : OperationRecord)
    → find (is_at scope_id operation_id) s.operations ≡ found
    → update_row now scope_id operation_id expected_version lease_id c found s
      ≡ returned (some r, t)
    → (row : OperationRow) × IsMove scope_id operation_id expected_version lease_id c s.operations
        t.operations row r
unfolding update_row
update_row_found now scope_id operation_id expected_version lease_id c none s t r f h =
    absurd (ground arith)
update_row_found now scope_id operation_id expected_version lease_id c (some row) s t r f h =
    (row, update_row_lem now scope_id operation_id expected_version lease_id c row s t r f h)

-- A successful `update` moves the first row of its operation: to a state that the old one may
-- become, so that a final state stays; with the version that follows; with the version and the
-- lease that the caller asked for; and what it answers is what the table holds.
pub update_transition :
    (clock now : ℕ) (scope_id operation_id : String) (expected_version : Option ℕ)
    (lease_id : Option String) (c : Changes) (s : StateStore) (r : OperationRecord)
    → (update clock now scope_id operation_id expected_version lease_id c s).0 ≡ returned (some r)
    → (row : OperationRow) × IsMove scope_id operation_id expected_version lease_id c
        (begin clock s).operations
        (update clock now scope_id operation_id expected_version lease_id c s).1.operations
        row
        r
unfolding update
update_transition clock now scope_id operation_id expected_version lease_id c s r h =
    let body : StateStore → Outcome (Option OperationRecord × StateStore) = λ t.
      update_row now scope_id operation_id expected_version lease_id c
        (find (is_at scope_id operation_id) t.operations) t in
    let tr = transaction clock body s in
    let same = after_returned (check_changes c) s tr (some r) h in
    let ran = transaction_returned clock body s (some r) (
      subst (λ (o : Outcome (Option OperationRecord) × StateStore). o.0 ≡ returned (some r)) same
        h) in
    let moved =
      update_row_found now scope_id operation_id expected_version lease_id c
        (find (is_at scope_id operation_id) (begin clock s).operations) (begin clock s) tr.1 r refl
        ran in
    (
      moved.0,
      subst
          (λ (o : Outcome (Option OperationRecord) × StateStore).
            IsMove scope_id operation_id expected_version lease_id c (begin clock s).operations
              o.1.operations moved.0 r)
          (sym same) moved.1,
    )
