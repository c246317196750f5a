-- ===== src/Store/Updates/Refines.antt =====
-- `OperationRepository.update` as an operation on a map from keys to rows.
use gemini_web_mcp.Common.{
  ℕ, String, Bool, true, false, ◌&&◌, ◌||◌, ◌≡◌, refl, sym, ap, ◌∙◌, subst, Option, none, some,
  List, [], ◌∷◌, arith, Outcome, returned, raised, ◌>>=◌, Bool-cases, inl, inr, ◌==◌, eq_iff,
  if◌then◌else◌,
}
use gemini_web_mcp.Domain.Codes.{OperationState, operation_state_value}
use gemini_web_mcp.Store.Records.{OperationRow, OperationRecord, operation, with_state}
use gemini_web_mcp.Store.Transactions.{
  StateStore, find, update_where, transaction, schema_version, must_prune, close, translated,
}
use gemini_web_mcp.Store.Operations.{is_at, after}
use gemini_web_mcp.Store.Rows.{find-update_where}
use gemini_web_mcp.Store.Updates.{
  Changes, check_changes, next_state, apply_changes, is_stale, lost_lease, update_row, update,
}
use gemini_web_mcp.Store.Updates.Transition.{operation_lem}
use gemini_web_mcp.Store.Updates.Versions.{transaction_lem}

-- A map from scopes and operation ids to rows.
abbrev pub Table : Type 0
Table = String → String → Option OperationRow

abbrev pub table_of : StateStore → Table
table_of s scope_id operation_id = find (is_at scope_id operation_id) s.operations

abbrev pub set_row : String → String → OperationRow → Table → Table
set_row scope_id operation_id row table scope operation =
    if scope_id == scope && operation_id == operation then some row else table scope operation

-- The record that an update makes of a row, or the exception.
abbrev pub written_record : ℕ → Changes → OperationRow → Outcome OperationRecord
written_record now c row = do
  r ← operation row
  state ← next_state r.state c.state
  returned (apply_changes now state c r)

-- The row of a record.
abbrev pub row_of : OperationRecord → OperationRow
row_of r = with_state (operation_state_value r.state) r

abbrev pub write :
    String → String → Table → Outcome OperationRecord → Outcome (Option OperationRecord) × Table
write scope_id operation_id table (returned r) =
    (returned (some r), set_row scope_id operation_id (row_of r) table)
write scope_id operation_id table (raised e) = (raised (translated e), table)

-- The update of a map, by what it has under the key.
abbrev pub update_found :
    ℕ
    → String
    → String
    → Option ℕ
    → Option String
    → Changes
    → Table
    → Option OperationRow
    → Outcome (Option OperationRecord) × Table
update_found now scope_id operation_id expected lease_id c table none = (returned none, table)
update_found now scope_id operation_id expected lease_id c table (some row) =
    if is_stale expected row.version || lost_lease lease_id row.lease_id
    then (returned none, table)
    else write scope_id operation_id table (written_record now c row)

abbrev pub update_table :
    ℕ
    → String
    → String
    → Option ℕ
    → Option String
    → Changes
    → Table
    → Outcome (Option OperationRecord) × Table
update_table now scope_id operation_id expected lease_id c table =
    update_found now scope_id operation_id expected lease_id c table (table scope_id operation_id)

-- The same answer, and the same rows under every key.
abbrev pub Refines :
    Outcome (Option OperationRecord) × StateStore
    → Outcome (Option OperationRecord) × Table
    → Type 0
Refines p q =
    (p.0 ≡ q.0)
    × ((scope_id operation_id : String)
        → table_of p.1 scope_id operation_id ≡ q.1 scope_id operation_id)

find-update_where_other :
    {A : Type 0} (p q : A → Bool) (f : A → A) (xs : List A)
    → ((y : A) → q (f y) ≡ q y)
    → ((y : A) → p y ≡ true → q y ≡ false)
    → find q (update_where p f xs) ≡ find q xs
unfolding find update_where
find-update_where_other p q f [] k d = refl
find-update_where_other p q f (y ∷ ys) k d = elim (Bool-cases (p y)) [
  | inl b ↦ ground (arith, k y, d y b, find-update_where_other p q f ys k d)
  | inr b ↦ ground (arith, find-update_where_other p q f ys k d)
]

other_key :
    (scope_id operation_id scope other : String) (row : OperationRow)
    → (scope_id == scope && operation_id == other) ≡ false
    → is_at scope_id operation_id row ≡ true
    → is_at scope other row ≡ false
other_key scope_id operation_id scope other row d e = ground (
  arith,
  eq_iff row.scope_id scope_id,
  eq_iff row.operation_id operation_id,
  eq_iff row.scope_id scope,
  eq_iff row.operation_id other,
  eq_iff scope_id scope,
  eq_iff operation_id other,
)

same_key :
    (scope_id operation_id scope other : String)
    → (scope_id == scope && operation_id == other) ≡ true
    → (scope_id ≡ scope) × (operation_id ≡ other)
same_key scope_id operation_id scope other e =
    (ground (arith, eq_iff scope_id scope), ground (arith, eq_iff operation_id other))

set_row_lem :
    (scope_id operation_id : String) (f : OperationRow → OperationRow) (rows : List OperationRow)
    (row : OperationRow)
    → ((scope other : String) (y : OperationRow) → is_at scope other (f y) ≡ is_at scope other y)
    → find (is_at scope_id operation_id) rows ≡ some row
    → (scope other : String)
    → find (is_at scope other) (update_where (is_at scope_id operation_id) f rows)
      ≡ set_row scope_id operation_id (f row) (λ a b. find (is_at a b) rows) scope other
set_row_lem scope_id operation_id f rows row k e scope other =
    elim (Bool-cases (scope_id == scope && operation_id == other)) [
      | inl b ↦
          let same = same_key scope_id operation_id scope other b in
          subst
            (λ (a : String).
              find (is_at a other) (update_where (is_at scope_id operation_id) f rows)
              ≡ some (f row))
            same.0
            (subst
              (λ (a : String).
                find (is_at scope_id a) (update_where (is_at scope_id operation_id) f rows)
                ≡ some (f row))
              same.1
              (find-update_where (is_at scope_id operation_id) f rows row
                (λ y. k scope_id operation_id y) e))
          ∙ sym (ap (λ (x : Bool). if x then some (f row) else find (is_at scope other) rows) b)
      | inr b ↦
          find-update_where_other (is_at scope_id operation_id) (is_at scope other) f rows
            (λ y. k scope other y) (λ y d. other_key scope_id operation_id scope other y b d)
          ∙ sym (ap (λ (x : Bool). if x then some (f row) else find (is_at scope other) rows) b)
    ]

abbrev row_after :
    ℕ
    → String
    → Changes
    → String
    → String
    → StateStore
    → OperationRecord
    → OperationState
    → Outcome (Option OperationRecord × StateStore)
row_after now value c scope_id operation_id s r state = returned (
  some (apply_changes now state c r),
  record s {
    operations =
        update_where (is_at scope_id operation_id) (λ old. apply_changes now value c old)
          s.operations;
  },
)

written_Refines :
    (now : ℕ) (scope_id operation_id : String) (c : Changes) (s : StateStore) (row : OperationRow)
    (r : OperationRecord) (state : OperationState) (old_state : OperationState)
    → find (is_at scope_id operation_id) s.operations ≡ some row
    → r ≡ with_state old_state row
    → Refines
        (close s (row_after now (operation_state_value state) c scope_id operation_id s r state))
        (write scope_id operation_id (table_of s) (returned (apply_changes now state c r)))
unfolding apply_changes with_state
written_Refines now scope_id operation_id c s row r state old_state f e = (
  refl,
  λ scope other.
      set_row_lem scope_id operation_id
        (λ old. apply_changes now (operation_state_value state) c old) s.operations row
        (λ a b y. refl) f scope other
      ∙ ap (λ (x : OperationRow). set_row scope_id operation_id x (table_of s) scope other)
          (made r e),
)
  where
    made :
        (x : OperationRecord)
        → x ≡ with_state old_state row
        → apply_changes now (operation_state_value state) c row
          ≡ row_of (apply_changes now state c x)
    made x d = sym (ap (λ (y : OperationRecord). row_of (apply_changes now state c y)) d)

-- The two chains of the body side by side, on what the row reads as and on the next state.
chains-Refines :
    (now : ℕ) (scope_id operation_id : String) (c : Changes) (s : StateStore) (row : OperationRow)
    (o : Outcome OperationRecord)
    → find (is_at scope_id operation_id) s.operations ≡ some row
    → operation row ≡ o
    → Refines
        (close s (
          o >>= λ r. next_state r.state c.state >>= λ state.
          row_after now (operation_state_value state) c scope_id operation_id s r state))
        (write scope_id operation_id (table_of s) (
          o >>= λ r.
          next_state r.state c.state >>= λ state. returned (apply_changes now state c r)))
chains-Refines now scope_id operation_id c s row (raised e) f h = (refl, λ scope other. refl)
chains-Refines now scope_id operation_id c s row (returned r) f h =
    by_state (next_state r.state c.state)
  where
    by_state :
        (n : Outcome OperationState)
        → Refines
            (close s (
              n >>= λ state.
              row_after now (operation_state_value state) c scope_id operation_id s r state))
            (write scope_id operation_id
              (table_of s)
              (n >>= λ state. returned (apply_changes now state c r)))
    by_state (raised e) = (refl, λ scope other. refl)
    by_state (returned state) =
        let it = operation_lem row r h in
        written_Refines now scope_id operation_id c s row r state it.0 f it.2

update_row-Refines :
    (now : ℕ) (scope_id operation_id : String) (expected : Option ℕ) (lease_id : Option String)
    (c : Changes) (s : StateStore) (found : Option OperationRow)
    → find (is_at scope_id operation_id) s.operations ≡ found
    → Refines
        (close s (update_row now scope_id operation_id expected lease_id c found s))
        (update_found now scope_id operation_id expected lease_id c (table_of s) found)
unfolding update_row
update_row-Refines now scope_id operation_id expected lease_id c s none f =
    (refl, λ scope other. refl)
update_row-Refines now scope_id operation_id expected lease_id c s (some row) f =
    by_guard (is_stale expected row.version || lost_lease lease_id row.lease_id)
  where
    by_guard :
        (b : Bool)
        → Refines
            (close s (
              if b
              then returned (none, s)
              else operation row >>= λ r. next_state r.state c.state >>= λ state.
                  row_after now (operation_state_value state) c scope_id operation_id s r state))
            (if b
              then (returned none, table_of s)
              else write scope_id operation_id (table_of s) (written_record now c row))
    by_guard true = (refl, λ scope other. refl)
    by_guard false = chains-Refines now scope_id operation_id c s row (operation row) f refl

-- In a store of the current schema whose rows are not due to be pruned, `update` with well-formed
-- changes is the update of a map from keys to rows: it answers what the map's update answers, and
-- afterwards holds under every key the row that the map then has, so that no other operation is
-- touched.
pub update-Refines :
    (clock now : ℕ) (scope_id operation_id : String) (expected : Option ℕ)
    (lease_id : Option String) (c : Changes) (s : StateStore)
    → check_changes c ≡ returned tt
    → must_prune clock s.last_prune_at ≡ false
    → s.user_version ≡ schema_version
    → Refines
        (update clock now scope_id operation_id expected lease_id c s)
        (update_table now scope_id operation_id expected lease_id c (table_of s))
unfolding update
update-Refines clock now scope_id operation_id expected lease_id c s ok kept v =
    let body : StateStore → Outcome (Option OperationRecord × StateStore) = λ t.
      update_row now scope_id operation_id expected lease_id c
        (find (is_at scope_id operation_id) t.operations) t in
    subst
      (λ (p : Outcome (Option OperationRecord) × StateStore).
        Refines p (update_table now scope_id operation_id expected lease_id c (table_of s)))
      (sym (transaction_lem clock body s kept v)
        ∙ ap (λ (o : Outcome (Unit {0})). after o s (transaction clock body s)) (sym ok))
      (update_row-Refines now scope_id operation_id expected lease_id c s
        (find (is_at scope_id operation_id) s.operations) refl)
