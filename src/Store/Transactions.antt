-- ===== src/Store/Transactions.antt =====
-- `StateStore` of infrastructure/state_store.py: the tables, and the transaction around each call.
-- Left out are the permission checks on the file and the retries on a busy database: a transaction
-- of the model is one whose locks are taken. The two clock readings of a call are arguments.
use gemini_web_mcp.Common.{
  ℕ, ◌-◌, Bool, true, not, ◌&&◌, ◌||◌, Option, none, some, List, [], ◌∷◌, if◌then◌else◌, ltb, leb,
  ◌==◌, Outcome, returned, raised, PyError, sqlite_error, state_store_error,
}
use gemini_web_mcp.Store.Records.{OperationRow, CleanupJobRecord}

pub record StateStore : Type 0 where
  pub operations : List OperationRow
  pub cleanup_jobs : List CleanupJobRecord
  pub user_version : ℕ
  pub last_prune_at : Option ℕ

abbrev pub schema_version : ℕ
schema_version = 4

-- The rows that pass a test.
unfoldable pub filter : {A : Type 0} → (A → Bool) → List A → List A
filter p [] = []
filter p (x ∷ xs) = let rest = filter p xs in if p x then x ∷ rest else rest

-- `self._last_prune_at is None or now - self._last_prune_at >= 3600`: a clock that ran backwards
-- gives a negative difference, which is below the bound as 0 is.
abbrev pub must_prune : ℕ → Option ℕ → Bool
must_prune now none = true
must_prune now (some last) = leb 3600 (now - last)

-- `expires_at<=?`
abbrev pub has_expired : ℕ → OperationRow → Bool
has_expired now row = leb row.expires_at now

-- `expires_at<=? AND state IN ('completed','cancelled','retained')`
abbrev pub is_disposable : ℕ → CleanupJobRecord → Bool
is_disposable now job =
    leb job.expires_at now
    && (job.state == "completed" || job.state == "cancelled" || job.state == "retained")

-- What a transaction does before its body: the schema is brought up to date and, once an hour,
-- what has expired is deleted.
unfoldable pub begin : ℕ → StateStore → StateStore
unfolding filter
begin now s =
    if must_prune now s.last_prune_at
    then record {
      operations = filter (λ row. not (has_expired now row)) s.operations;
      cleanup_jobs = filter (λ job. not (is_disposable now job)) s.cleanup_jobs;
      user_version = schema_version;
      last_prune_at = some now;
    }
    else record s { user_version = schema_version }

-- An error of the database leaves the transaction as a `StateStoreError`; another passes through.
abbrev pub translated : PyError → PyError
translated (sqlite_error message) = state_store_error "Local operation state could not be accessed."
translated e = e

-- A body that returns is committed; one that raises leaves the store as it was.
abbrev pub close : {A : Type 0} → StateStore → Outcome (A × StateStore) → Outcome A × StateStore
close s (returned (a, t)) = (returned a, t)
close s (raised e) = (raised (translated e), s)

-- `with self.store.transaction() as conn: body`
unfoldable pub transaction :
    {A : Type 0} → ℕ → (StateStore → Outcome (A × StateStore)) → StateStore → Outcome A × StateStore
unfolding begin
transaction now body s =
    if ltb schema_version s.user_version
    then (raised (state_store_error "State database schema is newer than this installation."), s)
    else close s (body (begin now s))

-- `.fetchone()`: the first row that passes the test.
unfoldable pub find : {A : Type 0} → (A → Bool) → List A → Option A
find p [] = none
find p (x ∷ xs) = if p x then some x else find p xs

-- `UPDATE … WHERE`
unfoldable pub update_where : {A : Type 0} → (A → Bool) → (A → A) → List A → List A
update_where p f [] = []
update_where p f (x ∷ xs) = let rest = update_where p f xs in if p x then f x ∷ rest else x ∷ rest
