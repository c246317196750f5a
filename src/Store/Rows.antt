-- ===== src/Store/Rows.antt =====
-- Facts about all rows of a table after `DELETE`, `UPDATE` and the start of a transaction.
use gemini_web_mcp.Common.{
  subst, ℕ, Bool, true, not, ◌≡◌, refl, some, List, [], ◌∷◌, arith, All, if_elim, Outcome, returned,
  raised, Bool-cases, inl, inr, ltb,
}
use gemini_web_mcp.Store.Records.{OperationRow, CleanupJobRecord}
use gemini_web_mcp.Store.Transactions.{
  StateStore, filter, find, update_where, begin, transaction, schema_version, must_prune,
  has_expired, is_disposable, close,
}

module _ {A : Type 0} (P : A → Type 0) (p : A → Bool) where
  pub All-filter : (xs : List A) → All P xs → All P (filter p xs)
  unfolding filter
  All-filter [] h = tt
  All-filter (x ∷ xs) h =
      if_elim (λ (l : List A). All P l) (p x) _ _ (λ e. (h.0, All-filter xs h.1))
        (λ e. All-filter xs h.1)

  pub All-find : (xs : List A) (x : A) → All P xs → find p xs ≡ some x → (p x ≡ true) × P x
  unfolding find
  All-find [] x h e = cc
  All-find (y ∷ ys) x h e = elim (Bool-cases (p y)) [
    | inl b ↦
        let same : y ≡ x = ground (arith) in subst (λ (z : A). (p z ≡ true) × P z) same (b, h.0)
    | inr b ↦ All-find ys x h.1 (rw b at e)
  ]

  pub All-update :
      (f : A → A) (xs : List A) → ((x : A) → P x → P (f x)) → All P xs → All P (update_where p f xs)
  unfolding update_where
  All-update f [] k h = tt
  All-update f (x ∷ xs) k h =
      if_elim (λ (l : List A). All P l) (p x) _ _ (λ e. (k x h.0, All-update f xs k h.1))
        (λ e. (h.0, All-update f xs k h.1))

-- After `UPDATE … WHERE`, each row that the condition selects has what the new rows have.
pub update_where_marks :
    {A : Type 0} (P : A → Type 0) (p : A → Bool) (f : A → A) (xs : List A)
    → ((x : A) → P (f x))
    → All (λ x. p x ≡ true → P x) (update_where p f xs)
unfolding update_where
update_where_marks P p f [] k = tt
update_where_marks {A = A} P p f (x ∷ xs) k =
    if_elim (λ (l : List A). All (λ x. p x ≡ true → P x) l) (p x) _ _
      (λ e. (λ h. k x, update_where_marks P p f xs k))
      (λ e. ((λ h. absurd (ground arith)), update_where_marks P p f xs k))

pub begin-operations :
    (P : OperationRow → Type 0) (now : ℕ) (s : StateStore)
    → All P s.operations
    → All P (begin now s).operations
unfolding begin
begin-operations P now s h =
    if_elim (λ (t : StateStore). All P t.operations) (must_prune now s.last_prune_at) _ _
      (λ e. All-filter P (λ row. not (has_expired now row)) s.operations h) (λ e. h)

pub begin-cleanup_jobs :
    (P : CleanupJobRecord → Type 0) (now : ℕ) (s : StateStore)
    → All P s.cleanup_jobs
    → All P (begin now s).cleanup_jobs
unfolding begin
begin-cleanup_jobs P now s h =
    if_elim (λ (t : StateStore). All P t.cleanup_jobs) (must_prune now s.last_prune_at) _ _
      (λ e. All-filter P (λ job. not (is_disposable now job)) s.cleanup_jobs h) (λ e. h)

-- A predicate of stores holds after a transaction if it holds before and the body, from the start
-- of the transaction, keeps it.
pub transaction-keeps :
    {A : Type 0} (P : StateStore → Type 0) (now : ℕ) (body : StateStore → Outcome (A × StateStore))
    (s : StateStore)
    → P s
    → ((a : A) (t : StateStore) → body (begin now s) ≡ returned (a, t) → P t)
    → P (transaction now body s).1
unfolding transaction
transaction-keeps {A = A} P now body s h k =
    if_elim (λ (o : Outcome A × StateStore). P o.1) (ltb schema_version s.user_version) _ _ (λ e. h)
      (λ e. closed (body (begin now s)) k)
  where
    closed :
        (o : Outcome (A × StateStore))
        → ((a : A) (t : StateStore) → o ≡ returned (a, t) → P t)
        → P (close s o).1
    closed (returned (a, t)) k = k a t refl
    closed (raised e) k = h

-- A transaction that answers ran its body to the end.
pub transaction_returned :
    {A : Type 0} (now : ℕ) (body : StateStore → Outcome (A × StateStore)) (s : StateStore) (a : A)
    → (transaction now body s).0 ≡ returned a
    → body (begin now s) ≡ returned (a, (transaction now body s).1)
unfolding transaction
transaction_returned {A = A} now body s a h =
    elim (Bool-cases (ltb schema_version s.user_version)) [
      | inl e ↦ absurd (ground arith)
      | inr e ↦ rw e (closed (body (begin now s)) (rw e at h))
    ]
  where
    closed :
        (o : Outcome (A × StateStore))
        → (close s o).0 ≡ returned a
        → o ≡ returned (a, (close s o).1)
    closed (returned (b, t)) h = ground arith
    closed (raised e) h = absurd (ground arith)

-- The first row that the condition selects is the one found after an update that keeps the condition.
pub find-update_where :
    {A : Type 0} (p : A → Bool) (f : A → A) (xs : List A) (x : A)
    → ((y : A) → p (f y) ≡ p y)
    → find p xs ≡ some x
    → find p (update_where p f xs) ≡ some (f x)
unfolding find update_where
find-update_where p f [] x k h = cc
find-update_where p f (y ∷ ys) x k h = elim (Bool-cases (p y)) [
  | inl b ↦ ground (arith, k y)
  | inr b ↦ ground (arith, find-update_where p f ys x k)
]

pub find-holds : {A : Type 0} (p : A → Bool) (xs : List A) (x : A) → find p xs ≡ some x → p x ≡ true
unfolding find
find-holds p [] x h = cc
find-holds {A = A} p (y ∷ ys) x h = elim (Bool-cases (p y)) [
  | inl b ↦ let same : y ≡ x = ground (arith) in subst (λ (z : A). p z ≡ true) same b
  | inr b ↦ find-holds p ys x (rw b at h)
]
