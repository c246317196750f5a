-- ===== src/Cleanup/Pages.antt =====
-- The loop over the pages of jobs in `_durable_records_locked`, and the list that the store orders.
use gemini_web_mcp.Common.{
  ℕ, zero, suc, ◌+◌, ◌<◌, ◌≤◌, ◌*◌, String, true, false, ◌≡◌, refl, sym, ap, ◌∙◌, List, [], ◌∷◌,
  ◌++◌, arith, Option, some, Outcome, returned, length, length-append, take, drop, ltb, Bool-cases,
  inl, inr,
}
use gemini_web_mcp.Store.Records.{CleanupJobRecord}
use gemini_web_mcp.Store.Transactions.{StateStore, filter, schema_version, must_prune}
use gemini_web_mcp.Store.Updates.Versions.{transaction_lem}
use gemini_web_mcp.Store.Claims.{list_jobs, is_listed, ordered}
use gemini_web_mcp.Cleanup.Context.{read_pages, after_page, durable_records}
use gemini_web_mcp.Cleanup.State.{Manager, Locked, on_store, called, scoped}

zero-add : (k : ℕ) → 0 + k ≡ k
zero-add k = omega arith

suc-add : (n k : ℕ) → suc n + k ≡ suc (n + k)
suc-add n k = omega arith

ltb-true : (a b : ℕ) → ltb a b ≡ true → a < b
ltb-true a b h = ground arith

ltb-false : (a b : ℕ) → ltb a b ≡ false → b ≤ a
ltb-false a b h = ground arith

module _ {A : Type 0} where
  short_take : (k : ℕ) (l : List A) → length (take k l) < k → take k l ≡ l
  short_take zero l h = absurd (omega (arith, h))
  short_take (suc k) [] h = refl
  short_take (suc k) (x ∷ l) h = ap (λ (r : List A). x ∷ r) (short_take k l (omega (arith, h)))

  take_bound : (k : ℕ) (l : List A) → length (take k l) ≤ k
  take_bound zero l = omega arith
  take_bound (suc k) [] = omega arith
  take_bound (suc k) (x ∷ l) = omega (arith, take_bound k l)

  take-drop : (k : ℕ) (l : List A) → take k l ++ drop k l ≡ l
  take-drop zero l = refl
  take-drop (suc k) [] = refl
  take-drop (suc k) (x ∷ l) = ap (λ (r : List A). x ∷ r) (take-drop k l)

  drop-nil : (i : ℕ) → Path (List A) (drop i []) []
  drop-nil zero = refl
  drop-nil (suc i) = refl

  drop-drop : (n k : ℕ) (l : List A) → drop (n + k) l ≡ drop k (drop n l)
  drop-drop zero k l = ap (λ (i : ℕ). drop i l) (zero-add k)
  drop-drop (suc n) k [] = drop-nil (suc n + k) ∙ sym (drop-nil k)
  drop-drop (suc n) k (x ∷ l) = ap (λ (i : ℕ). drop i (x ∷ l)) (suc-add n k) ∙ drop-drop n k l

-- The jobs of a scope, as the store lists them.
abbrev pub jobs_of : String → StateStore → List CleanupJobRecord
jobs_of scope s = ordered (filter (is_listed scope []) s.cleanup_jobs)

page_lem :
    (clock : ℕ) (scope : String) (n : ℕ) (s : StateStore)
    → must_prune clock s.last_prune_at ≡ false
    → s.user_version ≡ schema_version
    → list_jobs clock scope 100 n [] s ≡ (returned (take 100 (drop n (jobs_of scope s))), s)
unfolding list_jobs
page_lem clock scope n s h v =
    transaction_lem clock
      (λ t. returned (take 100 (drop n (ordered (filter (is_listed scope []) t.cleanup_jobs))), t))
      s h v

last_page :
    (next : ℕ → StateStore → Outcome (List CleanupJobRecord) × StateStore) (n : ℕ)
    (records : List CleanupJobRecord) (s : StateStore)
    → ltb (length records) 100 ≡ true
    → after_page next n (returned records, s) ≡ (returned records, s)
last_page next n records s h = rw h refl

full_page :
    (next : ℕ → StateStore → Outcome (List CleanupJobRecord) × StateStore) (n : ℕ)
    (records more : List CleanupJobRecord) (s : StateStore)
    → ltb (length records) 100 ≡ false
    → next (n + length records) s ≡ (returned more, s)
    → after_page next n (returned records, s) ≡ (returned (records ++ more), s)
full_page next n records more s h e =
    rw (h, e)
      (ap (λ (u : StateStore). (returned (records ++ more), u))
        (ap (λ (p : Outcome (List CleanupJobRecord) × StateStore). p.1) e))

-- In a store of the current schema in which no reading of the clock makes a pruning due, the loop
-- reads exactly the jobs of the scope from the `n`-th on, in their order, and leaves the store as it
-- is, if the rounds are enough for them: a page of 100 for each, and one that is not full.
pub read_pages_lem :
    (rounds : ℕ) (t : ℕ → ℕ) (scope : String) (n : ℕ) (s : StateStore)
    → ((i : ℕ) → must_prune (t i) s.last_prune_at ≡ false)
    → s.user_version ≡ schema_version
    → length (drop n (jobs_of scope s)) < 100 * rounds
    → read_pages rounds t scope n s ≡ (returned (drop n (jobs_of scope s)), s)
unfolding read_pages
read_pages_lem zero t scope n s h v e = absurd (omega (arith, e))
read_pages_lem (suc rounds) t scope n s h v e =
    ap (after_page (λ k u. read_pages rounds t scope k u) n) (page_lem (t n) scope n s (h n) v)
    ∙ elim (Bool-cases (ltb (length page) 100)) [
      | inl b ↦
          last_page (λ k u. read_pages rounds t scope k u) n page s b
          ∙ ap (λ (l : List CleanupJobRecord). (returned l, s))
              (short_take 100 rest (ltb-true (length page) 100 b))
      | inr b ↦
          let full : length page ≡ 100 =
            omega (arith, ltb-false (length page) 100 b, take_bound 100 rest) in
          let more : drop (n + length page) (jobs_of scope s) ≡ drop 100 rest =
            rw full (drop-drop n 100 (jobs_of scope s)) in
          let split = take-drop 100 rest in
          let shorter : length (drop 100 rest) < 100 * rounds =
            omega (arith, e, full, length-append page (drop 100 rest), ap length split) in
          full_page (λ k u. read_pages rounds t scope k u) n page (drop 100 rest) s b
            (read_pages_lem rounds t scope (n + length page) s h v (rw more shorter)
              ∙ ap (λ (l : List CleanupJobRecord). (returned l, s)) more)
          ∙ ap (λ (l : List CleanupJobRecord). (returned l, s)) split
    ]
  where
    rest : List CleanupJobRecord
    rest = drop n (jobs_of scope s)

    page : List CleanupJobRecord
    page = take 100 rest

same_store :
    (m : Manager) (s : StateStore) → m.state_store ≡ some s → record m { state_store = some s } ≡ m
same_store m s h = ap (λ (o : Option StateStore). record m { state_store = o }) (sym h)

pub on_store_lem :
    {A : Type 0} (call : StateStore → Outcome A × StateStore) (a : A) (s : StateStore) (m : Manager)
    → m.state_store ≡ some s
    → call s ≡ (returned a, s)
    → on_store call m ≡ (returned a, m)
on_store_lem {A = A} call a s m held h =
    ap (λ (o : Option StateStore). called call m o) held
    ∙ ap (λ (r : Outcome A × StateStore). (r.0, record m { state_store = some r.1 })) h
    ∙ ap (λ (n : Manager). (returned a, n)) (same_store m s held)

-- With a store of the current schema in which no reading of the clock makes a pruning due, and in an
-- authentication scope, `_durable_records_locked` answers every job of the scope, once and in the
-- store's order, and changes nothing, if the bound on its rounds allows a page of 100 jobs for each
-- and one that is not full.
pub durable_records_lem :
    (rounds : ℕ) (t : ℕ → ℕ) (scope : String) (s : StateStore) (m : Manager)
    → m.state_store ≡ some s
    → m.authentication_scope ≡ some scope
    → ((i : ℕ) → must_prune (t i) s.last_prune_at ≡ false)
    → s.user_version ≡ schema_version
    → length (jobs_of scope s) < 100 * rounds
    → durable_records rounds t m ≡ (returned (jobs_of scope s), m)
unfolding durable_records
durable_records_lem rounds t scope s m held known h v e =
    let run : String → Locked (List CleanupJobRecord) = λ c. on_store (read_pages rounds t c 0) in
    ap (λ (o : Option StateStore). scoped [] [] run o m.authentication_scope m) held
    ∙ ap (λ (k : Option String). scoped [] [] run (some s) k m) known
    ∙ on_store_lem (read_pages rounds t scope 0) (jobs_of scope s) s m held
        (read_pages_lem rounds t scope 0 s h v e)
