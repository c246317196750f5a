-- ===== src/Cleanup/Calls/Kept.antt =====
-- What every piece of `RemoteChatCleanupManager` keeps, and the helpers under its lock that keep it.
use gemini_web_mcp.Common.{
  ℕ, suc, ◌≤◌, String, true, ◌&&◌, ◌≡◌, refl, subst, Option, none, some, List, [], ◌∷◌, arith, All,
  if_elim, Bool-cases, inl, inr, Dict, lookup, insert, erase, lookup-insert, eq_iff, ◌==◌, eqb,
}
use gemini_web_mcp.Domain.Conversations.{CleanupObservation, CleanupState}
use gemini_web_mcp.Store.Records.{CleanupJobRecord}
use gemini_web_mcp.Cleanup.State.{
  Manager, CleanupTask, CancelledEntry, store_observation, is_recent, find_cancelled,
  keep_cancelled, changed_observation, attempts_of, cancelled_for_generation, storage_failure,
  adopt_pending, adopt_completed, is_open, is_outdated, task_of,
}

-- The generation of each chat's observation only grows.
abbrev pub Grows : Manager → Manager → Type 0
Grows m n =
    (cid : String) (g : ℕ)
    → lookup cid m.observation_generations ≡ some g
    → (later : ℕ) × (lookup cid n.observation_generations ≡ some later) × (g ≤ later)

-- And so does the generation of the manager.
abbrev pub IsLater : Manager → Manager → Type 0
IsLater m n = m.authentication_generation ≤ n.authentication_generation × Grows m n

abbrev pub IsTaskOf : ℕ → String × CleanupTask → Type 0
IsTaskOf generation e = e.1.authentication_generation ≡ generation

abbrev pub IsCompleted : String × CleanupObservation → Type 0
IsCompleted e = e.1.state ≡ CleanupState.completed

abbrev pub IsCancelled : CancelledEntry → Type 0
IsCancelled e = e.observation.state ≡ CleanupState.cancelled

-- Each pending task is one of the current generation, and what is kept as completed or as cancelled
-- is so.
abbrev pub IsValid : Manager → Type 0
IsValid m =
    All (IsTaskOf m.authentication_generation) m.pending
    × All IsCompleted m.completed
    × All IsCancelled m.cancelled

-- What a piece keeps that stays in the authentication context.
abbrev pub Keeps : Manager → Manager → Type 0
Keeps m n =
    ((n.authentication_generation ≡ m.authentication_generation) × Grows m n)
    × (IsValid m → IsValid n)

pub Keeps-refl : (m : Manager) → Keeps m m
Keeps-refl m = ((omega arith, λ cid g h. (g, h, omega arith)), λ v. v)

pub Keeps-trans : (m n k : Manager) → Keeps m n → Keeps n k → Keeps m k
Keeps-trans m n k a b = (
  (
    omega (arith, a.0.0, b.0.0),
    λ cid g h.
        let x = a.0.1 cid g h in let y = b.0.1 cid x.0 x.1 in (y.0, y.1, omega (arith, x.2, y.2)),
  ),
  λ v. b.1 (a.1 v),
)

module _ {V : Type 0} (P : String × V → Type 0) where
  pub All-insert : (k : String) (v : V) (d : Dict V) → P (k, v) → All P d → All P (insert k v d)
  unfolding insert
  All-insert k v [] p h = (p, tt)
  All-insert k v ((j, w) ∷ d) p h =
      if_elim (λ (l : Dict V). All P l) (j == k) _ _ (λ e. (p, h.1))
        (λ e. (h.0, All-insert k v d p h.1))

  pub All-erase : (k : String) (d : Dict V) → All P d → All P (erase k d)
  unfolding erase
  All-erase k [] h = tt
  All-erase k ((j, w) ∷ d) h =
      if_elim (λ (l : Dict V). All P l) (j == k) _ _ (λ e. All-erase k d h.1)
        (λ e. (h.0, All-erase k d h.1))

  pub All-lookup :
      (k : String) (v : V) (d : Dict V) → All P d → lookup k d ≡ some v → (j : String) × P (j, v)
  unfolding lookup
  All-lookup k v [] h e = cc
  All-lookup k v ((j, w) ∷ d) h e = elim (Bool-cases (j == k)) [
    | inl b ↦ let same : w ≡ v = ground arith in (j, subst (λ (x : V). P (j, x)) same h.0)
    | inr b ↦ All-lookup k v d h.1 (rw b at e)
  ]

recent_bound :
    (generation g : ℕ) (o : Option ℕ) → is_recent generation o ≡ true → o ≡ some g → g ≤ generation
recent_bound generation g none r h = absurd (ground arith)
recent_bound generation g (some k) r h = ground arith

grown :
    (cid key : String) (generation g : ℕ) (d : Dict ℕ)
    → is_recent generation (lookup cid d) ≡ true
    → lookup key d ≡ some g
    → (later : ℕ) × (lookup key (insert cid generation d) ≡ some later) × (g ≤ later)
grown cid key generation g d r h = elim (Bool-cases (cid == key)) [
  | inl b ↦ (
    generation,
    rw (lookup-insert cid key generation d, b) refl,
    recent_bound generation g (lookup cid d) r (rw ((eq_iff cid key).0 b) h),
  )
  | inr b ↦ (g, rw (lookup-insert cid key generation d, b) h, omega arith)
]

pub store_observation-Keeps :
    (cid : String) (o : CleanupObservation) (generation : ℕ) (m : Manager)
    → Keeps m (store_observation cid o generation m)
unfolding store_observation
store_observation-Keeps cid o generation m =
    if_elim (λ (n : Manager). Keeps m n)
      (is_recent generation (lookup cid m.observation_generations)) _ _
      (λ r. (
        (omega arith, λ key g h. grown cid key generation g m.observation_generations r h),
        λ v. v,
      ))
      (λ r. Keeps-refl m)

found-IsCancelled :
    (generation : ℕ) (cid : String) (entries : List CancelledEntry) (o : CleanupObservation)
    → All IsCancelled entries
    → find_cancelled generation cid entries ≡ some o
    → o.state ≡ CleanupState.cancelled
unfolding find_cancelled
found-IsCancelled generation cid [] o h e = cc
found-IsCancelled generation cid (x ∷ entries) o h e =
    elim (Bool-cases (eqb x.generation generation && x.cid == cid)) [
      | inl b ↦
          let same : x.observation ≡ o = ground arith in
          subst (λ (p : CleanupObservation). p.state ≡ CleanupState.cancelled) same h.0
      | inr b ↦ found-IsCancelled generation cid entries o h.1 (rw b at e)
    ]

keep_cancelled-Keeps :
    (cid : String) (generation : ℕ) (diagnostic_id : String) (found : Option CleanupObservation)
    (m : Manager)
    → Keeps m (keep_cancelled cid generation diagnostic_id found m).1
unfolding keep_cancelled
keep_cancelled-Keeps cid generation diagnostic_id (some o) m =
    store_observation-Keeps cid o generation m
keep_cancelled-Keeps cid generation diagnostic_id none m =
    let o = changed_observation cid (attempts_of (lookup cid m.observations)) diagnostic_id in
    let entry : CancelledEntry = record { generation = generation; cid = cid; observation = o } in
    let n = record m { cancelled = entry ∷ m.cancelled } in
    Keeps-trans m n (store_observation cid o generation n)
      ((omega arith, λ key g h. (g, h, omega arith)), λ v. (v.0, v.1, (refl, v.2)))
      (store_observation-Keeps cid o generation n)

pub cancelled_for_generation-Keeps :
    (cid : String) (generation : ℕ) (diagnostic_id : String) (m : Manager)
    → Keeps m (cancelled_for_generation cid generation diagnostic_id m).1
unfolding cancelled_for_generation
cancelled_for_generation-Keeps cid generation diagnostic_id m =
    keep_cancelled-Keeps cid generation diagnostic_id (find_cancelled generation cid m.cancelled) m

-- The work, its results and the state store are the same.
abbrev pub IsSameWork : Manager → Manager → Type 0
IsSameWork m n =
    (n.pending ≡ m.pending)
    × (n.completed ≡ m.completed)
    × (n.inflight ≡ m.inflight)
    × (n.state_store ≡ m.state_store)

pub store_observation-IsSameWork :
    (cid : String) (o : CleanupObservation) (generation : ℕ) (m : Manager)
    → IsSameWork m (store_observation cid o generation m)
unfolding store_observation
store_observation-IsSameWork cid o generation m =
    if_elim (λ (n : Manager). IsSameWork m n)
      (is_recent generation (lookup cid m.observation_generations)) _ _
      (λ r. (refl, refl, refl, refl)) (λ r. (refl, refl, refl, refl))

keep_cancelled_lem :
    (cid : String) (generation : ℕ) (diagnostic_id : String) (m : Manager)
    (found : Option CleanupObservation)
    → find_cancelled generation cid m.cancelled ≡ found
    → IsValid m
    → ((keep_cancelled cid generation diagnostic_id found m).0.state ≡ CleanupState.cancelled)
      × IsSameWork m (keep_cancelled cid generation diagnostic_id found m).1
unfolding keep_cancelled
keep_cancelled_lem cid generation diagnostic_id m none e v =
    let o = changed_observation cid (attempts_of (lookup cid m.observations)) diagnostic_id in
    let entry : CancelledEntry = record { generation = generation; cid = cid; observation = o } in
    (
      refl,
      store_observation-IsSameWork cid o generation (record m { cancelled = entry ∷ m.cancelled }),
    )
keep_cancelled_lem cid generation diagnostic_id m (some o) e v = (
  found-IsCancelled generation cid m.cancelled o v.2 e,
  store_observation-IsSameWork cid o generation m,
)

-- What is answered for an old generation is cancelled, and the work and its results stay.
pub cancelled_for_generation_lem :
    (cid : String) (generation : ℕ) (diagnostic_id : String) (m : Manager)
    → IsValid m
    → ((cancelled_for_generation cid generation diagnostic_id m).0.state ≡ CleanupState.cancelled)
      × IsSameWork m (cancelled_for_generation cid generation diagnostic_id m).1
unfolding cancelled_for_generation
cancelled_for_generation_lem cid generation diagnostic_id m v =
    keep_cancelled_lem cid generation diagnostic_id m (find_cancelled generation cid m.cancelled)
      refl v

pub storage_failure-Keeps :
    (cid source : String) (attempts : ℕ) (diagnostic_id : String) (m : Manager)
    → Keeps m (storage_failure cid source attempts diagnostic_id m).1
unfolding storage_failure
storage_failure-Keeps cid source attempts diagnostic_id m =
    let n = record m { suspended = cid ∷ m.suspended } in
    Keeps-trans m n (storage_failure cid source attempts diagnostic_id m).1 (Keeps-refl m) (
      store_observation-Keeps cid (storage_failure cid source attempts diagnostic_id m).0
        m.authentication_generation n)

-- A change of the pending tasks keeps everything if its tasks are of the current generation.
pub pending-Keeps :
    (tasks : Dict CleanupTask) (next : ℕ) (m : Manager)
    → (IsValid m → All (IsTaskOf m.authentication_generation) tasks)
    → Keeps m (record m { pending = tasks; next = next })
pending-Keeps tasks next m h = ((omega arith, λ cid g e. (g, e, omega arith)), λ v. (h v, v.1, v.2))

pub adopt_pending-Keeps : (r : CleanupJobRecord) (m : Manager) → Keeps m (adopt_pending r m)
unfolding adopt_pending
adopt_pending-Keeps r m =
    if_elim (λ (n : Manager). Keeps m n) (is_open r.state) _ _
      (λ o.
        if_elim (λ (n : Manager). Keeps m n)
          (is_outdated r.version (lookup r.resource_id m.pending)) _ _
          (λ d.
            pending-Keeps
              (insert r.resource_id (task_of m.next m.authentication_generation r) m.pending)
              (suc m.next) m
              (λ v.
                All-insert (IsTaskOf m.authentication_generation) r.resource_id
                  (task_of m.next m.authentication_generation r) m.pending refl v.0))
          (λ d. Keeps-refl m))
      (λ c.
        pending-Keeps (erase r.resource_id m.pending) m.next m
          (λ v. All-erase (IsTaskOf m.authentication_generation) r.resource_id m.pending v.0))

pub adopt_completed-Keeps :
    (state : CleanupState) (cid : String) (o : CleanupObservation) (m : Manager)
    → o.state ≡ state
    → Keeps m (adopt_completed state cid o m)
unfolding adopt_completed
adopt_completed-Keeps CleanupState.completed cid o m e = (
  (omega arith, λ k g h. (g, h, omega arith)),
  λ v. (v.0, All-insert IsCompleted cid o m.completed e v.1, v.2),
)
adopt_completed-Keeps CleanupState.not_applicable cid o m e = Keeps-refl m
adopt_completed-Keeps CleanupState.retained cid o m e = Keeps-refl m
adopt_completed-Keeps CleanupState.pending cid o m e = Keeps-refl m
adopt_completed-Keeps CleanupState.already_completed cid o m e = Keeps-refl m
adopt_completed-Keeps CleanupState.failed cid o m e = Keeps-refl m
adopt_completed-Keeps CleanupState.cancelled cid o m e = Keeps-refl m
adopt_completed-Keeps CleanupState.invalid_id cid o m e = Keeps-refl m
