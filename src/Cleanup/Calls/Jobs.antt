-- ===== src/Cleanup/Calls/Jobs.antt =====
-- The helpers of `RemoteChatCleanupManager` that use the state store, and what they keep.
use gemini_web_mcp.Common.{
  ℕ, String, Bool, true, false, refl, Option, none, some, if_elim, ◌==◌, if◌then◌else◌, erase,
  Outcome, returned, raised, or_default,
}
use gemini_web_mcp.Domain.Conversations.{CleanupObservation, CleanupState}
use gemini_web_mcp.Store.Records.{CleanupJobRecord}
use gemini_web_mcp.Store.Cleanup.{upsert, get_job}
use gemini_web_mcp.Store.Transactions.{StateStore}
use gemini_web_mcp.Cleanup.State.{
  Manager, Locked, next_step, ◌>>=◌, answer, on_store, adopt_pending, adopt_completed, adopt,
  adopt_as, called, adopted_state, observation_of, store_observation,
}
use gemini_web_mcp.Cleanup.Durable.{
  latest, enqueue_durable, new_job, drop_pending, adopt_retained, is_retained_after_claim,
  retain_durable,
}
use gemini_web_mcp.Cleanup.Calls.Kept.{
  Keeps, Keeps-refl, Keeps-trans, store_observation-Keeps, adopt_pending-Keeps,
  adopt_completed-Keeps, pending-Keeps, All-erase, IsTaskOf,
}

-- A computation under the lock keeps everything, whether it answers or raises.
unfoldable pub IsKept : {A : Type 0} → Locked A → Type 0
IsKept x = (m : Manager) → Keeps m (x m).1

pub IsKept-from : {A : Type 0} (x : Locked A) → ((m : Manager) → Keeps m (x m).1) → IsKept x
unfolding IsKept
IsKept-from x h = h

pub IsKept-Keeps : {A : Type 0} (x : Locked A) → IsKept x → (m : Manager) → Keeps m (x m).1
unfolding IsKept
IsKept-Keeps x h = h

adopted-Keeps :
    (r : CleanupJobRecord) (m : Manager) (state : CleanupState)
    → Keeps m (
        store_observation r.resource_id
          (observation_of state r)
          m.authentication_generation
          (adopt_completed state r.resource_id (observation_of state r) (adopt_pending r m)))
adopted-Keeps r m state =
    let o = observation_of state r in
    let n = adopt_pending r m in
    let k = adopt_completed state r.resource_id o n in
    Keeps-trans m n (store_observation r.resource_id o m.authentication_generation k)
      (adopt_pending-Keeps r m)
      (Keeps-trans n k (store_observation r.resource_id o m.authentication_generation k)
        (adopt_completed-Keeps state r.resource_id o n refl)
        (store_observation-Keeps r.resource_id o m.authentication_generation k))

adopt_as-Keeps :
    (r : CleanupJobRecord) (m : Manager) (o : Option CleanupState) → Keeps m (adopt_as r m o).1
unfolding adopt_as
adopt_as-Keeps r m none = Keeps-refl m
adopt_as-Keeps r m (some state) = adopted-Keeps r m state

pub adopt-IsKept : (r : CleanupJobRecord) → IsKept (adopt r)
unfolding adopt IsKept
adopt-IsKept r m = adopt_as-Keeps r m (adopted_state r.state)

pub step-Keeps :
    {A B : Type 0} (m : Manager) (p : Outcome A × Manager) (f : A → Locked B)
    → Keeps m p.1
    → ((a : A) → IsKept (f a))
    → Keeps m (next_step p f).1
unfolding IsKept
step-Keeps m (returned a, n) f h k = Keeps-trans m n (f a n).1 h (k a n)
step-Keeps m (raised e, n) f h k = h

pub bind-IsKept :
    {A B : Type 0} (x : Locked A) (f : A → Locked B)
    → IsKept x
    → ((a : A) → IsKept (f a))
    → IsKept (x >>= f)
unfolding IsKept
bind-IsKept x f h k m = step-Keeps m (x m) f (h m) k

pub answer-IsKept : {A : Type 0} (a : A) → IsKept (answer a)
unfolding IsKept
answer-IsKept a m = Keeps-refl m

called-Keeps :
    {A : Type 0} (call : StateStore → Outcome A × StateStore) (m : Manager) (o : Option StateStore)
    → Keeps m (called call m o).1
called-Keeps call m none = Keeps-refl m
called-Keeps call m (some s) = Keeps-refl m

pub on_store-IsKept :
    {A : Type 0} (call : StateStore → Outcome A × StateStore) → IsKept (on_store call)
unfolding IsKept
on_store-IsKept call m = called-Keeps call m m.state_store

pub if-IsKept :
    {A : Type 0} (b : Bool) (x y : Locked A) → IsKept x → IsKept y → IsKept (if b then x else y)
if-IsKept true x y hx hy = hx
if-IsKept false x y hx hy = hy

pub latest-IsKept :
    (clock : ℕ) (scope cid : String) (r : CleanupJobRecord) (o : Option CleanupJobRecord)
    → IsKept (latest clock scope cid r o)
latest-IsKept clock scope cid r none =
    bind-IsKept _ _ (on_store-IsKept (get_job clock scope cid))
      (λ o. answer-IsKept (or_default o r))
latest-IsKept clock scope cid r (some updated) = answer-IsKept updated

-- An update and what is then the latest record of the job.
pub updated-IsKept :
    {A : Type 0} (clock : ℕ) (scope cid : String) (r : CleanupJobRecord)
    (call : StateStore → Outcome (Option CleanupJobRecord) × StateStore)
    (next : CleanupJobRecord → Locked A)
    → ((current : CleanupJobRecord) → IsKept (next current))
    → IsKept (on_store call >>= λ updated. latest clock scope cid r updated >>= next)
updated-IsKept clock scope cid r call next k =
    bind-IsKept _ _ (on_store-IsKept call)
      (λ o. bind-IsKept _ _ (latest-IsKept clock scope cid r o) k)

pub enqueue_durable-IsKept :
    (t : ℕ → ℕ) (job_id scope cid : String) (delete_at : ℕ) (source : String)
    → IsKept (enqueue_durable t job_id scope cid delete_at source)
unfolding enqueue_durable
enqueue_durable-IsKept t job_id scope cid delete_at source =
    on_store-IsKept (upsert (t 1) (new_job (t 0) job_id scope cid delete_at source))

pub drop_pending-Keeps : (cid : String) (m : Manager) → Keeps m (drop_pending cid m)
drop_pending-Keeps cid m =
    pending-Keeps (erase cid m.pending) m.next m
      (λ v. All-erase (IsTaskOf m.authentication_generation) cid m.pending v.0)

adopt_retained-IsKept : (cid : String) (r : CleanupJobRecord) → IsKept (adopt_retained cid r)
unfolding adopt_retained
adopt_retained-IsKept cid r = bind-IsKept _ _ (adopt-IsKept r) (λ o. IsKept-from _ (λ m.
    if_elim (λ (p : Outcome CleanupObservation × Manager). Keeps m p.1) (is_retained_after_claim r)
      _ _ (λ e. drop_pending-Keeps cid m) (λ e. Keeps-refl m)))

pub retain_durable-IsKept :
    (t : ℕ → ℕ) (scope cid : String) (found : Option CleanupJobRecord)
    → IsKept (retain_durable t scope cid found)
unfolding retain_durable
retain_durable-IsKept t scope cid none = answer-IsKept none
retain_durable-IsKept t scope cid (some r) =
    if-IsKept (r.state == "completed") _ _
      (bind-IsKept _ _ (adopt_retained-IsKept cid r) (λ o. answer-IsKept (some o)))
      (updated-IsKept _ _ _ _ _ _ (λ current.
        bind-IsKept _ _ (adopt_retained-IsKept cid current) (λ o. answer-IsKept (some o))))
