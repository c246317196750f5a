-- ===== src/Cleanup/Calls/Durable.antt =====
-- The durable operations of `RemoteChatCleanupManager`, and what they keep.
use gemini_web_mcp.Common.{
  ℕ, ◌+◌, String, Bool, Option, none, some, List, [], ◌∷◌, leb, ◌==◌, or_default, is_some,
}
use gemini_web_mcp.Domain.Conversations.{CleanupObservation}
use gemini_web_mcp.Store.Records.{CleanupJobRecord}
use gemini_web_mcp.Store.Transactions.{StateStore}
use gemini_web_mcp.Store.Cleanup.{get_by_job_id}
use gemini_web_mcp.Store.Claims.{claim_job}
use gemini_web_mcp.Cleanup.State.{Manager, Locked, scoped, ◌>>=◌, on_store, is_open}
use gemini_web_mcp.Cleanup.Durable.{
  is_retained_after_claim, scheduled_job, is_earlier, adopt_scheduled, schedule_in_scope,
  durable_schedule, observe_job, end_lease, refuse_retained, is_brought_forward, bring_forward,
  claim_current, is_superseded, claim_record, after_claim, claim_found, claim_in_scope,
  claim_durable, unavailable_observation, Claim,
}
use gemini_web_mcp.Cleanup.Context.{
  read_pages, durable_records, adopt_all, refresh, cancel_open, cancel_open_jobs, adopt_current,
  updated_or_get, is_settled, cancel_found, cancel_durable_job,
}
use gemini_web_mcp.Cleanup.Calls.Kept.{Keeps, Keeps-refl}
use gemini_web_mcp.Cleanup.Calls.Jobs.{
  IsKept, IsKept-from, IsKept-Keeps, adopt-IsKept, bind-IsKept, answer-IsKept, on_store-IsKept,
  if-IsKept, latest-IsKept, enqueue_durable-IsKept, retain_durable-IsKept,
}

scheduled_job-IsKept :
    (t : ℕ → ℕ) (job_id scope cid : String) (explicit_delay : Bool) (delete_at : ℕ)
    (source : String) (found : Option CleanupJobRecord)
    → IsKept (scheduled_job t job_id scope cid explicit_delay delete_at source found)
unfolding scheduled_job
scheduled_job-IsKept t job_id scope cid explicit_delay delete_at source none =
    enqueue_durable-IsKept (λ i. t (i + 2)) job_id scope cid delete_at source
scheduled_job-IsKept t job_id scope cid explicit_delay delete_at source (some r) =
    if-IsKept (is_earlier explicit_delay delete_at r) _ _
      (bind-IsKept _ _ (on_store-IsKept _) (λ o. latest-IsKept (t 5) scope cid r o))
      (answer-IsKept r)

adopt_scheduled-IsKept : (r : CleanupJobRecord) → IsKept (adopt_scheduled r)
unfolding adopt_scheduled
adopt_scheduled-IsKept r =
    bind-IsKept _ _ (adopt-IsKept r)
      (λ o. if-IsKept (r.state == "completed") _ _ (answer-IsKept _) (answer-IsKept _))

schedule_in_scope-IsKept :
    (t : ℕ → ℕ) (job_id scope cid : String) (retain_chat explicit_delay : Bool) (delete_at : ℕ)
    (source : String)
    → IsKept (schedule_in_scope t job_id scope cid retain_chat explicit_delay delete_at source)
unfolding schedule_in_scope
schedule_in_scope-IsKept t job_id scope cid retain_chat explicit_delay delete_at source =
    bind-IsKept _ _ (on_store-IsKept _) (λ found.
      if-IsKept retain_chat _ _ (retain_durable-IsKept t scope cid found) (
        bind-IsKept _ _
          (scheduled_job-IsKept t job_id scope cid explicit_delay delete_at source found)
          (λ r. adopt_scheduled-IsKept r)))

scoped-Keeps :
    {A : Type 0} (a b : A) (x : String → Locked A) (o : Option StateStore) (k : Option String)
    (m : Manager)
    → ((scope : String) → IsKept (x scope))
    → Keeps m (scoped a b x o k m).1
scoped-Keeps a b x none k m h = Keeps-refl m
scoped-Keeps a b x (some s) none m h = Keeps-refl m
scoped-Keeps a b x (some s) (some scope) m h = IsKept-Keeps (x scope) (h scope) m

pub durable_schedule-IsKept :
    (t : ℕ → ℕ) (job_id cid : String) (retain_chat explicit_delay : Bool) (delete_at : ℕ)
    (source : String)
    → IsKept (durable_schedule t job_id cid retain_chat explicit_delay delete_at source)
unfolding durable_schedule
durable_schedule-IsKept t job_id cid retain_chat explicit_delay delete_at source =
    IsKept-from _ (λ m.
      scoped-Keeps none (some (unavailable_observation cid source))
        (λ scope. schedule_in_scope t job_id scope cid retain_chat explicit_delay delete_at source)
        m.state_store m.authentication_scope m
        (λ scope.
          schedule_in_scope-IsKept t job_id scope cid retain_chat explicit_delay delete_at source))

observe_job-IsKept :
    (change : CleanupObservation → CleanupObservation) (r : CleanupJobRecord)
    → IsKept (observe_job change r)
unfolding observe_job
observe_job-IsKept change r = bind-IsKept _ _ (adopt-IsKept r) (λ o. answer-IsKept _)

end_lease-IsKept : (t : ℕ → ℕ) (cid : String) (r : CleanupJobRecord) → IsKept (end_lease t cid r)
unfolding end_lease
end_lease-IsKept t cid r =
    if-IsKept (leb (or_default r.lease_until 0) (t 4)) _ _
      (bind-IsKept _ _ (on_store-IsKept _) (λ o. latest-IsKept (t 7) r.scope_id cid r o))
      (answer-IsKept r)

refuse_retained-IsKept :
    (t : ℕ → ℕ) (cid : String) (r : CleanupJobRecord) → IsKept (refuse_retained t cid r)
unfolding refuse_retained
refuse_retained-IsKept t cid r =
    bind-IsKept _ _ (end_lease-IsKept t cid r) (λ current. observe_job-IsKept _ current)

bring_forward-IsKept :
    (t : ℕ → ℕ) (automatic : Bool) (cid : String) (r : CleanupJobRecord)
    → IsKept (bring_forward t automatic cid r)
unfolding bring_forward
bring_forward-IsKept t automatic cid r =
    if-IsKept (is_brought_forward automatic (t 4) r) _ _
      (bind-IsKept _ _ (on_store-IsKept _) (λ o. latest-IsKept (t 7) r.scope_id cid r o))
      (answer-IsKept r)

after_claim-IsKept :
    (clock : ℕ) (cid : String) (r : CleanupJobRecord) (o : Option CleanupJobRecord)
    → IsKept (after_claim clock cid r o)
unfolding after_claim
after_claim-IsKept clock cid r none =
    bind-IsKept _ _ (on_store-IsKept _) (λ found. observe_job-IsKept _ (or_default found r))
after_claim-IsKept clock cid r (some job) =
    bind-IsKept _ _ (adopt-IsKept job) (λ o. answer-IsKept _)

claim_current-IsKept :
    (t : ℕ → ℕ) (lease_id cid : String) (r : CleanupJobRecord)
    → IsKept (claim_current t lease_id cid r)
unfolding claim_current
claim_current-IsKept t lease_id cid r = IsKept-from _ (λ m.
    IsKept-Keeps
      (on_store (claim_job (t 8) r.scope_id cid r.version lease_id (t 4 + m.lease_seconds) (t 4))
        >>= after_claim (t 9) cid r)
      (bind-IsKept _ _ (on_store-IsKept _) (λ o. after_claim-IsKept (t 9) cid r o)) m)

claim_record-IsKept :
    (t : ℕ → ℕ) (lease_id cid : String) (expected : Option (Option ℕ)) (r : CleanupJobRecord)
    → IsKept (claim_record t lease_id cid expected r)
unfolding claim_record
claim_record-IsKept t lease_id cid expected r =
    if-IsKept (is_superseded expected r.version) _ _ (observe_job-IsKept _ r) (
      if-IsKept (is_retained_after_claim r) _ _ (refuse_retained-IsKept t cid r) (
        bind-IsKept _ _ (bring_forward-IsKept t (is_some expected) cid r)
          (λ current. claim_current-IsKept t lease_id cid current)))

claim_found-IsKept :
    (t : ℕ → ℕ) (job_id lease_id scope cid : String) (expected : Option (Option ℕ))
    (allow_durable : Bool) (source : String) (found : Option CleanupJobRecord)
    → IsKept (claim_found t job_id lease_id scope cid expected allow_durable source found)
unfolding claim_found
claim_found-IsKept t job_id lease_id scope cid expected allow_durable source none =
    if-IsKept allow_durable _ _
      (bind-IsKept _ _ (enqueue_durable-IsKept (λ i. t (i + 2)) job_id scope cid (t 1) source)
        (λ r. claim_record-IsKept t lease_id cid expected r))
      (answer-IsKept _)
claim_found-IsKept t job_id lease_id scope cid expected allow_durable source (some r) =
    claim_record-IsKept t lease_id cid expected r

pub claim_durable-IsKept :
    (t : ℕ → ℕ) (job_id lease_id cid : String) (expected : Option (Option ℕ)) (allow_durable : Bool)
    (source : String)
    → IsKept (claim_durable t job_id lease_id cid expected allow_durable source)
unfolding claim_durable claim_in_scope
claim_durable-IsKept t job_id lease_id cid expected allow_durable source = IsKept-from _ (λ m.
    scoped-Keeps Claim.unclaimed Claim.unclaimed
      (λ scope. claim_in_scope t job_id lease_id scope cid expected allow_durable source)
      m.state_store m.authentication_scope m
      (λ scope. bind-IsKept _ _ (on_store-IsKept _) (λ found.
        claim_found-IsKept t job_id lease_id scope cid expected allow_durable source found)))

durable_records-IsKept : (rounds : ℕ) (t : ℕ → ℕ) → IsKept (durable_records rounds t)
unfolding durable_records
durable_records-IsKept rounds t = IsKept-from _ (λ m.
    scoped-Keeps [] [] (λ scope. on_store (read_pages rounds t scope 0)) m.state_store
      m.authentication_scope m (λ scope. on_store-IsKept _))

adopt_all-IsKept : (records : List CleanupJobRecord) → IsKept (adopt_all records)
unfolding adopt_all
adopt_all-IsKept [] = answer-IsKept tt
adopt_all-IsKept (r ∷ records) = bind-IsKept _ _ (adopt-IsKept r) (λ o. adopt_all-IsKept records)

pub refresh-IsKept : (rounds : ℕ) (t : ℕ → ℕ) → IsKept (refresh rounds t)
unfolding refresh
refresh-IsKept rounds t =
    bind-IsKept _ _ (durable_records-IsKept rounds t) (λ records. adopt_all-IsKept records)

cancel_open-IsKept :
    (t : ℕ → ℕ) (i : ℕ) (records : List CleanupJobRecord) → IsKept (cancel_open t i records)
unfolding cancel_open
cancel_open-IsKept t i [] = answer-IsKept tt
cancel_open-IsKept t i (r ∷ records) =
    if-IsKept (is_open r.state) _ _
      (bind-IsKept _ _ (on_store-IsKept _) (λ o. cancel_open-IsKept t (i + 3) records))
      (cancel_open-IsKept t i records)

pub cancel_open_jobs-IsKept : (rounds : ℕ) (t u : ℕ → ℕ) → IsKept (cancel_open_jobs rounds t u)
unfolding cancel_open_jobs
cancel_open_jobs-IsKept rounds t u =
    bind-IsKept _ _ (durable_records-IsKept rounds t) (λ records. cancel_open-IsKept u 0 records)

adopt_current-IsKept : (o : Option CleanupJobRecord) → IsKept (adopt_current o)
adopt_current-IsKept none = answer-IsKept none
adopt_current-IsKept (some r) = bind-IsKept _ _ (adopt-IsKept r) (λ o. answer-IsKept (some r))

updated_or_get-IsKept :
    (clock : ℕ) (r : CleanupJobRecord) (o : Option CleanupJobRecord)
    → IsKept (updated_or_get clock r o)
unfolding updated_or_get
updated_or_get-IsKept clock r none = on_store-IsKept _
updated_or_get-IsKept clock r (some updated) = answer-IsKept (some updated)

cancel_found-IsKept : (t : ℕ → ℕ) (o : Option CleanupJobRecord) → IsKept (cancel_found t o)
unfolding cancel_found
cancel_found-IsKept t none = answer-IsKept none
cancel_found-IsKept t (some r) = if-IsKept (is_settled r.state) _ _ (answer-IsKept (some r)) (
    bind-IsKept _ _ (on_store-IsKept _) (λ updated.
      bind-IsKept _ _ (updated_or_get-IsKept (t 4) r updated)
        (λ current. adopt_current-IsKept current)))

pub cancel_durable_job-IsKept : (t : ℕ → ℕ) (job_id : String) → IsKept (cancel_durable_job t job_id)
unfolding cancel_durable_job
cancel_durable_job-IsKept t job_id = IsKept-from _ (λ m.
    scoped-Keeps none none
      (λ scope. on_store (get_by_job_id (t 0) scope job_id) >>= λ found. cancel_found t found)
      m.state_store m.authentication_scope m
      (λ scope. bind-IsKept _ _ (on_store-IsKept _) (λ found. cancel_found-IsKept t found)))
