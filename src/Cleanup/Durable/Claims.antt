-- ===== src/Cleanup/Durable/Claims.antt =====
-- `_claim_durable_locked` of `RemoteChatCleanupManager`.
use gemini_web_mcp.Common.{
  ℕ, ◌+◌, String, Bool, true, false, not, ◌&&◌, ◌||◌, Option, none, some, if◌then◌else◌, ltb, leb,
  eqb, ◌==◌, or_default, is_some,
}
use gemini_web_mcp.Domain.Conversations.{CleanupObservation, CleanupState}
use gemini_web_mcp.Store.Records.{CleanupJobRecord}
use gemini_web_mcp.Store.Cleanup.{no_job_changes, get_job, update_job}
use gemini_web_mcp.Store.Claims.{claim_job}
use gemini_web_mcp.Cleanup.State.{Locked, answer, ◌>>=◌, on_store, adopt, scoped}
use gemini_web_mcp.Cleanup.Durable.Jobs.{enqueue_durable, latest, is_retained_after_claim}

-- What `_claim_durable_locked` answers: nothing to claim, a claimed job, or an observation.
pub data Claim : Type 0 where
  unclaimed : Claim
  claimed : CleanupJobRecord → Claim
  observed : CleanupObservation → Claim

-- The observation of a job that could not be claimed.
abbrev pub settled_observation : CleanupJobRecord → CleanupObservation → CleanupObservation
settled_observation r o =
    if r.state == "completed"
    then record o { state = CleanupState.already_completed; idempotent = true }
    else record o { idempotent = true }

-- The job is adopted, and its observation is answered with what the case changes of it.
unfoldable pub observe_job :
    (CleanupObservation → CleanupObservation) → CleanupJobRecord → Locked Claim
unfolding adopt
observe_job change r = do observation ← adopt r; answer (Claim.observed (change observation))

-- A running job that is to be retained is never claimed again: once its lease has ended, it is
-- retained.
unfoldable pub end_lease : (ℕ → ℕ) → String → CleanupJobRecord → Locked CleanupJobRecord
unfolding update_job
end_lease t cid r =
    if leb (or_default r.lease_until 0) (t 4)
    then (do
      updated ← on_store (
          update_job (t 5) (t 6) r.scope_id cid (some r.version) none (record no_job_changes {
            state = some "retained";
            verification_status = some "retained_after_claim";
          }))
      latest (t 7) r.scope_id cid r updated)
    else answer r

unfoldable pub refuse_retained : (ℕ → ℕ) → String → CleanupJobRecord → Locked Claim
unfolding end_lease observe_job
refuse_retained t cid r =
    end_lease t cid r
    >>= observe_job (λ o. record o { state = CleanupState.retained; idempotent = true })

-- `expected_due is None and record.state in {"pending", "failed"} and record.due_at > now`
abbrev pub is_brought_forward : Bool → ℕ → CleanupJobRecord → Bool
is_brought_forward automatic now r =
    not automatic && (r.state == "pending" || r.state == "failed") && ltb now r.due_at

-- A deletion that a caller asks for does not wait for the due time.
unfoldable pub bring_forward : (ℕ → ℕ) → Bool → String → CleanupJobRecord → Locked CleanupJobRecord
unfolding update_job
bring_forward t automatic cid r =
    if is_brought_forward automatic (t 4) r
    then (do
      updated ← on_store (
          update_job (t 5) (t 6) r.scope_id cid (some r.version) none
            (record no_job_changes { due_at = some (t 4) }))
      latest (t 7) r.scope_id cid r updated)
    else answer r

-- What follows the claim: the claimed job, or the observation of the job as it is.
unfoldable pub after_claim : ℕ → String → CleanupJobRecord → Option CleanupJobRecord → Locked Claim
unfolding get_job adopt observe_job
after_claim clock cid r none = on_store (get_job clock r.scope_id cid) >>= λ found.
    observe_job (settled_observation (or_default found r)) (or_default found r)
after_claim clock cid r (some job) = do observation ← adopt job; answer (Claim.claimed job)

-- The claim itself, for the readings from `t 8` on.
unfoldable pub claim_current : (ℕ → ℕ) → String → String → CleanupJobRecord → Locked Claim
unfolding claim_job after_claim
claim_current t lease_id cid r m =
    (do
      taken ←
          on_store (claim_job (t 8) r.scope_id cid r.version lease_id (t 4 + m.lease_seconds) (t 4))
      after_claim (t 9) cid r taken)
      m

-- `expected_due is not None and record.version != expected_due[0].durable_version`, where
-- `expected` is that version, if there is an expectation.
abbrev pub is_superseded : Option (Option ℕ) → ℕ → Bool
is_superseded none version = false
is_superseded (some none) version = true
is_superseded (some (some v)) version = not (eqb version v)

-- `_claim_durable_locked` on the record that it found or registered.
unfoldable pub claim_record :
    (ℕ → ℕ) → String → String → Option (Option ℕ) → CleanupJobRecord → Locked Claim
unfolding observe_job refuse_retained bring_forward claim_current
claim_record t lease_id cid expected r =
    if is_superseded expected r.version
    then observe_job (λ o. record o { idempotent = true }) r
    else if is_retained_after_claim r
    then refuse_retained t cid r
    else (do
      current ← bring_forward t (is_some expected) cid r
      claim_current t lease_id cid current)

-- A chat without a job gets one only if that is allowed.
unfoldable pub claim_found :
    (ℕ → ℕ)
    → String
    → String
    → String
    → String
    → Option (Option ℕ)
    → Bool
    → String
    → Option CleanupJobRecord
    → Locked Claim
unfolding enqueue_durable claim_record
claim_found t job_id lease_id scope cid expected allow_durable source (some r) =
    claim_record t lease_id cid expected r
claim_found t job_id lease_id scope cid expected allow_durable source none =
    if allow_durable
    then (do
      r ← enqueue_durable (λ i. t (i + 2)) job_id scope cid (t 1) source
      claim_record t lease_id cid expected r)
    else answer Claim.unclaimed

-- `_claim_durable_locked` in a scope.
unfoldable pub claim_in_scope :
    (ℕ → ℕ) → String → String → String → String → Option (Option ℕ) → Bool → String → Locked Claim
unfolding get_job claim_found
claim_in_scope t job_id lease_id scope cid expected allow_durable source = do
  found ← on_store (get_job (t 0) scope cid)
  claim_found t job_id lease_id scope cid expected allow_durable source found

-- `_claim_durable_locked`
unfoldable pub claim_durable :
    (ℕ → ℕ) → String → String → String → Option (Option ℕ) → Bool → String → Locked Claim
unfolding claim_in_scope
claim_durable t job_id lease_id cid expected allow_durable source m =
    scoped Claim.unclaimed Claim.unclaimed
      (λ scope. claim_in_scope t job_id lease_id scope cid expected allow_durable source)
      m.state_store m.authentication_scope m
