-- ===== src/Cleanup/Outcomes/Exclusive.antt =====
-- Deletions in a process while another one holds the lease of the chat's job.
use gemini_web_mcp.Common.{
  ℕ, ◌<◌, ◌+◌, String, Bool, true, false, not, ◌&&◌, ◌||◌, ◌≡◌, refl, sym, ap, ◌∙◌, subst, Option,
  none, some, arith, if_elim, Outcome, returned, raised, ◌==◌, eqb, ltb, is_some, or_default,
  lookup,
}
use gemini_web_mcp.Domain.Conversations.{CleanupObservation, CleanupState, is_valid_remote_chat_id}
use gemini_web_mcp.Store.Records.{CleanupJobRecord}
use gemini_web_mcp.Store.Transactions.{StateStore}
use gemini_web_mcp.Store.Cleanup.{get_job}
use gemini_web_mcp.Store.Claims.{claim_job}
use gemini_web_mcp.Store.Jobs.Exclusive.{
  IsHeldJob, IsHeld, claim_job-IsHeld, claim_job_blocked, get_job-IsHeld, get_job_held,
}
use gemini_web_mcp.Cleanup.State.{
  Manager, Locked, next_step, ◌>>=◌, answer, called, on_store, adopt, scoped,
}
use gemini_web_mcp.Cleanup.Durable.{
  Claim, observe_job, end_lease, settled_observation, is_superseded, is_retained_after_claim,
  refuse_retained, is_brought_forward, bring_forward, after_claim, claim_current, claim_record,
  claim_found, claim_in_scope, claim_durable,
}
use gemini_web_mcp.Cleanup.Schedule.{Draws}
use gemini_web_mcp.Cleanup.Delete.{
  Expected, Start, is_withdrawn, start_worker, source_of, expected_version, join_or_start,
  delete_open, lacks_scope, delete_valid, delete_chat_result,
}

-- The answer, if there is one, is an observation: nothing was claimed, and nothing is free to delete.
abbrev pub IsObserved : Outcome Claim × Manager → Type 0
IsObserved p = (c : Claim) → p.0 ≡ returned c → (o : CleanupObservation) × (c ≡ Claim.observed o)

-- A computation that, from this manager, answers with observations only.
unfoldable pub Observes : Locked Claim → Manager → Type 0
Observes x m = IsObserved (x m)

Observes-IsObserved : (x : Locked Claim) (m : Manager) → Observes x m → IsObserved (x m)
unfolding Observes
Observes-IsObserved x m h = h

IsObserved-Observes : (x : Locked Claim) (m : Manager) → IsObserved (x m) → Observes x m
unfolding Observes
IsObserved-Observes x m h = h

step-IsObserved :
    {A : Type 0} (p : Outcome A × Manager) (f : A → Locked Claim)
    → ((a : A) (n : Manager) → Path (Outcome A × Manager) p (returned a, n) → IsObserved (f a n))
    → IsObserved (next_step p f)
step-IsObserved (returned a, n) f h = h a n refl
step-IsObserved (raised e, n) f h = λ c d. absurd (ground arith)

bind-Observes :
    {A : Type 0} (x : Locked A) (f : A → Locked Claim) (m : Manager)
    → ((a : A) (n : Manager) → Path (Outcome A × Manager) (x m) (returned a, n) → Observes (f a) n)
    → Observes (x >>= f) m
unfolding Observes
bind-Observes x f m h = step-IsObserved (x m) f h

answer-Observes : (o : CleanupObservation) (m : Manager) → Observes (answer (Claim.observed o)) m
unfolding Observes
answer-Observes o m c d = (o, ground arith)

observe_job-Observes :
    (change : CleanupObservation → CleanupObservation) (r : CleanupJobRecord) (m : Manager)
    → Observes (observe_job change r) m
unfolding observe_job
observe_job-Observes change r m =
    bind-Observes (adopt r) (λ o. answer (Claim.observed (change o))) m
      (λ o n e. answer-Observes (change o) n)

refuse_retained-Observes :
    (t : ℕ → ℕ) (cid : String) (r : CleanupJobRecord) (m : Manager)
    → Observes (refuse_retained t cid r) m
unfolding refuse_retained
refuse_retained-Observes t cid r m =
    bind-Observes (end_lease t cid r)
      (observe_job (λ o. record o { state = CleanupState.retained; idempotent = true })) m
      (λ current n e. observe_job-Observes _ current n)

module _ (scope_id cid : String) (until : ℕ) where
  -- The manager's store has a job for the chat, and each such job is held.
  abbrev Holds : Manager → Type 0
  Holds m = (s : StateStore) × (m.state_store ≡ some s) × IsHeld scope_id cid until s

  get-Holds :
      (clock : ℕ) (m n : Manager) (o : Option CleanupJobRecord)
      → Holds m
      → Path
          (Outcome (Option CleanupJobRecord) × Manager)
          (on_store (get_job clock scope_id cid) m)
          (returned o, n)
      → Holds n
        × (job : CleanupJobRecord) × (o ≡ some job)
        × (job.scope_id ≡ scope_id)
        × IsHeldJob until job
  get-Holds clock m n o (s, held, h) e =
      let call = get_job clock scope_id cid in
      let run : Path (Outcome (Option CleanupJobRecord) × Manager)
          ((call s).0, record m { state_store = some (call s).1 }) (returned o, n) =
        sym (ap (λ (k : Option StateStore). called call m k) held) ∙ e in
      let job =
        get_job_held clock scope_id cid until s o h
          (ap (λ (p : Outcome (Option CleanupJobRecord) × Manager). p.0) run) in
      (
        (
          (call s).1,
          sym (ap (λ (p : Outcome (Option CleanupJobRecord) × Manager). p.1.state_store) run),
          get_job-IsHeld clock scope_id cid until s h,
        ),
        job.0,
        job.1,
        job.2,
        job.3,
      )

  after_claim-Observes :
      (clock : ℕ) (r : CleanupJobRecord) (o : Option CleanupJobRecord) (n : Manager)
      → ((job : CleanupJobRecord) → o ≡ some job → ⊥)
      → Observes (after_claim clock cid r o) n
  unfolding after_claim
  after_claim-Observes clock r none n k =
      bind-Observes (on_store (get_job clock r.scope_id cid))
        (λ found. observe_job (settled_observation (or_default found r)) (or_default found r)) n
        (λ found m e. observe_job-Observes _ (or_default found r) m)
  after_claim-Observes clock r (some job) n k = absurd (k job refl)

  claim_current-Observes :
      (t : ℕ → ℕ) (lease_id : String) (r : CleanupJobRecord) (m : Manager)
      → Holds m
      → r.scope_id ≡ scope_id
      → t 4 < until
      → Observes (claim_current t lease_id cid r) m
  unfolding claim_current
  claim_current-Observes t lease_id r m (s, held, h) sc lt =
      let call = claim_job (t 8) r.scope_id cid r.version lease_id (t 4 + m.lease_seconds) (t 4) in
      IsObserved-Observes _ m (
        Observes-IsObserved (on_store call >>= after_claim (t 9) cid r) m (
          bind-Observes (on_store call) (after_claim (t 9) cid r) m (λ o n e.
            after_claim-Observes (t 9) r o n (λ job f.
              claim_job_blocked (t 8) (t 4) scope_id cid r.version lease_id (t 4 + m.lease_seconds)
                until s job h lt (claimed m.state_store held o n e job f)))))
    where
      claimed :
          (k : Option StateStore)
          → k ≡ some s
          → (o : Option CleanupJobRecord) (n : Manager)
          → Path
              (Outcome (Option CleanupJobRecord) × Manager)
              (called
                (claim_job (t 8) r.scope_id cid r.version lease_id (t 4 + m.lease_seconds) (t 4))
                m
                k)
              (returned o, n)
          → (job : CleanupJobRecord) → o ≡ some job
          → (claim_job (t 8) scope_id cid r.version lease_id (t 4 + m.lease_seconds) (t 4) s).0
            ≡ returned (some job)
      claimed k e o n d job f =
          let at_store =
            subst
              (λ (q : Option StateStore).
                Path (Outcome (Option CleanupJobRecord) × Manager)
                  (called
                    (claim_job (t 8) r.scope_id cid r.version lease_id (t 4 + m.lease_seconds)
                      (t 4))
                    m q)
                  (returned o, n))
              e d in
          ap
            (λ (sc' : String).
              (claim_job (t 8) sc' cid r.version lease_id (t 4 + m.lease_seconds) (t 4) s).0)
            (sym sc)
          ∙ ap (λ (p : Outcome (Option CleanupJobRecord) × Manager). p.0) at_store
          ∙ ap (λ (x : Option CleanupJobRecord). returned x) f

  bring_forward-Observes :
      (t : ℕ → ℕ) (automatic : Bool) (r : CleanupJobRecord) (f : CleanupJobRecord → Locked Claim)
      (m : Manager)
      → IsHeldJob until r
      → Observes (f r) m
      → Observes (bring_forward t automatic cid r >>= f) m
  unfolding bring_forward Observes
  bring_forward-Observes t automatic r f m h k =
      if_elim (λ (x : Locked CleanupJobRecord). IsObserved (next_step (x m) f))
        (is_brought_forward automatic (t 4) r) _ _ (λ e. absurd (running automatic e)) (λ e. k)
    where
      idle : (b c : Bool) → (not b && false && c) ≡ true → ⊥
      idle true c e = ground arith
      idle false c e = ground arith

      running : (b : Bool) → is_brought_forward b (t 4) r ≡ true → ⊥
      running b e = idle b (ltb (t 4) r.due_at) (
          subst
            (λ (state : String).
              (not b && (state == "pending" || state == "failed") && ltb (t 4) r.due_at) ≡ true)
            h.0 e)

  claim_record-Observes :
      (t : ℕ → ℕ) (lease_id : String) (expected : Option (Option ℕ)) (r : CleanupJobRecord)
      (m : Manager)
      → Holds m
      → r.scope_id ≡ scope_id
      → IsHeldJob until r
      → t 4 < until
      → Observes (claim_record t lease_id cid expected r) m
  unfolding claim_record
  claim_record-Observes t lease_id expected r m h sc k lt =
      if_elim (λ (x : Locked Claim). Observes x m) (is_superseded expected r.version) _ _
        (λ e. observe_job-Observes _ r m)
        (λ e.
          if_elim (λ (x : Locked Claim). Observes x m) (is_retained_after_claim r) _ _
            (λ f. refuse_retained-Observes t cid r m)
            (λ f.
              bring_forward-Observes t (is_some expected) r (claim_current t lease_id cid) m k
                (claim_current-Observes t lease_id r m h sc lt)))

  claim_in_scope-Observes :
      (t : ℕ → ℕ) (job_id lease_id : String) (expected : Option (Option ℕ)) (allow_durable : Bool)
      (source : String) (m : Manager)
      → Holds m
      → t 4 < until
      → Observes (claim_in_scope t job_id lease_id scope_id cid expected allow_durable source) m
  unfolding claim_in_scope claim_found
  claim_in_scope-Observes t job_id lease_id expected allow_durable source m h lt =
      bind-Observes (on_store (get_job (t 0) scope_id cid))
        (claim_found t job_id lease_id scope_id cid expected allow_durable source) m
        (λ found n e.
          let it = get-Holds (t 0) m n found h e in
          subst
            (λ (o : Option CleanupJobRecord).
              Observes (claim_found t job_id lease_id scope_id cid expected allow_durable source o)
                n)
            (sym it.2) (claim_record-Observes t lease_id expected it.1 n it.0 it.3 it.4 lt))

-- The request starts a worker.
abbrev pub starts_worker : Start → Bool
starts_worker Start.nothing = false
starts_worker (Start.answers o) = false
starts_worker (Start.joins worker) = false
starts_worker (Start.works worker source) = true
starts_worker (Start.works_durable worker r) = true

start_worker_lem :
    (cid source diagnostic_id : String) (expected : Option Expected) (p : Outcome Claim × Manager)
    → IsObserved p
    → starts_worker (start_worker cid source diagnostic_id expected p).0 ≡ false
unfolding start_worker
start_worker_lem cid source diagnostic_id expected (raised e, n) h = refl
start_worker_lem cid source diagnostic_id expected (returned Claim.unclaimed, n) h =
    let it = h Claim.unclaimed refl in absurd (ground (arith, it.1))
start_worker_lem cid source diagnostic_id expected (returned (Claim.claimed r), n) h =
    let it = h (Claim.claimed r) refl in absurd (ground (arith, it.1))
start_worker_lem cid source diagnostic_id none (returned (Claim.observed o), n) h = refl
start_worker_lem cid source diagnostic_id (some expected) (returned (Claim.observed o), n) h = refl

module _ (t : ℕ → ℕ) (d : Draws) (scope_id cid : String) (expected : Option Expected)
    (source : String) (allow_durable : Bool) (until : ℕ) (m : Manager) (s : StateStore)
    (held : m.state_store ≡ some s) (bound : m.authentication_scope ≡ some scope_id)
    (h : IsHeld scope_id cid until s) (lt : t 5 < until) where
  claim_durable-IsObserved :
      (delete_source : String)
      → IsObserved (
          claim_durable
            (λ i. t (i + 1))
            d.job_id
            d.lease_id
            cid
            (expected_version expected)
            allow_durable
            delete_source
            m)
  unfolding claim_durable
  claim_durable-IsObserved delete_source =
      let run : String → Locked Claim = λ scope.
        claim_in_scope (λ i. t (i + 1)) d.job_id d.lease_id scope cid (expected_version expected)
          allow_durable delete_source in
      let same : Path (Outcome Claim × Manager)
          (scoped Claim.unclaimed Claim.unclaimed run m.state_store m.authentication_scope m)
          (run scope_id m) =
        ap
          (λ (o : Option StateStore).
            scoped Claim.unclaimed Claim.unclaimed run o m.authentication_scope m)
          held
        ∙ ap (λ (k : Option String). scoped Claim.unclaimed Claim.unclaimed run (some s) k m)
            bound in
      subst (λ (p : Outcome Claim × Manager). IsObserved p) (sym same)
        (Observes-IsObserved (run scope_id) m (
          claim_in_scope-Observes scope_id cid until (λ i. t (i + 1)) d.job_id d.lease_id
            (expected_version expected) allow_durable delete_source m (s, held, h) lt))

  abbrev IsIdle : Start × Manager → Type 0
  IsIdle p = starts_worker p.0 ≡ false

  join_lem :
      (worker : Option ℕ) → IsIdle (join_or_start t d cid expected source allow_durable worker m)
  unfolding join_or_start
  join_lem none =
      start_worker_lem cid (source_of (lookup cid m.pending) source) d.diagnostic_id expected _
        (claim_durable-IsObserved (source_of (lookup cid m.pending) source))
  join_lem (some worker) = refl

  open_lem :
      (generation : ℕ) (completed : Option CleanupObservation)
      → IsIdle (delete_open t d cid generation expected source allow_durable completed m)
  unfolding delete_open
  open_lem generation none = join_lem (lookup cid m.inflight)
  open_lem generation (some o) = refl

  idle_lem :
      (authentication_generation : Option ℕ)
      → IsIdle (
          delete_chat_result t d
            (some cid)
            authentication_generation
            expected
            source
            allow_durable
            m)
  unfolding delete_chat_result delete_valid
  idle_lem authentication_generation =
      let generation = or_default authentication_generation m.authentication_generation in
      if_elim IsIdle (is_valid_remote_chat_id cid) _ _
        (λ e.
          if_elim IsIdle (not (eqb generation m.authentication_generation)) _ _ (λ g. refl)
            (λ g.
              if_elim IsIdle (lacks_scope m) _ _ (λ l. refl)
                (λ l.
                  if_elim IsIdle (is_withdrawn (t 0) cid expected m) _ _ (λ w. refl)
                    (λ w. open_lem generation (lookup cid m.completed)))))
        (λ e. refl)

-- After a process has claimed a chat's job in a state store, no request to delete the chat starts a
-- worker in a manager of another process on the store as that claim left it, in the same scope, if
-- its reading of the clock for the claim is before the end of the lease, whatever the manager holds
-- in memory and however the request is made.
pub delete_excluded :
    (clock now : ℕ) (scope_id cid : String) (expected_version : ℕ) (lease_id : String) (until : ℕ)
    (s : StateStore) (r : CleanupJobRecord) (t : ℕ → ℕ) (d : Draws) (generation : Option ℕ)
    (expected : Option Expected) (source : String) (allow_durable : Bool) (m : Manager)
    → (claim_job clock scope_id cid expected_version lease_id until now s).0 ≡ returned (some r)
    → m.state_store ≡ some (claim_job clock scope_id cid expected_version lease_id until now s).1
    → m.authentication_scope ≡ some scope_id
    → t 5 < until
    → starts_worker (delete_chat_result t d (some cid) generation expected source allow_durable m).0
      ≡ false
delete_excluded clock now scope_id cid expected_version lease_id until s r t d generation expected
      source allow_durable m h held bound lt =
    idle_lem t d scope_id cid expected source allow_durable until m
      (claim_job clock scope_id cid expected_version lease_id until now s).1 held bound
      (claim_job-IsHeld clock now scope_id cid expected_version lease_id until s r h) lt generation
