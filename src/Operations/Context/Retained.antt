-- ===== src/Operations/Context/Retained.antt =====
-- The observations of `OperationContext` and the store that they leave.
use gemini_web_mcp.Common.{
  ◌<◌, eqb_iff, ◌⊎◌, ◌+◌, ℕ, zero, suc, String, false, ◌≡◌, refl, sym, ap, ◌∙◌, subst, Option, none,
  some, arith, Outcome, returned, raised, Bool-cases, inl, inr,
}
use gemini_web_mcp.Domain.Codes.{operation_state_value}
use gemini_web_mcp.Store.Records.{OperationRow, OperationRecord, with_state}
use gemini_web_mcp.Store.Transactions.{StateStore, find, begin}
use gemini_web_mcp.Store.Operations.{is_at, get}
use gemini_web_mcp.Store.Updates.{Changes, no_changes, update}
use gemini_web_mcp.Store.Updates.Transition.{update_transition, IsMove}
use gemini_web_mcp.Operations.Context.{
  OperationContext, World, Readings, Plan, Messages, attempts, read_on, ended, write_planned,
  observe_chat, chat_plan, provider_change, is_other_chat,
}

-- What `get` answers in the attempt `i`, on the store that the attempt finds.
abbrev pub read_in :
    World → OperationContext → ℕ → StateStore → Outcome (Option OperationRecord) × StateStore
read_in world context i s = get (world.clocks i).got context.scope_id context.operation_id s

-- The store after the attempt `i` on `s`.
abbrev pub after_read :
    World
    → OperationContext
    → Option String
    → Plan
    → ℕ
    → Outcome (Option OperationRecord) × StateStore
    → StateStore
after_read world context lease_id plan i (raised e, t) = t
after_read world context lease_id plan i (returned none, t) = t
after_read world context lease_id plan i (returned (some current), t) =
    (write_planned context lease_id plan (world.clocks i) (world.others i t) current).1

abbrev pub attempted : World → OperationContext → Option String → Plan → ℕ → StateStore → StateStore
attempted world context lease_id plan i s =
    after_read world context lease_id plan i (read_in world context i s)

-- The store that the attempt `i + k` finds, where the attempt `i` found `s` and `k` attempts lost.
abbrev pub found_by :
    World → OperationContext → Option String → Plan → ℕ → ℕ → StateStore → StateStore
found_by world context lease_id plan zero i s = s
found_by world context lease_id plan (suc k) i s =
    found_by world context lease_id plan k (suc i) (attempted world context lease_id plan i s)

-- The last write of an observation: over a record that its plan accepts, in a store that the write
-- finds and leaves.
record IsWritten (context : OperationContext) (lease_id : Option String) (plan : Plan)
    (current : OperationRecord) (t : StateStore) : Type 0 where
  changes : Changes
  planned : plan current ≡ returned changes
  before : StateStore
  row : OperationRow
  r : OperationRecord
  move :
      IsMove context.scope_id context.operation_id
        (some current.version)
        lease_id
        changes
        before.operations
        t.operations
        row
        r

-- The attempt `i + k`, the `k` before it having lost, leaves `t`, and writes over the record it read.
abbrev IsRetained :
    World → OperationContext → Option String → Plan → ℕ → ℕ → StateStore → StateStore → Type 0
IsRetained world context lease_id plan fuel i s t =
    (k : ℕ) × (current : OperationRecord) × (k < fuel)
    × ((read_in world context (i + k) (found_by world context lease_id plan k i s)).0
        ≡ returned (some current))
    × (t
        ≡ attempted world context lease_id plan (i + k)
            (found_by world context lease_id plan k i s))
    × IsWritten context lease_id plan current t

write_planned_lem :
    (context : OperationContext) (lease_id : Option String) (plan : Plan) (clock : Readings)
    (s : StateStore) (current r : OperationRecord)
    → (write_planned context lease_id plan clock s current).0 ≡ returned (some r)
    → IsWritten context lease_id plan current
        (write_planned context lease_id plan clock s current).1
unfolding write_planned
write_planned_lem context lease_id plan clock s current r h = go (plan current) refl h
  where
    result : Outcome Changes → Outcome (Option OperationRecord) × StateStore
    result o = elim o [
      | raised e ↦ (raised e, s)
      | returned c ↦
          update clock.opened clock.updated context.scope_id context.operation_id
            (some current.version) lease_id c s
    ]

    go :
        (o : Outcome Changes)
        → plan current ≡ o
        → (result o).0 ≡ returned (some r)
        → IsWritten context lease_id plan current (result o).1
    go (raised e) p h = absurd (ground arith)
    go (returned c) p h =
        let moved =
          update_transition clock.opened clock.updated context.scope_id context.operation_id
            (some current.version) lease_id c s r h in
        record {
          changes = c;
          planned = p;
          before = begin clock.opened s;
          row = moved.0;
          r = r;
          move = moved.1;
        }

read_on_returned :
    (messages : Messages) (read : Outcome (Option OperationRecord) × StateStore)
    (next : OperationRecord → Outcome (Unit {0}) × StateStore)
    → (read_on messages read next).0 ≡ returned tt
    → (current : OperationRecord) × (read ≡ (returned (some current), read.1))
      × (read_on messages read next ≡ next current)
read_on_returned messages (raised e, t) next h = absurd (ground arith)
read_on_returned messages (returned none, t) next h = absurd (ground arith)
read_on_returned messages (returned (some current), t) next h = (current, refl, refl)

ended_returned :
    (written : Outcome (Option OperationRecord) × StateStore)
    (rest : Outcome (Unit {0}) × StateStore)
    → (ended written rest).0 ≡ returned tt
    → ((r : OperationRecord) × (written.0 ≡ returned (some r))
        × ((ended written rest).1 ≡ written.1))
      ⊎ (ended written rest ≡ rest)
ended_returned (raised e, t) rest h = absurd (ground arith)
ended_returned (returned (some r), t) rest h = inl (r, refl, refl)
ended_returned (returned none, t) rest h = inr refl

attempts_lem :
    (fuel i : ℕ) (world : World) (context : OperationContext) (lease_id : Option String)
    (plan : Plan) (messages : Messages) (s : StateStore)
    → (attempts fuel i world context lease_id plan messages s).0 ≡ returned tt
    → IsRetained world context lease_id plan fuel i s
        (attempts fuel i world context lease_id plan messages s).1
unfolding attempts
attempts_lem zero i world context lease_id plan messages s h = absurd (ground arith)
attempts_lem (suc fuel) i world context lease_id plan messages s h =
    let read = read_in world context i s in
    let written : OperationRecord → Outcome (Option OperationRecord) × StateStore = λ current.
      write_planned context lease_id plan (world.clocks i) (world.others i read.1) current in
    let rest : OperationRecord → Outcome (Unit {0}) × StateStore =
      λ current. attempts fuel (suc i) world context lease_id plan messages (written current).1 in
    let on = read_on_returned messages read (λ current. ended (written current) (rest current)) h in
    let current = on.0 in
    let P : Outcome (Unit {0}) × StateStore → Type 0 =
      λ o. IsRetained world context lease_id plan (suc fuel) i s o.1 in
    subst P (sym on.2)
      (elim (ended_returned (written current) (rest current)
        (ap (λ (o : Outcome (Unit {0}) × StateStore). o.0) (sym on.2) ∙ h)) [
          | inl (r, e, same) ↦ (
            0,
            current,
            omega arith,
            subst (λ (n : ℕ). (read_in world context n s).0 ≡ returned (some current)) (omega arith)
                (ap (λ (o : Outcome (Option OperationRecord) × StateStore). o.0) on.1),
            same
                ∙ ap
                    (λ (o : Outcome (Option OperationRecord) × StateStore).
                      after_read world context lease_id plan i o)
                    (sym on.1)
                ∙ ap (λ (n : ℕ). attempted world context lease_id plan n s) (omega arith),
            subst (λ (t : StateStore). IsWritten context lease_id plan current t) (sym same)
                (write_planned_lem context lease_id plan (world.clocks i) (world.others i read.1)
                  current r e),
          )
          | inr same ↦
              let it =
                attempts_lem fuel (suc i) world context lease_id plan messages (written current).1
                  (ap (λ (o : Outcome (Unit {0}) × StateStore). o.0) (sym same ∙ sym on.2) ∙ h) in
              let next : (written current).1 ≡ attempted world context lease_id plan i s =
                ap
                  (λ (o : Outcome (Option OperationRecord) × StateStore).
                    after_read world context lease_id plan i o)
                  (sym on.1) in
              subst P (sym same) (
                suc it.0,
                it.1,
                omega (arith, it.2),
                later (λ n u. (read_in world context n u).0 ≡ returned (some it.1)) i it.0
                    (written current).1 next it.3,
                later (λ n u. (rest current).1 ≡ attempted world context lease_id plan n u) i it.0
                    (written current).1 next it.4,
                it.5,
              )
        ])
  where
    later :
        (Q : ℕ → StateStore → Type 0) (i k : ℕ) (t : StateStore)
        → t ≡ attempted world context lease_id plan i s
        → Q (suc i + k) (found_by world context lease_id plan k (suc i) t)
        → Q (i + suc k) (found_by world context lease_id plan (suc k) i s)
    later Q i k t e h =
        subst (λ (n : ℕ). Q n (found_by world context lease_id plan (suc k) i s)) (omega arith)
          (subst
            (λ (u : StateStore). Q (suc i + k) (found_by world context lease_id plan k (suc i) u)) e
            h)

chat_plan_lem :
    (cid : String) (provider : Option String) (current : OperationRecord) (c : Changes)
    → chat_plan cid provider current ≡ returned c
    → (is_other_chat current.upstream_chat_id cid ≡ false) × (c.upstream_chat_id ≡ some (some cid))
chat_plan_lem cid provider current c h =
    elim (Bool-cases (is_other_chat current.upstream_chat_id cid)) [
      | inl e ↦ absurd (ground arith)
      | inr e ↦
          let same : record no_changes {
            upstream_chat_id = some (some cid);
            provider_operation_id = provider_change provider;
          }
              ≡ c =
            ground arith in
          (e, ap (λ (x : Changes). x.upstream_chat_id) (sym same))
    ]

-- The chat is in the store, over a record that named no other chat.
abbrev pub HoldsChat : OperationContext → String → OperationRecord → StateStore → Type 0
HoldsChat context cid current t =
    (row : OperationRow) × (is_other_chat current.upstream_chat_id cid ≡ false)
    × (find (is_at context.scope_id context.operation_id) t.operations ≡ some row)
    × (row.upstream_chat_id ≡ some cid)
    × (row.version ≡ current.version + 1)

chat_held :
    (context : OperationContext) (cid : String) (provider : Option String)
    (current : OperationRecord) (t : StateStore)
    → IsWritten context none (chat_plan cid provider) current t
    → HoldsChat context cid current t
unfolding with_state
chat_held context cid provider current t it =
    let m = it.move in
    let plan = chat_plan_lem cid provider current it.changes it.planned in
    let row = with_state (operation_state_value it.r.state) it.r in
    (
      row,
      plan.0,
      m.stored_row,
      ground (arith, m.chat, plan.1),
      ground (arith, m.raised_version, m.is_fresh, eqb_iff it.row.version current.version),
    )

-- When `observe_chat_sync` returns, whatever other processes did between its reads and its writes,
-- one attempt `k` of the eight has left the store: the record that `get` answered to it, on the store
-- that the attempts before it left, named no other chat, and the store now holds for the operation
-- the chat that was observed, one version after that record.
pub observe_chat_retained :
    (world : World) (context : OperationContext) (cid : String) (provider : Option String)
    (s : StateStore)
    → (observe_chat world context cid provider s).0 ≡ returned tt
    → (k : ℕ) × (current : OperationRecord) × (k < 8)
      × ((read_in world context k (found_by world context none (chat_plan cid provider) k 0 s)).0
          ≡ returned (some current))
      × ((observe_chat world context cid provider s).1
          ≡ attempted world context none
              (chat_plan cid provider)
              k
              (found_by world context none (chat_plan cid provider) k 0 s))
      × HoldsChat context cid current (observe_chat world context cid provider s).1
unfolding observe_chat
observe_chat_retained world context cid provider s h =
    let plan = chat_plan cid provider in
    let it =
      attempts_lem 8 0 world context none plan
        (record {
          disappeared = "Operation metadata disappeared before source retention.";
          lost = "Operation source could not be retained.";
        })
        s h in
    let found = found_by world context none plan it.0 0 s in
    let first : 0 + it.0 ≡ it.0 = omega arith in
    let t = (observe_chat world context cid provider s).1 in
    (
      it.0,
      it.1,
      it.2,
      subst (λ (n : ℕ). (read_in world context n found).0 ≡ returned (some it.1)) first it.3,
      subst (λ (n : ℕ). t ≡ attempted world context none plan n found) first it.4,
      chat_held context cid provider it.1 t it.5,
    )
