-- ===== src/Operations/Context.antt =====
-- `OperationContext` of services/operations.py. Another process may change the store between the
-- two transactions of an attempt: `others` is what the others do, and `clocks` are the readings of
-- the clock, of each attempt.
pub mod Retained
use gemini_web_mcp.Common.{
  ℕ, zero, suc, String, Bool, true, false, not, ◌&&◌, ◌||◌, Option, none, some, List, [], ◌∷◌, map,
  if◌then◌else◌, any, ◌==◌, is_some, Outcome, returned, raised, raise_if, value_error,
  state_store_error, ◌>>=◌, ◌>>◌,
}
use gemini_web_mcp.Domain.Codes.{OperationState, operation_state_value}
use gemini_web_mcp.Domain.Artifacts.{Artifact}
use gemini_web_mcp.Store.Records.{ArtifactLocator, OperationRecord, from_artifact}
use gemini_web_mcp.Store.Transactions.{StateStore}
use gemini_web_mcp.Store.Operations.{get}
use gemini_web_mcp.Store.Updates.{Changes, no_changes, update}
use gemini_web_mcp.Operations.Merge.{merge_locators, is_truthy}

pub record OperationContext : Type 0 where
  pub operation_id : String
  pub scope_id : String
  pub lease_id : Option String

-- The readings of the clock of one attempt: by `get`, and two by `update`.
pub record Readings : Type 0 where
  pub got : ℕ
  pub opened : ℕ
  pub updated : ℕ

pub record World : Type 0 where
  pub others : ℕ → StateStore → StateStore
  pub clocks : ℕ → Readings

-- What an observer writes over the record it read, unless it raises.
abbrev pub Plan : Type 0
Plan = OperationRecord → Outcome Changes

-- The messages of the two ends that are errors.
pub record Messages : Type 0 where
  pub disappeared : String
  pub lost : String

-- The update of an attempt: what it answers, if it is the last, and the store.
unfoldable pub write_planned :
    OperationContext
    → Option String
    → Plan
    → Readings
    → StateStore
    → OperationRecord
    → Outcome (Option OperationRecord) × StateStore
unfolding update
write_planned context lease_id plan clock s current = elim (plan current) [
  | raised e ↦ (raised e, s)
  | returned c ↦
      update clock.opened clock.updated context.scope_id context.operation_id (some current.version)
        lease_id c s
]

-- The record that `get` answered, or the error for one that is gone.
abbrev pub read_on :
    Messages
    → Outcome (Option OperationRecord) × StateStore
    → (OperationRecord → Outcome (Unit {0}) × StateStore)
    → Outcome (Unit {0}) × StateStore
read_on messages (raised e, t) next = (raised e, t)
read_on messages (returned none, t) next = (raised (state_store_error messages.disappeared), t)
read_on messages (returned (some current), t) next = next current

-- `if update(…) is not None: return`, and otherwise the attempts that are left.
abbrev pub ended :
    Outcome (Option OperationRecord) × StateStore
    → Outcome (Unit {0}) × StateStore
    → Outcome (Unit {0}) × StateStore
ended (raised e, t) rest = (raised e, t)
ended (returned (some r), t) rest = (returned tt, t)
ended (returned none, t) rest = rest

-- `for _attempt in range(8)` of the observers: `i` counts the attempts and `fuel` those that are left.
unfoldable pub attempts :
    ℕ
    → ℕ
    → World
    → OperationContext
    → Option String
    → Plan
    → Messages
    → StateStore
    → Outcome (Unit {0}) × StateStore
unfolding get write_planned
attempts zero i world context lease_id plan messages s =
    (raised (state_store_error messages.lost), s)
attempts (suc fuel) i world context lease_id plan messages s =
    let clock = world.clocks i in
    let read = get clock.got context.scope_id context.operation_id s in
    read_on messages read (λ current.
      let written = write_planned context lease_id plan clock (world.others i read.1) current in
      ended written (attempts fuel (suc i) world context lease_id plan messages written.1))

-- `current.upstream_chat_id and current.upstream_chat_id != cid`
abbrev pub is_other_chat : Option String → String → Bool
is_other_chat none cid = false
is_other_chat (some chat) cid = not (chat == "") && not (chat == cid)

-- `provider_operation_id` is passed on only if there is one.
abbrev pub provider_change : Option String → Option (Option String)
provider_change none = none
provider_change (some provider) = some (some provider)

abbrev pub chat_plan : String → Option String → Plan
chat_plan cid provider current = do
  raise_if (is_other_chat current.upstream_chat_id cid)
      (value_error "Observed operation source identity changed.")
  returned (record no_changes {
    upstream_chat_id = some (some cid);
    provider_operation_id = provider_change provider;
  })

-- `observe_chat_sync`
unfoldable pub observe_chat :
    World → OperationContext → String → Option String → StateStore → Outcome (Unit {0}) × StateStore
unfolding attempts
observe_chat world context cid provider s =
    attempts 8 0 world context none (chat_plan cid provider)
      (record {
        disappeared = "Operation metadata disappeared before source retention.";
        lost = "Operation source could not be retained.";
      })
      s

-- `observe_provider_operation_sync`
unfoldable pub observe_provider_operation :
    World → OperationContext → String → StateStore → Outcome (Unit {0}) × StateStore
unfolding attempts
observe_provider_operation world context provider s =
    attempts 8 0 world context none
      (λ current. returned (record no_changes { provider_operation_id = some (some provider) }))
      (record {
        disappeared = "Operation metadata disappeared before source retention.";
        lost = "Operation provider locator could not be retained.";
      })
      s

-- `tuple(ArtifactLocator.from_artifact(item) for item in artifacts)`
unfoldable pub incoming : {V : Type 0} → List (Artifact V) → Outcome (List ArtifactLocator)
unfolding from_artifact
incoming [] = returned []
incoming (item ∷ items) = do a ← from_artifact item; rest ← incoming items; returned (a ∷ rest)

-- `operation_type in {"research", "music", "video"}`
abbrev pub is_artifact_work : String → Bool
is_artifact_work kind = kind == "research" || kind == "music" || kind == "video"

abbrev pub is_unsaved : ArtifactLocator → Bool
is_unsaved a = not (a.state == "local") || not (a.verification == "verified")

-- A claimed completion stands only if every artifact is a verified local one and there is one.
unfoldable pub observed_state : String → List ArtifactLocator → OperationState → OperationState
observed_state kind [] OperationState.completed =
    if is_artifact_work kind then OperationState.running else OperationState.completed
observed_state kind (a ∷ items) OperationState.completed =
    if is_artifact_work kind && any is_unsaved (a ∷ items)
    then OperationState.partial
    else OperationState.completed
observed_state kind items state = state

abbrev pub state_change : String → List ArtifactLocator → Option OperationState → Option String
unfolding observed_state
state_change kind items none = none
state_change kind items (some state) =
    some (operation_state_value (observed_state kind items state))

abbrev pub artifacts_plan : List ArtifactLocator → Option OperationState → Option String → Plan
unfolding merge_locators
artifacts_plan news state verification_status current =
    let items = merge_locators current.artifacts news in
    returned (record no_changes {
      artifacts = some items;
      state = state_change current.operation_type items state;
      verification_status = verification_status;
    })

-- `observe_artifacts_sync`
unfoldable pub observe_artifacts :
    {V : Type 0}
    → World
    → OperationContext
    → List (Artifact V)
    → Option OperationState
    → Option String
    → StateStore
    → Outcome (Unit {0}) × StateStore
unfolding attempts incoming
observe_artifacts world context artifacts state verification_status s = elim (incoming artifacts) [
  | raised e ↦ (raised e, s)
  | returned news ↦
      attempts 8 0 world context context.lease_id (artifacts_plan news state verification_status)
        (record {
          disappeared = "Operation metadata disappeared before artifact retention.";
          lost = "Operation artifact retention lost its execution lease.";
        })
        s
]

-- One attempt whose answer is not looked at, for a record that may be gone.
unfoldable pub write_once :
    World → OperationContext → Changes → StateStore → Outcome (Unit {0}) × StateStore
unfolding get write_planned
write_once world context c s =
    let clock = world.clocks 0 in
    let read = get clock.got context.scope_id context.operation_id s in
    elim read.0 [
      | raised e ↦ (raised e, read.1)
      | returned none ↦ (returned tt, read.1)
      | returned (some current) ↦
          let written =
            write_planned context context.lease_id (λ r. returned c) clock (world.others 0 read.1)
              current in
          elim written.0 [
            | raised e ↦ (raised e, written.1)
            | returned r ↦ (returned tt, written.1)
          ]
    ]

-- `observe_destination_sync`: `absolute` is the path that `Path(output_dir).expanduser().absolute()`
-- makes of it, which depends on the process.
unfoldable pub observe_destination :
    World → OperationContext → String → StateStore → Outcome (Unit {0}) × StateStore
unfolding write_once
observe_destination world context absolute s =
    write_once world context (record no_changes { output_dir = some (some absolute) }) s

-- `update`: artifacts go the way of `observe_artifacts_sync`; an update of nothing does nothing.
unfoldable pub update_context :
    {V : Type 0}
    → World
    → OperationContext
    → Option OperationState
    → List (Artifact V)
    → Option String
    → StateStore
    → Outcome (Unit {0}) × StateStore
unfolding write_once observe_artifacts
update_context world context state (a ∷ artifacts) verification_status s =
    observe_artifacts world context (a ∷ artifacts) state verification_status s
update_context world context (some state) [] verification_status s =
    write_once world context
      (record no_changes {
        state = some (operation_state_value state);
        verification_status = verification_status;
      })
      s
update_context world context none [] (some status) s =
    write_once world context (record no_changes { verification_status = some status }) s
update_context world context none [] none s = (returned tt, s)
