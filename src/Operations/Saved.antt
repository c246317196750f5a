-- ===== src/Operations/Saved.antt =====
-- `OperationService._save_result` of services/operations.py. Of a result it reads the state, the
-- verification status and the error code, and of its data the first chat id that is not empty, the
-- provider's id and the artifacts.
pub mod Completion
use gemini_web_mcp.Common.{
  ℕ, String, Bool, true, false, not, ◌&&◌, ◌||◌, Option, none, some, List, [], ◌∷◌, if◌then◌else◌,
  any, ◌==◌, Outcome, returned, raised, ◌>>=◌,
}
use gemini_web_mcp.Domain.Codes.{
  OperationState, DomainErrorCode, operation_state_value, domain_error_code_value,
}
use gemini_web_mcp.Domain.Artifacts.{Artifact}
use gemini_web_mcp.Store.Records.{ArtifactLocator, OperationRecord}
use gemini_web_mcp.Store.Transactions.{StateStore}
use gemini_web_mcp.Store.Operations.{get}
use gemini_web_mcp.Store.Updates.{Changes, no_changes, update, is_terminal}
use gemini_web_mcp.Operations.Merge.{merge_locators, is_truthy}
use gemini_web_mcp.Operations.Context.{World, incoming, is_artifact_work, is_unsaved, is_other_chat}

pub record ReadResult (V : Type 0) : Type 0 where
  pub operation_state : OperationState
  pub verification_status : String
  pub error_code : Option DomainErrorCode
  pub chat_id : Option String
  pub provider_id : Option String
  pub artifacts : List (Artifact V)

-- `if value: changes[…] = value`
abbrev pub if_truthy : Option String → Option (Option String)
if_truthy none = none
if_truthy (some value) = if value == "" then none else some (some value)

-- `chat_id and current.upstream_chat_id and current.upstream_chat_id != chat_id`
abbrev pub contradicts : Option String → Option String → Bool
contradicts none current = false
contradicts (some chat_id) current = not (chat_id == "") && is_other_chat current chat_id

-- What is written when the result names another chat.
abbrev pub source_changed : Changes
source_changed = record no_changes {
  state = some (operation_state_value OperationState.failed);
  error_code = some (some (domain_error_code_value DomainErrorCode.upstream_changed));
  verification_status = some "source_identity_changed";
}

-- `if artifacts: changes["artifacts"] = …`
unfoldable pub merged_artifacts :
    List ArtifactLocator → List ArtifactLocator → Option (List ArtifactLocator)
unfolding merge_locators
merged_artifacts existing [] = none
merged_artifacts existing (a ∷ news) = some (merge_locators existing (a ∷ news))

-- `not available or any(item.state != LOCAL or item.verification != VERIFIED …)`
unfoldable pub lacks_artifacts : List ArtifactLocator → Bool
unfolding any
lacks_artifacts [] = true
lacks_artifacts (a ∷ items) = any is_unsaved (a ∷ items)

-- `changes["state"] == COMPLETED and current.operation_type in {…}`
abbrev pub claims_artifacts : OperationState → String → Bool
claims_artifacts OperationState.completed kind = is_artifact_work kind
claims_artifacts state kind = false

-- `PARTIAL if available else RUNNING`
abbrev pub downgraded : List ArtifactLocator → OperationState
downgraded [] = OperationState.running
downgraded (a ∷ items) = OperationState.partial

-- The state and the verification status that are written with these artifacts at hand.
unfoldable pub settled_completion :
    OperationState → String → String → List ArtifactLocator → OperationState × String
unfolding lacks_artifacts
settled_completion state status kind available =
    if claims_artifacts state kind && lacks_artifacts available
    then (downgraded available, "completion_not_observed")
    else (state, status)

abbrev pub available_in :
    Option (List ArtifactLocator) → List ArtifactLocator → List ArtifactLocator
available_in none current = current
available_in (some items) current = items

abbrev pub error_value : Option DomainErrorCode → Option String
error_value none = none
error_value (some code) = some (domain_error_code_value code)

-- The changes that `_save_result` passes to `update`.
unfoldable pub saved_changes : {V : Type 0} → ReadResult V → OperationRecord → Outcome Changes
unfolding incoming merged_artifacts settled_completion
saved_changes result current =
    if contradicts result.chat_id current.upstream_chat_id then returned source_changed else (do
      news ← incoming result.artifacts
      let artifacts = merged_artifacts current.artifacts news
      let (state, status) =
          settled_completion result.operation_state result.verification_status
            current.operation_type (available_in artifacts current.artifacts)
      returned (record {
        state = some (operation_state_value state);
        provider_operation_id = if_truthy result.provider_id;
        upstream_chat_id = if_truthy result.chat_id;
        attempt_count = none;
        error_code = some (error_value result.error_code);
        verification_status = some status;
        artifacts = artifacts;
        output_dir = none;
      }))

-- `updated or self.store.operations.get(…)`
abbrev pub or_read :
    Outcome (Option OperationRecord) × StateStore
    → (StateStore → Outcome (Option OperationRecord) × StateStore)
    → Outcome (Option OperationRecord) × StateStore
or_read (raised e, t) again = (raised e, t)
or_read (returned (some r), t) again = (returned (some r), t)
or_read (returned none, t) again = again t

-- The rest of `_save_result` on the record that it read.
unfoldable pub save_on :
    {V : Type 0}
    → World
    → String
    → String
    → ReadResult V
    → Option String
    → OperationRecord
    → StateStore
    → Outcome (Option OperationRecord) × StateStore
unfolding saved_changes update get
save_on world scope operation_id result lease_id current s =
    if is_terminal current.state
    then (returned (some current), s)
    else elim (saved_changes result current) [
      | raised e ↦ (raised e, s)
      | returned c ↦
          or_read
            (update (world.clocks 0).opened (world.clocks 0).updated scope operation_id
              (some current.version) lease_id c (world.others 0 s))
            (λ t. get (world.clocks 1).got scope operation_id (world.others 1 t))
    ]

-- `_save_result`
unfoldable pub save_result :
    {V : Type 0}
    → World
    → String
    → String
    → ReadResult V
    → Option String
    → StateStore
    → Outcome (Option OperationRecord) × StateStore
unfolding get save_on
save_result world scope operation_id result lease_id s =
    let read = get (world.clocks 0).got scope operation_id s in
    elim read.0 [
      | raised e ↦ (raised e, read.1)
      | returned none ↦ (returned none, read.1)
      | returned (some current) ↦ save_on world scope operation_id result lease_id current read.1
    ]
