-- ===== src/Operations/Rendered.antt =====
-- `LongOperationData` of domain/operations.py, and how `OperationService` of services/operations.py
-- renders a record as a result. `V` stands for the values of an artifact's `details`.
pub mod Total
use gemini_web_mcp.Common.{
  ℕ, String, Bool, true, false, not, ◌&&◌, ◌||◌, Option, none, some, List, [], ◌∷◌, if◌then◌else◌,
  any, ◌==◌, Outcome, returned, raised, ◌>>=◌, state_store_error, Dict, PyError,
}
use gemini_web_mcp.Domain.Codes.{
  OperationState, DomainErrorCode, operation_state_value, domain_error_code_of,
}
use gemini_web_mcp.Domain.Results.{Drawn, DomainResult, MetaOptions, no_options, success, failure}
use gemini_web_mcp.Domain.Artifacts.{Artifact}
use gemini_web_mcp.Store.Records.{
  ArtifactLocator, OperationRecord, CleanupJobRecord, artifact, read,
}
use gemini_web_mcp.Store.Transactions.{StateStore}
use gemini_web_mcp.Store.Cleanup.{get_job}
use gemini_web_mcp.Operations.Merge.{is_truthy}

pub record LongOperationData (V : Type 0) : Type 0 where
  pub operation : String
  pub state : OperationState
  pub operation_id : Option String
  pub upstream_operation_id : Option String
  pub upstream_chat_id : Option String
  pub title : Option String
  pub latest_upstream_state : Option String
  pub continuation_possible : Bool
  pub report_available : Bool
  pub poll_count : ℕ
  pub artifacts : List (Artifact V)
  pub created_at : Option ℕ
  pub updated_at : Option ℕ
  pub expires_at : Option ℕ
  pub cancellation_confirmed : Bool

-- The values of `details`: a flag, or what is known of the cleanup.
pub data Detail : Type 0 where
  flag : Bool → Detail
  cleanup_of : String → String → CleanupJobRecord → Detail
  cleanup_unknown : Detail

-- `bool(items)`
abbrev pub is_present : {A : Type 0} → List A → Bool
is_present [] = false
is_present (a ∷ items) = true

module _ {V : Type 0} where
  -- `tuple(item.artifact() for item in record.artifacts)`
  unfoldable pub artifacts_of : List ArtifactLocator → Outcome (List (Artifact V))
  unfolding artifact
  artifacts_of [] = returned []
  artifacts_of (item ∷ items) = do a ← artifact item; rest ← artifacts_of items; returned (a ∷ rest)

  -- `_data`
  unfoldable pub data_of : OperationRecord → Outcome (LongOperationData V)
  unfolding artifacts_of
  data_of r = do
    items ← artifacts_of r.artifacts
    returned (record {
      operation = r.operation_type;
      state = r.state;
      operation_id = some r.operation_id;
      upstream_operation_id = r.provider_operation_id;
      upstream_chat_id = r.upstream_chat_id;
      title = none;
      latest_upstream_state = some (operation_state_value r.state);
      continuation_possible = is_truthy r.upstream_chat_id || is_truthy r.provider_operation_id;
      report_available = r.operation_type == "research" && is_present r.artifacts;
      poll_count = 0;
      artifacts = items;
      created_at = some r.created_at;
      updated_at = some r.updated_at;
      expires_at = some r.expires_at;
      cancellation_confirmed = r.verification_status == "provider_cancelled";
    })

-- A completed cleanup without observed absence is shown as failed. The other values are those of
-- the job.
abbrev pub shown_state : CleanupJobRecord → String
shown_state job =
    if not (job.state == "completed") || job.verification_status == "verified_absent"
    then job.state
    else "failed"

-- `try: … except StateStoreError: …`
abbrev pub cleanup_details : Outcome (Option CleanupJobRecord) → Outcome (Dict Detail)
cleanup_details (returned none) = returned []
cleanup_details (returned (some job)) =
    returned (("cleanup", Detail.cleanup_of (shown_state job) job.verification_status job) ∷ [])
cleanup_details (raised (state_store_error m)) = returned (("cleanup", Detail.cleanup_unknown) ∷ [])
cleanup_details (raised e) = raised e

-- `codes.get(record.state, DomainErrorCode.INTERNAL_ERROR)`
abbrev pub code_of_state : OperationState → DomainErrorCode
code_of_state OperationState.timed_out = DomainErrorCode.timed_out
code_of_state OperationState.cancelled = DomainErrorCode.cancelled
code_of_state OperationState.unavailable = DomainErrorCode.capability_unavailable
code_of_state _ = DomainErrorCode.internal_error

-- `DomainErrorCode(record.error_code) if record.error_code else …`
unfoldable pub failure_code : Option String → OperationState → Outcome DomainErrorCode
unfolding domain_error_code_of
failure_code none state = returned (code_of_state state)
failure_code (some code) state =
    if code == "" then returned (code_of_state state) else read (domain_error_code_of code)

-- The states that are rendered as failures; `_expired` has taken EXPIRED away.
abbrev pub is_rendered_failure : OperationState → Bool
is_rendered_failure OperationState.failed = true
is_rendered_failure OperationState.timed_out = true
is_rendered_failure OperationState.cancelled = true
is_rendered_failure OperationState.unavailable = true
is_rendered_failure _ = false

-- `record.state != OperationState.CANCELLED`
abbrev pub is_not_cancelled : OperationState → Bool
is_not_cancelled OperationState.cancelled = false
is_not_cancelled _ = true

-- The cleanup of the operation's chat, if it has one.
unfoldable pub read_cleanup : ℕ → OperationRecord → StateStore → Outcome (Dict Detail) × StateStore
unfolding get_job
read_cleanup clock r s = elim r.upstream_chat_id [
  | none ↦ (returned [], s)
  | some chat ↦
      if chat == ""
      then (returned [], s)
      else (let job = get_job clock r.scope_id chat s in (cleanup_details job.0, job.1))
]

-- `record.state == OperationState.EXPIRED`
abbrev pub is_expired_state : OperationState → Bool
is_expired_state OperationState.expired = true
is_expired_state _ = false

module _ {V : Type 0} (drawn : Drawn) where
  -- The end of `_render`.
  unfoldable pub rendered :
      OperationRecord
      → LongOperationData V
      → Dict Detail
      → Outcome (DomainResult Detail (LongOperationData V))
  unfolding failure_code success failure
  rendered r item details =
      if is_rendered_failure r.state
      then (do
        code ← failure_code r.error_code r.state
        failure drawn
            (record {
              code = code;
              message = "Operation has not produced a completed result.";
              retryable = is_not_cancelled r.state;
              suggested_action = none;
              diagnostic_id = none;
            })
            (some item) r.state []
            (record no_options { verification_status = r.verification_status; details = details }))
      else success drawn (some item) r.state []
          (record no_options { verification_status = r.verification_status; details = details })

  -- A failure with the defaults of the other arguments.
  unfoldable pub failed_with :
      DomainErrorCode → String → Outcome (DomainResult Detail (LongOperationData V))
  unfolding failure
  failed_with code message =
      failure drawn
        (record {
          code = code;
          message = message;
          retryable = false;
          suggested_action = none;
          diagnostic_id = none;
        })
        none OperationState.failed [] no_options

  -- `_not_found`, `_missing_auth` and `_storage_error`
  unfoldable pub not_found_result : Outcome (DomainResult Detail (LongOperationData V))
  unfolding failed_with
  not_found_result =
      failed_with DomainErrorCode.operation_not_found
        "Operation was not found for the current authentication context."

  unfoldable pub missing_auth_result : Outcome (DomainResult Detail (LongOperationData V))
  unfolding failed_with
  missing_auth_result =
      failed_with DomainErrorCode.auth_required
        "Operation recovery requires an authenticated account context."

  unfoldable pub storage_error_result : Outcome (DomainResult Detail (LongOperationData V))
  unfolding failed_with
  storage_error_result =
      failed_with DomainErrorCode.internal_error "Local operation metadata could not be accessed."

  -- `_expired`
  unfoldable pub expired_result :
      OperationRecord → Outcome (DomainResult Detail (LongOperationData V))
  unfolding data_of failure
  expired_result r = do
    item ← data_of r
    failure drawn
        (record {
          code = DomainErrorCode.operation_expired;
          message = "Operation metadata has expired.";
          retryable = false;
          suggested_action = none;
          diagnostic_id = none;
        })
        (some (record item { state = OperationState.expired })) OperationState.expired []
        (record no_options { verification_status = "metadata_expired" })

  -- `_render` of a record that has not expired.
  unfoldable pub render_live :
      ℕ
      → OperationRecord
      → LongOperationData V
      → StateStore
      → Outcome (DomainResult Detail (LongOperationData V)) × StateStore
  unfolding read_cleanup rendered
  render_live clock r item s =
      let cleanup = read_cleanup clock r s in
      (
        (do
          details ← cleanup.0
          rendered r item
              (("provider_cancel_verified", Detail.flag item.cancellation_confirmed) ∷ details)),
        cleanup.1,
      )

  -- `_render`
  unfoldable pub render :
      ℕ
      → OperationRecord
      → StateStore
      → Outcome (DomainResult Detail (LongOperationData V)) × StateStore
  unfolding expired_result data_of render_live
  render clock r s = if is_expired_state r.state then (expired_result r, s) else elim (data_of r) [
    | raised e ↦ (raised e, s)
    | returned item ↦ render_live clock r item s
  ]
