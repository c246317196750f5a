-- ===== src/Store/Records.antt =====
-- The records of infrastructure/state_store.py. Times are numbers of clock ticks. An operation is
-- a row of the database, where its state is a text, or an `OperationRecord`, where it is an
-- `OperationState`: `S` is the type of the state. The artifacts of a row stand for their JSON text.
pub mod Locators
use gemini_web_mcp.Common.{
  ℕ, String, Bool, Option, none, some, List, [], ◌∷◌, Outcome, returned, raised, raise_if,
  value_error, state_store_error, ◌>>=◌, ◌>>◌,
}
use gemini_web_mcp.Domain.Codes.{OperationState, operation_state_of}
use gemini_web_mcp.Domain.Artifacts.{
  Artifact, artifact_kind_of, artifact_kind_value, artifact_state_of, artifact_state_value,
  artifact_verification_of, artifact_verification_value,
}
use gemini_web_mcp.Store.Labels.{identifier, identifier_if, is_bad_uri, artifact_filename}

pub record ArtifactLocator : Type 0 where
  pub id : String
  pub kind : String
  pub state : String
  pub uri : Option String
  pub local_path : Option String
  pub source_chat_id : Option String
  pub verification : String

-- `Enumeration(value)` for its check alone
abbrev pub known : {A : Type 0} → Option A → Outcome (Unit {0})
known none = raised (value_error "not a valid value")
known (some a) = returned tt

-- `ArtifactLocator.__post_init__`
unfoldable pub locator_post_init : ArtifactLocator → Outcome (Unit {0})
unfolding identifier_if is_bad_uri artifact_kind_of artifact_state_of artifact_verification_of
locator_post_init a = do
  identifier a.id
  known (artifact_kind_of a.kind)
  known (artifact_state_of a.state)
  known (artifact_verification_of a.verification)
  identifier_if a.source_chat_id
  raise_if (is_bad_uri a.uri) (value_error "Artifact URI is not a persistent locator.")

-- `ArtifactLocator.from_artifact`: the class's own `__post_init__` runs on what it builds.
unfoldable pub from_artifact : {V : Type 0} → Artifact V → Outcome ArtifactLocator
unfolding locator_post_init
from_artifact value = do
  raise_if (is_bad_uri value.uri) (value_error "Artifact URI is not a persistent locator.")
  identifier value.id
  let locator : ArtifactLocator = record {
    id = value.id;
    kind = artifact_kind_value value.kind;
    state = artifact_state_value value.state;
    uri = value.uri;
    local_path = value.local_path;
    source_chat_id = value.source_chat_id;
    verification = artifact_verification_value value.verification.status;
  }
  locator_post_init locator
  returned locator

-- `Enumeration(value)`
abbrev pub read : {A : Type 0} → Option A → Outcome A
read none = raised (value_error "not a valid value")
read (some a) = returned a

-- `ArtifactLocator.artifact`
unfoldable pub artifact : {V : Type 0} → ArtifactLocator → Outcome (Artifact V)
artifact a = do
  kind ← read (artifact_kind_of a.kind)
  state ← read (artifact_state_of a.state)
  status ← read (artifact_verification_of a.verification)
  returned (record {
    id = a.id;
    kind = kind;
    state = state;
    title = none;
    uri = a.uri;
    local_path = a.local_path;
    mime_type = none;
    size_bytes = none;
    width = none;
    height = none;
    duration_seconds = none;
    source_chat_id = a.source_chat_id;
    requested_backend = none;
    request_model = none;
    effective_backend = none;
    observed_backend = none;
    verification = record { status = status; methods = []; details = [] };
  })

pub record Operation (S : Type 0) : Type 0 where
  pub operation_id : String
  pub scope_id : String
  pub operation_type : String
  pub state : S
  pub created_at : ℕ
  pub updated_at : ℕ
  pub expires_at : ℕ
  pub provider_operation_id : Option String
  pub upstream_chat_id : Option String
  pub attempt_count : ℕ
  pub error_code : Option String
  pub verification_status : String
  pub artifacts : List ArtifactLocator
  pub version : ℕ
  pub idempotency_key : Option String
  pub output_dir : Option String
  pub retain_chat : Bool
  pub delete_after_seconds : Option ℕ
  pub lease_id : Option String
  pub lease_until : Option ℕ
  pub filename : Option String

abbrev pub OperationRecord : Type 0
OperationRecord = Operation OperationState

abbrev pub OperationRow : Type 0
OperationRow = Operation String

-- The operation with another state.
unfoldable pub with_state : {S T : Type 0} → T → Operation S → Operation T
with_state state r = record {
  operation_id = r.operation_id;
  scope_id = r.scope_id;
  operation_type = r.operation_type;
  state = state;
  created_at = r.created_at;
  updated_at = r.updated_at;
  expires_at = r.expires_at;
  provider_operation_id = r.provider_operation_id;
  upstream_chat_id = r.upstream_chat_id;
  attempt_count = r.attempt_count;
  error_code = r.error_code;
  verification_status = r.verification_status;
  artifacts = r.artifacts;
  version = r.version;
  idempotency_key = r.idempotency_key;
  output_dir = r.output_dir;
  retain_chat = r.retain_chat;
  delete_after_seconds = r.delete_after_seconds;
  lease_id = r.lease_id;
  lease_until = r.lease_until;
  filename = r.filename;
}

-- `ArtifactLocator(**item)` for every item of the row
unfoldable pub check_locators : List ArtifactLocator → Outcome (Unit {0})
unfolding locator_post_init
check_locators [] = returned tt
check_locators (a ∷ items) = locator_post_init a >> check_locators items

-- `try: … except (TypeError, ValueError, KeyError): raise StateStoreError(…) from None`
abbrev pub stored : {A : Type 0} → Outcome A → Outcome A
stored (returned a) = returned a
stored (raised e) = raised (state_store_error "Stored operation metadata is invalid.")

-- `_operation`: a row as a record.
unfoldable pub operation : OperationRow → Outcome OperationRecord
unfolding with_state artifact_filename operation_state_of check_locators
operation row = stored (do
  state ← read (operation_state_of row.state)
  artifact_filename row.filename
  check_locators row.artifacts
  returned (with_state state row))

pub record CleanupJobRecord : Type 0 where
  pub job_id : String
  pub scope_id : String
  pub resource_id : String
  pub state : String
  pub due_at : ℕ
  pub created_at : ℕ
  pub updated_at : ℕ
  pub expires_at : ℕ
  pub resource_type : String
  pub attempts : ℕ
  pub diagnostic_id : Option String
  pub verification_status : String
  pub source : String
  pub error_code : Option String
  pub version : ℕ
  pub lease_id : Option String
  pub lease_until : Option ℕ
