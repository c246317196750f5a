-- ===== src/Domain/Artifacts.antt =====
-- domain/artifacts.py: the artifact contracts, and the readers of the three enumerations.
use gemini_web_mcp.Common.{ℕ, String, Option, none, some, List, ◌==◌, if◌then◌else◌, Dict}

pub data ArtifactKind : Type 0 where
  image : ArtifactKind
  video : ArtifactKind
  audio : ArtifactKind
  file : ArtifactKind
  report : ArtifactKind
  webpage : ArtifactKind
  item_data : ArtifactKind

-- `.value`
unfoldable pub artifact_kind_value : ArtifactKind → String
artifact_kind_value ArtifactKind.image = "image"
artifact_kind_value ArtifactKind.video = "video"
artifact_kind_value ArtifactKind.audio = "audio"
artifact_kind_value ArtifactKind.file = "file"
artifact_kind_value ArtifactKind.report = "report"
artifact_kind_value ArtifactKind.webpage = "webpage"
artifact_kind_value ArtifactKind.item_data = "data"

-- `ArtifactKind(value)`
unfoldable pub artifact_kind_of : String → Option ArtifactKind
artifact_kind_of s =
    if s == "image"
    then some ArtifactKind.image
    else if s == "video"
    then some ArtifactKind.video
    else if s == "audio"
    then some ArtifactKind.audio
    else if s == "file"
    then some ArtifactKind.file
    else if s == "report"
    then some ArtifactKind.report
    else if s == "webpage"
    then some ArtifactKind.webpage
    else if s == "data"
    then some ArtifactKind.item_data
    else none

-- Observable availability.
pub data ArtifactState : Type 0 where
  remote : ArtifactState
  local : ArtifactState
  queued : ArtifactState
  empty : ArtifactState
  failed : ArtifactState

unfoldable pub artifact_state_value : ArtifactState → String
artifact_state_value ArtifactState.remote = "remote"
artifact_state_value ArtifactState.local = "local"
artifact_state_value ArtifactState.queued = "queued"
artifact_state_value ArtifactState.empty = "empty"
artifact_state_value ArtifactState.failed = "failed"

-- `ArtifactState(value)`
unfoldable pub artifact_state_of : String → Option ArtifactState
artifact_state_of s =
    if s == "remote"
    then some ArtifactState.remote
    else if s == "local"
    then some ArtifactState.local
    else if s == "queued"
    then some ArtifactState.queued
    else if s == "empty"
    then some ArtifactState.empty
    else if s == "failed"
    then some ArtifactState.failed
    else none

pub data ArtifactVerificationStatus : Type 0 where
  verified : ArtifactVerificationStatus
  unverified : ArtifactVerificationStatus
  failed : ArtifactVerificationStatus

unfoldable pub artifact_verification_value : ArtifactVerificationStatus → String
artifact_verification_value ArtifactVerificationStatus.verified = "verified"
artifact_verification_value ArtifactVerificationStatus.unverified = "unverified"
artifact_verification_value ArtifactVerificationStatus.failed = "failed"

-- `ArtifactVerificationStatus(value)`
unfoldable pub artifact_verification_of : String → Option ArtifactVerificationStatus
artifact_verification_of s =
    if s == "verified"
    then some ArtifactVerificationStatus.verified
    else if s == "unverified"
    then some ArtifactVerificationStatus.unverified
    else if s == "failed"
    then some ArtifactVerificationStatus.failed
    else none

-- `V` stands for the values of the mapping `details`.
pub record ArtifactVerification (V : Type 0) : Type 0 where
  pub status : ArtifactVerificationStatus
  pub methods : List String
  pub details : Dict V

-- The source's floating-point duration is a number of ticks.
pub record Artifact (V : Type 0) : Type 0 where
  pub id : String
  pub kind : ArtifactKind
  pub state : ArtifactState
  pub title : Option String
  pub uri : Option String
  pub local_path : Option String
  pub mime_type : Option String
  pub size_bytes : Option ℕ
  pub width : Option ℕ
  pub height : Option ℕ
  pub duration_seconds : Option ℕ
  pub source_chat_id : Option String
  pub requested_backend : Option String
  pub request_model : Option String
  pub effective_backend : Option String
  pub observed_backend : Option String
  pub verification : ArtifactVerification V
