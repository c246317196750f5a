-- ===== src/Store/Records/Locators.antt =====
-- What an `ArtifactLocator` keeps of an artifact.
use gemini_web_mcp.Common.{
  ◌≡◌, refl, ap, ◌∙◌, none, some, arith, Outcome, returned, raised, ◌>>◌, raise_if, value_error, [],
}
use gemini_web_mcp.Domain.Artifacts.{
  Artifact, ArtifactKind, ArtifactState, ArtifactVerificationStatus, artifact_kind_of,
  artifact_kind_value, artifact_state_of, artifact_state_value, artifact_verification_of,
  artifact_verification_value,
}
use gemini_web_mcp.Store.Labels.{identifier, is_bad_uri}
use gemini_web_mcp.Store.Records.{ArtifactLocator, from_artifact, artifact, locator_post_init}

kind_read : (k : ArtifactKind) → artifact_kind_of (artifact_kind_value k) ≡ some k
unfolding artifact_kind_of artifact_kind_value
kind_read ArtifactKind.image = refl
kind_read ArtifactKind.video = refl
kind_read ArtifactKind.audio = refl
kind_read ArtifactKind.file = refl
kind_read ArtifactKind.report = refl
kind_read ArtifactKind.webpage = refl
kind_read ArtifactKind.item_data = refl

state_read : (k : ArtifactState) → artifact_state_of (artifact_state_value k) ≡ some k
unfolding artifact_state_of artifact_state_value
state_read ArtifactState.remote = refl
state_read ArtifactState.local = refl
state_read ArtifactState.queued = refl
state_read ArtifactState.empty = refl
state_read ArtifactState.failed = refl

verification_read :
    (k : ArtifactVerificationStatus)
    → artifact_verification_of (artifact_verification_value k) ≡ some k
unfolding artifact_verification_of artifact_verification_value
verification_read ArtifactVerificationStatus.verified = refl
verification_read ArtifactVerificationStatus.unverified = refl
verification_read ArtifactVerificationStatus.failed = refl

-- The locator of an artifact.
locator_of : {V : Type 0} → Artifact V → ArtifactLocator
locator_of value = record {
  id = value.id;
  kind = artifact_kind_value value.kind;
  state = artifact_state_value value.state;
  uri = value.uri;
  local_path = value.local_path;
  source_chat_id = value.source_chat_id;
  verification = artifact_verification_value value.verification.status;
}

from_artifact_returned :
    {V : Type 0} (value : Artifact V) (a : ArtifactLocator)
    → from_artifact value ≡ returned a
    → a ≡ locator_of value
unfolding from_artifact locator_of
from_artifact_returned value a h =
    steps
      (raise_if (is_bad_uri value.uri) (value_error "Artifact URI is not a persistent locator."))
      (identifier value.id) (locator_post_init (locator_of value)) h
  where
    steps :
        (m n k : Outcome (Unit {0}))
        → (m >> (n >> (k >> returned (locator_of value)))) ≡ returned a
        → a ≡ locator_of value
    steps (raised e) n k p = absurd (ground arith)
    steps (returned u) (raised e) k p = absurd (ground arith)
    steps (returned u) (returned v) (raised e) p = absurd (ground arith)
    steps (returned u) (returned v) (returned w) p = ground arith

-- A locator that is made of an artifact reads back as an artifact of the same id, kind, state,
-- address, path, source and verification status.
pub artifact-from_artifact :
    {V : Type 0} (value : Artifact V) (a : ArtifactLocator)
    → from_artifact value ≡ returned a
    → (b : Artifact V) × (artifact a ≡ returned b)
      × (b.id ≡ value.id)
      × (b.kind ≡ value.kind)
      × (b.state ≡ value.state)
      × (b.uri ≡ value.uri)
      × (b.local_path ≡ value.local_path)
      × (b.source_chat_id ≡ value.source_chat_id)
      × (b.verification.status ≡ value.verification.status)
unfolding artifact locator_of
artifact-from_artifact {V = V} value a h =
    let b : Artifact V = record {
      id = value.id;
      kind = value.kind;
      state = value.state;
      title = none;
      uri = value.uri;
      local_path = value.local_path;
      mime_type = none;
      size_bytes = none;
      width = none;
      height = none;
      duration_seconds = none;
      source_chat_id = value.source_chat_id;
      requested_backend = none;
      request_model = none;
      effective_backend = none;
      observed_backend = none;
      verification = record { status = value.verification.status; methods = []; details = [] };
    } in
    (
      b,
      ap (λ (x : ArtifactLocator). artifact {V = V} x) (from_artifact_returned value a h)
          ∙ rw
              (
                kind_read value.kind,
                state_read value.state,
                verification_read value.verification.status,
              )
              refl,
      refl,
      refl,
      refl,
      refl,
      refl,
      refl,
      refl,
    )
