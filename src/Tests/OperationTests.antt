-- ===== src/Tests/OperationTests.antt =====
-- The theorems on artifact locators and on services/operations.py at a report.
use gemini_web_mcp.Common.{String, true, false, ◌≡◌, refl, none, some, [], ◌∷◌, returned}
use gemini_web_mcp.Domain.Codes.{OperationState, operation_state_value}
use gemini_web_mcp.Domain.Artifacts.{
  Artifact, ArtifactKind, ArtifactState, ArtifactVerificationStatus, artifact_kind_value,
  artifact_state_value, artifact_verification_value,
}
use gemini_web_mcp.Store.Records.{ArtifactLocator, from_artifact, artifact}
use gemini_web_mcp.Store.Records.Locators.{artifact-from_artifact}
use gemini_web_mcp.Operations.Context.{is_artifact_work}
use gemini_web_mcp.Operations.Saved.{ReadResult, saved_changes, lacks_artifacts, available_in}
use gemini_web_mcp.Operations.Saved.Completion.{saved_changes_lem}
use gemini_web_mcp.Store.Records.{OperationRecord, with_state}
use gemini_web_mcp.Store.Updates.{Changes, no_changes}
use gemini_web_mcp.Common.{is_some, not, or_text}
use gemini_web_mcp.Domain.Codes.{is_failure_state, domain_error_code_of}
use gemini_web_mcp.Domain.Results.{Drawn, DomainResult}
use gemini_web_mcp.Operations.Rendered.{LongOperationData, Detail, rendered, is_expired_state}
use gemini_web_mcp.Operations.Rendered.Total.{rendered_total}
use gemini_web_mcp.Tests.StoreTests.{row}

abbrev report : Artifact String
report = record {
  id = "report_1";
  kind = ArtifactKind.report;
  state = ArtifactState.local;
  title = none;
  uri = none;
  local_path = some "/tmp/report.md";
  mime_type = none;
  size_bytes = none;
  width = none;
  height = none;
  duration_seconds = none;
  source_chat_id = some "c_1";
  requested_backend = none;
  request_model = none;
  effective_backend = none;
  observed_backend = none;
  verification = record {
    status = ArtifactVerificationStatus.verified;
    methods = [];
    details = [];
  };
}

abbrev report_locator : ArtifactLocator
report_locator = record {
  id = "report_1";
  kind = "report";
  state = "local";
  uri = none;
  local_path = some "/tmp/report.md";
  source_chat_id = some "c_1";
  verification = "verified";
}

report_located : from_artifact report ≡ returned report_locator
unfolding from_artifact artifact_kind_value artifact_state_value artifact_verification_value
report_located = refl

artifact-from_artifact_example :
    (b : Artifact String) × (artifact report_locator ≡ returned b)
    × (b.id ≡ "report_1")
    × (b.kind ≡ ArtifactKind.report)
    × (b.state ≡ ArtifactState.local)
    × (b.uri ≡ none)
    × (b.local_path ≡ some "/tmp/report.md")
    × (b.source_chat_id ≡ some "c_1")
    × (b.verification.status ≡ ArtifactVerificationStatus.verified)
artifact-from_artifact_example = artifact-from_artifact report report_locator report_located

abbrev finished : ReadResult String
finished = record {
  operation_state = OperationState.completed;
  verification_status = "verified";
  error_code = none;
  chat_id = some "c_1";
  provider_id = none;
  artifacts = report ∷ [];
}

abbrev running_record : OperationRecord
unfolding with_state
running_record = with_state OperationState.running row

abbrev saved : Changes
saved = record no_changes {
  state = some "completed";
  upstream_chat_id = some (some "c_1");
  error_code = some none;
  verification_status = some "verified";
  artifacts = some (report_locator ∷ []);
}

saved_completion : saved_changes finished running_record ≡ returned saved
unfolding saved_changes operation_state_value artifact_kind_value artifact_state_value
    artifact_verification_value with_state
saved_completion = refl

is_research : is_artifact_work running_record.operation_type ≡ true
unfolding with_state
is_research = refl

saved_changes_example :
    lacks_artifacts (available_in saved.artifacts running_record.artifacts) ≡ false
saved_changes_example =
    saved_changes_lem finished running_record saved saved_completion is_research refl

abbrev drawn : Drawn
drawn = record { new_request_id = "request_1"; now = "2026-01-01" }

abbrev timed_out_record : OperationRecord
unfolding with_state
timed_out_record = record (with_state OperationState.timed_out row) {
  error_code = some "TIMED_OUT";
}

abbrev timed_out_data : LongOperationData String
timed_out_data = record {
  operation = "research";
  state = OperationState.timed_out;
  operation_id = some "op_1";
  upstream_operation_id = none;
  upstream_chat_id = none;
  title = none;
  latest_upstream_state = some "timed_out";
  continuation_possible = false;
  report_available = false;
  poll_count = 0;
  artifacts = [];
  created_at = some 0;
  updated_at = some 0;
  expires_at = some 10000;
  cancellation_confirmed = false;
}

timed_out_live : is_expired_state timed_out_record.state ≡ false
unfolding with_state
timed_out_live = refl

timed_out_known :
    is_some (domain_error_code_of (or_text timed_out_record.error_code "INTERNAL_ERROR")) ≡ true
unfolding with_state domain_error_code_of
timed_out_known = refl

rendered_total_example :
    (result : DomainResult Detail (LongOperationData String)) × (rendered drawn timed_out_record
        timed_out_data []
      ≡ returned result)
    × (result.ok ≡ not (is_failure_state timed_out_record.state))
    × (result.meta.operation_state ≡ timed_out_record.state)
    × (result.meta.verification_status ≡ timed_out_record.verification_status)
    × (result.result ≡ some timed_out_data)
rendered_total_example =
    rendered_total drawn timed_out_record timed_out_data [] timed_out_live timed_out_known
