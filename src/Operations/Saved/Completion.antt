-- ===== src/Operations/Saved/Completion.antt =====
-- When `_save_result` records a completion.
use gemini_web_mcp.Common.{
  eq_iff, PyError, ◌∙◌, subst, ◌≢◌, String, true, false, ◌≡◌, refl, ap, none, some, List, [], ◌∷◌,
  ◌==◌, Outcome, returned, raised, arith, Bool-cases, inl, inr,
}
use gemini_web_mcp.Domain.Codes.{OperationState, operation_state_value}
use gemini_web_mcp.Store.Records.{ArtifactLocator, OperationRecord}
use gemini_web_mcp.Store.Updates.{Changes}
use gemini_web_mcp.Store.Updates.Transition.{Outcome-cases}
use gemini_web_mcp.Operations.Context.{incoming, is_artifact_work}
use gemini_web_mcp.Operations.Saved.{
  ReadResult, saved_changes, lacks_artifacts, available_in, settled_completion, claims_artifacts,
  merged_artifacts, if_truthy, error_value, contradicts, downgraded, source_changed,
}

-- Texts that the test tells apart are different.
ne_of_test : (a b : String) → (a == b) ≡ false → a ≢ b
ne_of_test a b t h = ground (arith, eq_iff a b)

-- A state that is downgraded is not completed.
downgraded_ne :
    (items : List ArtifactLocator) → operation_state_value (downgraded items) ≢ "completed"
unfolding operation_state_value
downgraded_ne [] h = ne_of_test "running" "completed" refl h
downgraded_ne (a ∷ items) h = ne_of_test "partial" "completed" refl h

-- Only the completed state claims artifacts.
claims_of_completed :
    (state : OperationState) (kind : String)
    → is_artifact_work kind ≡ true
    → operation_state_value state ≡ "completed"
    → claims_artifacts state kind ≡ true
unfolding operation_state_value
claims_of_completed OperationState.accepted kind w h =
    absurd (ne_of_test "accepted" "completed" refl h)
claims_of_completed OperationState.queued kind w h = absurd (ne_of_test "queued" "completed" refl h)
claims_of_completed OperationState.running kind w h =
    absurd (ne_of_test "running" "completed" refl h)
claims_of_completed OperationState.completed kind w h = w
claims_of_completed OperationState.partial kind w h =
    absurd (ne_of_test "partial" "completed" refl h)
claims_of_completed OperationState.timed_out kind w h =
    absurd (ne_of_test "timed_out" "completed" refl h)
claims_of_completed OperationState.cancel_requested kind w h =
    absurd (ne_of_test "cancel_requested" "completed" refl h)
claims_of_completed OperationState.cancelled kind w h =
    absurd (ne_of_test "cancelled" "completed" refl h)
claims_of_completed OperationState.expired kind w h =
    absurd (ne_of_test "expired" "completed" refl h)
claims_of_completed OperationState.failed kind w h = absurd (ne_of_test "failed" "completed" refl h)
claims_of_completed OperationState.unavailable kind w h =
    absurd (ne_of_test "unavailable" "completed" refl h)

-- Work whose result is artifacts is settled as completed only with them at hand.
settled-lacks :
    (state : OperationState) (status kind : String) (items : List ArtifactLocator)
    → is_artifact_work kind ≡ true
    → operation_state_value (settled_completion state status kind items).0 ≡ "completed"
    → lacks_artifacts items ≡ false
unfolding settled_completion
settled-lacks state status kind items work h = elim (Bool-cases (lacks_artifacts items)) [
  | inr e ↦ e
  | inl e ↦ elim (Bool-cases (claims_artifacts state kind)) [
    | inl c ↦ absurd (downgraded_ne items (rw (c, e) at h))
    | inr c ↦ absurd (ground (arith, claims_of_completed state kind work (rw c at h)))
  ]
]

-- The changes that `_save_result` writes for work whose result is artifacts set the state to
-- completed only if the operation will hold artifacts and each of them is a verified local one.
pub saved_changes_lem :
    {V : Type 0} (result : ReadResult V) (current : OperationRecord) (c : Changes)
    → saved_changes result current ≡ returned c
    → is_artifact_work current.operation_type ≡ true
    → c.state ≡ some "completed"
    → lacks_artifacts (available_in c.artifacts current.artifacts) ≡ false
unfolding saved_changes operation_state_value
saved_changes_lem {V = V} result current c h work e =
    elim (Bool-cases (contradicts result.chat_id current.upstream_chat_id)) [
      | inl b ↦
          let same : Path Changes source_changed c = ground arith in
          absurd (
            ne_of_test "failed" "completed" refl
              (some_injective (ap (λ (x : Changes). x.state) same ∙ e)))
      | inr b ↦ elim (Outcome-cases (incoming result.artifacts)) [
        | inr (x, x') ↦ absurd (raised_ne (rw (b, x') at h))
        | inl (news, x) ↦
            let artifacts = merged_artifacts current.artifacts news in
            let settled =
              settled_completion result.operation_state result.verification_status
                current.operation_type (available_in artifacts current.artifacts) in
            let same : Path Changes
                (record {
                  state = some (operation_state_value settled.0);
                  provider_operation_id = if_truthy result.provider_id;
                  upstream_chat_id = if_truthy result.chat_id;
                  attempt_count = none;
                  error_code = some (error_value result.error_code);
                  verification_status = some settled.1;
                  artifacts = artifacts;
                  output_dir = none;
                })
                c =
              ground arith in
            subst
              (λ (x : Changes).
                lacks_artifacts (available_in x.artifacts current.artifacts) ≡ false)
              same
              (settled-lacks result.operation_state result.verification_status
                current.operation_type (available_in artifacts current.artifacts) work
                (some_injective (ap (λ (x : Changes). x.state) same ∙ e)))
      ]
    ]
  where
    some_injective : {a b : String} → some a ≡ some b → a ≡ b
    some_injective h = ground arith

    raised_ne : {err : PyError} → Path (Outcome Changes) (raised err) (returned c) → ⊥
    raised_ne p = ground arith
