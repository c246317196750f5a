-- ===== src/Operations/Rendered/Total.antt =====
-- Which records are rendered, and as what.
use gemini_web_mcp.Common.{
  String, true, false, not, ◌≡◌, refl, Option, none, some, [], arith, returned, Bool-cases,
  Option-cases, inl, inr, ◌==◌, is_some, Dict, or_text,
}
use gemini_web_mcp.Domain.Codes.{
  OperationState, DomainErrorCode, is_failure_state, domain_error_code_of,
}
use gemini_web_mcp.Domain.Results.{Drawn, DomainResult, create, no_options}
use gemini_web_mcp.Store.Records.{OperationRecord}
use gemini_web_mcp.Operations.Rendered.{
  LongOperationData, Detail, rendered, failure_code, is_rendered_failure, code_of_state,
  is_not_cancelled, is_expired_state,
}

failure_code_total :
    (code : Option String) (state : OperationState)
    → is_some (domain_error_code_of (or_text code "INTERNAL_ERROR")) ≡ true
    → (c : DomainErrorCode) × (failure_code code state ≡ returned c)
unfolding failure_code
failure_code_total none state h = (code_of_state state, refl)
failure_code_total (some code) state h = elim (Bool-cases (code == "")) [
  | inl e ↦ (code_of_state state, rw e refl)
  | inr e ↦ elim (Option-cases (domain_error_code_of code)) [
    | inl n ↦ absurd (none_known (rw (e, n) at h))
    | inr (c, n) ↦ (c, rw (e, n) refl)
  ]
]
  where
    none_known : false ≡ true → ⊥
    none_known h = ground arith

fails_live :
    (state : OperationState)
    → is_expired_state state ≡ false
    → is_rendered_failure state ≡ is_failure_state state
fails_live state h = ground arith

-- What is rendered of a record that has not expired, whose error code is a known one, is a result
-- in the record's state, which is a failure exactly if that state is a failure state.
pub rendered_total :
    {V : Type 0} (drawn : Drawn) (r : OperationRecord) (item : LongOperationData V)
    (details : Dict Detail)
    → is_expired_state r.state ≡ false
    → is_some (domain_error_code_of (or_text r.error_code "INTERNAL_ERROR")) ≡ true
    → (result : DomainResult Detail (LongOperationData V)) × (rendered drawn r item details
        ≡ returned result)
      × (result.ok ≡ not (is_failure_state r.state))
      × (result.meta.operation_state ≡ r.state)
      × (result.meta.verification_status ≡ r.verification_status)
      × (result.result ≡ some item)
unfolding rendered create
rendered_total drawn r item details live known =
    let same = fails_live r.state live in
    elim (Bool-cases (is_failure_state r.state)) [
      | inl f ↦
          let code = failure_code_total r.error_code r.state known in
          (
            record {
              ok = false;
              result = some item;
              error = some (record {
                code = code.0;
                message = "Operation has not produced a completed result.";
                retryable = is_not_cancelled r.state;
                suggested_action = none;
                diagnostic_id = none;
              });
              warnings = [];
              meta = create drawn r.state none (record no_options {
                verification_status = r.verification_status;
                details = details;
              });
            },
            rw (same, f, code.1) refl,
            rw f refl,
            refl,
            refl,
            refl,
          )
      | inr f ↦ (
        record {
          ok = true;
          result = some item;
          error = none;
          warnings = [];
          meta = create drawn r.state none (record no_options {
            verification_status = r.verification_status;
            details = details;
          });
        },
        rw (same, f) refl,
        rw f refl,
        refl,
        refl,
        refl,
      )
    ]
