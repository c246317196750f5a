-- ===== src/Domain/Results/Valid.antt =====
-- Which results exist: what `__post_init__` accepts, and when the factories return.
use gemini_web_mcp.Common.{
  String, ◌≡◌, refl, ◌↔◌, Bool, true, false, Option, none, some, List, arith, eq_iff, returned,
  raised, value_error, if◌then◌else◌,
}
use gemini_web_mcp.Domain.Codes.{OperationState, is_failure_state}
use gemini_web_mcp.Domain.Results.{
  DomainError, DomainWarning, DomainResult, Drawn, MetaOptions, same_text, construct, success,
  failure, create,
}

-- A success has no error and a state that is no failure; a failure has an error, a failure state
-- and the error's diagnostic id in its metadata.
abbrev pub Agrees : Bool → Option DomainError → OperationState → Option String → Type 0
Agrees true none state diagnostic_id = is_failure_state state ≡ false
Agrees true (some e) state diagnostic_id = ⊥
Agrees false none state diagnostic_id = ⊥
Agrees false (some e) state diagnostic_id =
    (is_failure_state state ≡ true) × (e.diagnostic_id ≡ diagnostic_id)

abbrev pub IsValid : {V T : Type 0} → DomainResult V T → Type 0
IsValid r = Agrees r.ok r.error r.meta.operation_state r.meta.diagnostic_id

pub same_text_iff : (a b : Option String) → (same_text a b ≡ true) ↔ (a ≡ b)
unfolding same_text
same_text_iff none none = (λ h. refl, λ h. refl)
same_text_iff none (some b) = (λ h. cc, λ h. cc)
same_text_iff (some a) none = (λ h. cc, λ h. cc)
same_text_iff (some a) (some b) = (λ h. cc ((eq_iff a b).0 h), λ h. ground (arith, eq_iff a b))

module _ {V T : Type 0} where
  -- `__post_init__` by the two fields that it splits on.
  post_init_iff :
      (r : DomainResult V T) (ok : Bool) (error : Option DomainError)
      → r.ok ≡ ok
      → r.error ≡ error
      → (construct r ≡ returned r) ↔ Agrees ok error r.meta.operation_state r.meta.diagnostic_id
  unfolding construct
  post_init_iff r true none p q = ground arith
  post_init_iff r true (some e) p q = ground arith
  post_init_iff r false none p q = ground arith
  post_init_iff r false (some e) p q =
      ground (arith, same_text_iff e.diagnostic_id r.meta.diagnostic_id)

  -- The constructor returns the record that it was given exactly when that record is valid.
  pub construct_iff : (r : DomainResult V T) → (construct r ≡ returned r) ↔ IsValid r
  construct_iff r = post_init_iff r r.ok r.error refl refl

  -- Whatever the constructor returns is the record that it was given.
  pub construct_same : (r s : DomainResult V T) → construct r ≡ returned s → s ≡ r
  unfolding construct
  construct_same r s h = ground arith

  -- Every result that the constructor hands out is valid.
  pub construct-IsValid : (r s : DomainResult V T) → construct r ≡ returned s → IsValid s
  construct-IsValid r s h = let e = construct_same r s h in rw e ((construct_iff r).0 (rw e at h))

  -- `failure` returns for every failure state, and raises for every other state.
  pub failure_lem :
      (drawn : Drawn) (error : DomainError) (value : Option T) (state : OperationState)
      (warnings : List DomainWarning) (options : MetaOptions V)
      → failure drawn error value state warnings options ≡ (
          if is_failure_state state
          then returned (record {
            ok = false;
            result = value;
            error = some error;
            warnings = warnings;
            meta = create drawn state error.diagnostic_id options;
          })
          else raised (value_error "failed DomainResult requires a failure operation state"))
  unfolding failure create construct
  failure_lem drawn error value state warnings options =
      ground (arith, same_text_iff error.diagnostic_id error.diagnostic_id)

  pub success_lem :
      (drawn : Drawn) (value : Option T) (state : OperationState) (warnings : List DomainWarning)
      (options : MetaOptions V)
      → success drawn value state warnings options ≡ (
          if is_failure_state state
          then raised (value_error "successful DomainResult cannot use a failure operation state")
          else returned (record {
            ok = true;
            result = value;
            error = none;
            warnings = warnings;
            meta = create drawn state none options;
          }))
  unfolding success create construct
  success_lem drawn value state warnings options = ground arith
