-- ===== src/Tests/SessionTests.antt =====
-- A service with one session, and the theorems on session_manager.py at it.
use gemini_web_mcp.Common.{
  ℕ, String, true, false, ◌≡◌, refl, none, some, List, [], ◌∷◌, ◌==◌, if◌then◌else◌, lookup, arith,
  Outcome,
}
use gemini_web_mcp.Domain.Codes.{OperationState}
use gemini_web_mcp.Domain.Results.{Drawn}
use gemini_web_mcp.Sessions.State.{Heap, SessionService, SessionOptions, build_session_data}
use gemini_web_mcp.Sessions.Outcomes.{SessionOperationResult}
use gemini_web_mcp.Sessions.Service.{
  clean_expired_sessions, create_session, get_session, reset_one, invalidate_authentication_context,
}
use gemini_web_mcp.Sessions.Service.Valid.{IsValid}
use gemini_web_mcp.Sessions.Service.Lookup.{
  unless_expired, get_session_lem, reset_one_isolated, create_session_lem,
}
use gemini_web_mcp.Sessions.Sends.{answered, finish_send}
use gemini_web_mcp.Sessions.Calls.{Call, R, run_calls}
use gemini_web_mcp.Sessions.Calls.Valid.{run_calls-IsValid}
use gemini_web_mcp.Sessions.Calls.Invalidated.{
  reported, reported_session, finish_send_after_invalidation,
}

abbrev options : SessionOptions
options = record {
  model = "pro";
  thinking_level = "high";
  learning_mode = none;
  temporary = false;
  retain_chat = true;
  delete_after_seconds = none;
  task_mode = false;
}

abbrev drawn : Drawn
drawn = record { new_request_id = "request_1"; now = "2026-01-01" }

abbrev one_heap : Heap
unfolding build_session_data
one_heap r = build_session_data 100 "session_1" (some (some "c_1")) options

abbrev service : SessionService
service = record {
  heap = one_heap;
  next = 1;
  sessions = ("session_1", 0) ∷ [];
  expired_sessions = [];
  max_age = 3600;
}

service-IsValid : IsValid service
unfolding build_session_data lookup
service-IsValid = record {
  table =
      (record { made = omega arith; named = refl; active = refl; authenticated = refl }, refl, tt);
  expired = tt;
}

found : lookup "session_1" service.sessions ≡ some 0
unfolding lookup
found = refl

abbrev ids : ℕ → String
ids n = "session_2"

abbrev calls : List Call
calls = Call.clean 150 ∷ Call.create 5 ids 160 161 none options ∷ Call.enter 170 "session_2" 1 ∷ []

finish_send_after_invalidation_example :
    (reported
        (finish_send {R = R} drawn
          (λ c. c)
          "diagnostic_1"
          200
          "session_1"
          0
          (some (some "c_1"))
          (answered (some "c_1"))
          (run_calls drawn "diagnostic_1" calls (invalidate_authentication_context service).0)).1
      ≡ some OperationState.cancelled)
    × (reported_session
          (finish_send {R = R} drawn
            (λ c. c)
            "diagnostic_1"
            200
            "session_1"
            0
            (some (some "c_1"))
            (answered (some "c_1"))
            (run_calls drawn "diagnostic_1" calls (invalidate_authentication_context service).0)).1
        ≡ some 0)
finish_send_after_invalidation_example =
    finish_send_after_invalidation drawn "diagnostic_1" service "session_1" 0 calls 200
      (some (some "c_1")) (answered (some "c_1")) service-IsValid found

run_calls-IsValid_example : IsValid (run_calls drawn "diagnostic_1" calls service)
run_calls-IsValid_example = run_calls-IsValid drawn "diagnostic_1" calls service service-IsValid

get_session_example :
    (get_session 5000 "session_1" service).1
    ≡ unless_expired 5000 service (lookup "session_1" service.sessions)
get_session_example = get_session_lem 5000 "session_1" service service-IsValid

reset_one_isolated_example :
    lookup "session_1" (reset_one {R = R} drawn 200 "session_2" service).0.sessions
    ≡ (if "session_2" == "session_1" then none else (get_session 200 "session_1" service).1)
reset_one_isolated_example = reset_one_isolated R drawn 200 "session_2" "session_1" service

second_fits :
    (("session_2" == "") ≡ false)
    × (lookup "session_2" (clean_expired_sessions 200 service).sessions ≡ none)
unfolding clean_expired_sessions lookup build_session_data
second_fits = (refl, refl)

create_session_example :
    (sid : String) × (t : SessionService) × (result : Outcome (SessionOperationResult R))
    × (create_session {R = R} drawn 5 ids 200 201 none options service ≡ some (t, result))
    × ((sid == "") ≡ false)
    × ((get_session 200 sid service).1 ≡ none)
    × (t.heap service.next ≡ build_session_data 201 sid none options)
    × ((j : String)
        → lookup j t.sessions
          ≡ (if sid == j then some service.next else (get_session 200 j service).1))
create_session_example =
    create_session_lem R drawn 5 ids 0 200 201 none options service second_fits (omega arith)
