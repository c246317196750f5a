-- ===== src/Sessions.antt =====
-- session_manager.py. `State` has the session objects, the service and the operation results;
-- `Service` the operations of `SessionService` and `Sends` those that wait for the upstream.
pub mod State
pub mod Outcomes
pub mod Service
pub mod Sends
pub mod Calls
