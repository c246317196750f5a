-- ===== src/Lib.antt =====
-- The Gemini Web MCP server (python): its domain contracts, its stream accumulator, its session
-- service, its state store, its operation handles and the cleanup of remote chats.
--
-- The parts and where they are modelled:
-- * src/domain/results.py in Domain/Codes (the enumerations), Domain/Results (DomainResult and its
--   factories) and Domain/Classify (the classification of exceptions); src/domain/conversations.py in
--   Domain/Conversations; src/domain/artifacts.py in Domain/Artifacts.
-- * src/services/streams.py in Streams: a text is a list of code points, and a response is the two
--   attributes that the accumulator reads.
-- * src/session_manager.py in Sessions: State (the objects on a heap and the table of references),
--   Outcomes (SessionOperationResult), Service (the operations that do not wait), Sends
--   (send_message, send_message_stream, reset_one_async and reset_all_async, cut into the pieces
--   between which other operations can run) and Calls (runs of pieces in any order).
-- * src/infrastructure/state_store.py in Store: Labels (the checks of texts), Records, Transactions
--   (the tables, and the transaction around every call), Operations, Updates and Leases
--   (OperationRepository), Cleanup, Claims and Jobs (CleanupRepository and sequences of its calls).
-- * src/services/operations.py in Operations: Merge (_merge_locators), Context (OperationContext),
--   Execution (OperationService.execution up to its yield, and its release) and Saved
--   (OperationService._save_result), with what other processes do to the store between the reads and
--   the writes as a parameter; and Rendered (OperationService._render, and src/domain/operations.py).
-- * src/remote_chat_cleanup_manager.py in Cleanup: State (the manager, and the adoption of a durable
--   job), Durable (scheduling and claiming in the state store), Schedule (schedule_cleanup_result),
--   Delete (_delete_chat_result up to its wait, and the pieces of _execute_delete), Worker
--   (_execute_delete), Settle (_execute_durable_delete), Context (the pages of jobs, changes of the
--   authentication, due chats), Pages (the loop over the pages), Calls (runs of pieces in any order)
--   and Outcomes (how workers end, and the late pieces of an earlier
--   authentication context).
--
-- Sessions and operations answer with the results of the domain; operation contexts keep their
-- locators in the state store, where leases and versions order the writers; the cleanup manager
-- keeps its durable jobs there. Common holds the shared helpers. A method changes the state that it
-- is given and returns it with its answer; an exception is an Outcome. Times are natural numbers of
-- clock ticks, and a call takes every reading of the clock, every drawn id and every answer of the
-- upstream as an argument.
--
-- Bounds. The search for a session id, which the source repeats until it ends, is given a number of
-- rounds as an argument. The observers of OperationContext try eight times, as the source does. The
-- loop over the pages of cleanup jobs is given a number of rounds; one round for each hundred jobs
-- and one more are enough. SQL statements are functions on lists of rows, and a transaction of the
-- model is one whose locks are taken.
--
-- Not modelled: the timers that wait for the due time of a cleanup (any of them may fire at any
-- moment), file permissions, SQLite's retries, the identity key, the JSON projection of results,
-- the third-party client and transport, the upstream wire formats, cookies and onboarding, the tool
-- surfaces, and the services that orchestrate upstream calls.
pub mod Common
pub mod Domain
pub mod Streams
pub mod Sessions
pub mod Store
pub mod Operations
pub mod Tests
pub mod Cleanup
