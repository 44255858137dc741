-- ===== src/Lib.antt =====
-- The experience map of the Folioo AI server, and what holds of it.
--
-- The server turns chat messages and files into a map of a user's experiences. A request of a
-- session is claimed in the database, run by a worker under a lease, and ends completed or failed;
-- a worker that dies is found by its lease. A turn from KakaoTalk is accepted into a table of its
-- own, run as such a request, answered by one callback and settled with the main server.
--
-- Parts:
--   Base        lists of rows under SQL statements, Python booleans, case splits
--   Repository  features/experience_map/repository.py, `ExperienceMapRepository` and
--               `LeaseRenewer`: Rows (row types), Sessions, Claim (claim_request, retry_request),
--               Ownership (renewal, completion, failure, cancellation), Recovery (expired leases,
--               the sweep, the purge), Messages (save_message, list_messages). Lifecycle is the
--               abstract life of one request that the tables implement; Invariant and Laws hold
--               the proofs.
--   Kakao       features/experience_map/kakao: Rows and Store (store.py, `KakaoTurnStore`),
--               Callback (callback.py), Turn (`_execute_turn` and what it calls) and Settle
--               (`_process`, `_deliver`, `_finalize`) of service.py, `KakaoTurnService`. Turn calls
--               Repository for the request that a deadline stops. Laws holds the proofs.
--   Validate    features/experience_map/nodes/validate.py, which checks the operations that the
--               language model proposes: Items (`StructuredItem` of schemas.py, the activity's
--               aliases, the errors), Checks (`_validate_operations` and its helpers), Node
--               (`_build_operations`, `validate_operations`, `next_node`, the loop of graph.py).
--               The loop's fuel is the number of rounds; three are always enough. Laws has the
--               proofs, and Plan the description that they are against.
--   Reconcile   `_reconcile_stale_requests` of features/experience_map/service.py, over Repository:
--               Loop has the code, with one unit of fuel for each round, Ends the proof that one
--               more than the running requests are enough.
--   RateLimit   features/experience_map/rate_limit.py, `SlidingWindowRateLimiter`, which stands
--               before the requests: Limiter has the code, Laws the proofs.
--   Commit      features/experience_map/nodes/commit.py, coordinator.py and
--               nodes/suggestion_response.py: Remap (`_to_commit_items`, `_remap_operations` and
--               what they call), Node (`commit_changes`, `_recover_map_conflict`, `next_node`),
--               Suggestion (`build_suggestion`), Coordinator (`coordinate`). The loop's fuel is the
--               number of commits; two are always enough.
--   Service     features/experience_map/service.py, `ExperienceMapService`, and errors.py: Errors
--               (the classes and their SSE form), Payloads (what a run keeps, `_replay`), Prepare
--               (the hash, prepare_chat, prepare_retry, the sessions' states), Execute
--               (`_interrupt_when_lease_lost`, `_save_message`, `_execute`, `_fail`, `stream`),
--               Restore (`get_request_state`, `cancel_request`). It calls Repository, Reconcile
--               for the sweep, and Kakao for the text of a summary.
--   Ticket      features/experience_map/ticket.py (Verify) and
--               app/middleware/experience_map_ticket.py (Middleware), which stands before the
--               paths of a session and asks RateLimit.
--   MapContext  features/experience_map/map_context.py: Snapshot (`build_map_snapshot`, with a fuel
--               of one unit for each of the five levels), Activity (`get_activity_context`) and
--               Owners (the outline, the owners, the contents, and the `refresh_map` of
--               features/experience_map/graph_runner.py, in the keys that Commit reads).
--   TurnState   features/experience_map/state.py: Fields (the keys and their defaults) and Turns.
--   Tests       runs on concrete inputs
--
-- A request passes Ticket, is prepared by Service, and is run by the graph to which Validate and
-- Commit belong; the events of the coordinator are what Service keeps in Repository's row and
-- replays from it.
--
-- A table is a list of rows and a statement a function on it. PostgreSQL is read as documented: a
-- statement is atomic, a unique index or foreign key refuses a row, `NULL` is equal to nothing.
-- `now` is the server's time at a statement, in microseconds; UUIDs, digests and user ids are
-- numbers, with a flag on their spelling where the code compares texts (`accept` of the store), the
-- random tokens arguments. Concurrent workers are an arbitrary order of statements,
-- so that no statement meets a row that another one has locked.
-- What a turn meets outside (clocks, events of the run, answers of the main server and of
-- KakaoTalk) is a record, `World`, that the theorems take arbitrary; so are the main server and the
-- refresh of the map at a commit (`Client`), the gap analysis and the text of a result
-- (`Coordinator.World`), the way columns are written and read (`Codec`), SHA-256 (`Clock`), and
-- PyJWT's verdict on a token (`Guard`). The rules that KakaoTalk turns keep leave out `purge_old`,
-- which removes their rows.
--
-- Not modelled: the HTTP layer, the language model nodes and LangGraph, which calls them, the file
-- pipeline, the main server's tables and client, and the other features (correction, interview,
-- portfolio, visualization). Of the service, the page of messages, the initial state
-- beside its failure, and the detached task of `stream`; of the coordinator, the path shown beside
-- an anchor; of the runner, all but the refresh of the map.
pub mod Base
pub mod Repository
pub mod Kakao
pub mod Validate
pub mod Reconcile
pub mod RateLimit
pub mod Commit
pub mod Service
pub mod Ticket
pub mod MapContext
pub mod TurnState
mod Tests
