-- ===== src/Service/Execute/Run.antt =====
-- `_execute`, `_fail` and `stream` of service.py.
use folioo_ai.Base.{ℕ, Bool, true, false, Option, none, some, List, [], ◌∷◌, ◌++◌, map}
use folioo_ai.Repository.Rows.{RequestRow, Db, Result, returned, raised}
use folioo_ai.Repository.Ownership.{Failure, mark_request_completed, mark_request_failed}
use folioo_ai.Commit.Coordinator.{Event}
use folioo_ai.Service.Errors.{ErrorClass, lease_lost, Error, error_of, SseError, to_sse_error}
use folioo_ai.Service.Payloads.{
  Codec, Payloads, no_payloads, absorb_all, completion_of, StreamEvent, processing_started, sent,
  error_event, processing_complete, replay,
}
use folioo_ai.Service.Prepare.Request.{PreparedRequest, Channel, web, kakao}
use folioo_ai.Service.Execute.Interrupt.{
  Turn, End, interrupt_when_lease_lost, experience_error, other_exception, finished, throws,
}
use folioo_ai.Service.Execute.Message.{Env, Store, Sent, save_turn, revert_of}

abbrev pub lost_event : StreamEvent
lost_event = error_event (to_sse_error (error_of lease_lost))

abbrev pub closes_with : List Event → StreamEvent → Sent
closes_with es e = record { events = map sent es ++ (e ∷ []); crashed = false }

-- The end of `_execute` after `mark_request_completed`.
abbrev pub after_completion :
    Env
    → PreparedRequest
    → List Event
    → Payloads
    → Store
    → Result (Option RequestRow) × Db
    → Sent × Store
after_completion v p es x st (raised e, db) =
    (record { events = map sent es; crashed = true }, record st { db = db })
after_completion v p es x st (returned none, db) =
    (closes_with es lost_event, record st { db = db })
after_completion v p es x st (returned (some row), db) = (
  closes_with es (processing_complete p.request_id),
  record st { db = db; messages = save_turn v p x false (revert_of x.result) st.messages },
)

abbrev pub failure_of : Codec → SseError → Failure
failure_of c e = record {
  error = c.dumps_error e;
  failed_node = e.failed_node;
  retryable = e.retryable;
}

-- A KakaoTalk turn is refunded elsewhere, when its failure is certain.
abbrev pub refund : PreparedRequest → Channel → List (ℕ × ℕ) → List (ℕ × ℕ)
refund p kakao l = l
refund p web l = (p.user_id, p.request_id) ∷ l

abbrev pub after_failure :
    Env
    → PreparedRequest
    → List Event
    → SseError
    → Store
    → Result (Option RequestRow) × Db
    → Sent × Store
after_failure v p es e st (raised x, db) =
    (record { events = map sent es; crashed = true }, record st { db = db })
after_failure v p es e st (returned none, db) =
    (closes_with es (error_event e), record st { db = db })
after_failure v p es e st (returned (some row), db) = (
  closes_with es (error_event e),
  record {
    db = db;
    messages =
        save_turn v p (record no_payloads { fallback = some e.message }) true none st.messages;
    refunds = refund p p.channel st.refunds;
  },
)

-- `_fail`, with the events before it.
abbrev pub fail : Env → PreparedRequest → List Event → SseError → Store → Sent × Store
fail v p es e st = after_failure v p es e st (
    mark_request_failed v.retry_ttl v.now p.user_id p.request_id (failure_of v.codec e)
      p.owner_token st.db)

abbrev pub is_lease_lost : ErrorClass → Bool
is_lease_lost lease_lost = true
is_lease_lost _ = false

-- `except LeaseLostError` comes first: the tables are not touched.
abbrev pub handle_error : Env → PreparedRequest → List Event → Store → Error → Bool → Sent × Store
handle_error v p es st e true = (closes_with es (error_event (to_sse_error e)), st)
handle_error v p es st e false = fail v p es (to_sse_error e) st

abbrev pub handle : Env → PreparedRequest → List Event → Store → End → Sent × Store
handle v p es st (throws (experience_error e)) = handle_error v p es st e (is_lease_lost e.class)
handle v p es st (throws other_exception) =
    fail v p es (to_sse_error (error_of ErrorClass.llm_error)) st
handle v p es st finished =
    let x = absorb_all es no_payloads in
    after_completion v p es x st (
      mark_request_completed v.now p.user_id p.request_id (completion_of v.codec x) p.owner_token
        st.db)

abbrev pub run_turns : Env → PreparedRequest → Store → List Event × End → Sent × Store
run_turns v p st (es, end) = handle v p es st end

-- An error of `_build_state`, which stands before the `try`, is caught by nothing.
abbrev pub run_built : Env → PreparedRequest → List Turn → Store → Bool → Sent × Store
run_built v p turns st true = run_turns v p st (interrupt_when_lease_lost turns)
run_built v p turns st false = (record { events = []; crashed = true }, st)

-- `_execute`
unfoldable pub execute : Env → PreparedRequest → List Turn → Store → Sent × Store
execute v p turns st = run_built v p turns st v.builds_state

abbrev pub stream_from :
    Env → PreparedRequest → List Turn → Store → Option RequestRow → Sent × Store
stream_from v p turns st (some row) = (record { events = replay v.codec row; crashed = false }, st)
stream_from v p turns st none = execute v p turns st

abbrev pub open_with : StreamEvent → Sent × Store → Sent × Store
open_with e (s, st) = (record s { events = e ∷ s.events }, st)

-- `stream`
unfoldable pub stream : Env → PreparedRequest → List Turn → Store → Sent × Store
stream v p turns st =
    open_with (processing_started p.request_id) (stream_from v p turns st p.replay_of)
