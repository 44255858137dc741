-- ===== src/Service/Laws/Execute.antt =====
-- What a run does to the tables, by its end.
use folioo_ai.Base.{
  ℕ, Bool, true, false, ◌≡◌, ◌≢◌, ◌⊎◌, refl, Option, none, some, List, [], ◌∷◌, ◌++◌, map, arith,
}
use folioo_ai.Repository.Rows.{RequestRow, get_request}
use folioo_ai.Repository.Ownership.{complete_row, fail_row}
use folioo_ai.Repository.Invariant.{Consistent}
use folioo_ai.Repository.Laws.Rights.{not_owner-IsFenced}
use folioo_ai.Commit.Coordinator.{Event}
use folioo_ai.Service.Errors.{ErrorClass, lease_lost, Error, error_of, SseError, to_sse_error}
use folioo_ai.Service.Payloads.{
  no_payloads, absorb_all, completion_of, StreamEvent, sent, error_event, processing_complete,
}
use folioo_ai.Service.Prepare.Request.{PreparedRequest}
use folioo_ai.Service.Execute.Interrupt.{
  experience_error, other_exception, Turn, End, finished, throws, interrupt_when_lease_lost,
}
use folioo_ai.Service.Execute.Message.{Env, Store, Sent}
use folioo_ai.Service.Execute.Run.{
  handle, handle_error, is_lease_lost, fail, failure_of, execute, run_built, lost_event, refund,
}

-- The last event of a stream.
abbrev pub last_event : List StreamEvent → Option StreamEvent
last_event [] = none
last_event (e ∷ []) = some e
last_event (_ ∷ e ∷ es) = last_event (e ∷ es)

last_event-append : (es : List StreamEvent) (e : StreamEvent) → last_event (es ++ (e ∷ [])) ≡ some e
last_event-append [] e = refl
last_event-append (x ∷ []) e = refl
last_event-append (x ∷ y ∷ es) e = last_event-append (y ∷ es) e

-- The stream is the events of the run and the one that closes it.
abbrev pub IsClosed : List Event → StreamEvent → Sent → Type 0
IsClosed es e s = (s.events ≡ map sent es ++ (e ∷ [])) × (s.crashed ≡ false)

module _ (v : Env) (p : PreparedRequest) (st : Store) (token : ℕ) (row : RequestRow) where
  abbrev pub stored : Store → Option RequestRow
  stored s = get_request p.user_id p.request_id s.db

  -- The row is completed with what the run sent, and the stream is closed as complete.
  abbrev pub IsCompleted : List Event → Sent × Store → Type 0
  IsCompleted es out =
      (stored out.1
        ≡ some (complete_row v.now (completion_of v.codec (absorb_all es no_payloads)) row))
      × IsClosed es (processing_complete p.request_id) out.0
      × (out.1.refunds ≡ st.refunds)

  -- The row is failed with the error that closes the stream, and the usage is given back unless the
  -- turn is KakaoTalk's.
  abbrev pub IsFailed : List Event → SseError → Sent × Store → Type 0
  IsFailed es e out =
      (stored out.1 ≡ some (fail_row v.retry_ttl v.now (failure_of v.codec e) row))
      × IsClosed es (error_event e) out.0
      × (out.1.refunds ≡ refund p p.channel st.refunds)

  -- Nothing is stored, and the error closes the stream.
  abbrev pub IsIgnored : List Event → SseError → Sent × Store → Type 0
  IsIgnored es e out = (out.1 ≡ st) × IsClosed es (error_event e) out.0

  -- What a run has to do, by its events and its end: a lost lease is the one error that is not
  -- stored.
  abbrev pub IsSettled : List Event → End → Sent × Store → Type 0
  IsSettled es finished out = IsCompleted es out
  IsSettled es (throws other_exception) out =
      IsFailed es (to_sse_error (error_of ErrorClass.llm_error)) out
  IsSettled es (throws (experience_error e)) out =
      ((e.class ≡ lease_lost) × IsIgnored es (to_sse_error e) out)
      ⊎ ((e.class ≢ lease_lost) × IsFailed es (to_sse_error e) out)

-- The run leaves everything as it was, and does not claim to be complete.
abbrev pub IsHarmless : PreparedRequest → Store → Sent × Store → Type 0
IsHarmless p st out =
    (out.1 ≡ st) × (last_event out.0.events ≢ some (processing_complete p.request_id))

module _ (v : Env) (p : PreparedRequest) (st : Store) (token : ℕ) (row : RequestRow)
    (con : Consistent st.db.requests) (found : get_request p.user_id p.request_id st.db ≡ some row)
    (other : row.owner_token ≢ some token) (t : p.owner_token ≡ some token) where
  fail-IsHarmless : (es : List Event) (e : SseError) → IsHarmless p st (fail v p es e st)
  fail-IsHarmless es e =
      let f = failure_of v.codec e in
      let x =
        (not_owner-IsFenced p.user_id p.request_id token st.db row 0 v.retry_ttl v.now
          (completion_of v.codec no_payloads) f con found other).2 in
      (
        ground (arith, x, t),
        λ q. ground (arith, x, t, q, last_event-append (map sent es) (error_event e)),
      )

  handle_error-IsHarmless :
      (es : List Event) (e : Error) (b : Bool) → IsHarmless p st (handle_error v p es st e b)
  handle_error-IsHarmless es e true =
      (refl, λ q. ground (arith, q, last_event-append (map sent es) (error_event (to_sse_error e))))
  handle_error-IsHarmless es e false = fail-IsHarmless es (to_sse_error e)

  handle-IsHarmless : (es : List Event) (end : End) → IsHarmless p st (handle v p es st end)
  handle-IsHarmless es finished =
      let x = completion_of v.codec (absorb_all es no_payloads) in
      let y =
        (not_owner-IsFenced p.user_id p.request_id token st.db row 0 v.retry_ttl v.now x
          (failure_of v.codec (to_sse_error (error_of lease_lost))) con found other).1 in
      (
        ground (arith, y, t),
        λ q. ground (arith, y, t, q, last_event-append (map sent es) lost_event),
      )
  handle-IsHarmless es (throws other_exception) = fail-IsHarmless es _
  handle-IsHarmless es (throws (experience_error e)) =
      handle_error-IsHarmless es e (is_lease_lost e.class)

  run_built-IsHarmless : (turns : List Turn) (b : Bool) → IsHarmless p st (run_built v p turns st b)
  run_built-IsHarmless turns true =
      let out = interrupt_when_lease_lost turns in handle-IsHarmless out.0 out.1
  run_built-IsHarmless turns false = (refl, λ q. ground (arith, q))

-- A run whose token is not the one in the row changes no request, no message and no usage, whatever
-- its runner and its lease do and whether or not its state can be built, and it does not close its
-- stream as complete. The table of requests is consistent.
pub execute-IsHarmless :
    (v : Env) (p : PreparedRequest) (st : Store) (token : ℕ) (row : RequestRow)
    → Consistent st.db.requests
    → get_request p.user_id p.request_id st.db ≡ some row
    → row.owner_token ≢ some token
    → p.owner_token ≡ some token
    → (turns : List Turn) → IsHarmless p st (execute v p turns st)
unfolding execute
execute-IsHarmless v p st token row con found other t turns =
    run_built-IsHarmless v p st token row con found other t turns v.builds_state
