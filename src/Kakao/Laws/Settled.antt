-- ===== src/Kakao/Laws/Settled.antt =====
-- One undisturbed run of `_process`: what it leaves of the turn, and the calls it makes.
use mathlib.Core.Path.{subst}
use folioo_ai.Base.{
  ℕ, String, ◌≡◌, refl, sym, ap, ◌∙◌, Bool, true, false, not, ◌&&◌, Option, none, some, List, [],
  ◌∷◌, ◌++◌, arith, is_some, if◌then◌else◌, leb,
}
use folioo_ai.Repository.Rows.{Db}
use folioo_ai.Kakao.Rows.{
  TurnState, TurnRow, not_attempted, Payload, get_turn, is_open, is_failure, needs_work,
}
use folioo_ai.Kakao.Store.{Turns, record_outcome, records_outcome, outcome_row}
use folioo_ai.Kakao.Turn.{World, execute_turn}
use folioo_ai.Kakao.Settle.{
  Call, post, report_failed_usage, notify_turn_complete, deliver, finalize, settle_outcome,
  settle_rest, process, is_delivered, main_outcome, status_of,
}
use folioo_ai.Kakao.Laws.Settle.{
  get_turn-update_where, refresh_found, finalize_lem, final_calls, final_row, report_row,
  notify_row,
}
use folioo_ai.Kakao.Laws.Deliver.{delivered_row, delivery_calls, IsWaiting, deliver_lem}
use folioo_ai.Kakao.Laws.Steps.{Runs, Runs-Keeps}

-- What is left of a turn that has nothing more to do.
pub record IsSettled (outcome : TurnState) (r : TurnRow) : Type 0 where
  pub decided : r.outcome ≡ some outcome
  pub published : r.state ≡ outcome
  pub url_dropped : r.callback_url ≡ none
  pub claimed : is_some r.delivery_claimed_at ≡ true
  pub told : r.complete_notified ≡ true
  pub refunded : (is_failure r.outcome && not r.usage_reported) ≡ false

-- A row after its delivery, and one after the settlement.
abbrev pub closing_row : World → TurnState → TurnRow → TurnRow
closing_row w outcome r =
    notify_row w (report_row w outcome (final_row w outcome (delivered_row w r)))

abbrev pub closing_calls : World → TurnState → TurnRow → String → List Call
closing_calls w outcome r url =
    delivery_calls w r (some url) r.reply_payload
    ++ final_calls outcome (final_row w outcome (delivered_row w r))

module _ (w : World) (outcome : TurnState) (r : TurnRow) (url : String) (turns : Turns) where
  abbrev delivered : Turns
  delivered = (deliver w r turns).1

  delivered_same : (delivered_row w r).request_id ≡ r.request_id
  delivered_same = ground arith

  delivered_is : IsWaiting r url → is_delivered (delivered_row w r) ≡ true
  delivered_is h = ground (arith, h)

  settle_rest_finalizes :
      IsWaiting r url
      → get_turn r.request_id turns ≡ some r
      → settle_rest w r turns ≡ (
          let (calls, settled) = finalize w (delivered_row w r) delivered in
          (delivery_calls w r (some url) r.reply_payload ++ calls, settled))
  unfolding settle_rest
  settle_rest_finalizes h e =
      let (calls, stored) = deliver_lem w r url turns h e in
      ground (arith, h, calls, refresh_found r (delivered_row w r) delivered stored)

  finalize-delivered :
      IsWaiting r url
      → get_turn r.request_id turns ≡ some r
      → r.outcome ≡ some outcome
      → w.report_ok ≡ true
      → w.notify_ok ≡ true
      → ((finalize w (delivered_row w r) delivered).0
          ≡ final_calls outcome (final_row w outcome (delivered_row w r)))
        × (get_turn r.request_id (finalize w (delivered_row w r) delivered).1
            ≡ some (closing_row w outcome r))
  finalize-delivered h e o rok nok =
      let d = delivered_row w r in
      let stored = (deliver_lem w r url turns h e).1 in
      let f =
        finalize_lem w outcome d delivered
          (subst (λ q. get_turn q delivered ≡ some d) (sym delivered_same) stored) (ground arith)
          (delivered_is h) rok nok in
      (
        f.0,
        subst (λ q. get_turn q (finalize w d delivered).1 ≡ some (closing_row w outcome r))
            delivered_same f.1,
      )

-- A turn as `claim_worker` returns it the first time: under the token, running, with no outcome.
pub record IsFresh (row : TurnRow) (url : String) (token : ℕ) (turns : Turns) : Type 0 where
  pub found : get_turn row.request_id turns ≡ some row
  pub no_outcome : row.outcome ≡ none
  pub waiting : IsWaiting row url
  pub mine : row.worker_token ≡ some token
  pub unfinished : is_open row.state ≡ true
  pub untold : row.complete_notified ≡ false
  pub unreported : row.usage_reported ≡ false

module _ (w : World) (row : TurnRow) (url : String) (token : ℕ) (turns : Turns) (db : Db) where
  abbrev pub verdict : TurnState × Option Payload
  verdict = (execute_turn w row db).0

  abbrev decided_row : TurnRow
  decided_row = outcome_row w.recorded_at verdict.0 verdict.1 row

  abbrev decided : Turns
  decided = (settle_outcome w row token turns db).0

  decided_lem : IsFresh row url token turns → get_turn row.request_id decided ≡ some decided_row
  unfolding settle_outcome record_outcome
  decided_lem h = ground (
    arith,
    h,
    get_turn-update_where row.request_id (records_outcome row.request_id token)
        (outcome_row w.recorded_at verdict.0 verdict.1) (λ _. refl) turns row h.found,
  )

  process-rest :
      IsFresh row url token turns
      → (process w row token turns db).0 ≡ settle_rest w decided_row decided
  unfolding process
  process-rest h =
      ground (arith, h.no_outcome, refresh_found row decided_row decided (decided_lem h))

  process_closes :
      IsFresh row url token turns
      → w.report_ok ≡ true
      → w.notify_ok ≡ true
      → ((process w row token turns db).0.0 ≡ closing_calls w verdict.0 decided_row url)
        × (get_turn row.request_id (process w row token turns db).0.1
            ≡ some (closing_row w verdict.0 decided_row))
  process_closes h rok nok =
      let waiting : IsWaiting decided_row url = record {
        unclaimed = h.waiting.unclaimed;
        has_url = h.waiting.has_url;
      } in
      let e = decided_lem h in
      let f = finalize-delivered w verdict.0 decided_row url decided waiting e refl rok nok in
      subst
        (λ x.
          (x.0 ≡ closing_calls w verdict.0 decided_row url)
          × (get_turn row.request_id x.1 ≡ some (closing_row w verdict.0 decided_row)))
        (sym (process-rest h ∙ settle_rest_finalizes w verdict.0 decided_row url decided waiting e))
        (ap (λ l. delivery_calls w decided_row (some url) verdict.1 ++ l) f.0, f.1)

  closing-IsSettled :
      IsFresh row url token turns → IsSettled verdict.0 (closing_row w verdict.0 decided_row)
  closing-IsSettled h = ground (arith, h)

  -- One undisturbed run settles a turn: if the worker holds a new turn and both notices are
  -- answered well, then at its end the turn's row has the run's outcome as its public state, no
  -- URL, a claimed delivery, the notice of its end, and no usage left to report, whatever the run,
  -- the main server's answer and the callback did.
  pub process_settles :
      IsFresh row url token turns
      → w.report_ok ≡ true
      → w.notify_ok ≡ true
      → (r : TurnRow) × (get_turn row.request_id (process w row token turns db).0.1 ≡ some r)
        × IsSettled verdict.0 r
  process_settles h rok nok = (_, (process_closes h rok nok).1, closing-IsSettled h)

  -- The callback is tried if the outcome has a body and the deadline has not passed.
  abbrev pub is_tried : Bool
  is_tried = is_some verdict.1 && not (leb row.expires_at w.deliver_clock)

  abbrev pub the_post : Option Payload → List Call
  the_post none = []
  the_post (some p) = post url p ∷ []

  closing_calls_lem :
      (outcome : TurnState) (payload : Option Payload)
      → IsFresh row url token turns
      → let tried = is_some payload && not (leb row.expires_at w.deliver_clock) in
        closing_calls w outcome (outcome_row w.recorded_at outcome payload row) url
        ≡ (if tried then the_post payload else [])
          ++ ((if is_failure (some outcome) then report_failed_usage ∷ [] else [])
              ++ (notify_turn_complete
                    (main_outcome outcome)
                    (if tried then status_of w.sent else not_attempted)
                  ∷ []))
  closing_calls_lem outcome none h = ground (arith, h)
  closing_calls_lem outcome (some p) h = ground (arith, h)

  -- The calls of that run, in their order: one POST of the outcome's body if it is tried, one
  -- notice of the failed usage if the outcome is a failure or the deadline and none otherwise, and
  -- one notice of the end, with the status that the callback got.
  pub process_calls :
      IsFresh row url token turns
      → w.report_ok ≡ true
      → w.notify_ok ≡ true
      → (process w row token turns db).0.0
        ≡ (if is_tried then the_post verdict.1 else [])
          ++ ((if is_failure (some verdict.0) then report_failed_usage ∷ [] else [])
              ++ (notify_turn_complete
                    (main_outcome verdict.0)
                    (if is_tried then status_of w.sent else not_attempted)
                  ∷ []))
  process_calls h rok nok = (process_closes h rok nok).0 ∙ closing_calls_lem verdict.0 verdict.1 h

-- A settled turn with a final outcome rests: after any statements of any workers but the purge it
-- still needs no work, so that neither the recovery scan nor `claim_worker` takes it up.
pub settled_rests :
    (request : ℕ) (outcome : TurnState) (r : TurnRow) (turns turns' : Turns)
    → get_turn request turns ≡ some r
    → IsSettled outcome r
    → is_open outcome ≡ false
    → Runs turns turns'
    → (r' : TurnRow) × (get_turn request turns' ≡ some r') × (needs_work r' ≡ false)
settled_rests request outcome r turns turns' e s h runs =
    let (r', found, l) = Runs-Keeps runs request r e in
    (r', found, rests r' l.final l.outcome_kept l.reported l.notified)
  where
    rests :
        (r' : TurnRow)
        → (is_open r.state ≡ false → r'.state ≡ r.state)
        → (is_open r.state ≡ false → is_some r.outcome ≡ true → r'.outcome ≡ r.outcome)
        → (is_open r.state ≡ false → r.usage_reported ≡ true → r'.usage_reported ≡ true)
        → (is_open r.state ≡ false → r.complete_notified ≡ true → r'.complete_notified ≡ true)
        → needs_work r' ≡ false
    rests r' f k p n = ground (arith, s, h, f, k, p, n)
