-- ===== src/Kakao/Laws/Settle.antt =====
-- What one undisturbed run of `_process` leaves of a turn, and the calls it makes.
use mathlib.Core.Path.{subst}
use folioo_ai.Base.{
  ℕ, ◌≡◌, refl, sym, Bool, true, not, ◌&&◌, some, List, [], ◌∷◌, ◌++◌, arith, update_where,
  if◌then◌else◌,
}
use folioo_ai.Kakao.Rows.{TurnState, TurnRow, is_turn, get_turn, is_open, is_failure}
use folioo_ai.Kakao.Store.{
  Turns, publish_state, mark_usage_reported, mark_complete_notified, publishes, publish_row,
}
use folioo_ai.Kakao.Turn.{World}
use folioo_ai.Kakao.Settle.{
  Call, report_failed_usage, notify_turn_complete, refresh, finalize, tell, is_delivered,
  main_outcome, report_usage, notify,
}

-- An update of the one row of a turn, seen by a lookup.
pub get_turn-update_where :
    (request : ℕ) (p : TurnRow → Bool) (f : TurnRow → TurnRow)
    → ((r : TurnRow) → (f r).request_id ≡ r.request_id)
    → (turns : Turns) (r : TurnRow) → get_turn request turns ≡ some r
    → get_turn request (update_where p f turns) ≡ some (if p r then f r else r)
get_turn-update_where request p f h [] r e = absurd (ground arith)
get_turn-update_where request p f h (x ∷ xs) r e =
    ground (arith, h x, get_turn-update_where request p f h xs r)

pub refresh_found :
    (row r : TurnRow) (turns : Turns)
    → get_turn row.request_id turns ≡ some r
    → refresh row turns ≡ r
unfolding refresh
refresh_found row r turns e = ground arith

-- The rows that the statements of `_finalize` write, where both calls are answered well.
abbrev pub report_row : World → TurnState → TurnRow → TurnRow
report_row w outcome r =
    if is_failure (some outcome) && not r.usage_reported
    then record r { usage_reported = true; updated_at = w.reported_at }
    else r

abbrev pub notify_row : World → TurnRow → TurnRow
notify_row w r =
    if r.complete_notified
    then r
    else record r { complete_notified = true; updated_at = w.notified_at }

abbrev pub final_row : World → TurnState → TurnRow → TurnRow
final_row w outcome r =
    if is_delivered r && is_open r.state then publish_row w.published_at outcome r else r

report_usage_row :
    (w : World) (outcome : TurnState) (r : TurnRow) (request : ℕ) (turns : Turns)
    → r.request_id ≡ request
    → get_turn request turns ≡ some r
    → w.report_ok ≡ true
    → get_turn request (report_usage w outcome r turns).1 ≡ some (report_row w outcome r)
unfolding report_usage mark_usage_reported
report_usage_row w outcome r request turns same e ok = ground (
  arith,
  get_turn-update_where request (is_turn request)
      (λ r. record r { usage_reported = true; updated_at = w.reported_at }) (λ _. refl) turns r e,
)

notify-row :
    (w : World) (outcome : TurnState) (r r' : TurnRow) (request : ℕ) (turns : Turns)
    → r.request_id ≡ request
    → r'.request_id ≡ request
    → r'.complete_notified ≡ r.complete_notified
    → get_turn request turns ≡ some r'
    → w.notify_ok ≡ true
    → get_turn request (notify w outcome r turns).1 ≡ some (notify_row w r')
unfolding notify mark_complete_notified
notify-row w outcome r r' request turns same same' both e ok = ground (
  arith,
  get_turn-update_where request (is_turn request)
      (λ r. record r { complete_notified = true; updated_at = w.notified_at }) (λ _. refl) turns r'
      e,
)

publish-row :
    (w : World) (outcome : TurnState) (r : TurnRow) (turns : Turns)
    → get_turn r.request_id turns ≡ some r
    → is_delivered r ≡ true
    → get_turn r.request_id (publish_state w.published_at r.request_id outcome turns)
      ≡ some (final_row w outcome r)
unfolding publish_state
publish-row w outcome r turns e d = ground (
  arith,
  get_turn-update_where r.request_id (publishes r.request_id) (publish_row w.published_at outcome)
      (λ _. refl) turns r e,
)

-- The calls of `_finalize` on a delivered row.
abbrev pub final_calls : TurnState → TurnRow → List Call
final_calls outcome r =
    (if is_failure (some outcome) && not r.usage_reported then report_failed_usage ∷ [] else [])
    ++ (if r.complete_notified
        then []
        else notify_turn_complete (main_outcome outcome) r.delivery_status ∷ [])

tell_calls :
    (w : World) (outcome : TurnState) (r : TurnRow) (turns : Turns)
    → (tell w outcome r turns).0 ≡ final_calls outcome r
unfolding tell report_usage notify
tell_calls w outcome r turns = ground arith

tell_lem :
    (w : World) (outcome : TurnState) (r : TurnRow) (request : ℕ) (turns : Turns)
    → r.request_id ≡ request
    → get_turn request turns ≡ some r
    → w.report_ok ≡ true
    → w.notify_ok ≡ true
    → ((tell w outcome r turns).0 ≡ final_calls outcome r)
      × (get_turn request (tell w outcome r turns).1 ≡ some (notify_row w (report_row w outcome r)))
unfolding tell
tell_lem w outcome r request turns same e rok nok =
    let reported = report_usage_row w outcome r request turns same e rok in
    (
      tell_calls w outcome r turns,
      notify-row w outcome r (report_row w outcome r) request (report_usage w outcome r turns).1
          same (ground (arith, same)) (ground arith) reported nok,
    )

finalize_tells :
    (w : World) (outcome : TurnState) (r : TurnRow) (turns : Turns)
    → get_turn r.request_id turns ≡ some r
    → r.outcome ≡ some outcome
    → is_delivered r ≡ true
    → finalize w r turns
      ≡ tell w outcome
          (final_row w outcome r)
          (publish_state w.published_at r.request_id outcome turns)
unfolding finalize
finalize_tells w outcome r turns e o d =
    let t = publish_state w.published_at r.request_id outcome turns in
    ground (arith, refresh_found r (final_row w outcome r) t (publish-row w outcome r turns e d))

-- What `_finalize` does to a delivered row with an outcome, both calls answered well.
pub finalize_lem :
    (w : World) (outcome : TurnState) (r : TurnRow) (turns : Turns)
    → get_turn r.request_id turns ≡ some r
    → r.outcome ≡ some outcome
    → is_delivered r ≡ true
    → w.report_ok ≡ true
    → w.notify_ok ≡ true
    → ((finalize w r turns).0 ≡ final_calls outcome (final_row w outcome r))
      × (get_turn r.request_id (finalize w r turns).1
          ≡ some (notify_row w (report_row w outcome (final_row w outcome r))))
finalize_lem w outcome r turns e o d rok nok =
    subst
      (λ x.
        (x.0 ≡ final_calls outcome (final_row w outcome r))
        × (get_turn r.request_id x.1
            ≡ some (notify_row w (report_row w outcome (final_row w outcome r)))))
      (sym (finalize_tells w outcome r turns e o d))
      (tell_lem w outcome (final_row w outcome r) r.request_id
        (publish_state w.published_at r.request_id outcome turns) (ground arith)
        (publish-row w outcome r turns e d) rok nok)
