-- ===== src/Kakao/Settle.antt =====
-- `_process`, `_deliver` and `_finalize` of kakao/service.py, on the table of turns. The calls that
-- leave the server are logged in their order.
use folioo_ai.Base.{
  ℕ, String, Bool, not, ◌&&◌, ◌||◌, Option, none, some, List, [], ◌∷◌, ◌++◌, leb, if◌then◌else◌,
  is_some,
}
use folioo_ai.Repository.Rows.{Db}
use folioo_ai.Kakao.Rows.{
  TurnState, succeeded, failed, expired, Delivery, unknown, not_attempted, Payload, TurnRow,
  is_failure,
}
use folioo_ai.Kakao.Store.{
  Turns, get, record_outcome, resolve_commit_unknown, claim_delivery, finish_delivery,
  publish_state, mark_usage_reported, mark_complete_notified, is_commit_unknown,
}
use folioo_ai.Kakao.Turn.{World, execute_turn}

-- A POST to the callback URL, the notice of a failed turn's usage, the notice of the end.
pub data Call : Type 0 where
  post : String → Payload → Call
  report_failed_usage : Call
  notify_turn_complete : TurnState → Delivery → Call

-- `await self.store.get(request_id) or row`
unfoldable pub refresh : TurnRow → Turns → TurnRow
unfolding get
refresh row turns = elim (get row.request_id none turns) [ none ↦ row | some r ↦ r ]

-- `_confirm_commit` and `_resolve_commit_unknown`
unfoldable pub resolve : World → TurnRow → ℕ → Turns → Turns
unfolding resolve_commit_unknown
resolve w row token turns = elim w.committed [
  | none ↦ turns
  | some c ↦
      (resolve_commit_unknown w.resolved_at row.request_id token (if c then succeeded else failed)
        turns).1
]

abbrev pub status_of : Option Delivery → Delivery
status_of none = unknown
status_of (some d) = d

unfoldable pub deliver : World → TurnRow → Turns → List Call × Turns
unfolding claim_delivery finish_delivery
deliver w row turns =
    if is_some row.delivery_claimed_at && is_some row.callback_url
    then ([], finish_delivery w.finished_at row.request_id unknown turns)
    else elim row.reply_payload [
      | none ↦ ([], finish_delivery w.finished_at row.request_id not_attempted turns)
      | some payload ↦
          if leb row.expires_at w.deliver_clock
          then ([], finish_delivery w.finished_at row.request_id not_attempted turns)
          else let (url, turns') = claim_delivery w.claimed_at row.request_id turns in
            elim url [
              | none ↦ ([], turns')
              | some u ↦ (
                post u payload ∷ [],
                finish_delivery w.finished_at row.request_id (status_of w.sent) turns',
              )
            ]
    ]

-- `FAILED` is reported for `EXPIRED`.
abbrev pub main_outcome : TurnState → TurnState
main_outcome expired = failed
main_outcome o = o

abbrev pub is_delivered : TurnRow → Bool
is_delivered r = is_some r.delivery_claimed_at && not (is_some r.callback_url)

unfoldable pub report_usage : World → TurnState → TurnRow → Turns → List Call × Turns
unfolding mark_usage_reported
report_usage w outcome row turns =
    if is_failure (some outcome) && not row.usage_reported
    then (
      report_failed_usage ∷ [],
      if w.report_ok then mark_usage_reported w.reported_at row.request_id turns else turns,
    )
    else ([], turns)

unfoldable pub notify : World → TurnState → TurnRow → Turns → List Call × Turns
unfolding mark_complete_notified
notify w outcome row turns = if row.complete_notified then ([], turns) else (
  notify_turn_complete (main_outcome outcome) row.delivery_status ∷ [],
  if w.notify_ok then mark_complete_notified w.notified_at row.request_id turns else turns,
)

-- The two calls of `_finalize`, on the row read again.
unfoldable pub tell : World → TurnState → TurnRow → Turns → List Call × Turns
unfolding report_usage notify
tell w outcome row turns =
    let (reports, turns') = report_usage w outcome row turns in
    let (notices, turns'') = notify w outcome row turns' in (reports ++ notices, turns'')

abbrev pub publish : World → TurnState → TurnRow → Turns → Turns
publish w outcome row turns =
    if is_delivered row then publish_state w.published_at row.request_id outcome turns else turns

unfoldable pub finalize : World → TurnRow → Turns → List Call × Turns
unfolding refresh tell
finalize w row turns = elim row.outcome [
  | none ↦ ([], turns)
  | some outcome ↦
      let published = publish w outcome row turns in
      tell w outcome (refresh row published) published
]

-- The first half of `_process`: a turn in doubt is resolved, a new one run, another left.
unfoldable pub settle_outcome : World → TurnRow → ℕ → Turns → Db → Turns × Db
unfolding resolve execute_turn record_outcome
settle_outcome w row token turns db = elim row.outcome [
  | none ↦
      let ((outcome, payload), db') = execute_turn w row db in
      ((record_outcome w.recorded_at row.request_id token outcome payload turns).1, db')
  | some o ↦
      if is_commit_unknown o && row.complete_notified
      then (resolve w row token turns, db)
      else (turns, db)
]

abbrev pub row_after_outcome : TurnRow → Turns → TurnRow
row_after_outcome row turns = elim row.outcome [
  | none ↦ refresh row turns
  | some o ↦ if is_commit_unknown o && row.complete_notified then refresh row turns else row
]

-- Whether `_deliver` is called.
abbrev pub is_undelivered : TurnRow → Bool
is_undelivered r = not (is_some r.delivery_claimed_at) || is_some r.callback_url

-- The second half of `_process`.
unfoldable pub settle_rest : World → TurnRow → Turns → List Call × Turns
unfolding refresh deliver finalize
settle_rest w row turns =
    let (posts, delivered) = deliver w row turns in
    let (calls, settled) = finalize w (refresh row delivered) delivered in
    if is_undelivered row then (posts ++ calls, settled) else finalize w row turns

unfoldable pub process : World → TurnRow → ℕ → Turns → Db → (List Call × Turns) × Db
unfolding settle_outcome settle_rest refresh
process w row token turns db =
    let (decided, db') = settle_outcome w row token turns db in
    (settle_rest w (row_after_outcome row decided) decided, db')

-- `_process`, where `KAKAO_WEB_EXPERIENCE_URL` is set rightly or not. Only a turn without an outcome
-- is executed, and asks for it first; `none` is the `ValueError` of `get_web_experience_url`.
unfoldable pub process_by_setting :
    Bool → World → TurnRow → ℕ → Turns → Db → Option ((List Call × Turns) × Db)
process_by_setting is_set w row token turns db =
    if is_set || is_some row.outcome then some (process w row token turns db) else none
