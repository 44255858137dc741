-- ===== src/Kakao/Turn.antt =====
-- `KakaoTurnService` of kakao/service.py: one turn, from the claimed row to its settlement. What
-- the turn meets outside (clocks, the experience service, the main server, KakaoTalk) is a `World`.
use folioo_ai.Base.{
  Text, ℕ, ◌+◌, ◌-◌, String, Bool, true, false, not, ◌||◌, Option, none, some, List, [], ◌∷◌, leb,
  if◌then◌else◌, is_some,
}
use folioo_ai.Repository.Rows.{seconds, Db}
use folioo_ai.Repository.Ownership.{Failure, mark_request_failed}
use folioo_ai.Kakao.Rows.{
  TurnState, succeeded, failed, expired, commit_unknown, Delivery, Payload, TurnRow,
}
use folioo_ai.Kakao.Store.{}
use folioo_ai.Kakao.Callback.{
  build_summary, build_success_payload, build_failure_payload, build_unknown_payload,
}

abbrev pub run_budget_seconds : ℕ
run_budget_seconds = 45

-- What `prepare_chat` returned: the fields that the turn reads.
pub record Prepared : Type 0 where
  pub owner_token : Option ℕ
  pub is_replay : Bool

-- One call of `prepare_chat` in `_claim_session`.
pub data Attempt : Type 0 where
  session_busy refused crashed : Attempt
  prepared : Prepared → Attempt

-- An event of `execute`: of a node's status, whether the node is the commit and it is running.
pub data Event : Type 0 where
  node_status : Bool → Bool → Event
  message_complete : Option Text → Event
  error_event : Event
  other_event : Event

-- How the `try` block ended: at its end, by the deadline, by an `ExperienceMapError`, or otherwise.
pub data Ending : Type 0 where
  finished timed_out map_error exception : Ending

pub record World : Type 0 where
  pub web_url : String
  pub start_clock : ℕ
  pub attempts : List Attempt
  pub events : List Event
  pub stream_ending : Ending
  pub failed_at : ℕ
  pub retry_ttl : ℕ
  pub committed : Option Bool
  pub recorded_at : ℕ
  pub resolved_at : ℕ
  pub deliver_clock : ℕ
  pub claimed_at : ℕ
  pub sent : Option Delivery
  pub finished_at : ℕ
  pub published_at : ℕ
  pub report_ok : Bool
  pub reported_at : ℕ
  pub notify_ok : Bool
  pub notified_at : ℕ

-- The local variables of the `try` block.
pub record Progress : Type 0 where
  pub claimed : Option Prepared
  pub texts : List (Option Text)
  pub failed_event : Bool
  pub commit_in_flight : Bool

abbrev pub no_progress : Progress
no_progress = record { claimed = none; texts = []; failed_event = false; commit_in_flight = false }

abbrev pub add_text : List (Option Text) → Option Text → List (Option Text)
add_text [] t = t ∷ []
add_text (x ∷ xs) t = x ∷ add_text xs t

abbrev pub note_event : Event → Progress → Progress
note_event (node_status is_commit is_running) p =
    if is_commit then record p { commit_in_flight = is_running } else p
note_event (message_complete t) p = record p { texts = add_text p.texts t }
note_event error_event p = record p { failed_event = true }
note_event other_event p = p

abbrev pub consume : List Event → Progress → Progress
consume [] p = p
consume (e ∷ es) p = consume es (note_event e p)

-- `_claim_session`, and the events once the request is claimed. Attempts that end with the session
-- busy end by the deadline.
abbrev pub run_block : World → List Attempt → Progress × Ending
run_block w [] = (no_progress, timed_out)
run_block w (session_busy ∷ rest) = run_block w rest
run_block w (refused ∷ _) = (no_progress, map_error)
run_block w (crashed ∷ _) = (no_progress, exception)
run_block w (prepared c ∷ _) =
    (consume w.events (record no_progress { claimed = some c }), w.stream_ending)

abbrev pub deadline_failure : Failure
deadline_failure = record {
  error = "{\"code\": \"kakao_deadline\", \"message\": \"실행 기한을 넘겨 중단했습니다.\"}";
  failed_node = none;
  retryable = false;
}

-- `_release_request`; what `mark_request_failed` raises is suppressed.
unfoldable pub release_request : World → TurnRow → Option Prepared → Db → Db
release_request w row none db = db
release_request w row (some c) db =
    if not (is_some c.owner_token) || c.is_replay
    then db
    else (mark_request_failed w.retry_ttl w.failed_at row.user_id row.request_id deadline_failure
        c.owner_token db).1

-- `_after_unsuccessful`, with the answer of `_confirm_commit`: `none` where it raised.
abbrev pub after_unsuccessful : World → TurnState → TurnState × Option Payload
after_unsuccessful w outcome = elim w.committed [
  | none ↦ (commit_unknown, some (build_unknown_payload w.web_url))
  | some true ↦ (succeeded, some (build_success_payload (build_summary []) w.web_url))
  | some false ↦ (outcome, some (build_failure_payload w.web_url))
]

-- `_deadline`: five seconds before `expires_at`.
abbrev pub is_late : World → TurnRow → Bool
is_late w row = leb row.expires_at (w.start_clock + seconds (50 - run_budget_seconds))

abbrev pub conclude : World → Progress × Ending → TurnState × Option Payload
conclude w (p, timed_out) =
    if p.commit_in_flight
    then (commit_unknown, some (build_unknown_payload w.web_url))
    else after_unsuccessful w expired
conclude w (p, map_error) = (failed, some (build_failure_payload w.web_url))
conclude w (p, exception) = after_unsuccessful w failed
conclude w (p, finished) =
    if p.failed_event
    then after_unsuccessful w failed
    else (succeeded, some (build_success_payload (build_summary p.texts) w.web_url))

abbrev pub release_late : World → TurnRow → Progress × Ending → Db → Db
release_late w row (p, timed_out) db = release_request w row p.claimed db
release_late w row (p, map_error) db = db
release_late w row (p, exception) db = db
release_late w row (p, finished) db = db

-- `_execute_turn`, after its first line: `web_url` is what `get_web_experience_url` returned.
unfoldable pub execute_turn : World → TurnRow → Db → (TurnState × Option Payload) × Db
execute_turn w row db =
    if is_late w row
    then (after_unsuccessful w expired, db)
    else (conclude w (run_block w w.attempts), release_late w row (run_block w w.attempts) db)
