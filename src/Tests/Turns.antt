-- ===== src/Tests/Turns.antt =====
-- features/experience_map/kakao: one turn from its acceptance to its settlement.
use folioo_ai.Base.{◌≡◌, ◌⊎◌, refl, true, false, none, some, [], ◌∷◌, arith, length, ◌≤◌, ◌<◌}
use folioo_ai.Repository.Rows.{Db}
use folioo_ai.Kakao.Rows.{TurnRow, succeeded, failed, success, Payload, get_turn, needs_work}
use folioo_ai.Kakao.Store.{
  Acceptance, accept, created, mismatch, accepted_row, claim_worker, claim_row, claim_delivery,
  publish_row, finish_row,
}
use folioo_ai.Kakao.Callback.{build_summary, build_success_payload, join_paragraphs, kept_texts}
use folioo_ai.Kakao.Turn.{
  World, session_busy, prepared, node_status, message_complete, error_event, finished, timed_out,
  map_error, execute_turn, run_block, is_late,
}
use folioo_ai.Kakao.Settle.{post, notify_turn_complete, process}
use folioo_ai.Kakao.Laws.Steps.{Runs, Step, Runs-Keeps}
use folioo_ai.Kakao.Laws.Later.{Later}
use folioo_ai.Kakao.Laws.Delivery.{delivery_once}
use folioo_ai.Kakao.Laws.Accept.{accept_again}
use folioo_ai.Kakao.Laws.Summary.{IsSummary, build_summary_fits}
use folioo_ai.Kakao.Laws.Outcome.{failure_confirmed, success_confirmed}
use folioo_ai.Kakao.Laws.Settled.{IsSettled, IsFresh, process_settles, process_calls, settled_rests}

abbrev acceptance : Acceptance
acceptance = record {
  request_id = 500;
  user_id = 7;
  plain_user_id = true;
  session_id = 70;
  plain_session_id = true;
  block_id = "3";
  request_hash = 5;
  utterance = "hello";
  callback_url = "https://bot-api.kakao.com/callback/1";
  expires_at = 60_000_000;
}

abbrev turn : TurnRow
turn = accepted_row 10_000_000 acceptance

abbrev working : TurnRow
working = claim_row 10_100_000 91 turn

abbrev no_rows : Db
no_rows = record { sessions = []; requests = [] }

-- The session is busy once, then the run commits and answers.
abbrev good : World
good = record {
  web_url = "https://folioo.example";
  start_clock = 10_100_000;
  attempts = session_busy ∷ prepared (record { owner_token = some 92; is_replay = false }) ∷ [];
  events =
      node_status true true
      ∷ node_status true false
      ∷ message_complete (some (104 ∷ 105 ∷ 32 ∷ []))
      ∷ [];
  stream_ending = finished;
  failed_at = 55_000_000;
  retry_ttl = 1_800;
  committed = some false;
  recorded_at = 20_000_000;
  resolved_at = 20_000_000;
  deliver_clock = 20_100_000;
  claimed_at = 20_100_000;
  sent = some success;
  finished_at = 20_200_000;
  published_at = 20_300_000;
  report_ok = true;
  reported_at = 20_400_000;
  notify_ok = true;
  notified_at = 20_500_000;
}

-- The same, but the deadline stops it while the commit runs.
abbrev slow : World
slow = record good { events = node_status true true ∷ []; stream_ending = timed_out }

-- The same, but an error event ends it, and the main server knows of no commit.
abbrev broken : World
broken = record good { events = error_event ∷ [] }

verdict_good : (execute_turn good working no_rows).0.0 ≡ succeeded
unfolding execute_turn
verdict_good = refl

verdict_broken : (execute_turn broken working no_rows).0.0 ≡ failed
unfolding execute_turn
verdict_broken = refl

created_once : (accept 10_000_000 acceptance []).0.0 ≡ created
unfolding accept
created_once = refl

first_worker : (claim_worker 10_100_000 91 500 (turn ∷ [])).0 ≡ some working
unfolding claim_worker
first_worker = refl

given_out : (claim_delivery 20_100_000 500 (working ∷ [])).0 ≡ some acceptance.callback_url
unfolding claim_delivery
given_out = refl

fresh : IsFresh working acceptance.callback_url 91 (working ∷ [])
fresh = record {
  found = refl;
  no_outcome = refl;
  waiting = record { unclaimed = refl; has_url = refl };
  mine = refl;
  unfinished = refl;
  untold = refl;
  unreported = refl;
}

Runs-Keeps_example :
    (r : TurnRow) × (get_turn 500
        (claim_worker 10_100_000 91 500 (accept 9_000_000 acceptance (turn ∷ [])).1).1
      ≡ some r)
    × Later turn r
Runs-Keeps_example =
    Runs-Keeps {turns = turn ∷ []}
      (Runs.next (Runs.next Runs.here (Step.accepts 9_000_000 acceptance))
        (Step.claims 10_100_000 91 500))
      500 turn refl

delivery_once_example :
    claim_delivery 20_900_000 500 (claim_delivery 20_100_000 500 (working ∷ [])).1
    ≡ (none, (claim_delivery 20_100_000 500 (working ∷ [])).1)
delivery_once_example =
    delivery_once 20_100_000 500 acceptance.callback_url (working ∷ [])
      (claim_delivery 20_100_000 500 (working ∷ [])).1 20_900_000 given_out Runs.here

-- The same body again, where the session's UUID was sent in upper case.
abbrev shouted : Acceptance
shouted = record acceptance { plain_session_id = false }

accept_again_example :
    ((accept 11_000_000 shouted (accept 10_000_000 acceptance []).1).1
      ≡ (accept 10_000_000 acceptance []).1)
    × ((accept 11_000_000 shouted (accept 10_000_000 acceptance []).1).0.0 ≡ mismatch)
accept_again_example =
    accept_again 10_000_000 acceptance [] (accept 10_000_000 acceptance []).1 11_000_000 shouted
      created_once Runs.here refl

failure_confirmed_example :
    (broken.committed ≡ some false)
    ⊎ ((is_late broken working ≡ false) × ((run_block broken broken.attempts).1 ≡ map_error))
failure_confirmed_example =
    failure_confirmed broken working no_rows (ground (arith, verdict_broken))

success_confirmed_example :
    (good.committed ≡ some true)
    ⊎ ((is_late good working ≡ false)
        × ((run_block good good.attempts).1 ≡ finished)
        × ((run_block good good.attempts).0.failed_event ≡ false))
success_confirmed_example = success_confirmed good working no_rows verdict_good

build_summary_fits_example :
    (length (build_summary (some (32 ∷ 104 ∷ 105 ∷ []) ∷ none ∷ [])) ≤ 1000)
    × (0 < length (build_summary (some (32 ∷ 104 ∷ 105 ∷ []) ∷ none ∷ [])))
    × (build_success_payload (build_summary (some (32 ∷ 104 ∷ 105 ∷ []) ∷ none ∷ [])) "u"
        ≡ Payload.success_payload (build_summary (some (32 ∷ 104 ∷ 105 ∷ []) ∷ none ∷ [])) "u")
    × IsSummary
        (join_paragraphs (kept_texts (some (32 ∷ 104 ∷ 105 ∷ []) ∷ none ∷ [])))
        (build_summary (some (32 ∷ 104 ∷ 105 ∷ []) ∷ none ∷ []))
build_summary_fits_example = build_summary_fits (some (32 ∷ 104 ∷ 105 ∷ []) ∷ none ∷ []) "u"

process_settles_example :
    (r : TurnRow) × (get_turn 500 (process good working 91 (working ∷ []) no_rows).0.1 ≡ some r)
    × IsSettled (execute_turn good working no_rows).0.0 r
process_settles_example =
    process_settles good working acceptance.callback_url 91 (working ∷ []) no_rows fresh refl refl

process_calls_example :
    (process good working 91 (working ∷ []) no_rows).0.0
    ≡ post "https://bot-api.kakao.com/callback/1"
        (Payload.success_payload (104 ∷ 105 ∷ []) "https://folioo.example")
      ∷ notify_turn_complete succeeded success
      ∷ []
unfolding execute_turn build_success_payload build_summary
process_calls_example =
    process_calls good working acceptance.callback_url 91 (working ∷ []) no_rows fresh refl refl

abbrev settled : TurnRow
settled = record (publish_row 20_300_000 succeeded (finish_row 20_200_000 success working)) {
  outcome = some succeeded;
  complete_notified = true;
}

settled_rests_example :
    (r : TurnRow) × (get_turn 500 (claim_worker 90_000_000 96 500 (settled ∷ [])).1 ≡ some r)
    × (needs_work r ≡ false)
settled_rests_example =
    settled_rests 500 succeeded settled (settled ∷ [])
      (claim_worker 90_000_000 96 500 (settled ∷ [])).1 refl
      (record {
        decided = refl;
        published = refl;
        url_dropped = refl;
        claimed = refl;
        told = refl;
        refunded = refl;
      })
      refl (Runs.next Runs.here (Step.claims 90_000_000 96 500))
