-- ===== src/Tests/Services.antt =====
-- service.py: a chat request that is prepared, run, stored and replayed.
use folioo_ai.Base.{
  Option, String, ◌≡◌, refl, true, false, none, some, List, [], ◌∷◌, ◌++◌, map, arith,
}
use folioo_ai.Repository.Rows.{RequestRow, get_request}
use folioo_ai.Repository.Sessions.{get_session, get_latest_request}
use folioo_ai.Repository.Recovery.{claim_expired_request_for_recovery}
use folioo_ai.Reconcile.Loop.{reconcile}
use folioo_ai.Repository.Ownership.{watching, complete_row, mark_request_failed}
use folioo_ai.Repository.Claim.{claim_request, retry_request, restart}
use folioo_ai.Repository.Laws.Rights.{IsOwned}
use folioo_ai.Service.Errors.{ErrorClass, error_of}
use folioo_ai.Service.Payloads.{
  Codec, sent, processing_complete, absorb_all, no_payloads, completion_of, replay,
}
use folioo_ai.Service.Prepare.Chat.{Clock, ChatRequest, ready, prepare_chat}
use folioo_ai.Service.Prepare.Request.{PreparedRequest, web}
use folioo_ai.Service.Prepare.Retry.{prepare_retry}
use folioo_ai.Service.Execute.Message.{Env, Store}
use folioo_ai.Service.Execute.Interrupt.{
  Turn, stream_raises, experience_error, interrupt_when_lease_lost,
}
use folioo_ai.Service.Execute.Run.{execute}
use folioo_ai.Service.Restore.{StoredError, to_request_state}
use folioo_ai.Service.Laws.Restore.{result_in, gap_in, gap_shown, to_request_state-replay}
use folioo_ai.Service.Laws.Replay.{ReadsBack, IsBlank, lasting, replay-coordinate}
use folioo_ai.Service.Laws.Prepare.{RunsAlone, Owns, prepare_chat-RunsAlone, prepare_retry-Owns}
use folioo_ai.Service.Laws.Execute.{IsHarmless, execute-IsHarmless}
use folioo_ai.Tests.Requests.{tables, first, stopped, first-Consistent, stopped-Consistent}
use folioo_ai.Tests.Sweeps.{rounds}
use folioo_ai.Tests.Commits.{state, world, run, coordinated, result, gap}

-- The columns of this one run.
abbrev codec : Codec
codec = record {
  dumps_result = λ p. "{\"map_version\": 5}";
  loads_result = λ s. some (record { commit = result; ai_response = some (100 ∷ []) });
  dumps_suggestion = λ p. "{\"message\": \"h\"}";
  loads_suggestion = λ s. some (record { gap = some (some gap); message = some (104 ∷ []) });
  dumps_error = λ e. "{}";
  write = λ t. "";
  read = λ s. [];
}

reads_back : ReadsBack codec (absorb_all run.events no_payloads)
reads_back = record {
  result = λ r e. e;
  suggestion = λ s e. e;
  fallback = λ t e. absurd (ground (arith, e));
}

first-IsBlank : IsBlank first
first-IsBlank = record { result = refl; suggestion = refl; fallback = refl }

replay-coordinate_example :
    replay codec
      (complete_row 5_000 (completion_of codec (absorb_all run.events no_payloads)) first)
    ≡ map sent (lasting run.events) ++ (processing_complete 500 ∷ [])
replay-coordinate_example =
    replay-coordinate codec 2 world state run 5_000 first coordinated refl refl refl
      (λ t r e. ground (arith, e)) reads_back first-IsBlank

abbrev chat : ChatRequest
chat = record {
  user_id = 7;
  session_id = 70;
  request_id = 500;
  user_message = some (104 ∷ 105 ∷ []);
  context_experience_id = none;
  view = none;
  stored_files = [];
  channel = web;
}

abbrev clock : Clock
clock = record {
  hash = λ i. 5;
  input_meta = λ r. "{}";
  rounds = rounds;
  lease = 300;
  now = 1_000;
  worker_now = 1_000;
  token = 91;
}

abbrev prepared : PreparedRequest
prepared = record {
  user_id = 7;
  session_id = 70;
  request_id = 500;
  request_hash = 5;
  user_message = some (104 ∷ 105 ∷ []);
  context_experience_id = none;
  view = none;
  stored_files = [];
  replay_of = none;
  is_retry = false;
  owner_token = some 91;
  channel = web;
  active_gap = none;
}

prepares : prepare_chat 1 clock chat (tables []) ≡ some (ready prepared, tables (first ∷ []))
unfolding prepare_chat reconcile get_session claim_request claim_expired_request_for_recovery
prepares = refl

prepare_chat-RunsAlone_example : RunsAlone prepared 91 (tables (first ∷ []))
prepare_chat-RunsAlone_example =
    prepare_chat-RunsAlone 1 clock chat (tables []) (tables (first ∷ [])) prepared (ground arith)
      (omega arith) prepares refl

abbrev retried : PreparedRequest
retried = record prepared { user_message = none; is_retry = true }

prepares_again :
    prepare_retry 1 clock 7 70 500 (tables (stopped ∷ []))
    ≡ some (ready retried, tables (restart 300 1_000 91 stopped ∷ []))
unfolding prepare_retry reconcile get_session get_latest_request retry_request
    claim_expired_request_for_recovery
prepares_again = refl

prepare_retry-Owns_example : Owns retried 91 (tables (restart 300 1_000 91 stopped ∷ []))
prepare_retry-Owns_example =
    prepare_retry-Owns 1 clock 7 70 500 (tables (stopped ∷ []))
      (tables (restart 300 1_000 91 stopped ∷ [])) retried stopped-Consistent (omega arith)
      prepares_again refl

abbrev env : Env
env = record {
  codec = codec;
  builds_state = true;
  now = 5_000;
  retry_ttl = 1_800;
  saves_messages = true;
}

abbrev store : Store
store = record {
  db = tables (first ∷ []);
  messages = record { rows = []; next_id = 1 };
  refunds = [];
}

-- The main server refuses the commit.
abbrev failing : List Turn
failing =
    record {
      flags = watching;
      arrival = stream_raises (experience_error (error_of ErrorClass.commit_conflict));
    }
    ∷ []

owned : IsOwned 7 500 91 (tables (first ∷ [])) first
unfolding get_request
owned = record { consistent = first-Consistent; found = refl; live = refl; mine = refl }

failed_once : (execute env prepared failing store).1.refunds ≡ (7, 500) ∷ []
unfolding execute interrupt_when_lease_lost mark_request_failed
failed_once = refl

-- Another worker, whose lease was taken over.
abbrev late : PreparedRequest
late = record prepared { owner_token = some 90 }

execute-IsHarmless_example : IsHarmless late store (execute env late failing store)
execute-IsHarmless_example =
    execute-IsHarmless env late store 90 first first-Consistent owned.found (ground arith) refl
      failing

-- A row that keeps the result and the suggestion of the run.
abbrev stored : RequestRow
stored = complete_row 5_000 (completion_of codec (absorb_all run.events no_payloads)) first

abbrev loads_error : String → Option StoredError
loads_error s = none

to_request_state-replay_example :
    (result_in (replay codec stored) ≡ (to_request_state codec loads_error stored).result)
    × (gap_in (replay codec stored)
        ≡ gap_shown (to_request_state codec loads_error stored).suggestion)
to_request_state-replay_example = to_request_state-replay codec loads_error stored
