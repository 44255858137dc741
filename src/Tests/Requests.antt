-- ===== src/Tests/Requests.antt =====
-- repository.py: the life of one request, and the theorems on requests at concrete tables.
use folioo_ai.Base.{
  ◌≡◌, refl, true, false, none, some, List, [], ◌∷◌, arith, any, select, length, All, if◌then◌else◌,
  ◌==◌, ◌↔◌,
}
use folioo_ai.Repository.Rows.{
  SessionRow, RequestRow, running, Db, returned, claimed, replay, hash_mismatch, get_request,
  runs_in,
}
use folioo_ai.Repository.Sessions.{get_or_create_session}
use folioo_ai.Repository.Claim.{new_request, claim_request, retry_request, insert_request}
use folioo_ai.Repository.Ownership.{
  Completion, Failure, mark_request_completed, complete_row, fail_row, renew_request_lease,
  lease_loop, answered, cancelled,
}
use folioo_ai.Repository.Recovery.{
  purge_old_completed_requests, is_stale, claim_expired_request_for_recovery,
  expire_stale_running_requests, take_over,
}
use folioo_ai.Repository.Invariant.{Consistent}
use folioo_ai.Repository.Invariant.Reach.{Reach, Step, empty, Reach-Consistent}
use folioo_ai.Repository.Laws.Final.{IsPurged, completed_final}
use folioo_ai.Repository.Laws.Idempotent.{
  IsClaimed, retryable_rival, complete-claim_replays, claim_excludes_others,
}
use folioo_ai.Repository.Lifecycle.{Moves, phase}
use folioo_ai.Repository.Laws.Refines.{methods_of, Reach-Moves}
use folioo_ai.Repository.Laws.Retries.{MayRetry, retry_exactly, retry_keeps_cancellation}
use folioo_ai.Repository.Laws.Rights.{IsFenced, not_owner-IsFenced}
use folioo_ai.Repository.Laws.Expiry.{
  IsSwept, IsRecovered, expire_leaves_none, recovery_takes_oldest, recovery_fences_others,
}

abbrev pub session : SessionRow
session = record { user_id = 7; session_id = 70; block_id = 3; active_gap = none }

abbrev pub tables : List RequestRow → Db
tables rows = record { sessions = session ∷ []; requests = rows }

abbrev pub first : RequestRow
first = record {
  user_id = 7;
  session_id = 70;
  request_id = 500;
  request_hash = 5;
  status = running;
  failed_node = none;
  retryable = false;
  retry_expires_at = none;
  lease_expires_at = some 300_001_000;
  owner_token = some 91;
  base_map_version = none;
  committed_version = none;
  input_meta = "{}";
  result = none;
  suggestion = none;
  error = none;
  fallback_message = none;
  cancel_requested = false;
  created_at = 1_000;
  updated_at = 1_000;
}

abbrev done : Completion
done = record {
  result = some "{\"map_version\": 4}";
  suggestion = none;
  committed_version = some 4;
  fallback_message = none;
}

abbrev failure : Failure
failure = record {
  error = "{\"code\": \"llm_error\"}";
  failed_node = some "structure";
  retryable = true;
}

abbrev finished : RequestRow
finished = complete_row 5_000 done first

abbrev pub stopped : RequestRow
stopped = fail_row 1_800 5_000 failure (record first { cancel_requested = true })

pub first-Consistent : Consistent (first ∷ [])
first-Consistent = ground arith

finished-Consistent : Consistent (finished ∷ [])
finished-Consistent = ground arith

pub stopped-Consistent : Consistent (stopped ∷ [])
stopped-Consistent = ground arith

claim_runs : IsClaimed 300 1_000 91 7 70 500 5 "{}" (tables []) (tables (first ∷ []))
unfolding claim_request
claim_runs = refl

-- A second request of the session waits for the first.
busy : (claim_request 300 2_000 92 7 70 501 6 "{}" (tables (first ∷ []))).1 ≡ tables (first ∷ [])
unfolding claim_request
busy = refl

found_first : get_request 7 500 (tables (first ∷ [])) ≡ some first
unfolding get_request
found_first = refl

-- The stop request reaches the worker at its next renewal.
stop_seen : lease_loop (answered (true, false) ∷ answered (true, true) ∷ []) ≡ cancelled
unfolding lease_loop
stop_seen = refl

reached : Reach empty (tables (first ∷ []))
unfolding get_or_create_session insert_request new_request
reached =
    Reach.next (Reach.next Reach.here (Step.open_session 70 7 3))
      (Step.insert 300 1_000 91 7 70 500 5 "{}" refl)

empty-Consistent : Consistent []
empty-Consistent = ground arith

Reach-Moves_example :
    Moves (phase 7 500 empty) (methods_of reached) (phase 7 500 (tables (first ∷ [])))
Reach-Moves_example = Reach-Moves 7 500 empty-Consistent reached

Reach-Consistent_example : Consistent (first ∷ [])
Reach-Consistent_example = Reach-Consistent reached

completed_final_example :
    IsPurged 7 500 finished 1_800 9_000
      (purge_old_completed_requests 1_800 9_000 (tables (finished ∷ []))).1
unfolding get_request
completed_final_example =
    completed_final 7 500 finished {db = tables (finished ∷ [])} finished-Consistent
      (Step.purge 1_800 9_000) refl refl

complete-claim_replays_example :
    let out = mark_request_completed 5_000 7 500 done (some 91) (tables (first ∷ [])) in
    (out.0 ≡ returned (some (complete_row 5_000 done (new_request 300 1_000 91 7 70 500 5 "{}"))))
    × (claim_request 300 6_000 93 7 71 500 6 "{}" out.1 ≡ (
      returned (record {
        outcome = if 5 == 6 then replay else hash_mismatch;
        request = some (complete_row 5_000 done (new_request 300 1_000 91 7 70 500 5 "{}"));
      }),
      out.1,
    ))
complete-claim_replays_example =
    complete-claim_replays 300 1_000 91 7 70 500 5 "{}" (tables []) (tables (first ∷ [])) 5_000 done
      300 6_000 93 71 6 "{}" (omega arith) claim_runs

claim_excludes_others_example :
    (get_request 7 500 (tables (first ∷ [])) ≡ some (new_request 300 1_000 91 7 70 500 5 "{}"))
    × (select (runs_in 70) (first ∷ []) ≡ new_request 300 1_000 91 7 70 500 5 "{}" ∷ [])
    × (any (retryable_rival 300 1_000 91 7 70 500 5 "{}" (tables [])) (first ∷ []) ≡ false)
claim_excludes_others_example =
    claim_excludes_others 300 1_000 91 7 70 500 5 "{}" (tables []) (tables (first ∷ []))
      (omega arith) claim_runs

retry_exactly_example :
    ((retry_request 300 6_000 6_100 94 7 500 (tables (stopped ∷ []))).0.outcome ≡ claimed)
    ↔ ((row : RequestRow) × MayRetry 300 6_000 6_100 94 7 500 (tables (stopped ∷ [])) row)
retry_exactly_example = retry_exactly 300 6_000 6_100 94 7 500 (tables (stopped ∷ []))

may_retry : MayRetry 300 6_000 6_100 94 7 500 (tables (stopped ∷ [])) stopped
unfolding get_request
may_retry = record {
  found = refl;
  was_failed = refl;
  was_retryable = refl;
  in_time = refl;
  idle = refl;
}

retry_keeps_cancellation_example :
    (renew_request_lease 300 36_100 7 500
      (some 94)
      (retry_request 300 6_000 6_100 94 7 500 (tables (stopped ∷ []))).1).0
    ≡ returned (true, true)
retry_keeps_cancellation_example =
    retry_keeps_cancellation 300 6_000 6_100 94 7 500 (tables (stopped ∷ [])) stopped 300 36_100
      stopped-Consistent may_retry

not_owner-IsFenced_example : IsFenced 7 500 90 (tables (first ∷ [])) 300 1_800 5_000 done failure
not_owner-IsFenced_example =
    not_owner-IsFenced 7 500 90 (tables (first ∷ [])) first 300 1_800 5_000 done failure
      first-Consistent found_first (ground arith)

expire_leaves_none_example :
    let out = expire_stale_running_requests 1_800 400_000_000 none (tables (first ∷ [])) in
    (any (is_stale 400_000_000 none) out.1.requests ≡ false)
    × All IsSwept out.0
    × (length out.0 ≡ 1)
expire_leaves_none_example = expire_leaves_none 1_800 400_000_000 none (tables (first ∷ []))

abbrev taken : RequestRow
taken = take_over 300 400_000_000 95 first

recovery_runs :
    (claim_expired_request_for_recovery 300 400_000_000 95 none (tables (first ∷ []))).0
    ≡ some taken
unfolding claim_expired_request_for_recovery
recovery_runs = refl

recovery_takes_oldest_example :
    (old : RequestRow) × IsRecovered 300 400_000_000 95 none (tables (first ∷ [])) taken old
recovery_takes_oldest_example =
    recovery_takes_oldest 300 400_000_000 95 none (tables (first ∷ [])) taken first-Consistent
      recovery_runs

recovery_fences_others_example :
    IsFenced 7 500 91
      (claim_expired_request_for_recovery 300 400_000_000 95 none (tables (first ∷ []))).1
      300
      1_800
      400_000_001
      done
      failure
recovery_fences_others_example =
    recovery_fences_others 300 400_000_000 95 none (tables (first ∷ [])) taken 91 300 1_800
      400_000_001 done failure first-Consistent recovery_runs (omega arith)
