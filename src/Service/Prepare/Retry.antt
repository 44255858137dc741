-- ===== src/Service/Prepare/Retry.antt =====
-- `prepare_retry` of service.py.
use folioo_ai.Base.{ℕ, true, Option, none, some, [], ◌==◌, if◌then◌else◌}
use folioo_ai.Repository.Rows.{
  SessionRow, RequestRow, Db, ClaimOutcome, claimed, replay, session_busy, retry_expired,
  retry_not_found, get_request,
}
use folioo_ai.Repository.Sessions.{get_session, get_latest_request}
use folioo_ai.Repository.Claim.{retry_request}
use folioo_ai.Service.Errors.{ErrorClass}
use folioo_ai.Service.Prepare.Request.{PreparedRequest, web}
use folioo_ai.Service.Prepare.Chat.{Answer, Clock, token_of, hash_of, in_session, ready, refused}

abbrev pub prepared_retry : ℕ → ℕ → ℕ → SessionRow → Option RequestRow → PreparedRequest
prepared_retry user session request s row = record {
  user_id = user;
  session_id = session;
  request_id = request;
  request_hash = hash_of row;
  user_message = none;
  context_experience_id = none;
  view = none;
  stored_files = [];
  replay_of = none;
  is_retry = true;
  owner_token = none;
  channel = web;
  active_gap = none;
}

-- The `match` of `prepare_retry`, and the error after it.
abbrev pub match_retry :
    PreparedRequest → SessionRow → Option RequestRow → ClaimOutcome → Answer PreparedRequest
match_retry p s row claimed =
    ready (record p { owner_token = token_of row; active_gap = s.active_gap })
match_retry p s row replay = ready (record p { replay_of = row })
match_retry p s row session_busy = refused ErrorClass.session_busy
match_retry p s row retry_expired = refused ErrorClass.retry_expired
match_retry p s row retry_not_found = refused ErrorClass.request_not_found
match_retry p s row _ = refused ErrorClass.retry_not_allowed

abbrev pub claim_retry : Clock → ℕ → ℕ → ℕ → SessionRow → Db → Answer PreparedRequest × Db
claim_retry c user session request s db =
    let (claim, db') = retry_request c.lease c.worker_now c.now c.token user request db in
    (
      match_retry (prepared_retry user session request s claim.request) s claim.request
          claim.outcome,
      db',
    )

-- A request that is not the session's last one.
abbrev pub not_latest : Option RequestRow → Db → Answer PreparedRequest × Db
not_latest none db = (refused ErrorClass.request_not_found, db)
not_latest (some _) db = (refused ErrorClass.retry_not_allowed, db)

abbrev pub retry_latest :
    Clock → ℕ → ℕ → ℕ → SessionRow → Db → Option RequestRow → Answer PreparedRequest × Db
retry_latest c user session request s db none = (refused ErrorClass.request_not_found, db)
retry_latest c user session request s db (some latest) =
    if latest.request_id == request
    then claim_retry c user session request s db
    else not_latest (get_request user request db) db

abbrev pub start_retry : Clock → ℕ → ℕ → ℕ → SessionRow → Db → Answer PreparedRequest × Db
start_retry c user session request s db =
    retry_latest c user session request s db (get_latest_request user session db)

unfoldable pub prepare_retry : ℕ → Clock → ℕ → ℕ → ℕ → Db → Option (Answer PreparedRequest × Db)
prepare_retry fuel c user session request db =
    in_session (start_retry c user session request) fuel c session db (get_session user session db)
