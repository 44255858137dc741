-- ===== src/Service/Prepare/Sessions.antt =====
-- `create_session` and `get_session_state` of service.py.
use folioo_ai.Base.{ℕ, String, Bool, false, Option, none, some}
use folioo_ai.Repository.Rows.{RequestRow, Db, Status, running, completed, failed}
use folioo_ai.Repository.Sessions.{get_or_create_session, get_session, get_latest_request}
use folioo_ai.Service.Prepare.Chat.{Answer, Clock, in_session, ready}

-- The status of a session: that of its last request if it runs or failed.
pub data SessionStatus : Type 0 where
  session_ready session_running session_failed : SessionStatus

abbrev pub status_of : Status → SessionStatus
status_of running = session_running
status_of failed = session_failed
status_of completed = session_ready

abbrev pub latest_status : Option RequestRow → SessionStatus
latest_status none = session_ready
latest_status (some r) = status_of r.status

unfoldable pub create_session : ℕ → ℕ → ℕ → Db → (ℕ × SessionStatus) × Db
create_session fresh user block db =
    let (s, db') = get_or_create_session fresh user block db in
    ((s.session_id, latest_status (get_latest_request user s.session_id db')), db')

-- `SessionStateResponse`
pub record SessionState : Type 0 where
  pub session_id : ℕ
  pub status : SessionStatus
  pub active_request_id : Option ℕ
  pub retryable : Bool
  pub failed_node : Option String

abbrev pub state_of : ℕ → Option RequestRow → SessionState
state_of session none = record {
  session_id = session;
  status = session_ready;
  active_request_id = none;
  retryable = false;
  failed_node = none;
}
state_of session (some r) = record {
  session_id = session;
  status = status_of r.status;
  active_request_id = some r.request_id;
  retryable = r.retryable;
  failed_node = r.failed_node;
}

unfoldable pub get_session_state : ℕ → Clock → ℕ → ℕ → Db → Option (Answer SessionState × Db)
get_session_state fuel c user session db =
    in_session (λ s d. (ready (state_of session (get_latest_request user session d)), d)) fuel c
      session db (get_session user session db)
