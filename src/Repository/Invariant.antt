-- ===== src/Repository/Invariant.antt =====
-- What holds of the table of requests between two statements, and that updates keep it.
pub mod Updates
pub mod Statements
pub mod Retry
pub mod Recover
pub mod Reach
use folioo_ai.Base.{◌≡◌, Bool, true, false, List, [], ◌∷◌, is_some, any, All}
use folioo_ai.Repository.Rows.{RequestRow, is_running, is_failed, is_completed, is_request, runs_in}

-- The primary key.
abbrev pub UniqueKeys : List RequestRow → Type 0
UniqueKeys [] = Unit
UniqueKeys (r ∷ rs) = (any (is_request r.user_id r.request_id) rs ≡ false) × UniqueKeys rs

-- The partial unique index: a session has at most one running request.
abbrev pub OneRunning : List RequestRow → Type 0
OneRunning [] = Unit
OneRunning (r ∷ rs) =
    (is_running r.status ≡ true → any (runs_in r.session_id) rs ≡ false) × OneRunning rs

-- The columns of one row agree with its status.
pub record RowAgrees (r : RequestRow) : Type 0 where
  pub owned : is_some r.owner_token ≡ is_running r.status
  pub leased : is_some r.lease_expires_at ≡ is_running r.status
  pub retry_timed : is_some r.retry_expires_at ≡ r.retryable
  pub retry_failed : r.retryable ≡ true → is_failed r.status ≡ true
  pub error_failed : is_some r.error ≡ is_failed r.status
  pub result_completed : is_some r.result ≡ true → is_completed r.status ≡ true

pub record Consistent (rows : List RequestRow) : Type 0 where
  pub unique : UniqueKeys rows
  pub one_running : OneRunning rows
  pub agree : All RowAgrees rows
