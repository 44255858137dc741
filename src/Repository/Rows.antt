-- ===== src/Repository/Rows.antt =====
-- The rows of repository.py and its tables. Times are microseconds, UUIDs, digests and user ids
-- are numbers, and a jsonb value is the text that `json.dumps` wrote.
use folioo_ai.Base.{
  ℕ, ◌*◌, String, Bool, true, false, ◌&&◌, Option, none, some, List, ◌==◌, select_first,
}

-- `status`, with the CHECK constraint of the table.
pub data Status : Type 0 where
  running completed failed : Status

abbrev pub is_running : Status → Bool
is_running running = true
is_running completed = false
is_running failed = false

abbrev pub is_completed : Status → Bool
is_completed running = false
is_completed completed = true
is_completed failed = false

abbrev pub is_failed : Status → Bool
is_failed running = false
is_failed completed = false
is_failed failed = true

pub record SessionRow : Type 0 where
  pub user_id : ℕ
  pub session_id : ℕ
  pub block_id : ℕ
  pub active_gap : Option String

-- `RequestRow`, and the columns `cancel_requested`, `created_at` and `updated_at` of the table.
pub record RequestRow : Type 0 where
  pub user_id : ℕ
  pub session_id : ℕ
  pub request_id : ℕ
  pub request_hash : ℕ
  pub status : Status
  pub failed_node : Option String
  pub retryable : Bool
  pub retry_expires_at : Option ℕ
  pub lease_expires_at : Option ℕ
  pub owner_token : Option ℕ
  pub base_map_version : Option ℕ
  pub committed_version : Option ℕ
  pub input_meta : String
  pub result : Option String
  pub suggestion : Option String
  pub error : Option String
  pub fallback_message : Option String
  pub cancel_requested : Bool
  pub created_at : ℕ
  pub updated_at : ℕ

pub data ClaimOutcome : Type 0 where
  claimed replay session_busy hash_mismatch retry_required : ClaimOutcome
  retry_not_allowed retry_expired retry_not_found : ClaimOutcome

pub record ClaimResult : Type 0 where
  pub outcome : ClaimOutcome
  pub request : Option RequestRow

-- The two tables that the methods on requests read and write.
pub record Db : Type 0 where
  pub sessions : List SessionRow
  pub requests : List RequestRow

-- What a method raises: its own `ValueError`, or asyncpg's error that nothing catches.
pub data Raised : Type 0 where
  value_error foreign_key_violation : Raised

pub data Result (A : Type 0) : Type 0 where
  returned : A → Result A
  raised : Raised → Result A

-- `make_interval(secs => n)` and `make_interval(days => n)`.
abbrev pub seconds : ℕ → ℕ
seconds n = n * 1_000_000

abbrev pub days : ℕ → ℕ
days n = n * 86_400_000_000

-- `WHERE user_id = $1 AND request_id = $2`: the primary key.
abbrev pub is_request : ℕ → ℕ → RequestRow → Bool
is_request user request r = r.user_id == user && r.request_id == request

-- The rows of the partial index `uq_ai_experience_request_running`.
abbrev pub runs_in : ℕ → RequestRow → Bool
runs_in session r = is_running r.status && r.session_id == session

-- `get_request`
unfoldable pub get_request : ℕ → ℕ → Db → Option RequestRow
get_request user request db = select_first (is_request user request) db.requests

-- `_require_token`: the empty token is refused.
unfoldable pub require_token : Option ℕ → Result ℕ
require_token token = elim token [ none ↦ raised value_error | some t ↦ returned t ]
