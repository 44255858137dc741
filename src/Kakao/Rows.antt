-- ===== src/Kakao/Rows.antt =====
-- The row of `ai_kakao_turn` (kakao/store.py). Times are microseconds, UUIDs and digests numbers.
use folioo_ai.Base.{
  ℕ, String, Bool, true, false, ◌||◌, ◌&&◌, not, Option, none, some, ltb, ◌==◌, List, select_first,
}

-- `state`, and the values of `outcome`, which are the last four.
pub data TurnState : Type 0 where
  accepted running succeeded failed expired commit_unknown : TurnState

-- `delivery_status`
pub data Delivery : Type 0 where
  success fail unknown not_attempted : Delivery

-- The callback body: which of the three builders made it, from what.
pub data Payload : Type 0 where
  success_payload : List ℕ → String → Payload
  failure_payload : String → Payload
  unknown_payload : String → Payload

pub record TurnRow : Type 0 where
  pub request_id : ℕ
  pub user_id : ℕ
  pub session_id : ℕ
  pub block_id : String
  pub request_hash : ℕ
  pub utterance : String
  pub expires_at : ℕ
  pub state : TurnState
  pub delivery_status : Delivery
  pub usage_reported : Bool
  pub complete_notified : Bool
  pub callback_url : Option String
  pub outcome : Option TurnState
  pub reply_payload : Option Payload
  pub delivery_claimed_at : Option ℕ
  pub worker_lease_expires_at : Option ℕ
  pub worker_token : Option ℕ
  pub updated_at : ℕ

-- `state IN ('ACCEPTED', 'RUNNING', 'COMMIT_UNKNOWN')`
abbrev pub is_open : TurnState → Bool
is_open accepted = true
is_open running = true
is_open commit_unknown = true
is_open succeeded = false
is_open failed = false
is_open expired = false

-- `outcome IN ('FAILED', 'EXPIRED')`, at `NULL` not true.
abbrev pub is_failure : Option TurnState → Bool
is_failure (some failed) = true
is_failure (some expired) = true
is_failure _ = false

-- `worker_lease_expires_at IS NULL OR worker_lease_expires_at < now()`
abbrev pub is_free : ℕ → Option ℕ → Bool
is_free now none = true
is_free now (some t) = ltb t now

-- The work that a turn may still need: to be run, its notice, or the return of its quota.
abbrev pub needs_work : TurnRow → Bool
needs_work r =
    is_open r.state || not r.complete_notified || (is_failure r.outcome && not r.usage_reported)

-- `WHERE request_id = $1`: the primary key.
abbrev pub is_turn : ℕ → TurnRow → Bool
is_turn request r = r.request_id == request

abbrev pub get_turn : ℕ → List TurnRow → Option TurnRow
get_turn request rows = select_first (is_turn request) rows
