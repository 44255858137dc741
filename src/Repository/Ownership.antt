-- ===== src/Repository/Ownership.antt =====
-- The methods of repository.py that need the execution right (`renew_request_lease`,
-- `mark_request_completed`, `mark_request_failed`), `request_cancellation`, and `LeaseRenewer`.
use folioo_ai.Base.{
  ℕ, ◌+◌, String, Bool, true, false, ◌&&◌, Option, none, some, List, [], ◌∷◌, sql_eq, if◌then◌else◌,
  fetchrow, returning, update_where, coalesce, is_some,
}
use folioo_ai.Repository.Rows.{
  RequestRow, completed, failed, is_running, Db, Result, returned, raised, seconds, is_request,
  require_token,
}

-- `user_id = $1 AND request_id = $2 AND status = 'running' AND owner_token = $n`
abbrev pub owned_by : ℕ → ℕ → ℕ → RequestRow → Bool
owned_by user request token r =
    is_request user request r && is_running r.status && sql_eq r.owner_token token

-- `UPDATE ai_experience_request SET f WHERE p RETURNING …` read by `fetchrow`.
abbrev pub update_requests :
    (RequestRow → Bool) → (RequestRow → RequestRow) → Db → Option RequestRow × Db
update_requests p f db =
    (fetchrow (returning p f db.requests), record db { requests = update_where p f db.requests })

abbrev pub extend_lease : ℕ → ℕ → RequestRow → RequestRow
extend_lease lease now r = record r {
  lease_expires_at = some (now + seconds lease);
  updated_at = now;
}

-- `(renewed, cancel_requested)`
abbrev pub renewal : Option RequestRow → Bool × Bool
renewal none = (false, false)
renewal (some r) = (true, r.cancel_requested)

unfoldable pub renew_request_lease : ℕ → ℕ → ℕ → ℕ → Option ℕ → Db → Result (Bool × Bool) × Db
unfolding require_token
renew_request_lease lease now user request owner_token db = elim (require_token owner_token) [
  | raised e ↦ (raised e, db)
  | returned token ↦
      let (r, db') = update_requests (owned_by user request token) (extend_lease lease now) db in
      (returned (renewal r), db')
]

abbrev pub ask_to_stop : ℕ → RequestRow → RequestRow
ask_to_stop now r = record r { cancel_requested = true; updated_at = now }

abbrev pub is_running_request : ℕ → ℕ → RequestRow → Bool
is_running_request user request r = is_request user request r && is_running r.status

-- Whether exactly one row was updated; the primary key allows no more.
unfoldable pub request_cancellation : ℕ → ℕ → ℕ → Db → Bool × Db
request_cancellation now user request db =
    let (r, db') = update_requests (is_running_request user request) (ask_to_stop now) db in
    (is_some r, db')

-- The keyword arguments of `mark_request_completed`.
pub record Completion : Type 0 where
  pub result : Option String
  pub suggestion : Option String
  pub committed_version : Option ℕ
  pub fallback_message : Option String

abbrev pub complete_row : ℕ → Completion → RequestRow → RequestRow
complete_row now c r = record r {
  status = completed;
  result = coalesce c.result r.result;
  suggestion = coalesce c.suggestion r.suggestion;
  committed_version = coalesce c.committed_version r.committed_version;
  fallback_message = coalesce c.fallback_message r.fallback_message;
  retryable = false;
  lease_expires_at = none;
  owner_token = none;
  updated_at = now;
}

unfoldable pub mark_request_completed :
    ℕ → ℕ → ℕ → Completion → Option ℕ → Db → Result (Option RequestRow) × Db
unfolding require_token
mark_request_completed now user request c owner_token db = elim (require_token owner_token) [
  | raised e ↦ (raised e, db)
  | returned token ↦
      let (r, db') = update_requests (owned_by user request token) (complete_row now c) db in
      (returned r, db')
]

-- The keyword arguments of `mark_request_failed`. `retryable` is true by default.
pub record Failure : Type 0 where
  pub error : String
  pub failed_node : Option String
  pub retryable : Bool

abbrev pub fail_row : ℕ → ℕ → Failure → RequestRow → RequestRow
fail_row retry_ttl now c r = record r {
  status = failed;
  error = some c.error;
  failed_node = c.failed_node;
  retryable = c.retryable;
  retry_expires_at = if c.retryable then some (now + seconds retry_ttl) else none;
  lease_expires_at = none;
  owner_token = none;
  updated_at = now;
}

unfoldable pub mark_request_failed :
    ℕ → ℕ → ℕ → ℕ → Failure → Option ℕ → Db → Result (Option RequestRow) × Db
unfolding require_token
mark_request_failed retry_ttl now user request c owner_token db = elim (require_token owner_token) [
  | raised e ↦ (raised e, db)
  | returned token ↦
      let (r, db') = update_requests (owned_by user request token) (fail_row retry_ttl now c) db in
      (returned r, db')
]

-- One round of `LeaseRenewer._loop`: what the renewal returned, or that it raised.
pub data Tick : Type 0 where
  answered : Bool × Bool → Tick
  raised_error : Tick

-- The events `lost` and `cancelled`; `watching` is neither.
pub data Signal : Type 0 where
  watching lost cancelled : Signal

abbrev pub tick_signal : Tick → Signal
tick_signal raised_error = lost
tick_signal (answered (renewed, cancel_requested)) =
    if renewed then (if cancel_requested then cancelled else watching) else lost

-- The loop over the rounds that happen before `__aexit__` cancels it.
unfoldable pub lease_loop : List Tick → Signal
lease_loop [] = watching
lease_loop (t ∷ ts) = elim (tick_signal t) [
  | watching ↦ lease_loop ts
  | lost ↦ lost
  | cancelled ↦ cancelled
]
