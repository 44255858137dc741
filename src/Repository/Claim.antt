-- ===== src/Repository/Claim.antt =====
-- `claim_request`, `_disable_previous_retries` and `retry_request` of repository.py.
use folioo_ai.Base.{
  ℕ, ◌+◌, String, Bool, false, not, ◌&&◌, ◌||◌, Option, none, some, ◌∷◌, ◌==◌, leb, if◌then◌else◌,
  any, update_where,
}
use folioo_ai.Repository.Rows.{
  RequestRow, Status, running, completed, failed, is_running, is_failed, ClaimOutcome, claimed,
  replay, session_busy, hash_mismatch, retry_required, retry_not_allowed, retry_expired,
  retry_not_found, ClaimResult, Db, Result, returned, raised, foreign_key_violation, seconds,
  is_request, runs_in, get_request,
}
use folioo_ai.Repository.Sessions.{is_session}

-- An INSERT: the unique indexes are checked as the row goes in, the foreign key at the end.
pub data Inserted : Type 0 where
  inserted : Db → Inserted
  unique_violation : Inserted
  no_such_session : Inserted

unfoldable pub insert_request : RequestRow → Db → Inserted
insert_request r db =
    if any (is_request r.user_id r.request_id) db.requests
      || (is_running r.status && any (runs_in r.session_id) db.requests)
    then unique_violation
    else if any (is_session r.user_id r.session_id) db.sessions
    then inserted (record db { requests = r ∷ db.requests })
    else no_such_session

-- The row of `claim_request`'s INSERT, with the defaults of the other columns.
unfoldable pub new_request : ℕ → ℕ → ℕ → ℕ → ℕ → ℕ → ℕ → String → RequestRow
new_request lease now token user session request hash meta = record {
  user_id = user;
  session_id = session;
  request_id = request;
  request_hash = hash;
  status = running;
  failed_node = none;
  retryable = false;
  retry_expires_at = none;
  lease_expires_at = some (now + seconds lease);
  owner_token = some token;
  base_map_version = none;
  committed_version = none;
  input_meta = meta;
  result = none;
  suggestion = none;
  error = none;
  fallback_message = none;
  cancel_requested = false;
  created_at = now;
  updated_at = now;
}

-- The rows that `_disable_previous_retries` reaches, and what it writes.
abbrev pub is_previous_failure : ℕ → ℕ → ℕ → RequestRow → Bool
is_previous_failure user session current r =
    r.user_id == user
    && r.session_id == session
    && not (r.request_id == current)
    && is_failed r.status
    && r.retryable

abbrev pub lose_retry : ℕ → RequestRow → RequestRow
lose_retry now r = record r { retryable = false; retry_expires_at = none; updated_at = now }

unfoldable pub disable_previous_retries : ℕ → ℕ → ℕ → ℕ → Db → Db
disable_previous_retries now user session current db = record db {
  requests = update_where (is_previous_failure user session current) (lose_retry now) db.requests;
}

-- What `claim_request` answers for a row that is there.
abbrev pub existing_outcome : Status → ClaimOutcome
existing_outcome completed = replay
existing_outcome failed = retry_required
existing_outcome running = session_busy

unfoldable pub claim_request : ℕ → ℕ → ℕ → ℕ → ℕ → ℕ → ℕ → String → Db → Result ClaimResult × Db
unfolding insert_request new_request disable_previous_retries get_request
claim_request lease now token user session request hash meta db =
    elim (get_request user request db) [
      | some existing ↦ (
        returned (record {
          outcome =
              if existing.request_hash == hash
              then existing_outcome existing.status
              else hash_mismatch;
          request = some existing;
        }),
        db,
      )
      | none ↦
          let r = new_request lease now token user session request hash meta in
          elim (insert_request r db) [
            | inserted db' ↦ (
              returned (record { outcome = claimed; request = some r }),
              disable_previous_retries now user session request db',
            )
            | unique_violation ↦ (returned (record { outcome = session_busy; request = none }), db)
            | no_such_session ↦ (raised foreign_key_violation, db)
          ]
    ]

-- The SET clause of `retry_request`. It does not name `cancel_requested`.
abbrev pub restart : ℕ → ℕ → ℕ → RequestRow → RequestRow
restart lease now token r = record r {
  status = running;
  lease_expires_at = some (now + seconds lease);
  owner_token = some token;
  error = none;
  failed_node = none;
  retryable = false;
  retry_expires_at = none;
  updated_at = now;
}

-- `row.retry_expires_at is not None and row.retry_expires_at <= datetime.now(UTC)`
abbrev pub is_past : ℕ → Option ℕ → Bool
is_past clock none = false
is_past clock (some t) = leb t clock

-- `clock` is the worker's own `datetime.now(UTC)`, `now` the server's. The row is not running at
-- the UPDATE, so that the partial index refuses it if another row of the session runs.
unfoldable pub retry_request : ℕ → ℕ → ℕ → ℕ → ℕ → ℕ → Db → ClaimResult × Db
unfolding get_request
retry_request lease clock now token user request db = elim (get_request user request db) [
  | none ↦ (record { outcome = retry_not_found; request = none }, db)
  | some row ↦ elim row.status [
    | completed ↦ (record { outcome = replay; request = some row }, db)
    | running ↦ (record { outcome = session_busy; request = some row }, db)
    | failed ↦
        if not row.retryable
        then (record { outcome = retry_not_allowed; request = some row }, db)
        else if is_past clock row.retry_expires_at
        then (record { outcome = retry_expired; request = some row }, db)
        else if any (runs_in row.session_id) db.requests
        then (record { outcome = session_busy; request = some row }, db)
        else (
          record { outcome = claimed; request = some (restart lease now token row) },
          record db {
            requests = update_where (is_request user request) (restart lease now token) db.requests;
          },
        )
  ]
]
