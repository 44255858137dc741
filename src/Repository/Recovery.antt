-- ===== src/Repository/Recovery.antt =====
-- `claim_expired_request_for_recovery`, `expire_stale_running_requests` and
-- `purge_old_completed_requests` of repository.py.
use folioo_ai.Base.{
  ℕ, ◌+◌, Bool, true, false, not, ◌&&◌, Option, none, some, List, [], ◌∷◌, ltb, ◌==◌, if◌then◌else◌,
  select, returning, update_where, delete_where, length,
}
use folioo_ai.Repository.Rows.{RequestRow, failed, is_running, Db, seconds, days, is_request}
use folioo_ai.Repository.Ownership.{update_requests}

-- `lease_expires_at IS NOT NULL AND lease_expires_at < now()`
abbrev pub lease_over : ℕ → Option ℕ → Bool
lease_over now none = false
lease_over now (some t) = ltb t now

-- `$1::uuid IS NULL OR session_id = $1::uuid`
abbrev pub in_scope : Option ℕ → ℕ → Bool
in_scope none session = true
in_scope (some s) session = session == s

abbrev pub is_stale : ℕ → Option ℕ → RequestRow → Bool
is_stale now scope r =
    is_running r.status && lease_over now r.lease_expires_at && in_scope scope r.session_id

abbrev pub lease_before : Option ℕ → Option ℕ → Bool
lease_before none _ = false
lease_before (some a) none = true
lease_before (some a) (some b) = ltb a b

-- `ORDER BY lease_expires_at … LIMIT 1`
unfoldable pub oldest_lease : List RequestRow → Option RequestRow
oldest_lease [] = none
oldest_lease (r ∷ rs) = elim (oldest_lease rs) [
  | none ↦ some r
  | some o ↦ if lease_before o.lease_expires_at r.lease_expires_at then some o else some r
]

abbrev pub take_over : ℕ → ℕ → ℕ → RequestRow → RequestRow
take_over lease now token r = record r {
  owner_token = some token;
  lease_expires_at = some (now + seconds lease);
  updated_at = now;
}

-- One statement. The `ctid` of the candidate is its row, which the primary key names as well.
-- `SKIP LOCKED` passes over a row that another transaction holds; here none does.
unfoldable pub claim_expired_request_for_recovery :
    ℕ → ℕ → ℕ → Option ℕ → Db → Option RequestRow × Db
unfolding oldest_lease
claim_expired_request_for_recovery lease now token scope db =
    elim (oldest_lease (select (is_stale now scope) db.requests)) [
      | none ↦ (none, db)
      | some c ↦ update_requests (is_request c.user_id c.request_id) (take_over lease now token) db
    ]

abbrev pub expire_row : ℕ → ℕ → RequestRow → RequestRow
expire_row retry_ttl now r = record r {
  status = failed;
  retryable = true;
  retry_expires_at = some (now + seconds retry_ttl);
  error = some "{\"code\": \"lease_expired\", \"message\": \"요청이 중단되었습니다.\"}";
  lease_expires_at = none;
  owner_token = none;
  updated_at = now;
}

unfoldable pub expire_stale_running_requests : ℕ → ℕ → Option ℕ → Db → List RequestRow × Db
expire_stale_running_requests retry_ttl now scope db =
    let rows = db.requests in
    (
      returning (is_stale now scope) (expire_row retry_ttl now) rows,
      record db { requests = update_where (is_stale now scope) (expire_row retry_ttl now) rows },
    )

-- `status IN ('completed', 'failed') AND updated_at < now() - make_interval(days => $1)`
abbrev pub is_old : ℕ → ℕ → RequestRow → Bool
is_old retention now r = not (is_running r.status) && ltb (r.updated_at + days retention) now

unfoldable pub purge_old_completed_requests : ℕ → ℕ → Db → ℕ × Db
purge_old_completed_requests retention now db = (
  length (select (is_old retention now) db.requests),
  record db { requests = delete_where (is_old retention now) db.requests },
)
