-- ===== src/Reconcile/Loop.antt =====
-- The loop of `_reconcile_stale_requests`: requests whose lease is over are taken one by one, and
-- closed by what the main server says of their commit.
use folioo_ai.Base.{ℕ, zero, suc, String, true, Option, none, some}
use folioo_ai.Repository.Rows.{RequestRow, Db}
use folioo_ai.Repository.Ownership.{
  Completion, Failure, mark_request_completed, mark_request_failed,
}
use folioo_ai.Repository.Recovery.{claim_expired_request_for_recovery}

-- What `get_commit` did: it raised, or answered that there is no commit, or that there is one,
-- with its result and map version where it has them.
pub data Recovery : Type 0 where
  lookup_raised not_committed : Recovery
  committed : Option (String × ℕ) → Recovery

-- One round: the server's time at its two statements, the new token, and the main server's answer.
pub record Round : Type 0 where
  pub lease : ℕ
  pub claimed_at : ℕ
  pub token : ℕ
  pub answer : Recovery
  pub closed_at : ℕ
  pub retry_ttl : ℕ

abbrev pub lease_expired : Failure
lease_expired = record {
  error = "{\"code\": \"lease_expired\", \"message\": \"요청 연결이 끊어졌습니다. 다시 시도해 주세요.\"}";
  failed_node = none;
  retryable = true;
}

abbrev pub commit_of : String → ℕ → Completion
commit_of result version = record {
  result = some result;
  suggestion = none;
  committed_version = some version;
  fallback_message = none;
}

-- A commit without a result raises the `ValueError` that the handler catches.
abbrev pub found_commit : Recovery → Option (String × ℕ)
found_commit lookup_raised = none
found_commit not_committed = none
found_commit (committed c) = c

abbrev pub close_found : Round → RequestRow → Db → Option (String × ℕ) → Db
close_found r row db (some (result, version)) =
    (mark_request_completed r.closed_at row.user_id row.request_id (commit_of result version)
      row.owner_token db).1
close_found r row db none =
    (mark_request_failed r.retry_ttl r.closed_at row.user_id row.request_id lease_expired
      row.owner_token db).1

abbrev pub close_row : Round → RequestRow → Db → Db
close_row r row db = close_found r row db (found_commit r.answer)

abbrev pub after_claim : (Db → Option Db) → Round → Db → Option RequestRow → Option Db
after_claim rest r db none = some db
after_claim rest r db (some row) = rest (close_row r row db)

-- `none` is out of fuel.
unfoldable pub reconcile : ℕ → (ℕ → Round) → ℕ → Option ℕ → Db → Option Db
reconcile zero rounds k session db = none
reconcile (suc fuel) rounds k session db =
    let r = rounds k in
    let (row, db') = claim_expired_request_for_recovery r.lease r.claimed_at r.token session db in
    after_claim (λ d. reconcile fuel rounds (suc k) session d) r db' row
