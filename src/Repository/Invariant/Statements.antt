-- ===== src/Repository/Invariant/Statements.antt =====
-- Each statement on the table of requests keeps the invariant.
use folioo_ai.Base.{ℕ, ◌≡◌, String, Option, none, some, arith}
use folioo_ai.Repository.Rows.{RequestRow, Db}
use folioo_ai.Repository.Claim.{
  inserted, insert_request, new_request, is_previous_failure, lose_retry, disable_previous_retries,
}
use folioo_ai.Repository.Ownership.{
  owned_by, extend_lease, renew_request_lease, ask_to_stop, is_running_request,
  request_cancellation, Completion, complete_row, mark_request_completed, Failure, fail_row,
  mark_request_failed,
}
use folioo_ai.Repository.Recovery.{
  is_stale, expire_row, expire_stale_running_requests, is_old, purge_old_completed_requests,
}
use folioo_ai.Repository.Invariant.{RowAgrees, Consistent}
use folioo_ai.Repository.Invariant.Updates.{Consistent-update_all, Consistent-delete_where}

pub new_request-RowAgrees :
    (lease now token user session request hash : ℕ) (meta : String)
    → RowAgrees (new_request lease now token user session request hash meta)
unfolding new_request
new_request-RowAgrees lease now token user session request hash meta = ground arith

pub insert_request-Consistent :
    (r : RequestRow) (db db' : Db)
    → RowAgrees r
    → insert_request r db ≡ inserted db'
    → Consistent db.requests
    → Consistent db'.requests
unfolding insert_request
insert_request-Consistent r db db' ok e c = ground arith

pub disable_previous_retries-Consistent :
    (now user session current : ℕ) (db : Db)
    → Consistent db.requests
    → Consistent (disable_previous_retries now user session current db).requests
unfolding disable_previous_retries
disable_previous_retries-Consistent now user session current db c =
    Consistent-update_all (is_previous_failure user session current) (lose_retry now)
      (λ r. ground arith) (λ r e ok. ground arith) db.requests c

pub renew_request_lease-Consistent :
    (lease now user request : ℕ) (token : Option ℕ) (db : Db)
    → Consistent db.requests
    → Consistent (renew_request_lease lease now user request token db).1.requests
unfolding renew_request_lease
renew_request_lease-Consistent lease now user request none db c = c
renew_request_lease-Consistent lease now user request (some t) db c =
    Consistent-update_all (owned_by user request t) (extend_lease lease now) (λ r. ground arith)
      (λ r e ok. ground arith) db.requests c

pub request_cancellation-Consistent :
    (now user request : ℕ) (db : Db)
    → Consistent db.requests
    → Consistent (request_cancellation now user request db).1.requests
unfolding request_cancellation
request_cancellation-Consistent now user request db c =
    Consistent-update_all (is_running_request user request) (ask_to_stop now) (λ r. ground arith)
      (λ r e ok. ground arith) db.requests c

pub mark_request_completed-Consistent :
    (now user request : ℕ) (done : Completion) (token : Option ℕ) (db : Db)
    → Consistent db.requests
    → Consistent (mark_request_completed now user request done token db).1.requests
unfolding mark_request_completed
mark_request_completed-Consistent now user request done none db c = c
mark_request_completed-Consistent now user request done (some t) db c =
    Consistent-update_all (owned_by user request t) (complete_row now done) (λ r. ground arith)
      (λ r e ok. ground arith) db.requests c

pub mark_request_failed-Consistent :
    (ttl now user request : ℕ) (failure : Failure) (token : Option ℕ) (db : Db)
    → Consistent db.requests
    → Consistent (mark_request_failed ttl now user request failure token db).1.requests
unfolding mark_request_failed
mark_request_failed-Consistent ttl now user request failure none db c = c
mark_request_failed-Consistent ttl now user request failure (some t) db c =
    Consistent-update_all (owned_by user request t) (fail_row ttl now failure) (λ r. ground arith)
      (λ r e ok. ground arith) db.requests c

pub expire_stale_running_requests-Consistent :
    (ttl now : ℕ) (scope : Option ℕ) (db : Db)
    → Consistent db.requests
    → Consistent (expire_stale_running_requests ttl now scope db).1.requests
unfolding expire_stale_running_requests
expire_stale_running_requests-Consistent ttl now scope db c =
    Consistent-update_all (is_stale now scope) (expire_row ttl now) (λ r. ground arith)
      (λ r e ok. ground arith) db.requests c

pub purge_old_completed_requests-Consistent :
    (retention now : ℕ) (db : Db)
    → Consistent db.requests
    → Consistent (purge_old_completed_requests retention now db).1.requests
unfolding purge_old_completed_requests
purge_old_completed_requests-Consistent retention now db c =
    Consistent-delete_where (is_old retention now) db.requests c
