-- ===== src/Repository/Invariant/Reach.antt =====
-- Workers interleave: every statement of every method is one step on the shared tables.
use folioo_ai.Base.{ℕ, ◌≡◌, String, true, Option, List, [], ◌∷◌, arith, In}
use folioo_ai.Repository.Rows.{RequestRow, is_running, runs_in, Db}
use folioo_ai.Repository.Sessions.{get_or_create_session, save_active_gap}
use folioo_ai.Repository.Claim.{
  insert_request, inserted, new_request, disable_previous_retries, retry_request,
}
use folioo_ai.Repository.Ownership.{
  Completion, Failure, renew_request_lease, request_cancellation, mark_request_completed,
  mark_request_failed,
}
use folioo_ai.Repository.Recovery.{
  claim_expired_request_for_recovery, expire_stale_running_requests, purge_old_completed_requests,
}
use folioo_ai.Repository.Invariant.{Consistent, OneRunning}
use folioo_ai.Repository.Invariant.Statements.{
  new_request-RowAgrees, insert_request-Consistent, disable_previous_retries-Consistent,
  renew_request_lease-Consistent, request_cancellation-Consistent,
  mark_request_completed-Consistent, mark_request_failed-Consistent,
  expire_stale_running_requests-Consistent, purge_old_completed_requests-Consistent,
}
use folioo_ai.Repository.Invariant.Retry.{retry_request-Consistent}
use folioo_ai.Repository.Invariant.Recover.{claim_expired_request_for_recovery-Consistent, In-any}

pub data Step (db : Db) : Db → Type 0 where
  open_session : (fresh user block : ℕ) → Step db (get_or_create_session fresh user block db).1
  save_gap :
      (user session : ℕ) (gap : Option String) → Step db (save_active_gap user session gap db)
  insert :
      (lease now token user session request hash : ℕ) (meta : String) {db' : Db}
      → insert_request (new_request lease now token user session request hash meta) db
        ≡ inserted db'
      → Step db db'
  disable :
      (now user session current : ℕ)
      → Step db (disable_previous_retries now user session current db)
  retry :
      (lease clock now token user request : ℕ)
      → Step db (retry_request lease clock now token user request db).1
  renew :
      (lease now user request : ℕ) (token : Option ℕ)
      → Step db (renew_request_lease lease now user request token db).1
  cancel : (now user request : ℕ) → Step db (request_cancellation now user request db).1
  complete :
      (now user request : ℕ) (c : Completion) (token : Option ℕ)
      → Step db (mark_request_completed now user request c token db).1
  fail :
      (ttl now user request : ℕ) (c : Failure) (token : Option ℕ)
      → Step db (mark_request_failed ttl now user request c token db).1
  recover :
      (lease now token : ℕ) (scope : Option ℕ)
      → Step db (claim_expired_request_for_recovery lease now token scope db).1
  expire :
      (ttl now : ℕ) (scope : Option ℕ) → Step db (expire_stale_running_requests ttl now scope db).1
  purge : (retention now : ℕ) → Step db (purge_old_completed_requests retention now db).1

pub data Reach (db : Db) : Db → Type 0 where
  here : Reach db db
  next : {db' db'' : Db} → Reach db db' → Step db' db'' → Reach db db''

abbrev pub empty : Db
empty = record { sessions = []; requests = [] }

sessions-Consistent :
    (fresh user block : ℕ) (db : Db)
    → Consistent db.requests
    → Consistent (get_or_create_session fresh user block db).1.requests
unfolding get_or_create_session
sessions-Consistent fresh user block db c = ground arith

pub Step-Consistent : {db db' : Db} → Step db db' → Consistent db.requests → Consistent db'.requests
unfolding save_active_gap
Step-Consistent {db} (open_session fresh user block) c = sessions-Consistent fresh user block db c
Step-Consistent (save_gap user session gap) c = c
Step-Consistent {db} {db'} (insert lease now token user session request hash meta e) c =
    insert_request-Consistent _ db db'
      (new_request-RowAgrees lease now token user session request hash meta) e c
Step-Consistent {db} (disable now user session current) c =
    disable_previous_retries-Consistent now user session current db c
Step-Consistent {db} (retry lease clock now token user request) c =
    retry_request-Consistent lease clock now token user request db c
Step-Consistent {db} (renew lease now user request token) c =
    renew_request_lease-Consistent lease now user request token db c
Step-Consistent {db} (cancel now user request) c =
    request_cancellation-Consistent now user request db c
Step-Consistent {db} (complete now user request done token) c =
    mark_request_completed-Consistent now user request done token db c
Step-Consistent {db} (fail ttl now user request f token) c =
    mark_request_failed-Consistent ttl now user request f token db c
Step-Consistent {db} (recover lease now token scope) c =
    claim_expired_request_for_recovery-Consistent lease now token scope db c
Step-Consistent {db} (expire ttl now scope) c =
    expire_stale_running_requests-Consistent ttl now scope db c
Step-Consistent {db} (purge retention now) c =
    purge_old_completed_requests-Consistent retention now db c

-- From empty tables, in every order of the statements of any number of workers: the keys are
-- unique, a session has at most one running request, and each row's columns agree with its
-- status (a running row and no other has an owner and a lease; only a failed row is retryable,
-- and then has a retry deadline; exactly a failed row has an error; only a completed one a result).
pub Reach-Consistent : {db : Db} → Reach empty db → Consistent db.requests
Reach-Consistent here = record { unique = tt; one_running = tt; agree = tt }
Reach-Consistent (next r s) = Step-Consistent s (Reach-Consistent r)

-- Two running rows of one session are one row.
pub same_running :
    (rows : List RequestRow)
    → OneRunning rows
    → (r s : RequestRow) → In r rows
    → In s rows
    → is_running r.status ≡ true
    → is_running s.status ≡ true
    → r.session_id ≡ s.session_id
    → r ≡ s
same_running [] o r s ir is hr hs e = absurd ir
same_running (x ∷ xs) (h, o) r s ir is hr hs e = ground (
  arith,
  same_running xs o r s,
  In-any (runs_in x.session_id) xs s,
  In-any (runs_in x.session_id) xs r,
)
