-- ===== src/Repository/Laws/Retries.antt =====
-- `retry_request`: exactly when it restarts a request, and what the restarted run inherits.
use mathlib.Core.Path.{subst}
use folioo_ai.Base.{ℕ, ◌≡◌, ◌↔◌, refl, sym, ◌∙◌, true, false, some, arith, any, update_where}
use folioo_ai.Repository.Rows.{
  RequestRow, failed, is_request, runs_in, Db, get_request, returned, ClaimResult, claimed,
}
use folioo_ai.Repository.Claim.{restart, is_past, retry_request}
use folioo_ai.Repository.Ownership.{renew_request_lease, extend_lease}
use folioo_ai.Repository.Invariant.{Consistent}
use folioo_ai.Repository.Invariant.Retry.{retry_request_claimed, retry_request-Consistent}
use folioo_ai.Repository.Laws.Lookup.{select_first-update_where, select_first-fits}
use folioo_ai.Repository.Laws.Rights.{owner_updates}

module _ (lease clock now token user request : ℕ) (db : Db) where
  abbrev pub retry : ClaimResult × Db
  retry = retry_request lease clock now token user request db

  -- The request is there, failed and retryable, its deadline by the worker's clock is not past,
  -- and nothing runs in its session.
  pub record MayRetry (row : RequestRow) : Type 0 where
    pub found : get_request user request db ≡ some row
    pub was_failed : row.status ≡ failed
    pub was_retryable : row.retryable ≡ true
    pub in_time : is_past clock row.retry_expires_at ≡ false
    pub idle : any (runs_in row.session_id) db.requests ≡ false

  -- A retry is granted exactly to a request that is there, failed, retryable, before its deadline by
  -- the worker's clock, and in whose session nothing runs.
  pub retry_exactly : (retry.0.outcome ≡ claimed) ↔ ((row : RequestRow) × MayRetry row)
  unfolding retry_request
  retry_exactly = (λ e. granted e, λ (row, m). ground (arith, m))
    where
      granted : retry.0.outcome ≡ claimed → (row : RequestRow) × MayRetry row
      granted e =
          let (row, t) = retry_request_claimed lease clock now token user request db e in
          (
            row,
            record {
              found = t.found;
              was_failed = t.was_failed;
              was_retryable = t.was_retryable;
              in_time = t.in_time;
              idle = t.idle;
            },
          )

  -- A granted retry stores the row as running under the new token, with no error and no further
  -- retry, and a lookup finds it so.
  pub retried_found :
      (row : RequestRow)
      → MayRetry row
      → get_request user request retry.1 ≡ some (restart lease now token row)
  unfolding retry_request
  retried_found row m =
      let (row', t) =
        retry_request_claimed lease clock now token user request db (retry_exactly.1 (row, m)) in
      subst (λ d. get_request user request d ≡ some (restart lease now token row)) (sym t.wrote)
        stored
    where
      stored :
          get_request user request (record db {
            requests = update_where (is_request user request) (restart lease now token) db.requests;
          })
          ≡ some (restart lease now token row)
      stored =
          select_first-update_where user request (is_request user request) (restart lease now token)
            (λ _. refl) (λ _. refl) db.requests
          ∙ rw m.found
              (ground (arith, select_first-fits (is_request user request) db.requests row m.found))

  -- The first renewal of a granted retry succeeds, and reports the stop request that was made to
  -- the failed run: a run that was asked to stop and then failed otherwise is stopped again.
  pub retry_keeps_cancellation :
      (row : RequestRow) (lease' now' : ℕ)
      → Consistent db.requests
      → MayRetry row
      → (renew_request_lease lease' now' user request (some token) retry.1).0
        ≡ returned (true, row.cancel_requested)
  unfolding renew_request_lease
  retry_keeps_cancellation row lease' now' c m = ground (
    arith,
    owner_updates user request token retry.1 (restart lease now token row)
        (record {
          consistent = retry_request-Consistent lease clock now token user request db c;
          found = retried_found row m;
          live = refl;
          mine = refl;
        })
        (extend_lease lease' now') (λ _. refl) (λ _. refl),
  )
