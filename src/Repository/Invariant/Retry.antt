-- ===== src/Repository/Invariant/Retry.antt =====
-- The runs of `retry_request`, and that they keep the invariant.
use mathlib.Core.Path.{subst}
use folioo_ai.Base.{
  ℕ, ◌≡◌, ◌≢◌, ◌⊎◌, refl, sym, ap, true, false, some, arith, Option-cases, inl, inr, any, All,
  update_where,
}
use folioo_ai.Repository.Rows.{
  RequestRow, failed, claimed, ClaimOutcome, ClaimResult, Db, is_request, runs_in, get_request,
}
use folioo_ai.Repository.Claim.{restart, is_past, retry_request}
use folioo_ai.Repository.Invariant.{Consistent}
use folioo_ai.Repository.Invariant.Updates.{
  All-select_first, UniqueKeys-update_where, OneRunning-update_one, All-update_where, All-map,
}

pub claimed-cases : (o : ClaimOutcome) → (o ≡ claimed) ⊎ (o ≢ claimed)
claimed-cases claimed = inl refl
claimed-cases _ = inr (λ e. cc)

module _ (lease clock now token user request : ℕ) (db : Db) where
  -- What a claim says of the row, and what it wrote.
  pub record Restarted (out : ClaimResult × Db) (row : RequestRow) : Type 0 where
    pub found : get_request user request db ≡ some row
    pub was_failed : row.status ≡ failed
    pub was_retryable : row.retryable ≡ true
    pub in_time : is_past clock row.retry_expires_at ≡ false
    pub idle : any (runs_in row.session_id) db.requests ≡ false
    pub answer : out.0.request ≡ some (restart lease now token row)
    pub wrote : out.1 ≡ record db {
      requests = update_where (is_request user request) (restart lease now token) db.requests;
    }

  abbrev retried : ClaimResult × Db
  retried = retry_request lease clock now token user request db

  pub retry_request_refused : retried.0.outcome ≢ claimed → retried.1 ≡ db
  unfolding retry_request
  retry_request_refused h = ground arith

  Restarted-row :
      (row : RequestRow)
      → get_request user request db ≡ some row
      → retried.0.outcome ≡ claimed
      → Restarted retried row
  unfolding retry_request
  Restarted-row row e h = ground arith

  pub retry_request_claimed :
      retried.0.outcome ≡ claimed → (row : RequestRow) × Restarted retried row
  unfolding retry_request
  retry_request_claimed h = elim (Option-cases (get_request user request db)) [
    | inl e ↦ absurd (ground arith)
    | inr (row, e) ↦ (row, Restarted-row row e h)
  ]

  Restarted-Consistent :
      (row : RequestRow)
      → Restarted retried row
      → Consistent db.requests
      → Consistent (update_where (is_request user request) (restart lease now token) db.requests)
  unfolding get_request
  Restarted-Consistent row r c = record {
    unique =
        UniqueKeys-update_where (is_request user request) (restart lease now token) (λ _. refl)
          (λ _. refl) db.requests c.unique;
    one_running =
        OneRunning-update_one user request row.session_id (restart lease now token) (λ _. refl)
          db.requests c.unique (All-map (λ x h e. ap (λ y. y.session_id) (h e)) db.requests only)
          r.idle c.one_running;
    agree =
        All-update_where (is_request user request) (restart lease now token) db.requests
          (All-map (λ x h e ok. ground (arith, h e, r.was_failed)) db.requests only) c.agree;
  }
    where
      only : All (λ x. is_request user request x ≡ true → x ≡ row) db.requests
      only = All-select_first user request db.requests row c.unique r.found

  pub retry_request-Consistent : Consistent db.requests → Consistent retried.1.requests
  retry_request-Consistent c = elim (claimed-cases retried.0.outcome) [
    | inl e ↦
        let (row, r) = retry_request_claimed e in
        subst (λ d. Consistent d.requests) (sym r.wrote) (Restarted-Consistent row r c)
    | inr e ↦ subst (λ d. Consistent d.requests) (sym (retry_request_refused e)) c
  ]
