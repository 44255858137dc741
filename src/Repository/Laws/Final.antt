-- ===== src/Repository/Laws/Final.antt =====
-- A completed request stays as it was completed.
use mathlib.Core.Path.{subst}
use folioo_ai.Base.{
  ℕ, ◌≡◌, ◌≢◌, ◌⊎◌, inl, inr, refl, sym, ◌∙◌, Bool, true, false, Option, none, some, arith,
  Option-cases, Bool-cases, select_first, update_where,
}
use folioo_ai.Repository.Rows.{RequestRow, Status, completed, failed, is_request, Db, get_request}
use folioo_ai.Repository.Sessions.{get_or_create_session, save_active_gap}
use folioo_ai.Repository.Claim.{
  insert_request, inserted, disable_previous_retries, is_previous_failure, lose_retry, restart,
  retry_request,
}
use folioo_ai.Repository.Ownership.{
  owned_by, extend_lease, is_running_request, ask_to_stop, complete_row, fail_row,
  renew_request_lease, request_cancellation, mark_request_completed, mark_request_failed,
}
use folioo_ai.Repository.Recovery.{
  is_stale, is_old, take_over, expire_row, expire_stale_running_requests,
  claim_expired_request_for_recovery, purge_old_completed_requests,
}
use folioo_ai.Repository.Invariant.{Consistent}
use folioo_ai.Repository.Invariant.Retry.{
  claimed-cases, retry_request_claimed, retry_request_refused,
}
use folioo_ai.Repository.Invariant.Recover.{claim_expired_none, claim_expired-TookOver, candidate}
use folioo_ai.Repository.Invariant.Reach.{Step}
use folioo_ai.Repository.Laws.Lookup.{
  any-select_first, select_first-fits, select_first-update_where, select_first-delete_where,
  select_first-deleted,
}

-- A purge deletes the completed row of a key if it is old by the purge's retention, and only then.
abbrev pub IsPurged : ℕ → ℕ → RequestRow → ℕ → ℕ → Db → Type 0
IsPurged user request row retention now db' =
    ((is_old retention now row ≡ false) × (get_request user request db' ≡ some row))
    ⊎ ((is_old retention now row ≡ true) × (get_request user request db' ≡ none))

-- What a statement may do to the completed row: every one but the purge leaves it as it is.
abbrev pub Kept : ℕ → ℕ → RequestRow → {db db' : Db} → Step db db' → Type 0
Kept user request row {db} {db'} (Step.purge retention now) =
    IsPurged user request row retention now db'
Kept user request row {db} {db'} _ = get_request user request db' ≡ some row

not_both : {s : Status} → s ≡ failed → s ≡ completed → ⊥
not_both h k = cc

module _ (user request : ℕ) (row : RequestRow) (done : row.status ≡ completed) (db : Db) where
  kept_by_update :
      (p : RequestRow → Bool) (f : RequestRow → RequestRow)
      → ((r : RequestRow) → (f r).user_id ≡ r.user_id)
      → ((r : RequestRow) → (f r).request_id ≡ r.request_id)
      → p row ≡ false
      → get_request user request db ≡ some row
      → get_request user request (record db { requests = update_where p f db.requests }) ≡ some row
  unfolding get_request
  kept_by_update p f hu hr skip e =
      select_first-update_where user request p f hu hr db.requests ∙ rw e (ground (arith, skip))

  other_key :
      (user' request' : ℕ) (r : RequestRow)
      → select_first (is_request user' request') db.requests ≡ some r
      → r.status ≢ completed
      → get_request user request db ≡ some row
      → is_request user' request' row ≡ false
  unfolding get_request
  other_key user' request' r e' live e =
      ground (arith, done, select_first-fits (is_request user request) db.requests row e)

  kept_by_insert :
      (r : RequestRow) (db' : Db)
      → insert_request r db ≡ inserted db'
      → get_request user request db ≡ some row
      → get_request user request db' ≡ some row
  unfolding get_request insert_request
  kept_by_insert r db' i e = ground (
    arith,
    any-select_first (is_request user request) (is_request r.user_id r.request_id) db.requests row
        e,
    select_first-fits (is_request user request) db.requests row e,
  )

  IsPurged-by_purge :
      (retention now : ℕ)
      → Consistent db.requests
      → get_request user request db ≡ some row
      → IsPurged user request row retention now (purge_old_completed_requests retention now db).1
  unfolding get_request purge_old_completed_requests
  IsPurged-by_purge retention now c e = elim (Bool-cases (is_old retention now row)) [
    | inl old ↦ inr (
      old,
      select_first-deleted user request (is_old retention now) db.requests row c.unique e old,
    )
    | inr new ↦
        inl
          (new, select_first-delete_where user request (is_old retention now) db.requests row e new)
  ]

  stale_not_completed :
      (now : ℕ) (scope : Option ℕ) (r : RequestRow)
      → is_stale now scope r ≡ true
      → r.status ≢ completed
  stale_not_completed now scope r h = ground arith

  kept_by_recovery :
      (lease now token : ℕ) (scope : Option ℕ)
      → Consistent db.requests
      → get_request user request db ≡ some row
      → get_request user request (claim_expired_request_for_recovery lease now token scope db).1
        ≡ some row
  kept_by_recovery lease now token scope c e =
      elim (Option-cases (candidate lease now token scope db)) [
        | inl n ↦
            subst (λ o. get_request user request o.1 ≡ some row)
              (sym (claim_expired_none lease now token scope db n)) e
        | inr (r, n) ↦
            let t = claim_expired-TookOver lease now token scope db r c.unique n in
            subst (λ o. get_request user request o.1 ≡ some row) (sym t.wrote)
              (kept_by_update (is_request r.user_id r.request_id) (take_over lease now token)
                (λ _. refl) (λ _. refl)
                (other_key r.user_id r.request_id r t.found
                  (stale_not_completed now scope r t.stale) e)
                e)
      ]

  kept_by_retry :
      (lease clock now token user' request' : ℕ)
      → get_request user request db ≡ some row
      → get_request user request (retry_request lease clock now token user' request' db).1
        ≡ some row
  unfolding get_request
  kept_by_retry lease clock now token user' request' e =
      elim (claimed-cases (retry_request lease clock now token user' request' db).0.outcome) [
        | inl claimed ↦
            let (r, t) = retry_request_claimed lease clock now token user' request' db claimed in
            subst (λ d. get_request user request d ≡ some row) (sym t.wrote)
              (kept_by_update (is_request user' request') (restart lease now token) (λ _. refl)
                (λ _. refl) (other_key user' request' r t.found (λ h. not_both t.was_failed h) e) e)
        | inr o ↦
            subst (λ d. get_request user request d ≡ some row)
              (sym (retry_request_refused lease clock now token user' request' db o)) e
      ]

-- A completed request never changes again: after any statement of any method but the purge, with
-- any arguments, a lookup of its key finds the same row; after a purge it finds that row if the row
-- is not old by the purge's retention, and none if it is. The table is consistent before it.
pub completed_final :
    (user request : ℕ) (row : RequestRow) {db db' : Db}
    → Consistent db.requests
    → (s : Step db db') → row.status ≡ completed
    → get_request user request db ≡ some row
    → Kept user request row s
unfolding get_or_create_session save_active_gap disable_previous_retries renew_request_lease
    request_cancellation mark_request_completed mark_request_failed expire_stale_running_requests
    get_request
completed_final user request row {db} c (Step.open_session fresh user' block) d e = ground arith
completed_final user request row c (Step.save_gap user' session gap) d e = e
completed_final user request row {db} c (Step.insert _ _ _ _ _ _ _ _ i) d e =
    kept_by_insert user request row d db _ _ i e
completed_final user request row {db} c (Step.disable now user' session current) d e =
    kept_by_update user request row d db (is_previous_failure user' session current)
      (lose_retry now) (λ _. refl) (λ _. refl) (ground arith) e
completed_final user request row {db} c (Step.retry lease clock now token user' request') d e =
    kept_by_retry user request row d db lease clock now token user' request' e
completed_final user request row {db} c (Step.renew lease now user' request' none) d e = e
completed_final user request row {db} c (Step.renew lease now user' request' (some t)) d e =
    kept_by_update user request row d db (owned_by user' request' t) (extend_lease lease now)
      (λ _. refl) (λ _. refl) (ground arith) e
completed_final user request row {db} c (Step.cancel now user' request') d e =
    kept_by_update user request row d db (is_running_request user' request') (ask_to_stop now)
      (λ _. refl) (λ _. refl) (ground arith) e
completed_final user request row c (Step.complete now user' request' done none) d e = e
completed_final user request row {db} c (Step.complete now user' request' done (some t)) d e =
    kept_by_update user request row d db (owned_by user' request' t) (complete_row now done)
      (λ _. refl) (λ _. refl) (ground arith) e
completed_final user request row c (Step.fail ttl now user' request' f none) d e = e
completed_final user request row {db} c (Step.fail ttl now user' request' f (some t)) d e =
    kept_by_update user request row d db (owned_by user' request' t) (fail_row ttl now f)
      (λ _. refl) (λ _. refl) (ground arith) e
completed_final user request row {db} c (Step.recover lease now token scope) d e =
    kept_by_recovery user request row d db lease now token scope c e
completed_final user request row {db} c (Step.expire ttl now scope) d e =
    kept_by_update user request row d db (is_stale now scope) (expire_row ttl now) (λ _. refl)
      (λ _. refl) (ground arith) e
completed_final user request row {db} c (Step.purge retention now) d e =
    IsPurged-by_purge user request row d db retention now c e
