-- ===== src/Reconcile/Ends.antt =====
-- The loop comes to an end: each round closes one running request.
use mathlib.Core.Path.{subst}
use folioo_ai.Base.{
  ℕ, String, zero, suc, ◌≤◌, ◌<◌, ◌≡◌, refl, sym, ap, ◌∙◌, Bool, true, false, Option, none, some,
  List, [], ◌∷◌, arith, inl, inr, Option-cases, select_first, update_where, if◌then◌else◌, any,
  select,
}
use folioo_ai.Repository.Rows.{RequestRow, Db, is_running, is_request, get_request}
use folioo_ai.Repository.Ownership.{
  owned_by, complete_row, fail_row, mark_request_completed, mark_request_failed,
}
use folioo_ai.Repository.Recovery.{claim_expired_request_for_recovery, is_stale, take_over}
use folioo_ai.Repository.Invariant.{Consistent}
use folioo_ai.Repository.Invariant.Statements.{
  mark_request_completed-Consistent, mark_request_failed-Consistent,
}
use folioo_ai.Repository.Invariant.Recover.{
  claim_expired_request_for_recovery-Consistent, claim_expired-TookOver, claim_expired_none,
  candidate,
}
use folioo_ai.Repository.Laws.Expiry.{recovery_takes_oldest, oldest_lease-eq-none}
use folioo_ai.Repository.Laws.Lookup.{fetchrow-returning}
use folioo_ai.Reconcile.Loop.{
  Round, close_row, close_found, after_claim, found_commit, commit_of, lease_expired, reconcile,
}

abbrev pub running_count : List RequestRow → ℕ
running_count [] = 0
running_count (r ∷ rs) = if is_running r.status then suc (running_count rs) else running_count rs

module _ (f : RequestRow → RequestRow) (user request token : ℕ) where
  count-le :
      ((x : RequestRow) → is_running (f x).status ≡ false)
      → (rows : List RequestRow)
      → running_count (update_where (owned_by user request token) f rows) ≤ running_count rows
  count-le h [] = omega arith
  count-le h (x ∷ xs) = ground (arith, h x, count-le h xs)

  count-lt :
      ((x : RequestRow) → is_running (f x).status ≡ false)
      → (rows : List RequestRow) (r : RequestRow)
      → select_first (is_request user request) rows ≡ some r
      → owned_by user request token r ≡ true
      → running_count (update_where (owned_by user request token) f rows) < running_count rows
  count-lt h [] r e o = absurd (ground arith)
  count-lt h (x ∷ xs) r e o = ground (arith, h x, count-lt h xs r, count-le h xs)

count-take_over :
    (user request : ℕ) (f : RequestRow → RequestRow)
    → ((x : RequestRow) → (f x).status ≡ x.status)
    → (rows : List RequestRow)
    → running_count (update_where (is_request user request) f rows) ≡ running_count rows
count-take_over user request f h [] = refl
count-take_over user request f h (x ∷ xs) = ground (arith, h x, count-take_over user request f h xs)

close_found-lt :
    (r : Round) (row : RequestRow) (token : ℕ) (db : Db) (o : Option (String × ℕ))
    → get_request row.user_id row.request_id db ≡ some row
    → owned_by row.user_id row.request_id token row ≡ true
    → row.owner_token ≡ some token
    → running_count (close_found r row db o).requests < running_count db.requests
unfolding get_request mark_request_completed mark_request_failed
close_found-lt r row token db none e o t = ground (
  arith,
  t,
  count-lt (fail_row r.retry_ttl r.closed_at lease_expired) row.user_id row.request_id token
      (λ _. refl) db.requests row e o,
)
close_found-lt r row token db (some (result, version)) e o t = ground (
  arith,
  t,
  count-lt (complete_row r.closed_at (commit_of result version)) row.user_id row.request_id token
      (λ _. refl) db.requests row e o,
)

close_found-Consistent :
    (r : Round) (row : RequestRow) (db : Db) (o : Option (String × ℕ))
    → Consistent db.requests
    → Consistent (close_found r row db o).requests
close_found-Consistent r row db none c =
    mark_request_failed-Consistent r.retry_ttl r.closed_at row.user_id row.request_id lease_expired
      row.owner_token db c
close_found-Consistent r row db (some (result, version)) c =
    mark_request_completed-Consistent r.closed_at row.user_id row.request_id
      (commit_of result version) row.owner_token db c

select-any :
    (p : RequestRow → Bool) (rows : List RequestRow) → select p rows ≡ [] → any p rows ≡ false
select-any p [] e = refl
select-any p (x ∷ xs) e = ground (arith, select-any p xs)

module _ (r : Round) (session : Option ℕ) (db : Db) (con : Consistent db.requests) where
  abbrev take : Option RequestRow × Db
  take = claim_expired_request_for_recovery r.lease r.claimed_at r.token session db

  abbrev first : Option RequestRow
  first = candidate r.lease r.claimed_at r.token session db

  -- A round that takes nothing finds nothing stale.
  take-none :
      first ≡ none → (take ≡ (none, db)) × (any (is_stale r.claimed_at session) db.requests ≡ false)
  take-none e = (
    claim_expired_none r.lease r.claimed_at r.token session db e,
    select-any (is_stale r.claimed_at session) db.requests (oldest_lease-eq-none _ e),
  )

  -- A round that takes a request leaves one running request fewer.
  take_some :
      (c : RequestRow)
      → first ≡ some c
      → let row = take_over r.lease r.claimed_at r.token c in
        (take.0 ≡ some row)
        × (running_count (close_row r row take.1).requests < running_count db.requests)
        × Consistent (close_row r row take.1).requests
  take_some c e =
      let row = take_over r.lease r.claimed_at r.token c in
      let t = claim_expired-TookOver r.lease r.claimed_at r.token session db c con.unique e in
      let got : take.0 ≡ some row = ground (
        arith,
        t.wrote,
        t.found,
        fetchrow-returning (is_request c.user_id c.request_id)
            (take_over r.lease r.claimed_at r.token) db.requests,
      ) in
      let (old, i) = recovery_takes_oldest r.lease r.claimed_at r.token session db row con got in
      let same : running_count take.1.requests ≡ running_count db.requests =
        ap (λ x. running_count x.1.requests) t.wrote
        ∙ count-take_over c.user_id c.request_id (take_over r.lease r.claimed_at r.token)
            (λ _. refl) db.requests in
      let closed =
        close_found-lt r row r.token take.1 (found_commit r.answer) i.stored
          (ground (arith, t.stale)) refl in
      (
        got,
        omega (arith, same, closed),
        close_found-Consistent r row take.1 (found_commit r.answer) (
            claim_expired_request_for_recovery-Consistent r.lease r.claimed_at r.token session db
              con),
      )

-- The result of the loop: consistent, and with nothing stale at the time of a look.
abbrev pub IsReconciled : (ℕ → Round) → Option ℕ → Option Db → Type 0
IsReconciled rounds session out =
    (db : Db) × ((out ≡ some db)
      × Consistent db.requests
      × ((k : ℕ) × (any (is_stale (rounds k).claimed_at session) db.requests ≡ false)))

-- From consistent tables the loop comes to an end, whatever the main server answers or fails to:
-- with more rounds than there are running requests it returns, the tables consistent and no request
-- stale, in its scope, at the time of one of its looks.
pub reconcile_ends :
    (fuel : ℕ) (rounds : ℕ → Round) (k : ℕ) (session : Option ℕ) (db : Db)
    → Consistent db.requests
    → running_count db.requests < fuel
    → IsReconciled rounds session (reconcile fuel rounds k session db)
unfolding reconcile
reconcile_ends zero rounds k session db con h = absurd (omega arith)
reconcile_ends (suc fuel) rounds k session db con h =
    elim (Option-cases (first (rounds k) session db con)) [
      | inl e ↦
          let (t, clean) = take-none (rounds k) session db con e in
          subst (λ x. IsReconciled rounds session (go_on x.1 x.0)) (sym t)
            (db, (refl, con, (k, clean)))
      | inr (c, e) ↦
          let (got, fewer, con') = take_some (rounds k) session db con c e in
          subst (IsReconciled rounds session)
            (sym (ap (go_on (take (rounds k) session db con).1) got))
            (reconcile_ends fuel rounds (suc k) session _ con' (omega (arith, fewer)))
    ]
  where
    go_on : Db → Option RequestRow → Option Db
    go_on d o = after_claim (λ x. reconcile fuel rounds (suc k) session x) (rounds k) d o
