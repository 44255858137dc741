-- ===== src/Repository/Laws/Expiry.antt =====
-- Leases that ran out: `expire_stale_running_requests` and `claim_expired_request_for_recovery`.
use mathlib.Core.Path.{subst}
use folioo_ai.Base.{
  ℕ, ◌≡◌, ◌≢◌, inl, inr, refl, sym, ◌∙◌, true, false, Option, none, some, List, [], ◌∷◌, arith,
  Option-cases, Bool-cases, ◌&&◌, select_first, update_where, returning, select, In, All, any,
  length,
}
use folioo_ai.Repository.Rows.{RequestRow, failed, is_request, Db, get_request}
use folioo_ai.Repository.Ownership.{Completion, Failure}
use folioo_ai.Repository.Recovery.{
  is_stale, lease_before, oldest_lease, take_over, expire_row, claim_expired_request_for_recovery,
  expire_stale_running_requests,
}
use folioo_ai.Repository.Invariant.{Consistent}
use folioo_ai.Repository.Invariant.Recover.{
  candidate, claim_expired_none, claim_expired-TookOver, oldest_lease-In, In-select,
  claim_expired_request_for_recovery-Consistent,
}
use folioo_ai.Repository.Laws.Lookup.{
  fetchrow-returning, select_first-update_where, select_first-fits,
}
use folioo_ai.Repository.Laws.Rights.{IsFenced, not_owner-IsFenced}

-- What the sweep writes into a row: failed, retryable and with no owner.
abbrev pub IsSwept : RequestRow → Type 0
IsSwept r = (r.status ≡ failed) × (r.retryable ≡ true) × (r.owner_token ≡ none)

module _ (ttl now : ℕ) (scope : Option ℕ) where
  IsSwept-rows :
      (rows : List RequestRow)
      → (any (is_stale now scope) (update_where (is_stale now scope) (expire_row ttl now) rows)
          ≡ false)
        × All IsSwept (returning (is_stale now scope) (expire_row ttl now) rows)
        × (length (returning (is_stale now scope) (expire_row ttl now) rows)
            ≡ length (select (is_stale now scope) rows))
  IsSwept-rows [] = (refl, tt, refl)
  IsSwept-rows (r ∷ rs) = ground (arith, IsSwept-rows rs)

  -- The sweep leaves no running request whose lease is over, in its scope; it returns one row for
  -- each that there was, and each of these is failed, retryable and without an owner.
  pub expire_leaves_none :
      (db : Db)
      → let out = expire_stale_running_requests ttl now scope db in
        (any (is_stale now scope) out.1.requests ≡ false)
        × All IsSwept out.0
        × (length out.0 ≡ length (select (is_stale now scope) db.requests))
  unfolding expire_stale_running_requests
  expire_leaves_none db = IsSwept-rows db.requests

pub oldest_lease-eq-none : (rows : List RequestRow) → oldest_lease rows ≡ none → rows ≡ []
unfolding oldest_lease
oldest_lease-eq-none [] e = refl
oldest_lease-eq-none (r ∷ rs) e = absurd (ground arith)

oldest_lease-le :
    (rows : List RequestRow) (c : RequestRow)
    → oldest_lease rows ≡ some c
    → (x : RequestRow) → In x rows
    → lease_before x.lease_expires_at c.lease_expires_at ≡ false
unfolding oldest_lease
oldest_lease-le [] c e x m = absurd m
oldest_lease-le (r ∷ rs) c e x m = elim (Option-cases (oldest_lease rs)) [
  | inl n ↦ ground (arith, subst (In x) (oldest_lease-eq-none rs n))
  | inr (o, n) ↦ ground (arith, oldest_lease-le rs o n x)
]

module _ (lease now token : ℕ) (scope : Option ℕ) (db : Db) where
  abbrev pub recovery : Option RequestRow × Db
  recovery = claim_expired_request_for_recovery lease now token scope db

  -- `old` is the stale row that the recovery chose, `r` what it returned for it.
  pub record IsRecovered (r old : RequestRow) : Type 0 where
    pub there : In old db.requests
    pub stale : is_stale now scope old ≡ true
    pub oldest :
        any
          (λ x. is_stale now scope x && lease_before x.lease_expires_at old.lease_expires_at)
          db.requests
        ≡ false
    pub taken : r ≡ take_over lease now token old
    pub stored : get_request r.user_id r.request_id recovery.1 ≡ some r

  none_older :
      (old : Option ℕ) (rows : List RequestRow)
      → ((x : RequestRow)
          → In x (select (is_stale now scope) rows)
          → lease_before x.lease_expires_at old ≡ false)
      → any (λ x. is_stale now scope x && lease_before x.lease_expires_at old) rows ≡ false
  none_older old [] h = refl
  none_older old (r ∷ rs) h = elim (Bool-cases (is_stale now scope r)) [
    | inl e ↦
        let first = h r (ground arith) in
        let others = none_older old rs (λ x m. h x (ground arith)) in ground arith
    | inr e ↦ let others = none_older old rs (λ x m. h x (ground arith)) in ground arith
  ]

  recovered :
      (c : RequestRow)
      → Consistent db.requests
      → candidate lease now token scope db ≡ some c
      → IsRecovered (take_over lease now token c) c
  unfolding get_request
  recovered c con e =
      let t = claim_expired-TookOver lease now token scope db c con.unique e in
      record {
        there = (In-select (is_stale now scope) db.requests c (oldest_lease-In _ c e)).0;
        stale = t.stale;
        oldest = none_older c.lease_expires_at db.requests (oldest_lease-le _ c e);
        taken = refl;
        stored =
            subst (λ o. get_request c.user_id c.request_id o.1 ≡ some (take_over lease now token c))
              (sym t.wrote) (written t.found);
      }
    where
      written :
          select_first (is_request c.user_id c.request_id) db.requests ≡ some c
          → get_request c.user_id c.request_id (record db {
            requests =
                update_where
                  (is_request c.user_id c.request_id)
                  (take_over lease now token)
                  db.requests;
          })
            ≡ some (take_over lease now token c)
      written found =
          select_first-update_where c.user_id c.request_id (is_request c.user_id c.request_id)
            (take_over lease now token) (λ _. refl) (λ _. refl) db.requests
          ∙ rw found (ground (arith, select_first-fits _ db.requests c found))

  returned_row :
      (r c : RequestRow)
      → Consistent db.requests
      → recovery.0 ≡ some r
      → candidate lease now token scope db ≡ some c
      → r ≡ take_over lease now token c
  returned_row r c con e n =
      let t = claim_expired-TookOver lease now token scope db c con.unique n in
      ground (
        arith,
        t.wrote,
        t.found,
        fetchrow-returning (is_request c.user_id c.request_id) (take_over lease now token)
            db.requests,
      )

  -- Where no other transaction holds a row, a recovery that returns one took over a request whose
  -- lease was over, and of these the one with the earliest lease; the row it returns is stored,
  -- under the new token.
  pub recovery_takes_oldest :
      (r : RequestRow)
      → Consistent db.requests
      → recovery.0 ≡ some r
      → (old : RequestRow) × IsRecovered r old
  recovery_takes_oldest r con e = elim (Option-cases (candidate lease now token scope db)) [
    | inl n ↦ absurd (ground (arith, claim_expired_none lease now token scope db n))
    | inr (c, n) ↦
        (c, subst (λ x. IsRecovered x c) (sym (returned_row r c con e n)) (recovered c con n))
  ]

  -- Once a recovery took a request over, in consistent tables, every other token is fenced off: the
  -- worker that lost its lease, and any other, can neither renew, complete nor fail the request; each
  -- call says so and changes nothing.
  pub recovery_fences_others :
      (r : RequestRow) (other lease' ttl now' : ℕ) (done : Completion) (f : Failure)
      → Consistent db.requests
      → recovery.0 ≡ some r
      → other ≢ token
      → IsFenced r.user_id r.request_id other recovery.1 lease' ttl now' done f
  recovery_fences_others r other lease' ttl now' done f con e ne =
      let (old, i) = recovery_takes_oldest r con e in
      not_owner-IsFenced r.user_id r.request_id other recovery.1 r lease' ttl now' done f
        (claim_expired_request_for_recovery-Consistent lease now token scope db con) i.stored
        (λ h. ne (ground (arith, i.taken)))
