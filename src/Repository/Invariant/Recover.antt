-- ===== src/Repository/Invariant/Recover.antt =====
-- `claim_expired_request_for_recovery`: the row it takes, and that it keeps the invariant.
use folioo_ai.Base.{
  ℕ, ◌≡◌, Bool, true, Option, none, some, List, [], ◌∷◌, arith, Option-cases, inl, inr, any, In,
  sym, select, select_first,
}
use mathlib.Core.Path.{subst}
use folioo_ai.Repository.Rows.{RequestRow, Db, is_request}
use folioo_ai.Repository.Ownership.{update_requests}
use folioo_ai.Repository.Recovery.{
  is_stale, take_over, oldest_lease, claim_expired_request_for_recovery,
}
use folioo_ai.Repository.Invariant.{RowAgrees, Consistent, UniqueKeys}
use folioo_ai.Repository.Invariant.Updates.{All-select_first, Consistent-update_where, All-map}

pub oldest_lease-In :
    (rows : List RequestRow) (c : RequestRow) → oldest_lease rows ≡ some c → In c rows
unfolding oldest_lease
oldest_lease-In [] c e = absurd (ground arith)
oldest_lease-In (r ∷ rs) c e = ground (arith, oldest_lease-In rs c)

pub In-select :
    (p : RequestRow → Bool) (rows : List RequestRow) (c : RequestRow)
    → In c (select p rows)
    → In c rows × (p c ≡ true)
In-select p [] c m = absurd m
In-select p (r ∷ rs) c m = ground (arith, In-select p rs c)

pub In-any :
    (p : RequestRow → Bool) (rows : List RequestRow) (c : RequestRow)
    → In c rows
    → p c ≡ true
    → any p rows ≡ true
In-any p [] c m h = absurd m
In-any p (r ∷ rs) c m h = ground (arith, In-any p rs c)

-- The key of a row finds the row.
pub select_first-key :
    (rows : List RequestRow) (c : RequestRow)
    → UniqueKeys rows
    → In c rows
    → select_first (is_request c.user_id c.request_id) rows ≡ some c
select_first-key [] c u m = absurd m
select_first-key (r ∷ rs) c (fresh, u) m = elim m [
  | inl e ↦ ground (arith, e)
  | inr t ↦
      ground (arith, select_first-key rs c u t, In-any (is_request r.user_id r.request_id) rs c t)
]

module _ (lease now token : ℕ) (scope : Option ℕ) (db : Db) where
  -- The row that was taken over, before and after.
  pub record TookOver (out : Option RequestRow × Db) (c : RequestRow) : Type 0 where
    pub found : select_first (is_request c.user_id c.request_id) db.requests ≡ some c
    pub stale : is_stale now scope c ≡ true
    pub wrote :
        out ≡ update_requests (is_request c.user_id c.request_id) (take_over lease now token) db

  abbrev pub claimed_row : Option RequestRow × Db
  claimed_row = claim_expired_request_for_recovery lease now token scope db

  abbrev pub candidate : Option RequestRow
  candidate = oldest_lease (select (is_stale now scope) db.requests)

  pub claim_expired-TookOver :
      (c : RequestRow) → UniqueKeys db.requests → candidate ≡ some c → TookOver claimed_row c
  unfolding claim_expired_request_for_recovery
  claim_expired-TookOver c u e =
      let m = In-select (is_stale now scope) db.requests c (oldest_lease-In _ c e) in
      record { found = select_first-key db.requests c u m.0; stale = m.1; wrote = ground arith }

  pub claim_expired_none : candidate ≡ none → claimed_row ≡ (none, db)
  unfolding claim_expired_request_for_recovery
  claim_expired_none e = ground arith

  took_over-agrees :
      (c : RequestRow)
      → is_stale now scope c ≡ true
      → (x : RequestRow) → (is_request c.user_id c.request_id x ≡ true → x ≡ c)
      → is_request c.user_id c.request_id x ≡ true
      → RowAgrees x
      → RowAgrees (take_over lease now token x)
  took_over-agrees c stale x h m ok = ground (arith, h m)

  pub claim_expired_request_for_recovery-Consistent :
      Consistent db.requests → Consistent claimed_row.1.requests
  claim_expired_request_for_recovery-Consistent c = elim (Option-cases candidate) [
    | inl e ↦ subst (λ o. Consistent o.1.requests) (sym (claim_expired_none e)) c
    | inr (r, e) ↦
        let t = claim_expired-TookOver r c.unique e in
        subst (λ o. Consistent o.1.requests) (sym t.wrote)
          (Consistent-update_where _ (take_over lease now token) (λ x. ground arith) db.requests
            (All-map (took_over-agrees r t.stale) db.requests
              (All-select_first r.user_id r.request_id db.requests r c.unique t.found))
            c)
  ]
