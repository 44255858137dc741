-- ===== src/Repository/Laws/Idempotent.antt =====
-- `claim_request`: what a claim leaves behind, and how the same request id is answered later.
use mathlib.Core.Path.{subst}
use folioo_ai.Base.{
  any-update_where, ℕ, ◌≡◌, refl, sym, String, Bool, false, some, List, [], ◌∷◌, arith, not, ◌&&◌,
  select, if◌then◌else◌, update_where, ◌==◌, All, any,
}
use folioo_ai.Repository.Rows.{
  RequestRow, runs_in, Db, get_request, Result, returned, ClaimResult, claimed, replay,
  hash_mismatch,
}
use folioo_ai.Repository.Claim.{
  insert_request, inserted, new_request, disable_previous_retries, is_previous_failure, lose_retry,
  claim_request,
}
use folioo_ai.Repository.Ownership.{Completion, complete_row, mark_request_completed}
use folioo_ai.Repository.Invariant.{Consistent, RowAgrees}
use folioo_ai.Repository.Invariant.Statements.{
  new_request-RowAgrees, insert_request-Consistent, disable_previous_retries-Consistent,
}
use folioo_ai.Repository.Laws.Lookup.{select-eq-nil}
use folioo_ai.Repository.Laws.Rights.{owner_completes}

module _ (lease now token user session request hash : ℕ) (meta : String) (db : Db) where
  abbrev pub fresh_row : RequestRow
  fresh_row = new_request lease now token user session request hash meta

  abbrev pub claim : Result ClaimResult × Db
  claim = claim_request lease now token user session request hash meta db

  -- The claim succeeded with this row and these tables.
  abbrev pub IsClaimed : Db → Type 0
  IsClaimed db1 = claim ≡ (returned (record { outcome = claimed; request = some fresh_row }), db1)

  claimed_insert :
      (db1 : Db)
      → IsClaimed db1
      → (db' : Db) × (insert_request fresh_row db ≡ inserted db')
        × (db1 ≡ disable_previous_retries now user session request db')
  unfolding claim_request
  claimed_insert db1 e = ground arith

  pub claimed-Consistent :
      (db1 : Db) → IsClaimed db1 → Consistent db.requests → Consistent db1.requests
  claimed-Consistent db1 e c =
      let (db', i, w) = claimed_insert db1 e in
      subst (λ d. Consistent d.requests) (sym w)
        (disable_previous_retries-Consistent now user session request db' (
          insert_request-Consistent fresh_row db db'
            (new_request-RowAgrees lease now token user session request hash meta) i c))

  pub claimed_found : (db1 : Db) → IsClaimed db1 → get_request user request db1 ≡ some fresh_row
  unfolding claim_request
  claimed_found db1 e = ground arith

  -- A request that was claimed and then completed by its owner is answered from the stored row:
  -- later claims of the same id by the same user, whatever their session and their other
  -- arguments, replay the completed row if the
  -- input has the same digest and are refused if it has not, and they change nothing.
  pub complete-claim_replays :
      (db1 : Db) (now' : ℕ) (done : Completion) (lease' now'' token' session' hash' : ℕ)
      (meta' : String)
      → Consistent db.requests
      → IsClaimed db1
      → let out = mark_request_completed now' user request done (some token) db1 in
        (out.0 ≡ returned (some (complete_row now' done fresh_row)))
        × (claim_request lease' now'' token' user session' request hash' meta' out.1 ≡ (
          returned (record {
            outcome = if hash == hash' then replay else hash_mismatch;
            request = some (complete_row now' done fresh_row);
          }),
          out.1,
        ))
  unfolding claim_request
  complete-claim_replays db1 now' done lease' now'' token' session' hash' meta' c e = ground (
    arith,
    owner_completes user request token db1 fresh_row
        (record {
          consistent = claimed-Consistent db1 e c;
          found = claimed_found db1 e;
          live = refl;
          mine = refl;
        })
        now' done,
  )

  -- The other requests of the user in the session that can still be retried.
  abbrev pub retryable_rival : RequestRow → Bool
  retryable_rival x =
      x.user_id == user && x.session_id == session && not (x.request_id == request) && x.retryable

  no_rival :
      (rows : List RequestRow)
      → All RowAgrees rows
      → any retryable_rival
          (update_where (is_previous_failure user session request) (lose_retry now) rows)
        ≡ false
  no_rival [] a = refl
  no_rival (r ∷ rs) (ok, a) = ground (arith, no_rival rs a)

  -- After a successful claim the new row is stored under the given token, it is the one running
  -- row of its session, and no other request of the user in that session can be retried.
  pub claim_excludes_others :
      (db1 : Db)
      → Consistent db.requests
      → IsClaimed db1
      → (get_request user request db1 ≡ some fresh_row)
        × (select (runs_in session) db1.requests ≡ fresh_row ∷ [])
        × (any retryable_rival db1.requests ≡ false)
  unfolding claim_request
  claim_excludes_others db1 c e = (
    claimed_found db1 e,
    ground (arith, alone),
    let (db', i, w) = claimed_insert db1 e in
        subst (λ d. any retryable_rival d.requests ≡ false) (sym w)
          (no_rival db'.requests
            (insert_request-Consistent fresh_row db db'
              (new_request-RowAgrees lease now token user session request hash meta) i c).agree),
  )
    where
      idle : any (runs_in session) db.requests ≡ false
      idle = ground arith

      alone :
          select
            (runs_in session)
            (update_where (is_previous_failure user session request) (lose_retry now) db.requests)
          ≡ []
      alone =
          select-eq-nil (runs_in session)
            (update_where (is_previous_failure user session request) (lose_retry now) db.requests)
            (any-update_where (runs_in session) (is_previous_failure user session request)
              (lose_retry now) (λ r h. h) db.requests idle)
