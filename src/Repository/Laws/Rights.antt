-- ===== src/Repository/Laws/Rights.antt =====
-- The execution right: `owner_token` of `renew_request_lease`, `mark_request_completed` and
-- `mark_request_failed`.
use folioo_ai.Base.{ℕ, ◌≡◌, ◌≢◌, refl, Bool, true, false, ◌&&◌, none, some, arith, sql_eq, ◌∙◌}
use folioo_ai.Repository.Rows.{
  RequestRow, running, is_running, is_request, Db, returned, get_request,
}
use folioo_ai.Repository.Ownership.{
  owned_by, update_requests, extend_lease, renew_request_lease, Completion, complete_row,
  mark_request_completed, Failure, fail_row, mark_request_failed,
}
use folioo_ai.Repository.Invariant.{Consistent}
use folioo_ai.Repository.Laws.Lookup.{
  select_first-fits, select_first-update_where, update_where-refused, returning-accepted,
}

abbrev holds_right : ℕ → RequestRow → Bool
holds_right token r = is_running r.status && sql_eq r.owner_token token

-- Not the owner: the three methods answer so, and the tables stay as they are.
abbrev pub IsFenced : ℕ → ℕ → ℕ → Db → ℕ → ℕ → ℕ → Completion → Failure → Type 0
IsFenced user request token db lease ttl now c f =
    (renew_request_lease lease now user request (some token) db ≡ (returned (false, false), db))
    × (mark_request_completed now user request c (some token) db ≡ (returned none, db))
    × (mark_request_failed ttl now user request f (some token) db ≡ (returned none, db))

-- A worker whose token is not the one in the row can neither renew, complete nor fail the
-- request: each call says so and changes nothing.
pub not_owner-IsFenced :
    (user request token : ℕ) (db : Db) (row : RequestRow) (lease ttl now : ℕ) (done : Completion)
    (f : Failure)
    → Consistent db.requests
    → get_request user request db ≡ some row
    → row.owner_token ≢ some token
    → IsFenced user request token db lease ttl now done f
unfolding get_request renew_request_lease mark_request_completed mark_request_failed
not_owner-IsFenced user request token db row lease ttl now done f c e h = (
  ground (arith, refused (extend_lease lease now)),
  ground (arith, refused (complete_row now done)),
  ground (arith, refused (fail_row ttl now f)),
)
  where
    without : sql_eq row.owner_token token ≡ false
    without = ground arith

    refused :
        (g : RequestRow → RequestRow)
        → update_requests (owned_by user request token) g db ≡ (none, db)
    refused g =
        let r =
          update_where-refused user request (holds_right token) g db.requests row c.unique e
            (ground (arith, without)) in
        ground (arith, r)

-- The row of a running request, and its owner.
pub record IsOwned (user request token : ℕ) (db : Db) (row : RequestRow) : Type 0 where
  pub consistent : Consistent db.requests
  pub found : get_request user request db ≡ some row
  pub live : row.status ≡ running
  pub mine : row.owner_token ≡ some token

module _ (user request token : ℕ) (db : Db) (row : RequestRow)
    (o : IsOwned user request token db row) where
  pub owner_updates :
      (g : RequestRow → RequestRow)
      → ((r : RequestRow) → (g r).user_id ≡ r.user_id)
      → ((r : RequestRow) → (g r).request_id ≡ r.request_id)
      → let out = update_requests (owned_by user request token) g db in
        (out.0 ≡ some (g row)) × (get_request user request out.1 ≡ some (g row))
  unfolding get_request
  owner_updates g hu hr = (
    ground (
      arith,
      returning-accepted user request (holds_right token) g db.requests row o.consistent.unique
          o.found (ground arith),
    ),
    select_first-update_where user request (owned_by user request token) g hu hr db.requests
        ∙ rw o.found (ground (arith, key)),
  )
    where
      key : is_request user request row ≡ true
      key = select_first-fits (is_request user request) db.requests row o.found

  -- The owner of a running request completes it: the call returns the completed row, and the
  -- row is what a later lookup finds.
  pub owner_completes :
      (now : ℕ) (done : Completion)
      → let out = mark_request_completed now user request done (some token) db in
        (out.0 ≡ returned (some (complete_row now done row)))
        × (get_request user request out.1 ≡ some (complete_row now done row))
  unfolding mark_request_completed
  owner_completes now done =
      ground (arith, owner_updates (complete_row now done) (λ _. refl) (λ _. refl))

  pub owner_fails :
      (ttl now : ℕ) (f : Failure)
      → let out = mark_request_failed ttl now user request f (some token) db in
        (out.0 ≡ returned (some (fail_row ttl now f row)))
        × (get_request user request out.1 ≡ some (fail_row ttl now f row))
  unfolding mark_request_failed
  owner_fails ttl now f = ground (arith, owner_updates (fail_row ttl now f) (λ _. refl) (λ _. refl))
