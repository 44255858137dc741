-- ===== src/Service/Laws/Prepare.antt =====
-- A request that is prepared to run is owned by the caller and runs alone in its session.
use mathlib.Core.Path.{subst}
use folioo_ai.Base.{
  ℕ, ◌≡◌, ◌<◌, refl, sym, Option, none, some, [], ◌∷◌, arith, inl, inr, Option-cases, Bool-cases,
  select, ◌==◌,
}
use folioo_ai.Repository.Rows.{
  SessionRow, RequestRow, Db, runs_in, get_request, ClaimResult, claimed,
}
use folioo_ai.Repository.Sessions.{get_session, get_latest_request}
use folioo_ai.Repository.Claim.{claim_request, retry_request, new_request, restart}
use folioo_ai.Repository.Invariant.{Consistent}
use folioo_ai.Repository.Invariant.Retry.{retry_request_claimed, retry_request-Consistent}
use folioo_ai.Repository.Laws.Retries.{retry_exactly, retried_found}
use folioo_ai.Repository.Laws.Idempotent.{
  fresh_row, IsClaimed, claim_excludes_others, claimed-Consistent,
}
use folioo_ai.Repository.Laws.Rights.{IsOwned}
use folioo_ai.Reconcile.Ends.{running_count, reconcile_ends}
use folioo_ai.Service.Prepare.Chat.{
  Clock, ChatRequest, ready, request_hash, prepared_chat, claim_chat, prepare_chat,
}
use folioo_ai.Service.Prepare.Request.{PreparedRequest}
use folioo_ai.Service.Prepare.Retry.{claim_retry, retry_latest, prepare_retry}

-- The request is owned under the token that the caller was given.
abbrev pub Owns : PreparedRequest → ℕ → Db → Type 0
Owns p token db =
    (row : RequestRow) × (IsOwned p.user_id p.request_id token db row)
    × (p.owner_token ≡ some token)

-- The request is owned under the token that the caller was given, and nothing else runs in its
-- session.
abbrev pub RunsAlone : PreparedRequest → ℕ → Db → Type 0
RunsAlone p token db =
    (row : RequestRow) × (IsOwned p.user_id p.request_id token db row)
    × (p.owner_token ≡ some token)
    × (select (runs_in p.session_id) db.requests ≡ row ∷ [])

module _ (c : Clock) (r : ChatRequest) (s : SessionRow) (db : Db) where
  abbrev row : RequestRow
  row =
      fresh_row c.lease c.now c.token r.user_id r.session_id r.request_id (request_hash c r)
        (c.input_meta r) db

  abbrev Claims : Db → Type 0
  Claims =
      IsClaimed c.lease c.now c.token r.user_id r.session_id r.request_id (request_hash c r)
        (c.input_meta r) db

  -- An answer to run comes from a claim, with its token.
  claim_chat-Claims :
      (p : PreparedRequest) (db1 : Db)
      → claim_chat c r s db ≡ (ready p, db1)
      → p.replay_of ≡ none
      → Claims db1 × (p ≡ record (prepared_chat c r s) { owner_token = some c.token })
  unfolding claim_request
  claim_chat-Claims p db1 e n = elim (Option-cases (get_request r.user_id r.request_id db)) [
    | inl g ↦ (ground (arith, g), ground (arith, g))
    | inr (x, g) ↦ absurd (ground (arith, g))
  ]

  claim_chat-RunsAlone :
      (p : PreparedRequest) (db1 : Db)
      → Consistent db.requests
      → claim_chat c r s db ≡ (ready p, db1)
      → p.replay_of ≡ none
      → RunsAlone p c.token db1
  unfolding new_request
  claim_chat-RunsAlone p db1 con e n =
      let (k, q) = claim_chat-Claims p db1 e n in
      let x =
        claim_excludes_others c.lease c.now c.token r.user_id r.session_id r.request_id
          (request_hash c r) (c.input_meta r) db db1 con k in
      let owned : IsOwned r.user_id r.request_id c.token db1 row = record {
        consistent =
            claimed-Consistent c.lease c.now c.token r.user_id r.session_id r.request_id
              (request_hash c r) (c.input_meta r) db db1 k con;
        found = x.0;
        live = refl;
        mine = refl;
      } in
      subst (λ z. RunsAlone z c.token db1) (sym q) (row, owned, refl, x.1)

-- If `prepare_chat` answers with a request to run, and not with one to replay, then the table
-- holds this request as running under the new token, which the answer carries, and no other request
-- runs in the session. The conditions are that the tables were consistent and that the sweep has
-- more fuel than there are running requests.
pub prepare_chat-RunsAlone :
    (fuel : ℕ) (c : Clock) (r : ChatRequest) (db db1 : Db) (p : PreparedRequest)
    → Consistent db.requests
    → running_count db.requests < fuel
    → prepare_chat fuel c r db ≡ some (ready p, db1)
    → p.replay_of ≡ none
    → RunsAlone p c.token db1
unfolding prepare_chat
prepare_chat-RunsAlone fuel c r db db1 p con h e n =
    elim (Option-cases (get_session r.user_id r.session_id db)) [
      | inl g ↦ absurd (ground (arith, g))
      | inr (s, g) ↦
          let (db', (out, con', _)) = reconcile_ends fuel c.rounds 0 (some r.session_id) db con h in
          claim_chat-RunsAlone c r s db' p db1 con' (ground (arith, g, out)) n
    ]

IsOwned-along :
    (a b user request token : ℕ) (db1 d : Db) (row : RequestRow)
    → a ≡ user
    → b ≡ request
    → db1 ≡ d
    → IsOwned user request token d row
    → IsOwned a b token db1 row
IsOwned-along a b user request token db1 d row p q e o =
    subst (λ z. IsOwned z b token db1 row) (sym p)
      (subst (λ z. IsOwned user z token db1 row) (sym q)
        (subst (λ z. IsOwned user request token z row) (sym e) o))

module _ (c : Clock) (user session request : ℕ) (s : SessionRow) (db : Db) where
  abbrev retrying : ClaimResult × Db
  retrying = retry_request c.lease c.worker_now c.now c.token user request db

  claim_retry-claims :
      (p : PreparedRequest) (db1 : Db)
      → claim_retry c user session request s db ≡ (ready p, db1)
      → p.replay_of ≡ none
      → retrying.0.outcome ≡ claimed
  unfolding retry_request
  claim_retry-claims p db1 e n = elim (Option-cases (get_request user request db)) [
    | inl g ↦ absurd (ground (arith, g))
    | inr (x, g) ↦ ground (arith, g)
  ]

  claim_retry-prepared :
      (p : PreparedRequest) (db1 : Db) (x : RequestRow)
      → claim_retry c user session request s db ≡ (ready p, db1)
      → retrying.0.outcome ≡ claimed
      → retrying.0.request ≡ some x
      → (p.user_id ≡ user)
        × (p.request_id ≡ request)
        × (p.owner_token ≡ x.owner_token)
        × (db1 ≡ retrying.1)
  claim_retry-prepared p db1 x e o q =
      (ground (arith, o, q), ground (arith, o, q), ground (arith, o, q), ground (arith, o, q))

  claim_retry-Owns :
      (p : PreparedRequest) (db1 : Db)
      → Consistent db.requests
      → claim_retry c user session request s db ≡ (ready p, db1)
      → p.replay_of ≡ none
      → Owns p c.token db1
  claim_retry-Owns p db1 con e n =
      let o = claim_retry-claims p db1 e n in
      let (x, t) = retry_request_claimed c.lease c.worker_now c.now c.token user request db o in
      let (u, q, k, d) =
        claim_retry-prepared p db1 (restart c.lease c.now c.token x) e o t.answer in
      let m = retry_exactly c.lease c.worker_now c.now c.token user request db in
      let (y, may) = m.0 o in
      let owned : IsOwned user request c.token retrying.1 (restart c.lease c.now c.token y) =
        record {
          consistent =
              retry_request-Consistent c.lease c.worker_now c.now c.token user request db con;
          found = retried_found c.lease c.worker_now c.now c.token user request db y may;
          live = refl;
          mine = refl;
        } in
      (
        restart c.lease c.now c.token y,
        IsOwned-along p.user_id p.request_id user request c.token db1 retrying.1 _ u q d owned,
        k,
      )

  retry_latest-Owns :
      (p : PreparedRequest) (db1 : Db) (o : Option RequestRow)
      → Consistent db.requests
      → retry_latest c user session request s db o ≡ (ready p, db1)
      → p.replay_of ≡ none
      → Owns p c.token db1
  retry_latest-Owns p db1 none con e n = absurd (ground arith)
  retry_latest-Owns p db1 (some l) con e n = elim (Bool-cases (l.request_id == request)) [
    | inl b ↦ claim_retry-Owns p db1 con (ground (arith, b)) n
    | inr b ↦ elim (Option-cases (get_request user request db)) [
      | inl g ↦ absurd (ground (arith, b, g))
      | inr (x, g) ↦ absurd (ground (arith, b, g))
    ]
  ]

-- If `prepare_retry` answers with a request to run, and not with one to replay, then the table
-- holds this request as running under the new token, which the answer carries. The conditions are
-- that the tables were consistent and that the sweep has more fuel than there are running requests.
pub prepare_retry-Owns :
    (fuel : ℕ) (c : Clock) (user session request : ℕ) (db db1 : Db) (p : PreparedRequest)
    → Consistent db.requests
    → running_count db.requests < fuel
    → prepare_retry fuel c user session request db ≡ some (ready p, db1)
    → p.replay_of ≡ none
    → Owns p c.token db1
unfolding prepare_retry
prepare_retry-Owns fuel c user session request db db1 p con h e n =
    elim (Option-cases (get_session user session db)) [
      | inl g ↦ absurd (ground (arith, g))
      | inr (s, g) ↦
          let (db', (out, con', _)) = reconcile_ends fuel c.rounds 0 (some session) db con h in
          retry_latest-Owns c user session request s db' p db1 (get_latest_request user session db')
            con' (ground (arith, g, out)) n
    ]
