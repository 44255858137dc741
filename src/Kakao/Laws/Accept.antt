-- ===== src/Kakao/Laws/Accept.antt =====
-- `accept` and the workers' right of kakao/store.py.
use folioo_ai.Base.{
  ℕ, ◌+◌, ◌≤◌, ◌≡◌, refl, false, none, some, [], ◌∷◌, arith, Option-cases, Bool-cases, inl, inr,
  any, update_where, returning, fetchrow, update_where-eq_self, returning-eq_nil, if◌then◌else◌,
  ◌&&◌, ◌==◌,
}
use folioo_ai.Repository.Rows.{seconds}
use folioo_ai.Kakao.Rows.{TurnRow, is_turn, get_turn}
use folioo_ai.Kakao.Store.{
  Turns, Acceptance, created, duplicate, mismatch, accept, accepted_row, is_same,
  worker_lease_seconds, claimable, claim_row, claim_worker,
}
use folioo_ai.Kakao.Laws.Steps.{Runs, Runs-Keeps}

accept_created :
    (now : ℕ) (a : Acceptance) (turns : Turns)
    → (accept now a turns).0.0 ≡ created
    → get_turn a.request_id (accept now a turns).1 ≡ some (accepted_row now a)
unfolding accept
accept_created now a turns e = elim (Option-cases (get_turn a.request_id turns)) [
  | inl n ↦ ground arith
  | inr (r, n) ↦ absurd (ground arith)
]

accept_found :
    (now : ℕ) (a : Acceptance) (turns : Turns) (r : TurnRow)
    → get_turn a.request_id turns ≡ some r
    → accept now a turns ≡ ((if is_same a r then duplicate else mismatch, r), turns)
unfolding accept
accept_found now a turns r e = ground arith

-- A turn is made once: after an `accept` that created it, and any statements of any workers but the
-- purge, an `accept` of the same request id makes nothing. It answers `DUPLICATE` if digest, user
-- and session are those of the first, with a user id and a session id spelled as `str` spells them,
-- and `MISMATCH` otherwise: also for the same body again, if its ids were spelled another way.
pub accept_again :
    (now : ℕ) (a : Acceptance) (turns turns' : Turns) (later : ℕ) (b : Acceptance)
    → (accept now a turns).0.0 ≡ created
    → Runs (accept now a turns).1 turns'
    → b.request_id ≡ a.request_id
    → ((accept later b turns').1 ≡ turns')
      × ((accept later b turns').0.0 ≡ (
          if b.request_hash == a.request_hash
            && (b.user_id == a.user_id && b.plain_user_id)
            && (b.session_id == a.session_id && b.plain_session_id)
          then duplicate
          else mismatch))
accept_again now a turns turns' later b e r same =
    let (row, found, l) =
      Runs-Keeps r a.request_id (accepted_row now a) (accept_created now a turns e) in
    let answer = accept_found later b turns' row (rw same found) in
    ground (arith, answer, l.user, l.session, l.hash)

-- The primary key of the table.
abbrev pub UniqueTurns : Turns → Type 0
UniqueTurns [] = Unit
UniqueTurns (r ∷ rs) = (any (is_turn r.request_id) rs ≡ false) × UniqueTurns rs

module _ (now token request later other : ℕ) where
  others_closed :
      (rows : Turns)
      → any (is_turn request) rows ≡ false
      → any
          (claimable later request)
          (update_where (claimable now request) (claim_row now token) rows)
        ≡ false
  others_closed [] h = refl
  others_closed (r ∷ rs) h = ground (arith, others_closed rs)

  others_none :
      (rows : Turns)
      → any (is_turn request) rows ≡ false
      → returning (claimable now request) (claim_row now token) rows ≡ []
  others_none [] h = refl
  others_none (r ∷ rs) h = ground (arith, others_none rs)

  claimed_closed :
      (row : TurnRow) (rows : Turns)
      → later ≤ now + seconds worker_lease_seconds
      → UniqueTurns rows
      → fetchrow (returning (claimable now request) (claim_row now token) rows) ≡ some row
      → any
          (claimable later request)
          (update_where (claimable now request) (claim_row now token) rows)
        ≡ false
  claimed_closed row [] h u e = absurd (ground arith)
  claimed_closed row (r ∷ rs) h (fresh, u) e = elim (Bool-cases (claimable now request r)) [
    | inl m ↦ ground (arith, others_closed rs)
    | inr m ↦ ground (arith, claimed_closed row rs h u, others_none rs)
  ]

  -- Where request ids are unique: directly after a `claim_worker` that got a turn, until its lease is
  -- over, another `claim_worker` of the turn returns `None` and changes nothing.
  pub claim_worker_excludes :
      (row : TurnRow) (turns : Turns)
      → later ≤ now + seconds worker_lease_seconds
      → UniqueTurns turns
      → (claim_worker now token request turns).0 ≡ some row
      → claim_worker later other request (claim_worker now token request turns).1
        ≡ (none, (claim_worker now token request turns).1)
  unfolding claim_worker
  claim_worker_excludes row turns h u e =
      let c = claimed_closed row turns h u e in
      rw
        (
          returning-eq_nil (claimable later request) (claim_row later other) _ c,
          update_where-eq_self (claimable later request) (claim_row later other) _ c,
        )
        refl
