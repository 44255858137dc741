-- ===== src/Repository/Laws/Lives.antt =====
-- The tables implement the life of each request: what an update, an insert, a
-- retry, a recovery and a purge do to it.
use mathlib.Core.Path.{subst}
use folioo_ai.Base.{
  ℕ, String, List, [], ◌∷◌, ◌==◌, ◌≡◌, refl, sym, ◌∙◌, Bool, true, false, ◌&&◌, Option, none, some,
  arith, inl, inr, Option-cases, Bool-cases, select_first, update_where, delete_where, any,
}
use folioo_ai.Repository.Rows.{
  RequestRow, Status, running, completed, failed, is_running, is_failed, is_request, Db,
  get_request,
}
use folioo_ai.Repository.Claim.{insert_request, inserted, new_request, restart, retry_request}
use folioo_ai.Repository.Recovery.{
  is_old, take_over, claim_expired_request_for_recovery, purge_old_completed_requests,
}
use folioo_ai.Repository.Invariant.{Consistent}
use folioo_ai.Repository.Invariant.Retry.{
  claimed-cases, retry_request_claimed, retry_request_refused,
}
use folioo_ai.Repository.Invariant.Updates.{any-delete_where}
use folioo_ai.Repository.Invariant.Recover.{claim_expired_none, claim_expired-TookOver, candidate}
use folioo_ai.Repository.Laws.Lookup.{
  select_first-fits, select_first-update_where, select_first-delete_where, select_first-deleted,
  select_first-eq-none,
}
use folioo_ai.Repository.Lifecycle.{
  Phase, Method, claims, retries, purges, keeps, Move, stays, starts, restarts, forgets_finished,
  forgets_stopped, absent, active, stopped, status_phase, phase_of, phase,
}

along :
    {m : Method} (o o' a b : Option RequestRow)
    → o ≡ a
    → o' ≡ b
    → Move m (phase_of a) (phase_of b)
    → Move m (phase_of o) (phase_of o')
along {m = k} o o' a b p q m =
    subst (λ z. Move k (phase_of z) (phase_of o')) (sym p)
      (subst (λ z. Move k (phase_of a) (phase_of z)) (sym q) m)

pub from_running :
    {k : Method} (s : Status) (b : Bool) (p : Phase)
    → is_running s ≡ true
    → Move k active p
    → Move k (status_phase s b) p
from_running running b p e m = m
from_running completed b p e m = absurd (ground arith)
from_running failed b p e m = absurd (ground arith)

pub from_retryable :
    {k : Method} (s : Status) (b : Bool) (p : Phase)
    → is_failed s ≡ true
    → b ≡ true
    → Move k (stopped true) p
    → Move k (status_phase s b) p
from_retryable running b p e t m = absurd (ground arith)
from_retryable completed b p e t m = absurd (ground arith)
from_retryable {k} failed b p e t m = subst (λ z. Move k (stopped z) p) (sym t) m

to_absent : (s : Status) (b : Bool) → is_running s ≡ false → Move purges (status_phase s b) absent
to_absent running b e = absurd (ground arith)
to_absent completed b e = forgets_finished
to_absent failed b e = forgets_stopped b

none_nowhere :
    (p : RequestRow → Bool) (rows : List RequestRow)
    → select_first p rows ≡ none
    → any p rows ≡ false
none_nowhere p [] e = refl
none_nowhere p (r ∷ rs) e = ground (arith, none_nowhere p rs)

deleted_none :
    (p q : RequestRow → Bool) (rows : List RequestRow)
    → select_first p rows ≡ none
    → select_first p (delete_where q rows) ≡ none
deleted_none p q rows e =
    select_first-eq-none p (delete_where q rows) (any-delete_where p q rows (none_nowhere p rows e))

module _ (user request : ℕ) (db : Db) where
  -- An update that moves the row of the key, if it reaches it.
  pub Move-update :
      {k : Method} (p : RequestRow → Bool) (f : RequestRow → RequestRow)
      → ((r : RequestRow) → (f r).user_id ≡ r.user_id)
      → ((r : RequestRow) → (f r).request_id ≡ r.request_id)
      → ((r : RequestRow)
          → get_request user request db ≡ some r
          → p r ≡ true
          → Move k (phase_of (some r)) (phase_of (some (f r))))
      → Move k
          (phase user request db)
          (phase user request (record db { requests = update_where p f db.requests }))
  unfolding get_request
  Move-update p f hu hr h =
      let s = select_first-update_where user request p f hu hr db.requests in
      elim (Option-cases (select_first (is_request user request) db.requests)) [
        | inl n ↦ along _ _ none none n (s ∙ rw n refl) (stays absent)
        | inr (r, n) ↦ elim (Bool-cases (p r)) [
          | inl b ↦ along _ _ (some r) (some (f r)) n (s ∙ rw n (ground (arith, b))) (h r n b)
          | inr b ↦ along _ _ (some r) (some r) n (s ∙ rw n (ground (arith, b))) (stays _)
        ]
      ]

  pub Move-insert :
      (lease now token user' session request' hash : ℕ) (meta : String) (db' : Db)
      → insert_request (new_request lease now token user' session request' hash meta) db
        ≡ inserted db'
      → Move claims (phase user request db) (phase user request db')
  unfolding get_request insert_request new_request
  Move-insert lease now token user' session request' hash meta db' i =
      elim (Bool-cases (user' == user && request' == request)) [
        | inl b ↦
            along _ _ none (some (new_request lease now token user' session request' hash meta))
              (select_first-eq-none (is_request user request) db.requests (ground (arith, b, i)))
              (ground (arith, b, i)) starts
        | inr b ↦
            subst (λ z. Move claims (phase user request db) (phase_of z)) (ground (arith, b, i))
              (stays _)
      ]

  pub Move-retry :
      (lease clock now token user' request' : ℕ)
      → Move retries
          (phase user request db)
          (phase user request (retry_request lease clock now token user' request' db).1)
  unfolding get_request
  Move-retry lease clock now token user' request' =
      elim (claimed-cases (retry_request lease clock now token user' request' db).0.outcome) [
        | inl claimed ↦
            let (row, t) = retry_request_claimed lease clock now token user' request' db claimed in
            subst (λ d. Move retries (phase user request db) (phase user request d)) (sym t.wrote)
              (Move-update (is_request user' request') (restart lease now token) (λ _. refl)
                (λ _. refl)
                (λ r e k.
                  from_retryable r.status r.retryable active
                    (ground (
                      arith,
                      k,
                      e,
                      t.found,
                      t.was_failed,
                      select_first-fits (is_request user request) db.requests r e,
                    ))
                    (ground (
                      arith,
                      k,
                      e,
                      t.found,
                      t.was_retryable,
                      select_first-fits (is_request user request) db.requests r e,
                    ))
                    restarts))
        | inr o ↦
            subst (λ d. Move retries (phase user request db) (phase user request d))
              (sym (retry_request_refused lease clock now token user' request' db o)) (stays _)
      ]

  pub Move-recover :
      (lease now token : ℕ) (scope : Option ℕ)
      → Consistent db.requests
      → Move keeps
          (phase user request db)
          (phase user request (claim_expired_request_for_recovery lease now token scope db).1)
  Move-recover lease now token scope c = elim (Option-cases (candidate lease now token scope db)) [
    | inl n ↦
        subst (λ o. Move keeps (phase user request db) (phase user request o.1))
          (sym (claim_expired_none lease now token scope db n)) (stays _)
    | inr (r, n) ↦
        let t = claim_expired-TookOver lease now token scope db r c.unique n in
        subst (λ o. Move keeps (phase user request db) (phase user request o.1)) (sym t.wrote)
          (Move-update (is_request r.user_id r.request_id) (take_over lease now token) (λ _. refl)
            (λ _. refl) (λ x e k. stays _))
  ]

  pub Move-purge :
      (retention now : ℕ)
      → Consistent db.requests
      → Move purges
          (phase user request db)
          (phase user request (purge_old_completed_requests retention now db).1)
  unfolding get_request purge_old_completed_requests
  Move-purge retention now c =
      let old = is_old retention now in
      elim (Option-cases (select_first (is_request user request) db.requests)) [
        | inl n ↦
            along _ _ none none n (deleted_none (is_request user request) old db.requests n)
              (stays absent)
        | inr (r, n) ↦ elim (Bool-cases (old r)) [
          | inl b ↦
              along _ _ (some r) none n
                (select_first-deleted user request old db.requests r c.unique n b)
                (to_absent r.status r.retryable (ground (arith, b)))
          | inr b ↦
              along _ _ (some r) (some r) n
                (select_first-delete_where user request old db.requests r n b) (stays _)
        ]
      ]
