-- ===== src/Repository/Laws/Refines.antt =====
-- The tables implement the life of each request: every statement is a move of it, or none.
use mathlib.Core.Path.{subst}
use folioo_ai.Base.{
  ℕ, List, [], ◌∷◌, ◌≡◌, refl, sym, true, false, none, some, arith, inl, inr, Option-cases,
  select_first,
}
use folioo_ai.Repository.Rows.{RequestRow, failed, Db, get_request}
use folioo_ai.Repository.Sessions.{of_activity, get_or_create_session, save_active_gap}
use folioo_ai.Repository.Claim.{disable_previous_retries, is_previous_failure, lose_retry}
use folioo_ai.Repository.Ownership.{
  owned_by, extend_lease, is_running_request, ask_to_stop, complete_row, fail_row,
  renew_request_lease, request_cancellation, mark_request_completed, mark_request_failed,
}
use folioo_ai.Repository.Recovery.{is_stale, expire_row, expire_stale_running_requests}
use folioo_ai.Repository.Invariant.{Consistent}
use folioo_ai.Repository.Invariant.Reach.{Step, Reach, Step-Consistent}
use folioo_ai.Repository.Lifecycle.{
  Method, claims, disables, retries, expires, purges, keeps, Move, stays, finishes, breaks, lapses,
  loses_retry, Moves, stopped, status_phase, phase_of, phase,
}
use folioo_ai.Repository.Laws.Lives.{
  from_running, from_retryable, Move-update, Move-insert, Move-retry, Move-recover, Move-purge,
}

-- What the statement of a method is to the life of a request.
abbrev pub method_of : {db db' : Db} → Step db db' → Method
method_of (Step.insert _ _ _ _ _ _ _ _ _) = claims
method_of (Step.disable _ _ _ _) = disables
method_of (Step.retry _ _ _ _ _ _) = retries
method_of (Step.complete _ _ _ _ _) = Method.completes
method_of (Step.fail _ _ _ _ f _) = Method.fails f.retryable
method_of (Step.expire _ _ _) = expires
method_of (Step.purge _ _) = purges
method_of _ = keeps

-- The methods of a sequence of statements, the last one first.
abbrev pub methods_of : {db db' : Db} → Reach db db' → List Method
methods_of Reach.here = []
methods_of (Reach.next r s) = method_of s ∷ methods_of r

-- Every statement, with any arguments, does to each request what its method is for, or leaves it
-- where it is. The tables are consistent before it.
pub Step-Move :
    (user request : ℕ) {db db' : Db}
    → Consistent db.requests
    → (s : Step db db') → Move (method_of s) (phase user request db) (phase user request db')
unfolding get_or_create_session save_active_gap disable_previous_retries renew_request_lease
    request_cancellation mark_request_completed mark_request_failed expire_stale_running_requests
    get_request
Step-Move user request {db} c (Step.open_session fresh user' block) =
    elim (Option-cases (select_first (of_activity user' block) db.sessions)) [
      | inl n ↦
          subst (λ z. Move keeps (phase user request db) (phase_of z)) (ground (arith, n)) (stays _)
      | inr (x, n) ↦
          subst (λ z. Move keeps (phase user request db) (phase_of z)) (ground (arith, n)) (stays _)
    ]
Step-Move user request c (Step.save_gap user' session gap) = stays _
Step-Move user request {db} {db'} c
      (Step.insert lease now token user' session request' hash meta i) =
    Move-insert user request db lease now token user' session request' hash meta db' i
Step-Move user request {db} c (Step.disable now user' session current) =
    Move-update user request db (is_previous_failure user' session current) (lose_retry now)
      (λ _. refl) (λ _. refl)
      (λ r e k.
        from_retryable r.status r.retryable _ (ground (arith, k)) (ground (arith, k)) (lost r k))
  where
    lost :
        (r : RequestRow)
        → is_previous_failure user' session current r ≡ true
        → Move disables (stopped true) (phase_of (some (lose_retry now r)))
    lost r k =
        let q : r.status ≡ failed = ground (arith, k) in
        subst (λ s. Move disables (stopped true) (status_phase s false)) (sym q) loses_retry
Step-Move user request {db} c (Step.retry lease clock now token user' request') =
    Move-retry user request db lease clock now token user' request'
Step-Move user request c (Step.renew lease now user' request' none) = stays _
Step-Move user request {db} c (Step.renew lease now user' request' (some t)) =
    Move-update user request db (owned_by user' request' t) (extend_lease lease now) (λ _. refl)
      (λ _. refl) (λ r e k. stays _)
Step-Move user request {db} c (Step.cancel now user' request') =
    Move-update user request db (is_running_request user' request') (ask_to_stop now) (λ _. refl)
      (λ _. refl) (λ r e k. stays _)
Step-Move user request c (Step.complete now user' request' done none) = stays _
Step-Move user request {db} c (Step.complete now user' request' done (some t)) =
    Move-update user request db (owned_by user' request' t) (complete_row now done) (λ _. refl)
      (λ _. refl) (λ r e k. from_running r.status r.retryable _ (ground (arith, k)) finishes)
Step-Move user request c (Step.fail ttl now user' request' f none) = stays _
Step-Move user request {db} c (Step.fail ttl now user' request' f (some t)) =
    Move-update user request db (owned_by user' request' t) (fail_row ttl now f) (λ _. refl)
      (λ _. refl) (λ r e k. from_running r.status r.retryable _ (ground (arith, k)) (breaks _))
Step-Move user request {db} c (Step.recover lease now token scope) =
    Move-recover user request db lease now token scope c
Step-Move user request {db} c (Step.expire ttl now scope) =
    Move-update user request db (is_stale now scope) (expire_row ttl now) (λ _. refl) (λ _. refl)
      (λ r e k. from_running r.status r.retryable _ (ground (arith, k)) lapses)
Step-Move user request {db} c (Step.purge retention now) =
    Move-purge user request db retention now c

Reach-Consistent-from :
    {db db' : Db} → Reach db db' → Consistent db.requests → Consistent db'.requests
Reach-Consistent-from Reach.here c = c
Reach-Consistent-from (Reach.next r s) c = Step-Consistent s (Reach-Consistent-from r c)

-- The tables refine the life of each request: from consistent tables, whatever statements of
-- whatever workers are interleaved, the phases that a request goes through are moves of exactly the
-- methods that were called, in their order: only a claim starts what is not there, only a retry
-- restarts, and that only a failure that may be retried, only a completion finishes a run, only a
-- failure or the sweep breaks it, and only the purge forgets, and never a run.
pub Reach-Moves :
    (user request : ℕ) {db db' : Db}
    → Consistent db.requests
    → (r : Reach db db') → Moves (phase user request db) (methods_of r) (phase user request db')
Reach-Moves user request c Reach.here = Moves.here
Reach-Moves user request c (Reach.next r s) =
    Moves.next (Reach-Moves user request c r) (Step-Move user request (Reach-Consistent-from r c) s)
