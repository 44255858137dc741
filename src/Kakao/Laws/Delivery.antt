-- ===== src/Kakao/Laws/Delivery.antt =====
-- The callback of a turn: the URL is given out at most once.
use folioo_ai.Base.{
  ℕ, ◌≡◌, refl, String, Bool, true, false, none, some, [], ◌∷◌, arith, is_some, any, update_where,
  any-update_where, update_where-eq_self, returning-eq_nil,
}
use folioo_ai.Kakao.Rows.{TurnRow, is_turn, get_turn}
use folioo_ai.Kakao.Store.{
  Turns, Acceptance, accept, claim_worker, renew_worker, release_worker, record_outcome,
  resolve_commit_unknown, claim_delivery, finish_delivery, publish_state, mark_usage_reported,
  mark_complete_notified, held_by, claimable, records_outcome, resolves, deliverable, publishes,
  claim_row, renew_row, release_row, outcome_row, resolve_row, claim_delivery_row, finish_row,
  publish_row,
}
use folioo_ai.Kakao.Laws.Steps.{Step, Runs}

-- The turn is there, and no statement will give its URL out.
pub record Sealed (request : ℕ) (turns : Turns) : Type 0 where
  pub there : is_some (get_turn request turns) ≡ true
  pub closed : any (deliverable request) turns ≡ false

get_turn-update_where :
    (request : ℕ) (p : TurnRow → Bool) (f : TurnRow → TurnRow)
    → ((r : TurnRow) → (f r).request_id ≡ r.request_id)
    → (turns : Turns)
    → is_some (get_turn request (update_where p f turns)) ≡ is_some (get_turn request turns)
get_turn-update_where request p f h [] = refl
get_turn-update_where request p f h (x ∷ xs) =
    ground (arith, h x, get_turn-update_where request p f h xs)

Sealed-update_where :
    (request : ℕ) (p : TurnRow → Bool) (f : TurnRow → TurnRow)
    → ((r : TurnRow) → (f r).request_id ≡ r.request_id)
    → ((r : TurnRow) → deliverable request (f r) ≡ true → deliverable request r ≡ true)
    → (turns : Turns) → Sealed request turns
    → Sealed request (update_where p f turns)
Sealed-update_where request p f hr hd turns s = record {
  there = ground (arith, s.there, get_turn-update_where request p f hr turns);
  closed = any-update_where (deliverable request) p f hd turns s.closed;
}

accept-Sealed :
    (request now : ℕ) (a : Acceptance) (turns : Turns)
    → Sealed request turns
    → Sealed request (accept now a turns).1
unfolding accept
accept-Sealed request now a turns s = ground arith

Step-Sealed :
    (request : ℕ) {turns turns' : Turns}
    → Step turns turns'
    → Sealed request turns
    → Sealed request turns'
unfolding claim_worker renew_worker release_worker record_outcome resolve_commit_unknown
    claim_delivery finish_delivery publish_state mark_usage_reported mark_complete_notified
Step-Sealed request {turns} (Step.accepts now a) = accept-Sealed request now a turns
Step-Sealed request {turns} (Step.claims now token other) =
    Sealed-update_where request (claimable now other) (claim_row now token) (λ r. refl) (λ r h. h)
      turns
Step-Sealed request {turns} (Step.renews now other token) =
    Sealed-update_where request (held_by other token) (renew_row now) (λ r. refl) (λ r h. h) turns
Step-Sealed request {turns} (Step.releases now other token) =
    Sealed-update_where request (held_by other token) (release_row now) (λ r. refl) (λ r h. h) turns
Step-Sealed request {turns} (Step.records now other token o payload) =
    Sealed-update_where request (records_outcome other token) (outcome_row now o payload)
      (λ r. refl) (λ r h. h) turns
Step-Sealed request {turns} (Step.resolving now other token o) =
    Sealed-update_where request (resolves other token) (resolve_row now o) (λ r. refl) (λ r h. h)
      turns
Step-Sealed request {turns} (Step.claims_delivery now other) =
    Sealed-update_where request (deliverable other) (claim_delivery_row now) (λ r. refl)
      (λ r h. ground arith) turns
Step-Sealed request {turns} (Step.finishes now other d) =
    Sealed-update_where request (is_turn other) (finish_row now d) (λ r. refl) (λ r h. ground arith)
      turns
Step-Sealed request {turns} (Step.publishing now other o) =
    Sealed-update_where request (publishes other) (publish_row now o) (λ r. refl) (λ r h. h) turns
Step-Sealed request {turns} (Step.reports now other) =
    Sealed-update_where request (is_turn other) _ (λ r. refl) (λ r h. h) turns
Step-Sealed request {turns} (Step.notifies now other) =
    Sealed-update_where request (is_turn other) _ (λ r. refl) (λ r h. h) turns

Runs-Sealed :
    (request : ℕ) {turns turns' : Turns}
    → Runs turns turns'
    → Sealed request turns
    → Sealed request turns'
Runs-Sealed request Runs.here s = s
Runs-Sealed request (Runs.next r st) s = Step-Sealed request st (Runs-Sealed request r s)

claim_delivery-Sealed :
    (now request : ℕ) (url : String) (turns : Turns)
    → (claim_delivery now request turns).0 ≡ some url
    → Sealed request (claim_delivery now request turns).1
unfolding claim_delivery
claim_delivery-Sealed now request url [] e = absurd (ground arith)
claim_delivery-Sealed now request url (x ∷ xs) e =
    ground (arith, claim_delivery-Sealed now request url xs, closes now request xs)
  where
    closes :
        (now request : ℕ) (rows : Turns)
        → any
            (deliverable request)
            (update_where (deliverable request) (claim_delivery_row now) rows)
          ≡ false
    closes now request [] = refl
    closes now request (r ∷ rows) = ground (arith, closes now request rows)

Sealed-claim_delivery :
    (now request : ℕ) (turns : Turns)
    → Sealed request turns
    → claim_delivery now request turns ≡ (none, turns)
unfolding claim_delivery
Sealed-claim_delivery now request turns s =
    rw
      (
        returning-eq_nil (deliverable request) (claim_delivery_row now) turns s.closed,
        update_where-eq_self (deliverable request) (claim_delivery_row now) turns s.closed,
      )
      refl

-- Once `claim_delivery` gave a turn's URL out, no worker gets it again: after any statements of any
-- workers but the purge, a second `claim_delivery` of the turn returns `None` and changes nothing.
pub delivery_once :
    (now request : ℕ) (url : String) (turns turns' : Turns) (later : ℕ)
    → (claim_delivery now request turns).0 ≡ some url
    → Runs (claim_delivery now request turns).1 turns'
    → claim_delivery later request turns' ≡ (none, turns')
delivery_once now request url turns turns' later e r =
    Sealed-claim_delivery later request turns'
      (Runs-Sealed request r (claim_delivery-Sealed now request url turns e))
