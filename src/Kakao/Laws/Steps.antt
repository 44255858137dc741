-- ===== src/Kakao/Laws/Steps.antt =====
-- Workers interleave on `ai_kakao_turn`: the statements in any order, the purge apart.
use folioo_ai.Base.{ℕ, Option, arith, Option-cases, inl, inr}
use folioo_ai.Kakao.Rows.{TurnState, Delivery, Payload, is_turn, get_turn}
use folioo_ai.Kakao.Store.{
  Turns, Acceptance, accept, claim_worker, renew_worker, release_worker, record_outcome,
  resolve_commit_unknown, claim_delivery, finish_delivery, publish_state, mark_usage_reported,
  mark_complete_notified, held_by, claimable, records_outcome, resolves, deliverable, publishes,
  claim_row, renew_row, release_row, outcome_row, resolve_row, claim_delivery_row, finish_row,
  publish_row,
}
use folioo_ai.Kakao.Laws.Later.{Later-refl, Keeps, Keeps-refl, Keeps-trans, Keeps-update_where}

pub data Step (turns : Turns) : Turns → Type 0 where
  accepts : (now : ℕ) (a : Acceptance) → Step turns (accept now a turns).1
  claims : (now token request : ℕ) → Step turns (claim_worker now token request turns).1
  renews : (now request token : ℕ) → Step turns (renew_worker now request token turns).1
  releases : (now request token : ℕ) → Step turns (release_worker now request token turns)
  records :
      (now request token : ℕ) (o : TurnState) (payload : Option Payload)
      → Step turns (record_outcome now request token o payload turns).1
  resolving :
      (now request token : ℕ) (o : TurnState)
      → Step turns (resolve_commit_unknown now request token o turns).1
  claims_delivery : (now request : ℕ) → Step turns (claim_delivery now request turns).1
  finishes : (now request : ℕ) (d : Delivery) → Step turns (finish_delivery now request d turns)
  publishing : (now request : ℕ) (o : TurnState) → Step turns (publish_state now request o turns)
  reports : (now request : ℕ) → Step turns (mark_usage_reported now request turns)
  notifies : (now request : ℕ) → Step turns (mark_complete_notified now request turns)

pub data Runs (turns : Turns) : Turns → Type 0 where
  here : Runs turns turns
  next : {t t' : Turns} → Runs turns t → Step t t' → Runs turns t'

accept-Keeps : (now : ℕ) (a : Acceptance) (turns : Turns) → Keeps turns (accept now a turns).1
unfolding accept
accept-Keeps now a turns request r e = elim (Option-cases (get_turn a.request_id turns)) [
  | inl n ↦ (r, ground arith, Later-refl r)
  | inr (x, n) ↦ (r, ground arith, Later-refl r)
]

pub Step-Keeps : {turns turns' : Turns} → Step turns turns' → Keeps turns turns'
unfolding claim_worker renew_worker release_worker record_outcome resolve_commit_unknown
    claim_delivery finish_delivery publish_state mark_usage_reported mark_complete_notified
Step-Keeps {turns} (accepts now a) = accept-Keeps now a turns
Step-Keeps {turns} (claims now token request) =
    Keeps-update_where (claimable now request) (claim_row now token) (λ r h. ground arith) turns
Step-Keeps {turns} (renews now request token) =
    Keeps-update_where (held_by request token) (renew_row now) (λ r h. ground arith) turns
Step-Keeps {turns} (releases now request token) =
    Keeps-update_where (held_by request token) (release_row now) (λ r h. ground arith) turns
Step-Keeps {turns} (records now request token o payload) =
    Keeps-update_where (records_outcome request token) (outcome_row now o payload)
      (λ r h. ground arith) turns
Step-Keeps {turns} (resolving now request token o) =
    Keeps-update_where (resolves request token) (resolve_row now o) (λ r h. ground arith) turns
Step-Keeps {turns} (claims_delivery now request) =
    Keeps-update_where (deliverable request) (claim_delivery_row now) (λ r h. ground arith) turns
Step-Keeps {turns} (finishes now request d) =
    Keeps-update_where (is_turn request) (finish_row now d) (λ r h. ground arith) turns
Step-Keeps {turns} (publishing now request o) =
    Keeps-update_where (publishes request) (publish_row now o) (λ r h. ground arith) turns
Step-Keeps {turns} (reports now request) =
    Keeps-update_where (is_turn request) _ (λ r h. ground arith) turns
Step-Keeps {turns} (notifies now request) =
    Keeps-update_where (is_turn request) _ (λ r h. ground arith) turns

-- However many statements of however many workers come between, the purge apart, a turn's row is
-- still there, for the same user, session and body; a claimed delivery is still claimed and a
-- dropped URL dropped; a final state stands with its outcome and what was told to the main server.
pub Runs-Keeps : {turns turns' : Turns} → Runs turns turns' → Keeps turns turns'
Runs-Keeps {turns} here = Keeps-refl turns
Runs-Keeps {turns} {turns'} (next {t} r s) =
    Keeps-trans turns t turns' (Runs-Keeps r) (Step-Keeps s)
