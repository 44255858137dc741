-- ===== src/Kakao/Laws/Deliver.antt =====
-- `_deliver` on a turn whose callback nobody has tried.
use folioo_ai.Base.{
  ℕ, String, ◌≡◌, refl, Option, none, some, List, [], ◌∷◌, arith, returning, fetchrow,
  if◌then◌else◌, leb,
}
use folioo_ai.Kakao.Rows.{TurnRow, Delivery, not_attempted, Payload, is_turn, get_turn}
use folioo_ai.Kakao.Store.{
  Turns, claim_delivery, finish_delivery, deliverable, claim_delivery_row, finish_row,
}
use folioo_ai.Kakao.Turn.{World}
use folioo_ai.Kakao.Settle.{Call, post, deliver, status_of}
use folioo_ai.Kakao.Laws.Settle.{get_turn-update_where}

-- The row that `_deliver` leaves of a row whose delivery is open, and its calls.
abbrev pub delivered_row : World → TurnRow → TurnRow
delivered_row w r = elim r.reply_payload [
  | none ↦ finish_row w.finished_at not_attempted r
  | some p ↦
      if leb r.expires_at w.deliver_clock
      then finish_row w.finished_at not_attempted r
      else finish_row w.finished_at (status_of w.sent) (claim_delivery_row w.claimed_at r)
]

abbrev pub delivery_calls : World → TurnRow → Option String → Option Payload → List Call
delivery_calls w r (some u) (some p) =
    if leb r.expires_at w.deliver_clock then [] else post u p ∷ []
delivery_calls w r _ _ = []

-- A turn with an outcome whose callback nobody has tried.
pub record IsWaiting (r : TurnRow) (url : String) : Type 0 where
  pub unclaimed : r.delivery_claimed_at ≡ none
  pub has_url : r.callback_url ≡ some url

finish_delivery-row :
    (now request : ℕ) (d : Delivery) (r : TurnRow) (turns : Turns)
    → r.request_id ≡ request
    → get_turn request turns ≡ some r
    → get_turn request (finish_delivery now request d turns) ≡ some (finish_row now d r)
unfolding finish_delivery
finish_delivery-row now request d r turns same e = ground (
  arith,
  get_turn-update_where request (is_turn request) (finish_row now d) (λ _. refl) turns r e,
)

pub claim_delivery-row :
    (now : ℕ) (r : TurnRow) (url : String) (turns : Turns)
    → IsWaiting r url
    → get_turn r.request_id turns ≡ some r
    → ((claim_delivery now r.request_id turns).0 ≡ some url)
      × (get_turn r.request_id (claim_delivery now r.request_id turns).1
          ≡ some (claim_delivery_row now r))
unfolding claim_delivery
claim_delivery-row now r url turns h e = (
  ground (arith, h, first turns e),
  ground (
    arith,
    h,
    get_turn-update_where r.request_id (deliverable r.request_id) (claim_delivery_row now)
        (λ _. refl) turns r e,
  ),
)
  where
    first :
        (rows : Turns)
        → get_turn r.request_id rows ≡ some r
        → fetchrow (returning (deliverable r.request_id) (claim_delivery_row now) rows)
          ≡ some (claim_delivery_row now r)
    first [] e = absurd (ground arith)
    first (x ∷ xs) e = ground (arith, h, first xs)

pub deliver_lem :
    (w : World) (r : TurnRow) (url : String) (turns : Turns)
    → IsWaiting r url
    → get_turn r.request_id turns ≡ some r
    → ((deliver w r turns).0 ≡ delivery_calls w r (some url) r.reply_payload)
      × (get_turn r.request_id (deliver w r turns).1 ≡ some (delivered_row w r))
unfolding deliver
deliver_lem w r url turns h e =
    let c = claim_delivery-row w.claimed_at r url turns h e in
    let late = finish_delivery-row w.finished_at r.request_id not_attempted r turns refl e in
    let sent =
      finish_delivery-row w.finished_at r.request_id (status_of w.sent)
        (claim_delivery_row w.claimed_at r) (claim_delivery w.claimed_at r.request_id turns).1 refl
        c.1 in
    ground (arith, h, c, late, sent)
