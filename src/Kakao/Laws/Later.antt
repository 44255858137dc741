-- ===== src/Kakao/Laws/Later.antt =====
-- How a turn's row can change under the statements of `KakaoTurnStore`, the purge apart.
use folioo_ai.Base.{
  ℕ, ◌≡◌, Bool, true, false, some, [], ◌∷◌, arith, is_some, update_where, if◌then◌else◌, Bool-cases,
  inl, inr, ◌⊎◌,
}
use folioo_ai.Kakao.Rows.{TurnRow, is_open, is_turn, get_turn}
use folioo_ai.Kakao.Store.{Turns}

-- A later state of a row: it is the same turn of the same user; a delivery that was claimed stays
-- claimed and a URL that was dropped stays dropped; a final state stays, with its outcome; what
-- was told to the main server stays told once the state is final.
pub record Later (r r' : TurnRow) : Type 0 where
  pub request : r'.request_id ≡ r.request_id
  pub user : r'.user_id ≡ r.user_id
  pub session : r'.session_id ≡ r.session_id
  pub hash : r'.request_hash ≡ r.request_hash
  pub claimed : is_some r.delivery_claimed_at ≡ true → is_some r'.delivery_claimed_at ≡ true
  pub dropped : is_some r.callback_url ≡ false → is_some r'.callback_url ≡ false
  pub final : is_open r.state ≡ false → r'.state ≡ r.state
  pub outcome_kept : is_open r.state ≡ false → is_some r.outcome ≡ true → r'.outcome ≡ r.outcome
  pub outcome_there : is_some r.outcome ≡ true → is_some r'.outcome ≡ true
  pub reported : is_open r.state ≡ false → r.usage_reported ≡ true → r'.usage_reported ≡ true
  pub notified : is_open r.state ≡ false → r.complete_notified ≡ true → r'.complete_notified ≡ true

pub Later-refl : (r : TurnRow) → Later r r
Later-refl r = ground arith

pub Later-trans : {r s t : TurnRow} → Later r s → Later s t → Later r t
Later-trans a b = ground arith

-- Every row stays, later.
abbrev pub Keeps : Turns → Turns → Type 0
Keeps turns turns' =
    (request : ℕ) (r : TurnRow)
    → get_turn request turns ≡ some r
    → (r' : TurnRow) × (get_turn request turns' ≡ some r') × Later r r'

pub Keeps-refl : (turns : Turns) → Keeps turns turns
Keeps-refl turns request r e = (r, e, Later-refl r)

pub Keeps-trans : (a b c : Turns) → Keeps a b → Keeps b c → Keeps a c
Keeps-trans a b c ab bc request r e =
    let (s, es, ls) = ab request r e in
    let (t, et, lt) = bc request s es in (t, et, Later-trans ls lt)

Keeps-cons :
    (x x' : TurnRow) (xs xs' : Turns) → Later x x' → Keeps xs xs' → Keeps (x ∷ xs) (x' ∷ xs')
Keeps-cons x x' xs xs' l k request r e = elim (Bool-cases (is_turn request x)) [
  | inl m ↦ (x', ground (arith, l.request), ground (arith, l))
  | inr m ↦ let (s, es, ls) = k request r (ground arith) in (s, ground (arith, l.request), ls)
]

-- An update whose every change leads to a later row keeps the table.
pub Keeps-update_where :
    (p : TurnRow → Bool) (f : TurnRow → TurnRow)
    → ((r : TurnRow) → p r ≡ true → Later r (f r))
    → (turns : Turns) → Keeps turns (update_where p f turns)
Keeps-update_where p f h [] = Keeps-refl []
Keeps-update_where p f h (x ∷ xs) =
    Keeps-cons x _ xs _ (changed (Bool-cases (p x))) (Keeps-update_where p f h xs)
  where
    changed : ((p x ≡ true) ⊎ (p x ≡ false)) → Later x (if p x then f x else x)
    changed (inl m) = rw m (h x m)
    changed (inr m) = rw m (Later-refl x)
