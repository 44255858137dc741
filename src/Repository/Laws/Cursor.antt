-- ===== src/Repository/Laws/Cursor.antt =====
-- Rows with rising identifiers and the cursor of `list_messages`; `save_message` keeps them rising.
use folioo_ai.Base.{
  ℕ, zero, suc, ◌+◌, ◌-◌, ◌≤◌, ◌<◌, ◌≡◌, refl, ◌∙◌, ap, Bool, true, Option, none, some, List, [],
  ◌∷◌, ◌++◌, arith, ltb, length, take, select,
}
use folioo_ai.Repository.Messages.{
  MessageRow, MessageTable, NewMessage, save_message, of_page, after_cursor, last_id,
}

-- The identifiers rise along the table, and all lie below the next one.
abbrev pub IsAbove : ℕ → List MessageRow → Type 0
IsAbove low [] = Unit
IsAbove low (r ∷ rs) = (low ≤ r.id) × IsAbove (suc r.id) rs

abbrev pub Below : ℕ → List MessageRow → Type 0
Below top [] = Unit
Below top (r ∷ rs) = (r.id < top) × Below top rs

pub record IsNumbered (t : MessageTable) : Type 0 where
  pub rising : IsAbove 0 t.rows
  pub fresh : Below t.next_id t.rows

IsAbove-append :
    (low next : ℕ) (rs : List MessageRow) (m : MessageRow)
    → m.id ≡ next
    → low ≤ next
    → IsAbove low rs
    → Below next rs
    → IsAbove low (rs ++ (m ∷ []))
IsAbove-append low next [] m e l a b = (omega arith, tt)
IsAbove-append low next (r ∷ rs) m e l (h, a) (k, b) =
    (h, IsAbove-append (suc r.id) next rs m e k a b)

Below-append :
    (next : ℕ) (rs : List MessageRow) (m : MessageRow)
    → m.id ≡ next
    → Below next rs
    → Below (next + 1) (rs ++ (m ∷ []))
Below-append next [] m e b = (omega arith, tt)
Below-append next (r ∷ rs) m e (h, b) = (omega arith, Below-append next rs m e b)

-- Saving a message keeps the numbering.
pub save_message-IsNumbered :
    (now user session request : ℕ) (m : NewMessage) (t : MessageTable)
    → IsNumbered t
    → IsNumbered (save_message now user session request m t)
unfolding save_message
save_message-IsNumbered now user session request m t n = record {
  rising = IsAbove-append 0 t.next_id t.rows _ refl (omega arith) n.rising n.fresh;
  fresh = Below-append t.next_id t.rows _ refl n.fresh;
}

abbrev pub drop : ℕ → List MessageRow → List MessageRow
drop zero rs = rs
drop (suc n) [] = []
drop (suc n) (r ∷ rs) = drop n rs

-- The rows after a cursor.
abbrev pub after : Option ℕ → List MessageRow → List MessageRow
after cursor = select (λ r. after_cursor cursor r.id)

pub after-none : (rs : List MessageRow) → after none rs ≡ rs
after-none [] = refl
after-none (r ∷ rs) = ap (λ l. r ∷ l) (after-none rs)

after_all : (low c : ℕ) (rs : List MessageRow) → c < low → IsAbove low rs → after (some c) rs ≡ rs
after_all low c [] h a = refl
after_all low c (r ∷ rs) h (k, a) = ground (arith, after_all (suc r.id) c rs (omega arith) a)

pub last_id-ge :
    (n low c : ℕ) (rs : List MessageRow)
    → IsAbove low rs
    → last_id (take (suc n) rs) ≡ some c
    → low ≤ c
last_id-ge n low c [] a e = absurd (ground arith)
last_id-ge zero low c (r ∷ rs) (k, a) e = ground arith
last_id-ge (suc n) low c (r ∷ []) (k, a) e = ground arith
last_id-ge (suc n) low c (r ∷ s ∷ rs) (k, a) e =
    omega (arith, last_id-ge n (suc r.id) c (s ∷ rs) a e)

-- Of rising rows, those after the last row of a full page are the rest.
pub after-last_id :
    (n low c : ℕ) (rs : List MessageRow)
    → IsAbove low rs
    → n < length rs
    → last_id (take (suc n) rs) ≡ some c
    → after (some c) rs ≡ drop (suc n) rs
after-last_id n low c [] a h e = absurd (omega arith)
after-last_id zero low c (r ∷ rs) (k, a) h e = ground (arith, after_all (suc r.id) c rs)
after-last_id (suc n) low c (r ∷ []) (k, a) h e = absurd (omega arith)
after-last_id (suc n) low c (r ∷ s ∷ rs) (k, a) h e =
    skip r c (s ∷ rs) (last_id-ge n (suc r.id) c (s ∷ rs) a e)
    ∙ after-last_id n (suc r.id) c (s ∷ rs) a (omega arith) e
  where
    skip :
        (r : MessageRow) (c : ℕ) (rs : List MessageRow)
        → suc r.id ≤ c
        → after (some c) (r ∷ rs) ≡ after (some c) rs
    skip r c rs h = ground arith

IsAbove-weaken :
    (low low' : ℕ) (rs : List MessageRow) → low ≤ low' → IsAbove low' rs → IsAbove low rs
IsAbove-weaken low low' [] h a = tt
IsAbove-weaken low low' (r ∷ rs) h (k, a) = (omega arith, a)

pub IsAbove-select :
    (p : MessageRow → Bool) (low : ℕ) (rs : List MessageRow)
    → IsAbove low rs
    → IsAbove low (select p rs)
IsAbove-select p low [] a = tt
IsAbove-select p low (r ∷ rs) (k, a) =
    ground (arith, IsAbove-select p (suc r.id) rs a, IsAbove-weaken low (suc r.id) (select p rs))

IsAbove-after :
    (k low : ℕ) (rs : List MessageRow) → IsAbove low rs → IsAbove (suc k) (after (some k) rs)
IsAbove-after k low [] a = tt
IsAbove-after k low (r ∷ rs) (h, a) = ground (
  arith,
  IsAbove-after k (suc r.id) rs a,
  IsAbove-select (λ x. after_cursor (some k) x.id) (suc r.id) rs a,
)

-- The lower bound that a cursor sets.
abbrev pub floor : Option ℕ → ℕ
floor none = 0
floor (some k) = suc k

pub IsAbove-after_cursor :
    (cursor : Option ℕ) (rs : List MessageRow)
    → IsAbove 0 rs
    → IsAbove (floor cursor) (after cursor rs)
IsAbove-after_cursor none rs a = IsAbove-select (λ _. true) 0 rs a
IsAbove-after_cursor (some k) rs a = IsAbove-after k 0 rs a

pub after-after :
    (cursor : Option ℕ) (c : ℕ) (rs : List MessageRow)
    → floor cursor ≤ c
    → after (some c) (after cursor rs) ≡ after (some c) rs
after-after cursor c [] h = refl
after-after none c (r ∷ rs) h = ground (arith, after-after none c rs)
after-after (some k) c (r ∷ rs) h = ground (arith, after-after (some k) c rs)

pub select-of_page :
    (user session : ℕ) (cursor : Option ℕ) (rs : List MessageRow)
    → select (of_page user session cursor) rs ≡ after cursor (select (of_page user session none) rs)
select-of_page user session cursor [] = refl
select-of_page user session none (r ∷ rs) = ground (arith, select-of_page user session none rs)
select-of_page user session (some k) (r ∷ rs) =
    ground (arith, select-of_page user session (some k) rs)

pub take-take-suc : (n : ℕ) (rs : List MessageRow) → take n (take (suc n) rs) ≡ take n rs
take-take-suc zero rs = refl
take-take-suc (suc n) [] = refl
take-take-suc (suc n) (r ∷ rs) = ap (λ l. r ∷ l) (take-take-suc n rs)

pub take_all : (n : ℕ) (rs : List MessageRow) → length rs ≤ n → take n rs ≡ rs
take_all zero [] h = refl
take_all zero (r ∷ rs) h = absurd (omega arith)
take_all (suc n) [] h = refl
take_all (suc n) (r ∷ rs) h = ap (λ l. r ∷ l) (take_all n rs (omega arith))

pub take-append-drop : (n : ℕ) (rs : List MessageRow) → take n rs ++ drop n rs ≡ rs
take-append-drop zero rs = refl
take-append-drop (suc n) [] = refl
take-append-drop (suc n) (r ∷ rs) = ap (λ l. r ∷ l) (take-append-drop n rs)

pub length-take-suc :
    (n : ℕ) (rs : List MessageRow) → ltb n (length (take (suc n) rs)) ≡ ltb n (length rs)
length-take-suc zero [] = refl
length-take-suc zero (r ∷ rs) = ground arith
length-take-suc (suc n) [] = refl
length-take-suc (suc n) (r ∷ rs) = ground (arith, length-take-suc n rs)

pub length-drop : (n : ℕ) (rs : List MessageRow) → length (drop n rs) ≡ length rs - n
length-drop zero rs = omega arith
length-drop (suc n) [] = omega arith
length-drop (suc n) (r ∷ rs) = omega (arith, length-drop n rs)

pub last_id-take :
    (n : ℕ) (rs : List MessageRow) → n < length rs → (c : ℕ) × (last_id (take (suc n) rs) ≡ some c)
last_id-take n [] h = absurd (omega arith)
last_id-take zero (r ∷ rs) h = (r.id, refl)
last_id-take (suc n) (r ∷ []) h = absurd (omega arith)
last_id-take (suc n) (r ∷ s ∷ rs) h = last_id-take n (s ∷ rs) (omega arith)
