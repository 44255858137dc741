-- ===== src/Repository/Laws/Pages.antt =====
-- `list_messages`: a client that follows the cursors reads each message of a session once.
use folioo_ai.Base.{
  ℕ, zero, suc, ◌<◌, ◌≡◌, sym, ◌∙◌, ap, Option, none, some, List, [], ◌++◌, arith, if◌then◌else◌,
  ltb, length, take, select, Bool-cases, inl, inr, tests,
}
use folioo_ai.Repository.Messages.{MessageRow, MessageTable, list_messages, of_page, last_id}
use folioo_ai.Repository.Laws.Cursor.{
  IsAbove, IsNumbered, drop, after, floor, last_id-ge, after-last_id, IsAbove-select,
  IsAbove-after_cursor, after-after, select-of_page, take-take-suc, take_all, take-append-drop,
  length-take-suc, length-drop, last_id-take, after-none,
}

-- A page, and what follows if it has a cursor.
abbrev page_then : List MessageRow × Option ℕ → (ℕ → List MessageRow) → List MessageRow
page_then (rows, none) more = rows
page_then (rows, some c) more = rows ++ more c

module _ (user session limit : ℕ) (t : MessageTable) where
  -- The messages of the session, in the order of the table.
  abbrev pub history : List MessageRow
  history = select (of_page user session none) t.rows

  -- The client: it asks for a page, and goes on from the cursor that it is given.
  pub read_pages : ℕ → Option ℕ → List MessageRow
  read_pages zero cursor = []
  read_pages (suc fuel) cursor =
      page_then (list_messages user session cursor limit t) (λ c. read_pages fuel (some c))

  page_of :
      (cursor : Option ℕ)
      → let rest = after cursor history in
        list_messages user session cursor limit t
        ≡ (take limit rest, if ltb limit (length rest) then last_id (take limit rest) else none)
  unfolding list_messages
  page_of cursor = rw select-of_page (
      rw (take-take-suc limit (after cursor history), length-take-suc limit (after cursor history)))

module _ (user session n : ℕ) (t : MessageTable) (numbered : IsNumbered t) where
  abbrev rest : Option ℕ → List MessageRow
  rest cursor = after cursor (history user session (suc n) t)

  rest-IsAbove : (cursor : Option ℕ) → IsAbove (floor cursor) (rest cursor)
  rest-IsAbove cursor =
      IsAbove-after_cursor cursor (history user session (suc n) t)
        (IsAbove-select (of_page user session none) 0 t.rows numbered.rising)

  -- What the cursor of a full page leaves.
  next_rest :
      (cursor : Option ℕ) (c : ℕ)
      → n < length (rest cursor)
      → last_id (take (suc n) (rest cursor)) ≡ some c
      → rest (some c) ≡ drop (suc n) (rest cursor)
  next_rest cursor c long e =
      sym (
        after-after cursor c (history user session (suc n) t)
          (last_id-ge n (floor cursor) c (rest cursor) (rest-IsAbove cursor) e))
      ∙ after-last_id n (floor cursor) c (rest cursor) (rest-IsAbove cursor) long e

  read_from :
      (fuel : ℕ) (cursor : Option ℕ)
      → length (rest cursor) < fuel
      → read_pages user session (suc n) t fuel cursor ≡ rest cursor
  unfolding read_pages
  read_from zero cursor h = absurd (omega arith)
  read_from (suc fuel) cursor h =
      ap (λ out. page_then out (λ c. read_pages user session (suc n) t fuel (some c)))
        (page_of user session (suc n) t cursor)
      ∙ elim (Bool-cases (ltb (suc n) (length (rest cursor)))) [
        | inr last ↦ rw last (take_all (suc n) (rest cursor) (ground arith))
        | inl more ↦
            let (c, e) = last_id-take n (rest cursor) (ground arith) in
            let left = next_rest cursor c (ground arith) e in
            let later =
              read_from fuel (some c)
                (omega (tests, more, ap length left, length-drop (suc n) (rest cursor))) in
            rw (more, e, later, left) (take-append-drop (suc n) (rest cursor))
      ]

  -- With a page size of one or more, following the cursors from the start to the page that has
  -- none gives the session's messages, each once and in order. As many rounds as there are
  -- messages, and one more, are enough.
  pub read_pages_all :
      (fuel : ℕ)
      → length (history user session (suc n) t) < fuel
      → read_pages user session (suc n) t fuel none ≡ history user session (suc n) t
  read_pages_all fuel h = read_from fuel none (omega (arith, ap length all_rest)) ∙ all_rest
    where
      all_rest : rest none ≡ history user session (suc n) t
      all_rest = after-none (history user session (suc n) t)
