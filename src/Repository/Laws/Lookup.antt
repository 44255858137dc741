-- ===== src/Repository/Laws/Lookup.antt =====
-- Finding a row by its key after a statement.
use folioo_ai.Base.{
  ℕ, ◌≡◌, refl, Bool, true, false, ◌&&◌, none, some, List, [], ◌∷◌, arith, any, if◌then◌else◌,
  select_first, select, update_where, delete_where, returning, fetchrow,
}
use mathlib.Core.Option
use folioo_ai.Repository.Rows.{RequestRow, is_request}
use folioo_ai.Repository.Invariant.{UniqueKeys}
use folioo_ai.Repository.Invariant.Updates.{any-delete_where}

pub select_first-fits :
    (p : RequestRow → Bool) (rows : List RequestRow) (row : RequestRow)
    → select_first p rows ≡ some row
    → p row ≡ true
select_first-fits p [] row e = absurd (ground arith)
select_first-fits p (r ∷ rs) row e = ground (arith, select_first-fits p rs row)

pub any-select_first :
    (p q : RequestRow → Bool) (rows : List RequestRow) (row : RequestRow)
    → select_first p rows ≡ some row
    → q row ≡ true
    → any q rows ≡ true
any-select_first p q [] row e h = absurd (ground arith)
any-select_first p q (r ∷ rs) row e h = ground (arith, any-select_first p q rs row)

pub select_first-eq-none :
    (p : RequestRow → Bool) (rows : List RequestRow)
    → any p rows ≡ false
    → select_first p rows ≡ none
select_first-eq-none p [] h = refl
select_first-eq-none p (r ∷ rs) h = ground (arith, select_first-eq-none p rs)

pub fetchrow-returning :
    (p : RequestRow → Bool) (f : RequestRow → RequestRow) (rows : List RequestRow)
    → fetchrow (returning p f rows) ≡ Option.map f (select_first p rows)
fetchrow-returning p f [] = refl
fetchrow-returning p f (r ∷ rs) = ground (arith, fetchrow-returning p f rs)

pub select-eq-nil :
    (p : RequestRow → Bool) (rows : List RequestRow) → any p rows ≡ false → select p rows ≡ []
select-eq-nil p [] h = refl
select-eq-nil p (r ∷ rs) h = ground (arith, select-eq-nil p rs)

-- What an update leaves at a key.
pub select_first-update_where :
    (user request : ℕ) (p : RequestRow → Bool) (f : RequestRow → RequestRow)
    → ((r : RequestRow) → (f r).user_id ≡ r.user_id)
    → ((r : RequestRow) → (f r).request_id ≡ r.request_id)
    → (rows : List RequestRow)
    → select_first (is_request user request) (update_where p f rows)
      ≡ Option.map (λ r. if p r then f r else r) (select_first (is_request user request) rows)
select_first-update_where user request p f hu hr [] = refl
select_first-update_where user request p f hu hr (r ∷ rs) =
    ground (arith, hu r, hr r, select_first-update_where user request p f hu hr rs)

pub select_first-delete_where :
    (user request : ℕ) (p : RequestRow → Bool) (rows : List RequestRow) (row : RequestRow)
    → select_first (is_request user request) rows ≡ some row
    → p row ≡ false
    → select_first (is_request user request) (delete_where p rows) ≡ some row
select_first-delete_where user request p [] row e h = e
select_first-delete_where user request p (r ∷ rs) row e h =
    ground (arith, select_first-delete_where user request p rs row)

pub select_first-deleted :
    (user request : ℕ) (p : RequestRow → Bool) (rows : List RequestRow) (row : RequestRow)
    → UniqueKeys rows
    → select_first (is_request user request) rows ≡ some row
    → p row ≡ true
    → select_first (is_request user request) (delete_where p rows) ≡ none
select_first-deleted user request p [] row u e h = absurd (ground arith)
select_first-deleted user request p (r ∷ rs) row (fresh, u) e h = ground (
  arith,
  select_first-deleted user request p rs row u,
  any-delete_where (is_request user request) p rs,
  select_first-eq-none (is_request user request) (delete_where p rs),
)

-- An update of one key, filtered by `q`, touches the row of the key if `q` holds there.
module _ (user request : ℕ) (q : RequestRow → Bool) (f : RequestRow → RequestRow) where
  abbrev pub at_key : RequestRow → Bool
  at_key r = is_request user request r && q r

  pub update_where-absent :
      (rows : List RequestRow)
      → select_first (is_request user request) rows ≡ none
      → (update_where at_key f rows ≡ rows) × (returning at_key f rows ≡ [])
  update_where-absent [] e = (refl, refl)
  update_where-absent (r ∷ rs) e = ground (arith, update_where-absent rs)

  no_key :
      (rows : List RequestRow)
      → any (is_request user request) rows ≡ false
      → (update_where at_key f rows ≡ rows) × (returning at_key f rows ≡ [])
  no_key [] e = (refl, refl)
  no_key (r ∷ rs) e = ground (arith, no_key rs)

  pub update_where-refused :
      (rows : List RequestRow) (row : RequestRow)
      → UniqueKeys rows
      → select_first (is_request user request) rows ≡ some row
      → q row ≡ false
      → (update_where at_key f rows ≡ rows) × (returning at_key f rows ≡ [])
  update_where-refused [] row u e h = (refl, refl)
  update_where-refused (r ∷ rs) row (fresh, u) e h =
      ground (arith, update_where-refused rs row u, no_key rs)

  pub returning-accepted :
      (rows : List RequestRow) (row : RequestRow)
      → UniqueKeys rows
      → select_first (is_request user request) rows ≡ some row
      → q row ≡ true
      → returning at_key f rows ≡ f row ∷ []
  returning-accepted [] row u e h = absurd (ground arith)
  returning-accepted (r ∷ rs) row (fresh, u) e h =
      ground (arith, returning-accepted rs row u, no_key rs)
