-- ===== src/Repository/Invariant/Updates.antt =====
-- Updates of a table row by row, and the invariant.
use folioo_ai.Base.{
  any-update_where, update_where-eq_self, ◌≡◌, refl, ◌≢◌, Bool, true, false, List, [], ◌∷◌, some,
  arith, any, All, update_where, delete_where, select_first, Bool-cases, inl, inr, ℕ,
}
use folioo_ai.Repository.Rows.{RequestRow, is_running, is_request, runs_in}
use folioo_ai.Repository.Invariant.{UniqueKeys, OneRunning, RowAgrees, Consistent}

pub any-delete_where :
    (q p : RequestRow → Bool) (rows : List RequestRow)
    → any q rows ≡ false
    → any q (delete_where p rows) ≡ false
any-delete_where q p [] e = refl
any-delete_where q p (r ∷ rs) e = ground (arith, any-delete_where q p rs)

pub All-of_forall :
    {P : RequestRow → Type 0} → ((r : RequestRow) → P r) → (rows : List RequestRow) → All P rows
All-of_forall h [] = tt
All-of_forall h (r ∷ rs) = (h r, All-of_forall h rs)

pub All-map :
    {P Q : RequestRow → Type 0}
    → ((r : RequestRow) → P r → Q r)
    → (rows : List RequestRow) → All P rows
    → All Q rows
All-map h [] a = tt
All-map h (r ∷ rs) (x, a) = (h r x, All-map h rs a)

-- An update that names neither the keys nor the session, and starts nothing.
pub record IsQuiet (r r' : RequestRow) : Type 0 where
  pub user : r'.user_id ≡ r.user_id
  pub session : r'.session_id ≡ r.session_id
  pub request : r'.request_id ≡ r.request_id
  pub starts_none : is_running r'.status ≡ true → is_running r.status ≡ true

module _ (p : RequestRow → Bool) (f : RequestRow → RequestRow) where
  pub UniqueKeys-update_where :
      ((r : RequestRow) → (f r).user_id ≡ r.user_id)
      → ((r : RequestRow) → (f r).request_id ≡ r.request_id)
      → (rows : List RequestRow) → UniqueKeys rows
      → UniqueKeys (update_where p f rows)
  UniqueKeys-update_where hu hr [] u = tt
  UniqueKeys-update_where hu hr (r ∷ rs) (fresh, u) = ground (
    arith,
    hu r,
    hr r,
    any-update_where (is_request r.user_id r.request_id) p f (λ x e. ground (arith, hu x, hr x)) rs
        fresh,
    UniqueKeys-update_where hu hr rs u,
  )

  pub OneRunning-update_where :
      ((r : RequestRow) → IsQuiet r (f r))
      → (rows : List RequestRow) → OneRunning rows
      → OneRunning (update_where p f rows)
  OneRunning-update_where quiet [] o = tt
  OneRunning-update_where quiet (r ∷ rs) (h, o) = ground (
    arith,
    quiet r,
    any-update_where (runs_in r.session_id) p f (λ x e. ground (arith, quiet x)) rs,
    OneRunning-update_where quiet rs o,
  )

  pub All-update_where :
      (rows : List RequestRow)
      → All (λ r. p r ≡ true → RowAgrees r → RowAgrees (f r)) rows
      → All RowAgrees rows
      → All RowAgrees (update_where p f rows)
  All-update_where [] h a = tt
  All-update_where (r ∷ rs) (h, hs) (ok, a) = elim (Bool-cases (p r)) [
    | inl e ↦ rw e (h e ok, All-update_where rs hs a)
    | inr e ↦ rw e (ok, All-update_where rs hs a)
  ]

  pub Consistent-update_where :
      ((r : RequestRow) → IsQuiet r (f r))
      → (rows : List RequestRow) → All (λ r. p r ≡ true → RowAgrees r → RowAgrees (f r)) rows
      → Consistent rows
      → Consistent (update_where p f rows)
  Consistent-update_where quiet rows ok c = record {
    unique = UniqueKeys-update_where (λ r. (quiet r).user) (λ r. (quiet r).request) rows c.unique;
    one_running = OneRunning-update_where quiet rows c.one_running;
    agree = All-update_where rows ok c.agree;
  }

  pub Consistent-update_all :
      ((r : RequestRow) → IsQuiet r (f r))
      → ((r : RequestRow) → p r ≡ true → RowAgrees r → RowAgrees (f r))
      → (rows : List RequestRow) → Consistent rows
      → Consistent (update_where p f rows)
  Consistent-update_all quiet ok rows c =
      Consistent-update_where quiet rows (All-of_forall ok rows) c

pub Consistent-delete_where :
    (p : RequestRow → Bool) (rows : List RequestRow)
    → Consistent rows
    → Consistent (delete_where p rows)
Consistent-delete_where p [] c = c
Consistent-delete_where p (r ∷ rs) c =
    let rest : Consistent (delete_where p rs) =
      Consistent-delete_where p rs
        (record { unique = c.unique.1; one_running = c.one_running.1; agree = c.agree.1 }) in
    elim (Bool-cases (p r)) [
      | inl e ↦ rw e rest
      | inr e ↦ rw e (record {
        unique = (any-delete_where _ p rs c.unique.0, rest.unique);
        one_running = (λ h. any-delete_where _ p rs (c.one_running.0 h), rest.one_running);
        agree = (c.agree.0, rest.agree);
      })
    ]

none_match :
    (p : RequestRow → Bool) (row : RequestRow) (rows : List RequestRow)
    → any p rows ≡ false
    → All (λ x. p x ≡ true → x ≡ row) rows
none_match p row [] h = tt
none_match p row (r ∷ rs) h = (λ e. ground arith, none_match p row rs (ground arith))

-- Under the primary key only the row that a lookup finds has its key.
pub All-select_first :
    (user request : ℕ) (rows : List RequestRow) (row : RequestRow)
    → UniqueKeys rows
    → select_first (is_request user request) rows ≡ some row
    → All (λ x. is_request user request x ≡ true → x ≡ row) rows
All-select_first user request [] row u e = tt
All-select_first user request (r ∷ rs) row (fresh, u) e =
    elim (Bool-cases (is_request user request r)) [
      | inl m ↦ (λ _. ground arith, absent rs (ground arith))
      | inr m ↦ (λ h. ground arith, All-select_first user request rs row u (ground arith))
    ]
  where
    absent :
        (xs : List RequestRow)
        → any (is_request user request) xs ≡ false
        → All (λ x. is_request user request x ≡ true → x ≡ row) xs
    absent xs h = none_match (is_request user request) row xs h

-- Restarting the one row of a key, in a session where nothing runs, leaves one running row.
module _ (user request session : ℕ) (f : RequestRow → RequestRow) where
  any-update_other :
      ((r : RequestRow) → (f r).session_id ≡ r.session_id)
      → (other : ℕ) → other ≢ session
      → (rows : List RequestRow)
      → All (λ x. is_request user request x ≡ true → x.session_id ≡ session) rows
      → any (runs_in other) rows ≡ false
      → any (runs_in other) (update_where (is_request user request) f rows) ≡ false
  any-update_other same other ne [] s e = refl
  any-update_other same other ne (r ∷ rs) (hs, s) e =
      ground (arith, same r, any-update_other same other ne rs s)

  pub OneRunning-update_one :
      ((r : RequestRow) → (f r).session_id ≡ r.session_id)
      → (rows : List RequestRow) → UniqueKeys rows
      → All (λ x. is_request user request x ≡ true → x.session_id ≡ session) rows
      → any (runs_in session) rows ≡ false
      → OneRunning rows
      → OneRunning (update_where (is_request user request) f rows)
  OneRunning-update_one same [] u s idle o = tt
  OneRunning-update_one same (r ∷ rs) (fresh, u) (hs, s) idle (h, o) =
      elim (Bool-cases (is_request user request r)) [
        | inl m ↦
            let absent : any (is_request user request) rs ≡ false = ground arith in
            rw (m, update_where-eq_self (is_request user request) f rs absent)
              (λ _. ground (arith, hs m, same r), o)
        | inr m ↦ rw m (
          λ running. any-update_other same r.session_id (ground arith) rs s (h running),
          OneRunning-update_one same rs (u) s (ground arith) o,
        )
      ]
