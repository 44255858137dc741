-- ===== src/MapContext/Laws/Depth.antt =====
-- The levels of an accepted map: a block's children are one level below it.
use mathlib.Core.Path.{subst}
use folioo_ai.Base.{
  ℕ, zero, suc, ◌≤◌, true, false, ◌≡◌, refl, sym, some, List, [], ◌∷◌, ◌==◌, arith, inl, inr,
  Option-cases, Bool-cases, if◌then◌else◌, select, sql_eq, any,
}
use folioo_ai.MapContext.Snapshot.{
  MapBlockRow, by_id, rows_fit, parent_fits, parents_fit, sorts_before, insert_row, sort_rows,
  is_root,
}

-- The row is the one of its id.
abbrev pub IsKnown : List MapBlockRow → MapBlockRow → Type 0
IsKnown rows r = by_id r.block_id rows ≡ some r

abbrev pub AtLevel : List MapBlockRow → ℕ → List MapBlockRow → Type 0
AtLevel rows l [] = Unit
AtLevel rows l (r ∷ rs) = IsKnown rows r × (r.level ≡ l) × AtLevel rows l rs

AtLevel-insert_row :
    (rows : List MapBlockRow) (l : ℕ) (r : MapBlockRow) (rs : List MapBlockRow)
    → IsKnown rows r
    → r.level ≡ l
    → AtLevel rows l rs
    → AtLevel rows l (insert_row r rs)
AtLevel-insert_row rows l r [] k e a = (k, e, a)
AtLevel-insert_row rows l r (x ∷ xs) k e (k', e', a) = elim (Bool-cases (sorts_before r x)) [
  | inl b ↦
      subst (λ z. AtLevel rows l (if z then r ∷ x ∷ xs else x ∷ insert_row r xs)) (sym b)
        (k, e, (k', e', a))
  | inr b ↦
      subst (λ z. AtLevel rows l (if z then r ∷ x ∷ xs else x ∷ insert_row r xs)) (sym b)
        (k', e', AtLevel-insert_row rows l r xs k e a)
]

pub AtLevel-sort_rows :
    (rows : List MapBlockRow) (l : ℕ) (rs : List MapBlockRow)
    → AtLevel rows l rs
    → AtLevel rows l (sort_rows rs)
AtLevel-sort_rows rows l [] a = a
AtLevel-sort_rows rows l (r ∷ rs) (k, e, a) =
    AtLevel-insert_row rows l r (sort_rows rs) k e (AtLevel-sort_rows rows l rs a)

-- Rows that are all the map's, with parents that fit.
abbrev pub Fits : List MapBlockRow → List MapBlockRow → Type 0
Fits rows [] = Unit
Fits rows (r ∷ rs) = IsKnown rows r × (parent_fits rows r r.parent_id ≡ true) × Fits rows rs

level-below :
    (rows : List MapBlockRow) (p r : MapBlockRow)
    → IsKnown rows p
    → parent_fits rows r r.parent_id ≡ true
    → sql_eq r.parent_id p.block_id ≡ true
    → r.level ≡ suc p.level
level-below rows p r k f e = elim (Option-cases r.parent_id) [
  | inl n ↦ absurd (ground (arith, n))
  | inr (i, n) ↦ ground (arith, n, k)
]

pub AtLevel-select :
    (rows : List MapBlockRow) (p : MapBlockRow) (rs : List MapBlockRow)
    → IsKnown rows p
    → Fits rows rs
    → AtLevel rows (suc p.level) (select (λ r. sql_eq r.parent_id p.block_id) rs)
AtLevel-select rows p [] k f = tt
AtLevel-select rows p (r ∷ rs) k (kr, fr, f) = elim (Bool-cases (sql_eq r.parent_id p.block_id)) [
  | inl b ↦
      subst (λ z. AtLevel rows (suc p.level) (if z then r ∷ chosen rs else chosen rs)) (sym b)
        (kr, level-below rows p r k fr b, AtLevel-select rows p rs k f)
  | inr b ↦
      subst (λ z. AtLevel rows (suc p.level) (if z then r ∷ chosen rs else chosen rs)) (sym b)
        (AtLevel-select rows p rs k f)
]
  where
    chosen : List MapBlockRow → List MapBlockRow
    chosen xs = select (λ y. sql_eq y.parent_id p.block_id) xs

pub level-le :
    (rows : List MapBlockRow) (id : ℕ) (r : MapBlockRow)
    → rows_fit rows ≡ true
    → by_id id rows ≡ some r
    → r.level ≤ 5
level-le [] id r f k = absurd (ground arith)
level-le (x ∷ xs) id r f k = ground (arith, level-le xs id r)

pub level-ge :
    (rows : List MapBlockRow) (id : ℕ) (r : MapBlockRow)
    → rows_fit rows ≡ true
    → by_id id rows ≡ some r
    → 1 ≤ r.level
level-ge [] id r f k = absurd (ground arith)
level-ge (x ∷ xs) id r f k = ground (arith, level-ge xs id r)

pub predecessor : (n : ℕ) → 1 ≤ n → (m : ℕ) × (n ≡ suc m)
predecessor zero h = absurd (omega arith)
predecessor (suc m) h = (m, refl)

abbrev pub AllKnown : List MapBlockRow → List MapBlockRow → Type 0
AllKnown rows [] = Unit
AllKnown rows (r ∷ rs) = IsKnown rows r × AllKnown rows rs

AllKnown-cons :
    (x : MapBlockRow) (xs rs : List MapBlockRow)
    → any (λ y. y.block_id == x.block_id) rs ≡ false
    → AllKnown xs rs
    → AllKnown (x ∷ xs) rs
AllKnown-cons x xs [] e k = tt
AllKnown-cons x xs (r ∷ rs) e (kr, k) = (ground (arith, kr), AllKnown-cons x xs rs (ground arith) k)

pub AllKnown-self : (rows : List MapBlockRow) → rows_fit rows ≡ true → AllKnown rows rows
AllKnown-self [] u = tt
AllKnown-self (r ∷ rs) u =
    (ground arith, AllKnown-cons r rs rs (ground arith) (AllKnown-self rs (ground arith)))

pub Fits-of :
    (rows rs : List MapBlockRow) → AllKnown rows rs → parents_fit rows rs ≡ true → Fits rows rs
Fits-of rows [] k p = tt
Fits-of rows (r ∷ rs) (kr, k) p = (kr, ground arith, Fits-of rows rs k (ground arith))

root-level :
    (rows : List MapBlockRow) (r : MapBlockRow)
    → parent_fits rows r r.parent_id ≡ true
    → is_root r.parent_id ≡ true
    → r.level ≡ 1
root-level rows r f e = elim (Option-cases r.parent_id) [
  | inl n ↦ ground (arith, n)
  | inr (i, n) ↦ absurd (ground (arith, n))
]

pub AtLevel-roots :
    (rows rs : List MapBlockRow)
    → Fits rows rs
    → AtLevel rows 1 (select (λ r. is_root r.parent_id) rs)
AtLevel-roots rows [] f = tt
AtLevel-roots rows (r ∷ rs) (kr, fr, f) = elim (Bool-cases (is_root r.parent_id)) [
  | inl b ↦
      subst (λ z. AtLevel rows 1 (if z then r ∷ roots rs else roots rs)) (sym b)
        (kr, root-level rows r fr b, AtLevel-roots rows rs f)
  | inr b ↦
      subst (λ z. AtLevel rows 1 (if z then r ∷ roots rs else roots rs)) (sym b)
        (AtLevel-roots rows rs f)
]
  where
    roots : List MapBlockRow → List MapBlockRow
    roots xs = select (λ y. is_root y.parent_id) xs
