-- ===== src/MapContext/Laws/Whole.antt =====
-- Five levels are the whole tree of an accepted map.
use mathlib.Core.Path.{subst}
use folioo_ai.Base.{
  ℕ, zero, suc, ◌+◌, ◌≤◌, Bool, true, ◌&&◌, ◌||◌, ◌++◌, ◌≡◌, refl, sym, ap, ◌∙◌, none, some, List,
  [], ◌∷◌, ◌==◌, arith, inl, inr, Option-cases, Bool-cases, select, sql_eq, any,
}
use folioo_ai.MapContext.Snapshot.{
  MapBlockRow, Forest, by_id, rows_fit, parent_fits, parents_fit, sorts_before, insert_row,
  sort_rows, children_of, is_root, forest, build_map_snapshot, walk,
}
use folioo_ai.MapContext.Laws.Depth.{
  IsKnown, AtLevel, AtLevel-sort_rows, Fits, AtLevel-select, level-le, level-ge, predecessor,
  AllKnown, AllKnown-self, Fits-of, AtLevel-roots,
}

-- Is there a row of that id?
abbrev pub has : ℕ → List MapBlockRow → Bool
has id rows = any (λ r. r.block_id == id) rows

has-append : (id : ℕ) (xs ys : List MapBlockRow) → has id (xs ++ ys) ≡ (has id xs || has id ys)
has-append id [] ys = refl
has-append id (x ∷ xs) ys = ground (arith, has-append id xs ys)

has-insert_row :
    (id : ℕ) (r : MapBlockRow) (rs : List MapBlockRow)
    → has id (insert_row r rs) ≡ ((r.block_id == id) || has id rs)
has-insert_row id r [] = ground arith
has-insert_row id r (x ∷ xs) = elim (Bool-cases (sorts_before r x)) [
  | inl b ↦ ground (arith, b)
  | inr b ↦ ground (arith, b, has-insert_row id r xs)
]

has-sort_rows : (id : ℕ) (rs : List MapBlockRow) → has id (sort_rows rs) ≡ has id rs
has-sort_rows id [] = refl
has-sort_rows id (r ∷ rs) = ground (arith, has-insert_row id r (sort_rows rs), has-sort_rows id rs)

has-select :
    (p : MapBlockRow → Bool) (id : ℕ) (r : MapBlockRow) (rs : List MapBlockRow)
    → by_id id rs ≡ some r
    → p r ≡ true
    → has id (select p rs) ≡ true
has-select p id r [] e h = absurd (ground arith)
has-select p id r (x ∷ xs) e h = elim (Bool-cases (x.block_id == id)) [
  | inl b ↦ ground (arith, b)
  | inr b ↦ elim (Bool-cases (p x)) [
    | inl k ↦ ground (arith, b, k, has-select p id r xs)
    | inr k ↦ ground (arith, b, k, has-select p id r xs)
  ]
]

module _ (rows : List MapBlockRow) (u : rows_fit rows ≡ true) (v : Fits rows rows) where
  AtLevel-children :
      (r : MapBlockRow) → IsKnown rows r → AtLevel rows (suc r.level) (children_of rows r.block_id)
  AtLevel-children r k = AtLevel-sort_rows rows (suc r.level) _ (AtLevel-select rows r rows k v)

  too_deep : {A : Type 0} (l : ℕ) (r : MapBlockRow) → IsKnown rows r → r.level ≡ l → 6 ≤ l + 0 → A
  too_deep l r k e h = absurd (omega (arith, level-le rows r.block_id r u k, e))

  -- With fuel down to level 5, the rows themselves are in the forest,
  has-forest :
      (fuel l : ℕ) (rs : List MapBlockRow)
      → AtLevel rows l rs
      → 6 ≤ l + fuel
      → (id : ℕ) → has id rs ≡ true
      → has id (walk (forest fuel rows rs)) ≡ true
  unfolding forest
  has-forest fuel l [] a h id e = absurd (ground arith)
  has-forest zero l (r ∷ rs) (k, q, a) h id e = too_deep l r k q h
  has-forest (suc fuel) l (r ∷ rs) (k, q, a) h id e = elim (Bool-cases (r.block_id == id)) [
    | inl b ↦ ground (arith, b)
    | inr b ↦ ground (
      arith,
      has-append id (walk (forest fuel rows (children_of rows r.block_id)))
          (walk (forest (suc fuel) rows rs)),
      has-forest (suc fuel) l rs a h id (ground (arith, b)),
    )
  ]

  -- with the children of each block of it,
  has-children :
      (fuel l : ℕ) (rs : List MapBlockRow)
      → AtLevel rows l rs
      → 6 ≤ l + fuel
      → (p id : ℕ) → has p (walk (forest fuel rows rs)) ≡ true
      → has id (children_of rows p) ≡ true
      → has id (walk (forest fuel rows rs)) ≡ true
  unfolding forest
  has-children zero l [] a h p id e c = absurd (ground arith)
  has-children (suc fuel) l [] a h p id e c = absurd (ground arith)
  has-children zero l (r ∷ rs) (k, q, a) h p id e c = too_deep l r k q h
  has-children (suc fuel) l (r ∷ rs) (k, q, a) h p id e c =
      let inner = forest fuel rows (children_of rows r.block_id) in
      let later = forest (suc fuel) rows rs in
      let below = AtLevel-children r k in
      let deep : 6 ≤ suc r.level + fuel = omega (arith, q) in
      elim (Bool-cases (r.block_id == p)) [
        | inl b ↦ ground (
          arith,
          has-append id (walk inner) (walk later),
          has-forest fuel (suc r.level) _ below deep id
              (subst (λ z. has id (children_of rows z) ≡ true) (ground (arith, b)) c),
        )
        | inr b ↦ elim (Bool-cases (has p (walk inner))) [
          | inl i ↦ ground (
            arith,
            has-append id (walk inner) (walk later),
            has-children fuel (suc r.level) _ below deep p id i c,
          )
          | inr i ↦ ground (
            arith,
            has-append id (walk inner) (walk later),
            has-children (suc fuel) l rs a h p id
                (ground (arith, b, i, e, has-append p (walk inner) (walk later))) c,
          )
        ]
      ]

  AllKnown-append :
      (xs ys : List MapBlockRow) → AllKnown rows xs → AllKnown rows ys → AllKnown rows (xs ++ ys)
  AllKnown-append [] ys a b = b
  AllKnown-append (x ∷ xs) ys (k, a) b = (k, AllKnown-append xs ys a b)

  -- and nothing but the map's rows.
  AllKnown-forest :
      (fuel l : ℕ) (rs : List MapBlockRow)
      → AtLevel rows l rs
      → AllKnown rows (walk (forest fuel rows rs))
  unfolding forest
  AllKnown-forest zero l [] a = tt
  AllKnown-forest (suc fuel) l [] a = tt
  AllKnown-forest zero l (r ∷ rs) a = tt
  AllKnown-forest (suc fuel) l (r ∷ rs) (k, q, a) = (
    k,
    AllKnown-append (walk (forest fuel rows (children_of rows r.block_id)))
        (walk (forest (suc fuel) rows rs))
        (AllKnown-forest fuel (suc r.level) _ (AtLevel-children r k))
        (AllKnown-forest (suc fuel) l rs a),
  )

  abbrev tree : Forest
  tree = forest 5 rows (sort_rows (select (λ r. is_root r.parent_id) rows))

  roots-AtLevel : AtLevel rows 1 (sort_rows (select (λ r. is_root r.parent_id) rows))
  roots-AtLevel = AtLevel-sort_rows rows 1 _ (AtLevel-roots rows rows v)

  Fits-by_id :
      (id : ℕ) (r : MapBlockRow) (rs : List MapBlockRow)
      → Fits rows rs
      → by_id id rs ≡ some r
      → parent_fits rows r r.parent_id ≡ true
  Fits-by_id id r [] f e = absurd (ground arith)
  Fits-by_id id r (x ∷ xs) (k, q, f) e = elim (Bool-cases (x.block_id == id)) [
    | inl b ↦
        let same : x ≡ r = ground (arith, b) in
        subst (λ z. parent_fits rows z z.parent_id ≡ true) same q
    | inr b ↦ Fits-by_id id r xs f (ground (arith, b))
  ]

  -- A block of a level is in the tree, since its parent is.
  has-tree :
      (n id : ℕ) (r : MapBlockRow)
      → by_id id rows ≡ some r
      → r.level ≡ suc n
      → has id (walk tree) ≡ true
  has-tree zero id r e l = elim (Option-cases r.parent_id) [
    | inl o ↦ has-forest 5 1 _ roots-AtLevel (omega arith) id (
        has-sort_rows id (select (λ x. is_root x.parent_id) rows)
        ∙ has-select (λ x. is_root x.parent_id) id r rows e (ground (arith, o)))
    | inr (p, o) ↦ elim (Option-cases (by_id p rows)) [
      | inl m ↦ absurd (ground (arith, o, m, Fits-by_id id r rows v e))
      | inr (q, m) ↦
          absurd (ground (arith, o, m, l, Fits-by_id id r rows v e, level-ge rows p q u m))
    ]
  ]
  has-tree (suc n) id r e l = elim (Option-cases r.parent_id) [
    | inl o ↦ absurd (ground (arith, o, l, Fits-by_id id r rows v e))
    | inr (p, o) ↦ elim (Option-cases (by_id p rows)) [
      | inl m ↦ absurd (ground (arith, o, m, Fits-by_id id r rows v e))
      | inr (q, m) ↦
          has-children 5 1 _ roots-AtLevel (omega arith) p id
            (has-tree n p q m (ground (arith, o, m, l, Fits-by_id id r rows v e)))
            (has-sort_rows id (select (λ x. sql_eq x.parent_id p) rows)
              ∙ has-select (λ x. sql_eq x.parent_id p) id r rows e (ground (arith, o)))
    ]
  ]

  by_id-known :
      (id : ℕ) (xs : List MapBlockRow)
      → AllKnown rows xs
      → has id xs ≡ true
      → by_id id xs ≡ by_id id rows
  by_id-known id [] a h = absurd (ground arith)
  by_id-known id (x ∷ xs) (k, a) h = elim (Bool-cases (x.block_id == id)) [
    | inl b ↦ ground (arith, b, k, ap (λ z. by_id z rows) (same x.block_id id b))
    | inr b ↦ ground (arith, b, by_id-known id xs a)
  ]
    where
      same : (a b : ℕ) → (a == b) ≡ true → a ≡ b
      same a b e = ground arith

  by_id-unknown :
      (id : ℕ) (xs : List MapBlockRow)
      → AllKnown rows xs
      → by_id id rows ≡ none
      → by_id id xs ≡ none
  by_id-unknown id [] a h = refl
  by_id-unknown id (x ∷ xs) (k, a) h = elim (Bool-cases (x.block_id == id)) [
    | inl b ↦ absurd (ground (arith, b, k, h))
    | inr b ↦ ground (arith, b, by_id-unknown id xs a h)
  ]

  by_id-tree : (id : ℕ) → by_id id (walk tree) ≡ by_id id rows
  by_id-tree id =
      let a = AllKnown-forest 5 1 _ roots-AtLevel in
      elim (Option-cases (by_id id rows)) [
        | inl n ↦ by_id-unknown id (walk tree) a n ∙ sym n
        | inr (r, n) ↦
            by_id-known id (walk tree) a
              (let (n', l) = predecessor r.level (level-ge rows id r u n) in has-tree n' id r n l)
      ]

-- The tree of an accepted map is whole: under every id, its walk has the row that the map has, and
-- none if the map has none. So each row hangs somewhere below a root, and nothing else does.
pub build_map_snapshot-walk :
    (rows : List MapBlockRow) (roots : Forest)
    → build_map_snapshot rows ≡ some roots
    → (id : ℕ) → by_id id (walk roots) ≡ by_id id rows
unfolding build_map_snapshot
build_map_snapshot-walk rows roots e id =
    elim (Bool-cases (rows_fit rows && parents_fit rows rows)) [
      | inr b ↦ absurd (ground (arith, b))
      | inl b ↦
          let u : rows_fit rows ≡ true = ground (arith, b) in
          let v = Fits-of rows rows (AllKnown-self rows u) (ground (arith, b)) in
          let q : roots ≡ tree rows u v = ground (arith, b, e) in
          ap (λ z. by_id id (walk z)) q ∙ by_id-tree rows u v id
    ]
