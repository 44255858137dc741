-- ===== src/MapContext/Snapshot.antt =====
-- `build_map_snapshot` of map_context.py. Block ids are the decimal ids of the database, as numbers.
use folioo_ai.Base.{
  ℕ, zero, suc, ◌+◌, Text, Bool, true, false, not, ◌&&◌, ◌||◌, Option, none, some, List, [], ◌∷◌,
  ◌++◌, ◌==◌, ltb, leb, if◌then◌else◌, select, select_first, any, sql_eq,
}

pub record MapBlockRow : Type 0 where
  pub block_id : ℕ
  pub parent_id : Option ℕ
  pub level : ℕ
  pub kind : ℕ
  pub position : ℕ
  pub content : Option Text
  pub placeholder : Option Text
  pub is_text_editable : Bool

-- A list of `MapBlock`s: the row of the first one, its children, and the other ones.
pub data Forest : Type 0 where
  end : Forest
  block : MapBlockRow → Forest → Forest → Forest

-- `by_id.get(id)`
abbrev pub by_id : ℕ → List MapBlockRow → Option MapBlockRow
by_id id rows = select_first (λ r. r.block_id == id) rows

-- The first loop: no id twice, and levels from 1 to 5.
abbrev pub rows_fit : List MapBlockRow → Bool
rows_fit [] = true
rows_fit (r ∷ rs) =
    not (any (λ x. x.block_id == r.block_id) rs) && leb 1 r.level && leb r.level 5 && rows_fit rs

abbrev pub below : MapBlockRow → Option MapBlockRow → Bool
below r none = false
below r (some parent) = r.level == parent.level + 1

-- The second loop, at one row: true where it raises nothing.
abbrev pub parent_fits : List MapBlockRow → MapBlockRow → Option ℕ → Bool
parent_fits rows r none = r.level == 1
parent_fits rows r (some p) = below r (by_id p rows)

abbrev pub parents_fit : List MapBlockRow → List MapBlockRow → Bool
parents_fit rows [] = true
parents_fit rows (r ∷ rs) = parent_fits rows r r.parent_id && parents_fit rows rs

-- `_sort_key`, of decimal ids.
abbrev pub sorts_before : MapBlockRow → MapBlockRow → Bool
sorts_before a b =
    ltb a.position b.position || (a.position == b.position && leb a.block_id b.block_id)

abbrev pub insert_row : MapBlockRow → List MapBlockRow → List MapBlockRow
insert_row r [] = r ∷ []
insert_row r (x ∷ xs) = if sorts_before r x then r ∷ x ∷ xs else x ∷ insert_row r xs

abbrev pub sort_rows : List MapBlockRow → List MapBlockRow
sort_rows [] = []
sort_rows (r ∷ rs) = insert_row r (sort_rows rs)

abbrev pub children_of : List MapBlockRow → ℕ → List MapBlockRow
children_of rows id = sort_rows (select (λ r. sql_eq r.parent_id id) rows)

abbrev pub is_root : Option ℕ → Bool
is_root none = true
is_root (some _) = false

-- The blocks of some rows with all that is below them, as deep as the fuel.
unfoldable pub forest : ℕ → List MapBlockRow → List MapBlockRow → Forest
forest fuel rows [] = end
forest zero rows (r ∷ rs) = end
forest (suc fuel) rows (r ∷ rs) =
    block r (forest fuel rows (children_of rows r.block_id)) (forest (suc fuel) rows rs)

-- The roots; `none` is a `ValueError`. There are five levels, so that a fuel of 5 is enough.
unfoldable pub build_map_snapshot : List MapBlockRow → Option Forest
build_map_snapshot rows =
    if rows_fit rows && parents_fit rows rows
    then some (forest 5 rows (sort_rows (select (λ r. is_root r.parent_id) rows)))
    else none

-- `_walk`, over a list of blocks.
abbrev pub walk : Forest → List MapBlockRow
walk end = []
walk (block r children rest) = r ∷ (walk children ++ walk rest)
