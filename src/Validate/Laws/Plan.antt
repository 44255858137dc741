-- ===== src/Validate/Laws/Plan.antt =====
-- What a list of operations has to be for the map: each entry read against the blocks of the
-- activity and the entries before it, without the checks of the code.
use folioo_ai.Base.{
  ℕ, suc, ◌≡◌, ◌⊎◌, ◌≤◌, ◌<◌, Text, strip, Bool, true, false, not, ◌&&◌, Option, none, some, List,
  [], ◌∷◌, ◌==◌, leb, is_some, any, length, if◌then◌else◌,
}
use folioo_ai.Validate.Items.{Fields, Operation, BlockMeta, Aliases, is_add}
use folioo_ai.Validate.Checks.{level_of, same_option, slot_fits}

-- The level of the parent: a block of the activity, or an item added before.
abbrev pub parent_level : Aliases → List (ℕ × ℕ) → Fields → Option ℕ
parent_level c earlier f = elim f.parent_ref [
  | some a ↦ elim (c.metadata a) [ none ↦ none | some m ↦ some m.level ]
  | none ↦ elim f.parent_item_id [ none ↦ none | some i ↦ level_of i earlier ]
]

abbrev pub is_known : Aliases → Option ℕ → Bool
is_known c none = true
is_known c (some a) = c.known a

-- The block after which an item goes has the item's own parent.
abbrev pub is_sibling : Aliases → Fields → Bool
is_sibling c f = elim f.after_ref [
  | none ↦ true
  | some a ↦ c.known a && (elim (c.metadata a) [
    | none ↦ false
    | some m ↦ is_some f.parent_ref && same_option m.parent_alias f.parent_ref
  ])
]

abbrev pub has_content : Option Text → Bool
has_content none = false
has_content (some t) = not (leb (length (strip t)) 0) && leb (length (strip t)) 500

-- A block added below a parent of level `parent`.
pub record IsAdd (c : Aliases) (earlier : List (ℕ × ℕ)) (op : Operation) (parent : ℕ) : Type 0 where
  pub below : parent_level c earlier op.fields ≡ some parent
  pub parent_known : is_known c op.fields.parent_ref ≡ true
  pub shallow : suc parent ≤ 5
  pub section_at_3 : (is_some op.fields.section_kind && not (suc parent == 3)) ≡ false
  pub slot_at : slot_fits op.fields.slot_id (suc parent) ≡ true
  pub sibling : is_sibling c op.fields ≡ true
  pub content : (is_some op.text && not (has_content op.text)) ≡ false

-- A change of the block `target`, which is no activity, experience or category.
pub record IsUpdate (c : Aliases) (op : Operation) (target : ℕ) (block : BlockMeta) : Type 0 where
  pub names : op.fields.target_ref ≡ some target
  pub target_known : c.known target ≡ true
  pub described : c.metadata target ≡ some block
  pub deep : 3 < block.level
  pub editable : block.is_text_editable ≡ true
  pub keeps_parent :
      (is_some op.fields.parent_ref ≡ false) × (is_some op.fields.parent_item_id ≡ false)
  pub content : has_content op.text ≡ true

abbrev pub IsEntry : Aliases → List (ℕ × ℕ) → Operation → Type 0
IsEntry c earlier op =
    ((is_add op.fields.action ≡ true) × ((parent : ℕ) × IsAdd c earlier op parent))
    ⊎ ((is_add op.fields.action ≡ false)
        × ((target : ℕ) × ((block : BlockMeta) × IsUpdate c op target block)))

-- The levels of the items added so far.
abbrev pub and_level : Aliases → List (ℕ × ℕ) → Operation → List (ℕ × ℕ)
and_level c earlier op =
    if is_add op.fields.action
    then elim (parent_level c earlier op.fields) [
      | none ↦ earlier
      | some p ↦ (op.item_id, suc p) ∷ earlier
    ]
    else earlier

-- All entries, their ids distinct from those before.
abbrev pub IsPlan : Aliases → List ℕ → List (ℕ × ℕ) → List Operation → Type 0
IsPlan c ids earlier [] = Unit
IsPlan c ids earlier (op ∷ ops) =
    (any (λ x. x == op.item_id) ids ≡ false)
    × (IsEntry c earlier op × IsPlan c (op.item_id ∷ ids) (and_level c earlier op) ops)
