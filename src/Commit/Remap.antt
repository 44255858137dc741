-- ===== src/Commit/Remap.antt =====
-- `_to_commit_items` of nodes/commit.py, and how a map conflict renames the aliases of operations.
use folioo_ai.Base.{
  ℕ, Text, strip, Bool, true, false, ◌&&◌, Option, none, some, List, [], ◌∷◌, ◌==◌, leb, length,
  any, sql_eq, if◌then◌else◌,
}
use folioo_ai.Validate.Items.{Fields, RawItem, Operation, is_add, is_structured}

-- `alias_to_block_id` in the order of its insertion, with each alias once. The block id 0 is the
-- empty string.
abbrev pub Dict : Type 0
Dict = List (ℕ × ℕ)

-- `aliases.get(alias)`
abbrev pub get : ℕ → Dict → Option ℕ
get alias [] = none
get alias ((a, id) ∷ rest) = if a == alias then some id else get alias rest

-- `alias_by_id.get(id)`: of two aliases of one block the last one counts.
abbrev pub alias_by_id : ℕ → Dict → Option ℕ
alias_by_id id [] = none
alias_by_id id ((a, b) ∷ rest) = elim (alias_by_id id rest) [
  | some x ↦ some x
  | none ↦ if b == id then some a else none
]

-- `_resolve_alias(…, required=True)`; the outer `none` is its `ValueError`.
abbrev pub resolve_alias : Dict → Option ℕ → Option (Option ℕ)
resolve_alias aliases none = some none
resolve_alias aliases (some a) = elim (get a aliases) [ none ↦ none | some id ↦ some (some id) ]

-- `_validate_content`: true where it raises nothing.
abbrev pub is_content : Option Text → Bool
is_content none = true
is_content (some t) = leb 1 (length (strip t)) && leb (length (strip t)) 500

pub record AddItem : Type 0 where
  pub item_id : ℕ
  pub parent_id : Option ℕ
  pub parent_item_id : Option ℕ
  pub section_kind : Option ℕ
  pub slot_id : Option Text
  pub content : Option Text
  pub after_id : Option ℕ

pub record UpdateItem : Type 0 where
  pub item_id : ℕ
  pub target_id : ℕ
  pub content : Option Text

pub data CommitItem : Type 0 where
  add_item : AddItem → CommitItem
  update_item : UpdateItem → CommitItem

-- `CommitAddItem._check`
abbrev pub has_one_parent : Option ℕ → Option ℕ → Bool
has_one_parent none none = false
has_one_parent (some _) (some _) = false
has_one_parent (some _) none = true
has_one_parent none (some _) = true

abbrev pub to_add : Operation → Option (Option ℕ) → Option (Option ℕ) → Option CommitItem
to_add op none after = none
to_add op (some parent) none = none
to_add op (some parent) (some after) =
    if has_one_parent parent op.fields.parent_item_id && is_content op.text
    then some (
        add_item (record {
          item_id = op.item_id;
          parent_id = parent;
          parent_item_id = op.fields.parent_item_id;
          section_kind = op.fields.section_kind;
          slot_id = op.fields.slot_id;
          content = op.text;
          after_id = after;
        }))
    else none

-- A missing target is refused by pydantic, as `target_id` is a string.
abbrev pub to_update : Operation → Option (Option ℕ) → Option CommitItem
to_update op none = none
to_update op (some none) = none
to_update op (some (some target)) =
    if is_content op.text
    then some (update_item (record { item_id = op.item_id; target_id = target; content = op.text }))
    else none

-- The branches on the action, with the resolved parent, sibling and target.
abbrev pub item_of :
    Operation → Bool → Option (Option ℕ) → Option (Option ℕ) → Option (Option ℕ) → Option CommitItem
item_of op false parent after target = none
item_of op true parent after target =
    if is_add op.fields.action then to_add op parent after else to_update op target

abbrev pub to_commit_item : Dict → Operation → Option CommitItem
to_commit_item aliases op =
    item_of op (is_structured op.fields) (resolve_alias aliases op.fields.parent_ref)
      (resolve_alias aliases op.fields.after_ref) (resolve_alias aliases op.fields.target_ref)

abbrev pub cons_item : Option CommitItem → Option (List CommitItem) → Option (List CommitItem)
cons_item none rest = none
cons_item (some x) none = none
cons_item (some x) (some xs) = some (x ∷ xs)

abbrev pub convert : Dict → List Operation → Option (List CommitItem)
convert aliases [] = some []
convert aliases (op ∷ ops) = cons_item (to_commit_item aliases op) (convert aliases ops)

-- `_to_commit_items`; `none` is its `ValueError`.
abbrev pub to_commit_items : Dict → List Operation → Option (List CommitItem)
to_commit_items aliases [] = none
to_commit_items aliases (op ∷ ops) = convert aliases (op ∷ ops)

-- `alias_by_id.get(block_id) if block_id else None`
abbrev pub new_alias : Option ℕ → Dict → Option ℕ
new_alias none new = none
new_alias (some id) new = if id == 0 then none else alias_by_id id new

-- One turn of the loop over the three fields; an alias without a successor stays.
abbrev pub keep_alias : ℕ → Option ℕ → Option ℕ × Bool
keep_alias old none = (some old, false)
keep_alias old (some a) = (some a, true)

abbrev pub remap_ref : Dict → Dict → Option ℕ → Option ℕ × Bool
remap_ref old new none = (none, true)
remap_ref old new (some a) = keep_alias a (new_alias (get a old) new)

abbrev pub remap_fields : Dict → Dict → Fields → Fields × Bool
remap_fields old new f =
    let (parent, p) = remap_ref old new f.parent_ref in
    let (target, t) = remap_ref old new f.target_ref in
    let (after, a) = remap_ref old new f.after_ref in
    (record f { parent_ref = parent; target_ref = target; after_ref = after }, p && t && a)

abbrev pub remap_item : Dict → Dict → RawItem → RawItem × Bool
remap_item old new x =
    let (f, valid) = remap_fields old new x.fields in
    (record { raw_id = x.raw_id; fields = f }, valid)

abbrev pub remap_one_operation : Dict → Dict → Option RawItem → Option RawItem × Bool
remap_one_operation old new none = (none, true)
remap_one_operation old new (some x) = let (y, valid) = remap_item old new x in (some y, valid)

abbrev pub remap_all : Dict → Dict → List RawItem → List RawItem × Bool
remap_all old new [] = ([], true)
remap_all old new (x ∷ xs) =
    let (y, valid) = remap_item old new x in
    let (ys, maintained) = remap_all old new xs in (y ∷ ys, valid && maintained)

-- `target_id in new_aliases.values()`
abbrev pub target_activity_is_present : Dict → Dict → Option ℕ → Bool
target_activity_is_present old new none = true
target_activity_is_present old new (some a) = any (λ e. sql_eq (get a old) e.1) new

-- `next((new for new, block_id in …), None)`: the first alias of the block.
abbrev pub first_alias : Option ℕ → Dict → Option ℕ
first_alias id [] = none
first_alias id ((a, b) ∷ rest) = if sql_eq id b then some a else first_alias id rest

abbrev pub remap_alias : Dict → Dict → Option ℕ → Option ℕ
remap_alias old new none = none
remap_alias old new (some a) = first_alias (get a old) new

-- `_remap_operations`
abbrev pub remap_operations :
    Dict → Dict → List RawItem → Option RawItem → Option ℕ → List RawItem × Bool
remap_operations old new items gap target =
    let (remapped, maintained) = remap_all old new items in
    let (_, gap_valid) = remap_one_operation old new gap in
    (remapped, maintained && gap_valid && target_activity_is_present old new target)
