-- ===== src/Validate/Checks.antt =====
-- `_validate_operations` of nodes/validate.py and its helpers.
use folioo_ai.Base.{
  ℕ, ◌+◌, suc, Text, strip, Bool, true, false, not, ◌&&◌, ◌||◌, Option, none, some, List, [], ◌∷◌,
  ◌++◌, ◌==◌, leb, ltb, is_some, any, length, if◌then◌else◌,
}
use folioo_ai.Validate.Items.{
  is_add, Operation, is_structured, Aliases, Error, wrong, unrefined, duplicate_item,
  operation_schema, unknown_parent, missing_parent_metadata, parent_order, invalid_new_parent,
  max_level_exceeded, invalid_section_level, slot_level_mismatch, missing_after_metadata,
  after_not_sibling, unknown_target, missing_target_metadata, protected_level_update,
  not_text_editable, unknown_after, missing_update_content, empty_content, content_too_long,
}

abbrev pub max_block_level : ℕ
max_block_level = 5

abbrev pub max_content_length : ℕ
max_content_length = 500

-- `seen_items` and `new_item_levels`.
pub record Seen : Type 0 where
  pub items : List ℕ
  pub levels : List (ℕ × ℕ)

abbrev pub has_seen : ℕ → Seen → Bool
has_seen id s = any (λ x. x == id) s.items

-- `new_item_levels.get(id)`
abbrev pub level_of : ℕ → List (ℕ × ℕ) → Option ℕ
level_of id [] = none
level_of id ((x, l) ∷ rest) = if x == id then some l else level_of id rest

abbrev pub new_parent : ℕ → ℕ → Seen → Option ℕ × List Error
new_parent id parent s =
    if has_seen parent s
    then elim (level_of parent s.levels) [
      | none ↦ (none, wrong id invalid_new_parent)
      | some l ↦ (some l, [])
    ]
    else (none, wrong id parent_order)

-- `_validate_add_parent`. `None` is in no set, and gives the error of the order.
abbrev pub validate_add_parent : Aliases → Operation → Seen → Option ℕ × List Error
validate_add_parent c op s = elim op.fields.parent_ref [
  | some p ↦
      if c.known p
      then elim (c.metadata p) [
        | none ↦ (none, wrong op.item_id missing_parent_metadata)
        | some m ↦ (some m.level, [])
      ]
      else (none, wrong op.item_id unknown_parent)
  | none ↦ elim op.fields.parent_item_id [
    | none ↦ (none, wrong op.item_id parent_order)
    | some i ↦ new_parent op.item_id i s
  ]
]

-- `slot_id.count(".")`
abbrev pub dots : Text → ℕ
dots [] = 0
dots (c ∷ cs) = if c == 46 then suc (dots cs) else dots cs

abbrev pub slot_fits : Option Text → ℕ → Bool
slot_fits none level = true
slot_fits (some t) level = level == dots t + 3

abbrev pub validate_add_level : Operation → ℕ → List Error
validate_add_level op level =
    (if ltb max_block_level level then wrong op.item_id max_level_exceeded else [])
    ++ ((if is_some op.fields.section_kind && not (level == 3)
          then wrong op.item_id invalid_section_level
          else [])
        ++ (if slot_fits op.fields.slot_id level then [] else wrong op.item_id slot_level_mismatch))

abbrev pub same_option : Option ℕ → Option ℕ → Bool
same_option none none = true
same_option none (some b) = false
same_option (some a) none = false
same_option (some a) (some b) = a == b

abbrev pub validate_after_ref : Aliases → Operation → List Error
validate_after_ref c op = elim op.fields.after_ref [
  | none ↦ []
  | some a ↦
      if c.known a
      then elim (c.metadata a) [
        | none ↦ wrong op.item_id missing_after_metadata
        | some m ↦
            if not (is_some op.fields.parent_ref)
              || not (same_option m.parent_alias op.fields.parent_ref)
            then wrong op.item_id after_not_sibling
            else []
      ]
      else []
]

-- `None` is no alias.
abbrev pub validate_update_target : Aliases → Operation → List Error
validate_update_target c op = elim op.fields.target_ref [
  | none ↦ wrong op.item_id unknown_target
  | some t ↦
      if c.known t
      then elim (c.metadata t) [
        | none ↦ wrong op.item_id missing_target_metadata
        | some m ↦
            (if leb m.level 3 then wrong op.item_id protected_level_update else [])
            ++ (if m.is_text_editable then [] else wrong op.item_id not_text_editable)
      ]
      else wrong op.item_id unknown_target
]

abbrev pub validate_after_known : Aliases → Operation → List Error
validate_after_known c op = elim op.fields.after_ref [
  | none ↦ []
  | some a ↦ if c.known a then [] else wrong op.item_id unknown_after
]

abbrev pub validate_text : Operation → List Error
validate_text op = elim op.text [
  | none ↦ if is_add op.fields.action then [] else unrefined op.item_id missing_update_content
  | some t ↦
      if leb (length (strip t)) 0
      then unrefined op.item_id empty_content
      else if ltb max_content_length (length (strip t))
      then unrefined op.item_id content_too_long
      else []
]

-- The level that an accepted parent gives, noted for the items that follow.
abbrev pub note_level : ℕ → Option ℕ → Seen → Seen
note_level id none s = s
note_level id (some l) s = record s { levels = (id, suc l) ∷ s.levels }

abbrev pub level_errors : Operation → Option ℕ → List Error
level_errors op none = []
level_errors op (some l) = validate_add_level op (suc l)

-- One round of the loop: what it notes, and its errors.
unfoldable pub check_operation : Aliases → Operation → Seen → Seen × List Error
check_operation c op s =
    let s' : Seen = record s { items = op.item_id ∷ s.items } in
    let (parent, parent_errors) = validate_add_parent c op s' in
    if has_seen op.item_id s
    then (s, wrong op.item_id duplicate_item)
    else if not (is_structured op.fields)
    then (s', wrong op.item_id operation_schema)
    else if is_add op.fields.action
    then (
      note_level op.item_id parent s',
      parent_errors
          ++ (level_errors op parent
              ++ (validate_after_ref c op ++ (validate_after_known c op ++ validate_text op))),
    )
    else (s', validate_update_target c op ++ (validate_after_known c op ++ validate_text op))

unfoldable pub check_operations : Aliases → List Operation → Seen → List Error
unfolding check_operation
check_operations c [] s = []
check_operations c (op ∷ ops) s =
    let (s', errors) = check_operation c op s in errors ++ check_operations c ops s'
