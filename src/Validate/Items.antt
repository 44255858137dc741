-- ===== src/Validate/Items.antt =====
-- `StructuredItem` of schemas.py, the context of the chosen activity, and the errors. Item ids and
-- aliases are numbers.
use folioo_ai.Base.{
  ℕ, Text, Bool, true, false, not, ◌&&◌, ◌||◌, Option, some, List, [], ◌∷◌, is_some, if◌then◌else◌,
}

pub data Action : Type 0 where
  add update : Action

abbrev pub is_add : Action → Bool
is_add add = true
is_add update = false

-- The fields beside `item_id` and `text`. `well_typed` is pydantic's verdict on their types.
pub record Fields : Type 0 where
  pub well_typed : Bool
  pub action : Action
  pub parent_ref : Option ℕ
  pub parent_item_id : Option ℕ
  pub target_ref : Option ℕ
  pub section_kind : Option ℕ
  pub slot_id : Option Text
  pub after_ref : Option ℕ

-- An entry of `structured_items`; `none` for an `item_id` that is missing or no text.
pub record RawItem : Type 0 where
  pub raw_id : Option ℕ
  pub fields : Fields

pub record Operation : Type 0 where
  pub item_id : ℕ
  pub fields : Fields
  pub text : Option Text

-- `_check_refs`: true where it raises nothing.
abbrev pub check_refs : Fields → Bool
check_refs f =
    not (is_some f.parent_ref && is_some f.parent_item_id)
    && (if is_add f.action
        then (is_some f.parent_ref || is_some f.parent_item_id) && not (is_some f.target_ref)
        else is_some f.target_ref
          && not (is_some f.parent_ref || is_some f.parent_item_id)
          && not (is_some f.section_kind)
          && not (is_some f.slot_id || is_some f.after_ref))

-- `StructuredItem.model_validate`
abbrev pub is_structured : Fields → Bool
is_structured f = f.well_typed && check_refs f

-- An entry of `alias_metadata`.
pub record BlockMeta : Type 0 where
  pub level : ℕ
  pub parent_alias : Option ℕ
  pub is_text_editable : Bool

-- `alias_to_block_id` and `alias_metadata`, as lookups.
pub record Aliases : Type 0 where
  pub known : ℕ → Bool
  pub metadata : ℕ → Option BlockMeta

pub data Code : Type 0 where
  duplicate_item item_set_mismatch operation_schema unknown_parent : Code
  missing_parent_metadata parent_order invalid_new_parent max_level_exceeded : Code
  invalid_section_level slot_level_mismatch missing_after_metadata after_not_sibling : Code
  unknown_target missing_target_metadata protected_level_update not_text_editable : Code
  unknown_after missing_update_content empty_content content_too_long : Code

-- `repair_target`
pub data Target : Type 0 where
  structure refine : Target

-- `none` is the id "__operations__".
pub record Error : Type 0 where
  pub of_item : Option ℕ
  pub code : Code
  pub repair_target : Target

-- Errors that ask for the structure to be repaired.
abbrev pub wrong : ℕ → Code → List Error
wrong id c = record { of_item = some id; code = c; repair_target = structure } ∷ []

abbrev pub unrefined : ℕ → Code → List Error
unrefined id c = record { of_item = some id; code = c; repair_target = refine } ∷ []
