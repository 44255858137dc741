-- ===== src/Tests/Drafts.antt =====
-- nodes/validate.py: a draft that is accepted, and one that is repaired.
use folioo_ai.Base.{
  ℕ, ◌&&◌, ◌≡◌, refl, true, false, none, some, List, [], ◌∷◌, ◌==◌, if◌then◌else◌, ltb,
}
use folioo_ai.Validate.Items.{Fields, add, update, Operation, Aliases, refine, empty_content}
use folioo_ai.Validate.Checks.{check_operations}
use folioo_ai.Validate.Node.{
  Draft, accepts, repairs, validate_operations, repair_loop, next_node, to_refine,
}
use folioo_ai.Validate.Laws.Repairs.{IsAccepted, Ends, accepts-IsAccepted, repair_loop-Ends}

-- Alias 1 is a category of level 3, alias 2 a block below it.
abbrev pub activity : Aliases
activity = record {
  known = λ a. ltb 0 a && ltb a 3;
  metadata = λ a.
      if a == 1
      then some (record { level = 3; parent_alias = some 0; is_text_editable = false })
      else if a == 2
      then some (record { level = 4; parent_alias = some 1; is_text_editable = true })
      else none;
}

abbrev addition : Fields
addition = record {
  well_typed = true;
  action = add;
  parent_ref = some 1;
  parent_item_id = none;
  target_ref = none;
  section_kind = none;
  slot_id = none;
  after_ref = some 2;
}

-- Below the first addition: level 5.
abbrev detail : Fields
detail = record addition { parent_ref = none; parent_item_id = some 10; after_ref = none }

abbrev change : Fields
change = record addition {
  action = update;
  parent_ref = none;
  target_ref = some 2;
  after_ref = none;
}

abbrev pub draft : Draft
draft = record {
  structured_items =
      record { raw_id = some 10; fields = addition }
      ∷ record { raw_id = some 11; fields = detail }
      ∷ [];
  gap_update_item = some (record { raw_id = some 12; fields = change });
  refined_items = (10, some (97 ∷ [])) ∷ (11, some (98 ∷ [])) ∷ (12, some (99 ∷ [])) ∷ [];
  aliases = activity;
}

abbrev pub operations : List Operation
operations =
    record { item_id = 10; fields = addition; text = some (97 ∷ []) }
    ∷ record { item_id = 11; fields = detail; text = some (98 ∷ []) }
    ∷ record { item_id = 12; fields = change; text = some (99 ∷ []) }
    ∷ []

-- The same with a content of blanks.
abbrev blank : Draft
blank = record draft {
  refined_items = (10, some (97 ∷ [])) ∷ (11, some (32 ∷ [])) ∷ (12, some (99 ∷ [])) ∷ [];
}

accepted : validate_operations draft 0 ≡ accepts operations
unfolding validate_operations check_operations
accepted = refl

blank_repaired :
    validate_operations blank 1
    ≡ repairs (record { of_item = some 11; code = empty_content; repair_target = refine } ∷ []) 2
unfolding validate_operations check_operations
blank_repaired = refl

blank_route :
    next_node (record { of_item = some 11; code = empty_content; repair_target = refine } ∷ []) []
    ≡ to_refine
unfolding next_node
blank_route = refl

accepts-IsAccepted_example : IsAccepted draft operations
accepts-IsAccepted_example = accepts-IsAccepted draft 0 operations accepted

abbrev attempts : ℕ → Draft
attempts round = if ltb round 1 then blank else draft

repair_loop-Ends_example : Ends attempts (repair_loop 3 attempts 0 0)
repair_loop-Ends_example = repair_loop-Ends attempts
