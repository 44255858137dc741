-- ===== src/Validate/Node.antt =====
-- `_build_operations`, `validate_operations` and `next_node` of nodes/validate.py.
use folioo_ai.Base.{
  ℕ, zero, suc, ◌+◌, Text, Bool, true, false, not, ◌&&◌, ◌||◌, Option, none, some, List, [], ◌∷◌,
  ◌++◌, ◌==◌, leb, any, if◌then◌else◌,
}
use folioo_ai.Validate.Items.{
  RawItem, Operation, Aliases, Error, structure, refine, duplicate_item, item_set_mismatch,
}
use folioo_ai.Validate.Checks.{check_operations, same_option}

abbrev pub max_validation_repairs : ℕ
max_validation_repairs = 2

-- The parts of the state that the node reads.
pub record Draft : Type 0 where
  pub structured_items : List RawItem
  pub gap_update_item : Option RawItem
  pub refined_items : List (ℕ × Option Text)
  pub aliases : Aliases

-- `metadata.append(gap_update)`
abbrev pub append_item : List RawItem → Option RawItem → List RawItem
append_item [] none = []
append_item [] (some r) = r ∷ []
append_item (x ∷ xs) gap = x ∷ append_item xs gap

abbrev pub metadata : Draft → List RawItem
metadata d = append_item d.structured_items d.gap_update_item

-- `refined.get(id)`: of two items of one id the last one counts. `none` if the key is missing.
abbrev pub refined_text : ℕ → List (ℕ × Option Text) → Option (Option Text)
refined_text id [] = none
refined_text id ((x, t) ∷ rest) = elim (refined_text id rest) [
  | some u ↦ some u
  | none ↦ if x == id then some t else none
]

abbrev pub is_refined : List (ℕ × Option Text) → Option ℕ → Bool
is_refined refined none = false
is_refined refined (some id) = any (λ r. r.0 == id) refined

-- Whether a list of ids names one twice.
abbrev pub has_duplicate : List RawItem → Bool
has_duplicate [] = false
has_duplicate (x ∷ xs) = any (λ y. same_option y.raw_id x.raw_id) xs || has_duplicate xs

-- `set(metadata_ids) != set(refined)`
abbrev pub all_refined : List (ℕ × Option Text) → List RawItem → Bool
all_refined refined [] = true
all_refined refined (x ∷ xs) = is_refined refined x.raw_id && all_refined refined xs

abbrev pub all_known : List RawItem → List (ℕ × Option Text) → Bool
all_known items [] = true
all_known items (r ∷ rs) = any (λ x. same_option x.raw_id (some r.0)) items && all_known items rs

abbrev pub of_operations : Bool → Error → List Error
of_operations b e = if b then e ∷ [] else []

abbrev pub set_errors : List RawItem → List (ℕ × Option Text) → List Error
set_errors items refined =
    of_operations (has_duplicate items)
      (record { of_item = none; code = duplicate_item; repair_target = structure })
    ++ of_operations (not (all_refined refined items && all_known items refined))
        (record { of_item = none; code = item_set_mismatch; repair_target = structure })

abbrev pub merge_item : RawItem → List (ℕ × Option Text) → Option Operation
merge_item x refined = elim x.raw_id [
  | none ↦ none
  | some id ↦ elim (refined_text id refined) [
    | none ↦ none
    | some t ↦ some (record { item_id = id; fields = x.fields; text = t })
  ]
]

abbrev pub merge_items : List RawItem → List (ℕ × Option Text) → List Operation
merge_items [] refined = []
merge_items (x ∷ xs) refined = elim (merge_item x refined) [
  | none ↦ merge_items xs refined
  | some op ↦ op ∷ merge_items xs refined
]

unfoldable pub build_operations : Draft → List Operation × List Error
build_operations d =
    (merge_items (metadata d) d.refined_items, set_errors (metadata d) d.refined_items)

-- What the node does: it commits the operations, sends errors to a repair with the raised count,
-- or raises `ValidationFailedError`.
pub data Verdict : Type 0 where
  accepts : List Operation → Verdict
  repairs : List Error → ℕ → Verdict
  fails : Verdict

abbrev pub all_errors : Draft → List Error
all_errors d =
    let (operations, errors) = build_operations d in
    errors ++ check_operations d.aliases operations (record { items = []; levels = [] })

unfoldable pub validate_operations : Draft → ℕ → Verdict
unfolding build_operations
validate_operations d repair_count = elim (all_errors d) [
  | [] ↦ accepts (build_operations d).0
  | e ∷ es ↦
      if leb max_validation_repairs repair_count then fails else repairs (e ∷ es) (repair_count + 1)
]

pub data Route : Type 0 where
  to_structure to_refine to_coordinator to_fallback : Route

abbrev pub asks_structure : Error → Bool
asks_structure e = elim e.repair_target [ structure ↦ true | refine ↦ false ]

-- `next_node`, after a verdict that raised nothing.
unfoldable pub next_node : List Error → List Operation → Route
next_node [] [] = to_fallback
next_node [] (_ ∷ _) = to_coordinator
next_node (e ∷ es) _ = if any asks_structure (e ∷ es) then to_structure else to_refine

abbrev pub after_verdict : Verdict → (ℕ → Option Verdict) → Option Verdict
after_verdict (accepts ops) again = some (accepts ops)
after_verdict fails again = some fails
after_verdict (repairs es n) again = again n

-- The edges of graph.py around the node: a repair goes back through `structure` or `refine`, whose
-- results are the next draft, and keeps the count. `none` is out of fuel.
abbrev pub repair_loop : ℕ → (ℕ → Draft) → ℕ → ℕ → Option Verdict
repair_loop zero drafts round count = none
repair_loop (suc fuel) drafts round count =
    after_verdict (validate_operations (drafts round) count)
      (λ n. repair_loop fuel drafts (suc round) n)
