-- ===== src/Commit/Laws/Conflict.antt =====
-- After a map conflict that keeps the structure, the rebuilt operations give the same commit.
use mathlib.Core.Path.{subst}
use folioo_ai.Base.{
  ℕ, Text, Bool, true, false, Option, none, some, List, [], ◌∷◌, ◌≡◌, ◌≢◌, refl, sym, ap, ◌∙◌,
  arith, inl, inr, Option-cases, Bool-cases, leb,
}
use folioo_ai.Validate.Items.{RawItem, Aliases}
use folioo_ai.Validate.Node.{Draft, append_item, merge_items, refined_text, build_operations}
use folioo_ai.Commit.Remap.{
  Dict, to_commit_items, remap_item, remap_all, remap_one_operation, remap_operations,
}
use folioo_ai.Commit.Node.{
  State, Client, done, to_validate, Lookup, Reply, reenter, refreshed, after_lookup, after_reply,
  commit_changes, version_conflict, lookup_raised, looked_up, replied, unreachable, refused,
}
use folioo_ai.Commit.Laws.Loop.{commit_changes-after_reply}
use folioo_ai.Commit.Laws.Remap.{is_dict, remap_ops, all_maintained, to_commit_items-remap}

-- What validate reads of the state when it runs again, with the unchanged refinement.
abbrev pub draft_of : State → List (ℕ × Option Text) → Aliases → Draft
draft_of s refined aliases = record {
  structured_items = s.structured_items;
  gap_update_item = s.gap_update_item;
  refined_items = refined;
  aliases = aliases;
}

append_item-remap :
    (old new : Dict) (xs : List RawItem) (gap : Option RawItem)
    → append_item (remap_all old new xs).0 (remap_one_operation old new gap).0
      ≡ (remap_all old new (append_item xs gap)).0
append_item-remap old new [] none = refl
append_item-remap old new [] (some g) = refl
append_item-remap old new (x ∷ xs) gap =
    ap (λ ys. (remap_item old new x).0 ∷ ys) (append_item-remap old new xs gap)

append_item-maintained :
    (old new : Dict) (xs : List RawItem) (gap : Option RawItem)
    → (remap_all old new xs).1 ≡ true
    → (remap_one_operation old new gap).1 ≡ true
    → (remap_all old new (append_item xs gap)).1 ≡ true
append_item-maintained old new [] none v g = refl
append_item-maintained old new [] (some x) v g = ground arith
append_item-maintained old new (x ∷ xs) gap v g =
    ground (arith, append_item-maintained old new xs gap)

merge_items-remap :
    (old new : Dict) (xs : List RawItem) (refined : List (ℕ × Option Text))
    → merge_items (remap_all old new xs).0 refined ≡ remap_ops old new (merge_items xs refined)
merge_items-remap old new [] refined = refl
merge_items-remap old new (x ∷ xs) refined = elim (Option-cases x.raw_id) [
  | inl n ↦ ground (arith, n, merge_items-remap old new xs refined)
  | inr (id, n) ↦ elim (Option-cases (refined_text id refined)) [
    | inl m ↦ ground (arith, n, m, merge_items-remap old new xs refined)
    | inr (t, m) ↦ ground (arith, n, m, merge_items-remap old new xs refined)
  ]
]

merge_items-maintained :
    (old new : Dict) (xs : List RawItem) (refined : List (ℕ × Option Text))
    → (remap_all old new xs).1 ≡ true
    → all_maintained old new (merge_items xs refined) ≡ true
merge_items-maintained old new [] refined v = refl
merge_items-maintained old new (x ∷ xs) refined v = elim (Option-cases x.raw_id) [
  | inl n ↦ ground (arith, n, merge_items-maintained old new xs refined)
  | inr (id, n) ↦ elim (Option-cases (refined_text id refined)) [
    | inl m ↦ ground (arith, n, m, merge_items-maintained old new xs refined)
    | inr (t, m) ↦ ground (arith, n, m, merge_items-maintained old new xs refined)
  ]
]

-- The verdict and the renamed items of `_remap_operations` for a state.
abbrev pub remapping : State → State → List RawItem × Bool
remapping s fresh =
    remap_operations s.aliases fresh.aliases s.structured_items s.gap_update_item
      s.target_experience_alias

-- The state comes from a refreshed one by renaming with success.
abbrev IsReentry : State → State → Type 0
IsReentry s t =
    (fresh : State) × (current : Option ℕ) × (t
      ≡ reenter s fresh current (remapping s fresh).0 true)
    × ((remapping s fresh).1 ≡ true)

refreshed-IsReentry :
    (s t : State) (current : Option ℕ) (o : Option State)
    → refreshed s current o ≡ done t
    → t.commit_recovery_node ≡ some to_validate
    → IsReentry s t
refreshed-IsReentry s t current none e r = absurd (ground arith)
refreshed-IsReentry s t current (some fresh) e r = elim (Bool-cases (remapping s fresh).1) [
  | inl b ↦ (fresh, current, ground (arith, b), b)
  | inr b ↦ absurd (ground (arith, b))
]

pub after_lookup-ends :
    (s t : State) (l : Lookup)
    → after_lookup s l ≡ done t
    → t.commit_recovery_node ≢ some to_validate
after_lookup-ends s t lookup_raised e r = ground arith
after_lookup-ends s t (looked_up false x) e r = ground arith
after_lookup-ends s t (looked_up true none) e r = ground arith
after_lookup-ends s t (looked_up true (some x)) e r = ground arith

after_reply-IsReentry :
    (c : Client) (s t : State) (request : ℕ) (reply : Reply)
    → after_reply c s request reply ≡ done t
    → t.commit_recovery_node ≡ some to_validate
    → IsReentry s t
after_reply-IsReentry c s t request (replied x) e r = absurd (ground arith)
after_reply-IsReentry c s t request unreachable e r =
    absurd (after_lookup-ends s t (c.get_commit request) e r)
after_reply-IsReentry c s t request refused e r = absurd (ground arith)
after_reply-IsReentry c s t request (version_conflict current) e r =
    elim (Bool-cases (leb 1 s.commit_conflict_count)) [
      | inl b ↦ absurd (ground (arith, b))
      | inr b ↦ elim (Option-cases c.refresh_map) [
        | inl n ↦ absurd (ground (arith, b, n))
        | inr (f, n) ↦ refreshed-IsReentry s t current (f s) (ground (arith, b, n)) r
      ]
    ]

commit_changes-IsReentry :
    (c : Client) (s t : State)
    → commit_changes c s ≡ done t
    → t.commit_recovery_node ≡ some to_validate
    → IsReentry s t
commit_changes-IsReentry c s t e r =
    let (request, reply, q) = commit_changes-after_reply c s t e in
    after_reply-IsReentry c s t request reply q r

operations-remap :
    (s fresh : State) (current : Option ℕ) (refined : List (ℕ × Option Text)) (a b : Aliases)
    → (remapping s fresh).1 ≡ true
    → is_dict fresh.aliases ≡ true
    → to_commit_items fresh.aliases
        (build_operations
          (draft_of (reenter s fresh current (remapping s fresh).0 true) refined a)).0
      ≡ to_commit_items s.aliases (build_operations (draft_of s refined b)).0
unfolding build_operations
operations-remap s fresh current refined a b v u =
    let old = s.aliases in
    let new = fresh.aliases in
    let xs = s.structured_items in
    let gap = s.gap_update_item in
    let items = append_item xs gap in
    let m = append_item-maintained old new xs gap (ground arith) (ground arith) in
    ap (λ z. to_commit_items new (merge_items z refined)) (append_item-remap old new xs gap)
    ∙ ap (to_commit_items new) (merge_items-remap old new items refined)
    ∙ to_commit_items-remap old new (merge_items items refined) u
        (merge_items-maintained old new items refined m)

-- If a commit meets a map conflict and asks to validate again, then the operations that validate
-- rebuilds from the new state and the unchanged refinement are, under the new aliases, converted
-- to the same items for the main server as the operations of the old state under the old aliases,
-- or refused alike. The condition is that the new map's dict has each alias once.
pub commit_changes-build_operations :
    (c : Client) (s t : State) (refined : List (ℕ × Option Text)) (a b : Aliases)
    → commit_changes c s ≡ done t
    → t.commit_recovery_node ≡ some to_validate
    → is_dict t.aliases ≡ true
    → to_commit_items t.aliases (build_operations (draft_of t refined a)).0
      ≡ to_commit_items s.aliases (build_operations (draft_of s refined b)).0
commit_changes-build_operations c s t refined a b e r u =
    let (fresh, current, q, v) = commit_changes-IsReentry c s t e r in
    subst
      (λ z.
        is_dict z.aliases ≡ true
        → to_commit_items z.aliases (build_operations (draft_of z refined a)).0
          ≡ to_commit_items s.aliases (build_operations (draft_of s refined b)).0)
      (sym q) (operations-remap s fresh current refined a b v) u
