-- ===== src/Validate/Laws/Repairs.antt =====
-- The verdict of the node, and the loop of repairs.
use mathlib.Core.Path.{subst}
use folioo_ai.Base.{
  ℕ, suc, Text, ◌+◌, ◌≡◌, ◌≢◌, ◌==◌, ◌⊎◌, refl, sym, ap, ◌∙◌, ◌<◌, Bool, true, false, Option, none,
  some, List, [], ◌∷◌, leb, arith, inl, inr, Option-cases, Bool-cases, any, append-eq_nil,
}
use folioo_ai.Validate.Items.{RawItem, Fields, Operation}
use folioo_ai.Validate.Checks.{check_operations}
use folioo_ai.Validate.Node.{
  Draft, metadata, merge_item, merge_items, refined_text, is_refined, all_refined, set_errors,
  has_duplicate, of_operations, build_operations, all_errors, Verdict, accepts, repairs, fails,
  validate_operations, after_verdict, repair_loop,
}
use folioo_ai.Validate.Laws.Plan.{IsPlan}
use folioo_ai.Validate.Laws.Sound.{check_operations-IsPlan}

abbrev pub is_clean : Draft → Bool
is_clean d = elim (all_errors d) [ [] ↦ true | _ ∷ _ ↦ false ]

clean_lem : (d : Draft) → is_clean d ≡ true → all_errors d ≡ []
clean_lem d h = ground arith

verdict_clean :
    (d : Draft) (n : ℕ)
    → is_clean d ≡ true
    → validate_operations d n ≡ accepts (build_operations d).0
unfolding validate_operations
verdict_clean d n h = ground (arith, clean_lem d h)

verdict_repairs :
    (d : Draft) (n : ℕ)
    → is_clean d ≡ false
    → leb 2 n ≡ false
    → validate_operations d n ≡ repairs (all_errors d) (n + 1)
unfolding validate_operations
verdict_repairs d n h l = ground arith

verdict_fails :
    (d : Draft) (n : ℕ) → is_clean d ≡ false → leb 2 n ≡ true → validate_operations d n ≡ fails
unfolding validate_operations
verdict_fails d n h l = ground arith

-- The ids and the other fields of operations and of the items they are made of.
abbrev pub operation_parts : List Operation → List (Option ℕ × Fields)
operation_parts [] = []
operation_parts (op ∷ ops) = (some op.item_id, op.fields) ∷ operation_parts ops

abbrev pub item_parts : List RawItem → List (Option ℕ × Fields)
item_parts [] = []
item_parts (x ∷ xs) = (x.raw_id, x.fields) ∷ item_parts xs

refined_there :
    (id : ℕ) (refined : List (ℕ × Option Text))
    → any (λ r. r.0 == id) refined ≡ true
    → refined_text id refined ≢ none
refined_there id [] h e = ground arith
refined_there id ((x, t) ∷ rest) h e = ground (arith, refined_there id rest)

merged :
    (x : RawItem) (refined : List (ℕ × Option Text))
    → is_refined refined x.raw_id ≡ true
    → (op : Operation) × (merge_item x refined ≡ some op)
      × (some op.item_id ≡ x.raw_id)
      × (op.fields ≡ x.fields)
merged x refined h = elim (Option-cases x.raw_id) [
  | inl n ↦ absurd (ground arith)
  | inr (id, n) ↦ elim (Option-cases (refined_text id refined)) [
    | inl m ↦ absurd (refined_there id refined (ground arith) m)
    | inr (t, m) ↦ (record { item_id = id; fields = x.fields; text = t }, ground arith, sym n, refl)
  ]
]

merge_keeps :
    (items : List RawItem) (refined : List (ℕ × Option Text))
    → all_refined refined items ≡ true
    → operation_parts (merge_items items refined) ≡ item_parts items
merge_keeps [] refined h = refl
merge_keeps (x ∷ xs) refined h =
    let (op, m, i, f) = merged x refined (ground arith) in
    ground (arith, m, i, f, merge_keeps xs refined)

clean_parts :
    (d : Draft)
    → is_clean d ≡ true
    → (set_errors (metadata d) d.refined_items ≡ [])
      × (check_operations d.aliases
            (merge_items (metadata d) d.refined_items)
            (record { items = []; levels = [] })
          ≡ [])
unfolding build_operations
clean_parts d h = append-eq_nil (set_errors (metadata d) d.refined_items) _ (clean_lem d h)

all_refined_lem :
    (items : List RawItem) (refined : List (ℕ × Option Text))
    → set_errors items refined ≡ []
    → all_refined refined items ≡ true
all_refined_lem items refined e =
    let (_, r) = append-eq_nil (of_operations (has_duplicate items) _) _ e in ground (arith, r)

-- An accepted draft: a plan, with every item of the draft, in its order and with its fields.
pub record IsAccepted (d : Draft) (ops : List Operation) : Type 0 where
  pub plan : IsPlan d.aliases [] [] ops
  pub complete : operation_parts ops ≡ item_parts (metadata d)

clean-IsAccepted : (d : Draft) → is_clean d ≡ true → IsAccepted d (build_operations d).0
unfolding build_operations
clean-IsAccepted d h =
    let (set, checks) = clean_parts d h in
    record {
      plan = check_operations-IsPlan d.aliases _ (record { items = []; levels = [] }) checks;
      complete =
          merge_keeps (metadata d) d.refined_items
            (all_refined_lem (metadata d) d.refined_items set);
    }

-- What the node accepts is a plan: each added block has its parent among the activity's blocks or
-- among the blocks added before it, at most level 5, a section at level 3, a slot at the level of
-- its number, its predecessor among its siblings; each changed block lies below level 3, may be
-- edited and gets a text; texts have 1 to 500 characters, blanks around them apart; ids are
-- distinct. And it is complete: the proposed items, all of them, in their order and unchanged beside
-- their text.
pub accepts-IsAccepted :
    (d : Draft) (repair_count : ℕ) (ops : List Operation)
    → validate_operations d repair_count ≡ accepts ops
    → IsAccepted d ops
accepts-IsAccepted d n ops e = elim (Bool-cases (is_clean d)) [
  | inl h ↦ subst (IsAccepted d) (ground (arith, verdict_clean d n h, e)) (clean-IsAccepted d h)
  | inr h ↦ elim (Bool-cases (leb 2 n)) [
    | inl l ↦ absurd (ground (arith, verdict_fails d n h l, e))
    | inr l ↦ absurd (ground (arith, verdict_repairs d n h l, e))
  ]
]

module _ (fuel : ℕ) (drafts : ℕ → Draft) (round count : ℕ) where
  abbrev proceed : Verdict → Option Verdict
  proceed v = after_verdict v (λ n. repair_loop fuel drafts (suc round) n)

  loop_accepts :
      is_clean (drafts round) ≡ true
      → repair_loop (suc fuel) drafts round count
        ≡ some (accepts (build_operations (drafts round)).0)
  loop_accepts h = ap proceed (verdict_clean (drafts round) count h)

  loop_repairs :
      is_clean (drafts round) ≡ false
      → leb 2 count ≡ false
      → repair_loop (suc fuel) drafts round count ≡ repair_loop fuel drafts (suc round) (count + 1)
  loop_repairs h l = ap proceed (verdict_repairs (drafts round) count h l)

  loop_fails :
      is_clean (drafts round) ≡ false
      → leb 2 count ≡ true
      → repair_loop (suc fuel) drafts round count ≡ some fails
  loop_fails h l = ap proceed (verdict_fails (drafts round) count h l)

-- The three ends of the loop.
abbrev pub Ends : (ℕ → Draft) → Option Verdict → Type 0
Ends drafts v =
    ((k : ℕ) × ((k < 3)
        × ((ops : List Operation) × ((v ≡ some (accepts ops)) × IsAccepted (drafts k) ops))))
    ⊎ ((v ≡ some fails)
        × (is_clean (drafts 0) ≡ false)
        × (is_clean (drafts 1) ≡ false)
        × (is_clean (drafts 2) ≡ false))

-- Repairs come to an end: whatever `structure` and `refine` make of the errors, after at most three
-- rounds either a draft is accepted, or, all three having errors, the request fails. No partial
-- draft is committed.
pub repair_loop-Ends : (drafts : ℕ → Draft) → Ends drafts (repair_loop 3 drafts 0 0)
repair_loop-Ends drafts = elim (Bool-cases (is_clean (drafts 0))) [
  | inl a ↦
      inl (0, (omega arith, (_, (loop_accepts 2 drafts 0 0 a, clean-IsAccepted (drafts 0) a))))
  | inr a ↦
      let r0 = loop_repairs 2 drafts 0 0 a refl in
      elim (Bool-cases (is_clean (drafts 1))) [
        | inl b ↦ inl (
          1,
          (omega arith, (_, (r0 ∙ loop_accepts 1 drafts 1 1 b, clean-IsAccepted (drafts 1) b))),
        )
        | inr b ↦
            let r1 = r0 ∙ loop_repairs 1 drafts 1 1 b refl in
            elim (Bool-cases (is_clean (drafts 2))) [
              | inl c ↦ inl (
                2,
                (
                  omega arith,
                  (_, (r1 ∙ loop_accepts 0 drafts 2 2 c, clean-IsAccepted (drafts 2) c)),
                ),
              )
              | inr c ↦ inr (r1 ∙ loop_fails 0 drafts 2 2 c refl, a, b, c)
            ]
      ]
]
