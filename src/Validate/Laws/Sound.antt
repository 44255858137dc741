-- ===== src/Validate/Laws/Sound.antt =====
-- Operations without an error are a plan.
use mathlib.Core.Path.{subst}
use folioo_ai.Base.{
  ℕ, suc, ◌≡◌, refl, sym, ap, ◌∙◌, ◌≤◌, ◌<◌, Bool, true, false, not, ◌&&◌, some, List, [], ◌∷◌,
  ◌++◌, ◌==◌, arith, inl, inr, Option-cases, Bool-cases, is_some, append-eq_nil,
}
use folioo_ai.Validate.Items.{Operation, BlockMeta, Aliases, Error, is_add, is_structured}
use folioo_ai.Validate.Checks.{
  Seen, check_operation, check_operations, validate_add_parent, validate_add_level,
  validate_after_ref, validate_after_known, validate_update_target, validate_text, note_level,
  level_errors, has_seen, slot_fits,
}
use folioo_ai.Validate.Laws.Plan.{
  parent_level, is_known, is_sibling, has_content, IsAdd, IsUpdate, IsEntry, and_level, IsPlan,
}

-- A parent without an error is there, at the level that the code took.
pub record HasParent (c : Aliases) (op : Operation) (s : Seen) (p : ℕ) : Type 0 where
  pub taken : (validate_add_parent c op s).0 ≡ some p
  pub below : parent_level c s.levels op.fields ≡ some p
  pub parent_known : is_known c op.fields.parent_ref ≡ true

validate_add_parent_lem :
    (c : Aliases) (op : Operation) (s : Seen)
    → (validate_add_parent c op s).1 ≡ []
    → (p : ℕ) × HasParent c op s p
validate_add_parent_lem c op s e = elim (Option-cases (validate_add_parent c op s).0) [
  | inl n ↦ absurd (ground arith)
  | inr (p, t) ↦ (p, record { taken = t; below = ground arith; parent_known = ground arith })
]

validate_add_level_lem :
    (op : Operation) (p : ℕ)
    → validate_add_level op (suc p) ≡ []
    → (suc p ≤ 5)
      × ((is_some op.fields.section_kind && not (suc p == 3)) ≡ false)
      × (slot_fits op.fields.slot_id (suc p) ≡ true)
validate_add_level_lem op p e = ground arith

validate_update_target_lem :
    (c : Aliases) (op : Operation)
    → validate_update_target c op ≡ []
    → (t : ℕ) × ((m : BlockMeta) × (op.fields.target_ref ≡ some t)
        × (c.known t ≡ true)
        × (c.metadata t ≡ some m)
        × (3 < m.level)
        × (m.is_text_editable ≡ true))
validate_update_target_lem c op e = elim (Option-cases op.fields.target_ref) [
  | inl n ↦ absurd (ground arith)
  | inr (t, n) ↦ elim (Option-cases (c.metadata t)) [
    | inl k ↦ absurd (ground arith)
    | inr (m, k) ↦ (t, (m, n, ground arith, k, ground arith, ground arith))
  ]
]

validate_after_lem :
    (c : Aliases) (op : Operation)
    → validate_after_ref c op ≡ []
    → validate_after_known c op ≡ []
    → is_sibling c op.fields ≡ true
validate_after_lem c op e f = ground arith

validate_text_lem :
    (op : Operation)
    → validate_text op ≡ []
    → ((is_some op.text && not (has_content op.text)) ≡ false)
validate_text_lem op e = ground arith

-- A round without an error: the entry is good, and the notes are those of the plan.
pub record IsGoodRound (c : Aliases) (op : Operation) (s : Seen) : Type 0 where
  pub new : has_seen op.item_id s ≡ false
  pub entry : IsEntry c s.levels op
  pub items : (check_operation c op s).0.items ≡ op.item_id ∷ s.items
  pub levels : (check_operation c op s).0.levels ≡ and_level c s.levels op

module _ (c : Aliases) (op : Operation) (s : Seen) where
  abbrev seen : Seen
  seen = record s { items = op.item_id ∷ s.items }

  -- The parts of an addition's errors.
  abbrev add_errors : List Error
  add_errors =
      (validate_add_parent c op seen).1
      ++ (level_errors op (validate_add_parent c op seen).0
          ++ (validate_after_ref c op ++ (validate_after_known c op ++ validate_text op)))

  abbrev update_errors : List Error
  update_errors = validate_update_target c op ++ (validate_after_known c op ++ validate_text op)

  IsAdd-entry : add_errors ≡ [] → (p : ℕ) × (HasParent c op seen p × IsAdd c s.levels op p)
  IsAdd-entry e =
      let (e0, r0) = append-eq_nil (validate_add_parent c op seen).1 _ e in
      let (e1, r1) = append-eq_nil (level_errors op (validate_add_parent c op seen).0) _ r0 in
      let (e2, r2) = append-eq_nil (validate_after_ref c op) _ r1 in
      let (e3, e4) = append-eq_nil (validate_after_known c op) _ r2 in
      let (p, h) = validate_add_parent_lem c op seen e0 in
      let l : validate_add_level op (suc p) ≡ [] = ground (arith, h.taken, e1) in
      let (shallow, section, slot) = validate_add_level_lem op p l in
      (
        p,
        (
          h,
          record {
            below = h.below;
            parent_known = h.parent_known;
            shallow = shallow;
            section_at_3 = section;
            slot_at = slot;
            sibling = validate_after_lem c op e2 e3;
            content = validate_text_lem op e4;
          },
        ),
      )

  IsUpdate-entry :
      is_structured op.fields ≡ true
      → is_add op.fields.action ≡ false
      → update_errors ≡ []
      → (t : ℕ) × ((m : BlockMeta) × IsUpdate c op t m)
  IsUpdate-entry st a e =
      let (e0, r0) = append-eq_nil (validate_update_target c op) _ e in
      let (e1, e2) = append-eq_nil (validate_after_known c op) _ r0 in
      let (t, (m, n, k, d, deep, ed)) = validate_update_target_lem c op e0 in
      (
        t,
        (
          m,
          record {
            names = n;
            target_known = k;
            described = d;
            deep = deep;
            editable = ed;
            keeps_parent = ground arith;
            content = ground arith;
          },
        ),
      )

  passes_schema :
      (check_operation c op s).1 ≡ []
      → (has_seen op.item_id s ≡ false) × (is_structured op.fields ≡ true)
  unfolding check_operation
  passes_schema e = elim (Bool-cases (has_seen op.item_id s)) [
    | inl h ↦ absurd (ground (arith, h))
    | inr h ↦ elim (Bool-cases (is_structured op.fields)) [
      | inl k ↦ (h, k)
      | inr k ↦ absurd (cannot h k e)
    ]
  ]
    where
      cannot :
          has_seen op.item_id s ≡ false
          → is_structured op.fields ≡ false
          → (check_operation c op s).1 ≡ []
          → ⊥
      cannot h k = rw (h, k) (λ e. ground arith)

  abbrev round : Bool → Seen × List Error
  round true = (note_level op.item_id (validate_add_parent c op seen).0 seen, add_errors)
  round false = (seen, update_errors)

  round_of :
      has_seen op.item_id s ≡ false
      → is_structured op.fields ≡ true
      → check_operation c op s ≡ round (is_add op.fields.action)
  unfolding check_operation
  round_of h k = elim (Bool-cases (is_add op.fields.action)) [
    | inl a ↦ rw (h, k, a) refl
    | inr a ↦ rw (h, k, a) refl
  ]

  check_operation-IsGoodRound : (check_operation c op s).1 ≡ [] → IsGoodRound c op s
  check_operation-IsGoodRound e =
      let (new, k) = passes_schema e in
      elim (Bool-cases (is_add op.fields.action)) [
        | inl a ↦
            let r : check_operation c op s ≡ round true = round_of new k ∙ ap round a in
            let (p, (h, entry)) = IsAdd-entry (sym (ap (λ x. x.1) r) ∙ e) in
            record {
              new = new;
              entry = inl (a, (p, entry));
              items = ap (λ x. x.0.items) r ∙ ground (arith, h.taken);
              levels = ap (λ x. x.0.levels) r ∙ ground (arith, h.taken, h.below, a);
            }
        | inr a ↦
            let r : check_operation c op s ≡ round false = round_of new k ∙ ap round a in
            record {
              new = new;
              entry = inr (a, IsUpdate-entry k a (sym (ap (λ x. x.1) r) ∙ e));
              items = ap (λ x. x.0.items) r;
              levels = ap (λ x. x.0.levels) r ∙ ground (arith, a);
            }
      ]

pub check_operations-IsPlan :
    (c : Aliases) (ops : List Operation) (s : Seen)
    → check_operations c ops s ≡ []
    → IsPlan c s.items s.levels ops
unfolding check_operations
check_operations-IsPlan c [] s e = tt
check_operations-IsPlan c (op ∷ ops) s e =
    let (first, rest) = append-eq_nil (check_operation c op s).1 _ e in
    let g = check_operation-IsGoodRound c op s first in
    let others = check_operations-IsPlan c ops (check_operation c op s).0 rest in
    (
      g.new,
      (
        g.entry,
        subst (λ i. IsPlan c i (and_level c s.levels op) ops) g.items
            (subst (λ l. IsPlan c (check_operation c op s).0.items l ops) g.levels others),
      ),
    )
