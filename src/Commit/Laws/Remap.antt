-- ===== src/Commit/Laws/Remap.antt =====
-- Renamed aliases name the blocks of the old ones, so that the same commit is sent after a conflict.
use folioo_ai.Base.{
  ℕ, Bool, true, false, not, ◌&&◌, Option, none, some, List, [], ◌∷◌, ◌≡◌, refl, ◌==◌, arith, inl,
  inr, any, is_some, Option-cases,
}
use folioo_ai.Validate.Items.{Fields, Operation, is_structured}
use folioo_ai.Commit.Remap.{
  Dict, get, alias_by_id, resolve_alias, to_add, to_update, item_of, to_commit_item,
  to_commit_items, convert, remap_ref, remap_fields,
}

abbrev pub has_key : ℕ → Dict → Bool
has_key a d = any (λ e. e.0 == a) d

-- A Python dict has each key once.
abbrev pub is_dict : Dict → Bool
is_dict [] = true
is_dict (e ∷ d) = not (has_key e.0 d) && is_dict d

get-has_key : (a id : ℕ) (d : Dict) → get a d ≡ some id → has_key a d ≡ true
get-has_key a id [] e = absurd (ground arith)
get-has_key a id ((b, x) ∷ d) e = ground (arith, get-has_key a id d)

get-alias_by_id :
    (id b : ℕ) (d : Dict) → is_dict d ≡ true → alias_by_id id d ≡ some b → get b d ≡ some id
get-alias_by_id id b [] u e = absurd (ground arith)
get-alias_by_id id b ((a, x) ∷ d) u e = elim (Option-cases (alias_by_id id d)) [
  | inl n ↦ ground (arith, n)
  | inr (y, n) ↦
      let g = get-alias_by_id id y d (ground arith) n in ground (arith, n, g, get-has_key y id d g)
]

-- A renamed reference names in the new map the block that the old one named.
pub resolve-remap_ref :
    (old new : Dict) (r : Option ℕ)
    → is_dict new ≡ true
    → (remap_ref old new r).1 ≡ true
    → resolve_alias new (remap_ref old new r).0 ≡ resolve_alias old r
resolve-remap_ref old new none u v = refl
resolve-remap_ref old new (some a) u v = elim (Option-cases (get a old)) [
  | inl n ↦ absurd (ground (arith, n))
  | inr (id, n) ↦ elim (Option-cases (alias_by_id id new)) [
    | inl m ↦ absurd (ground (arith, n, m))
    | inr (b, m) ↦ ground (arith, n, m, get-alias_by_id id b new u m)
  ]
]

-- The operation with its references renamed.
abbrev pub remap_op : Dict → Dict → Operation → Operation
remap_op old new op = record op { fields = (remap_fields old new op.fields).0 }

same_some : (old new : Dict) (r : Option ℕ) → is_some (remap_ref old new r).0 ≡ is_some r
same_some old new none = refl
same_some old new (some a) = ground arith

is_structured-remap :
    (old new : Dict) (f : Fields) → is_structured (remap_fields old new f).0 ≡ is_structured f
is_structured-remap old new f = ground (
  arith,
  same_some old new f.parent_ref,
  same_some old new f.target_ref,
  same_some old new f.after_ref,
)

to_add-remap :
    (old new : Dict) (op : Operation) (p a : Option (Option ℕ))
    → to_add (remap_op old new op) p a ≡ to_add op p a
to_add-remap old new op none a = refl
to_add-remap old new op (some p) none = refl
to_add-remap old new op (some p) (some a) = refl

to_update-remap :
    (old new : Dict) (op : Operation) (t : Option (Option ℕ))
    → to_update (remap_op old new op) t ≡ to_update op t
to_update-remap old new op none = refl
to_update-remap old new op (some none) = refl
to_update-remap old new op (some (some t)) = refl

item_of-remap :
    (old new : Dict) (op : Operation) (b : Bool) (p a t : Option (Option ℕ))
    → item_of (remap_op old new op) b p a t ≡ item_of op b p a t
item_of-remap old new op false p a t = refl
item_of-remap old new op true p a t =
    ground (arith, to_add-remap old new op p a, to_update-remap old new op t)

pub to_commit_item-remap :
    (old new : Dict) (op : Operation)
    → is_dict new ≡ true
    → (remap_fields old new op.fields).1 ≡ true
    → to_commit_item new (remap_op old new op) ≡ to_commit_item old op
to_commit_item-remap old new op u v = rw (
  item_of-remap,
  is_structured-remap,
  resolve-remap_ref old new op.fields.parent_ref u (ground arith),
  resolve-remap_ref old new op.fields.after_ref u (ground arith),
  resolve-remap_ref old new op.fields.target_ref u (ground arith),
)

abbrev pub remap_ops : Dict → Dict → List Operation → List Operation
remap_ops old new [] = []
remap_ops old new (op ∷ ops) = remap_op old new op ∷ remap_ops old new ops

-- Every operation keeps its references.
abbrev pub all_maintained : Dict → Dict → List Operation → Bool
all_maintained old new [] = true
all_maintained old new (op ∷ ops) = (remap_fields old new op.fields).1 && all_maintained old new ops

convert-remap :
    (old new : Dict) (ops : List Operation)
    → is_dict new ≡ true
    → all_maintained old new ops ≡ true
    → convert new (remap_ops old new ops) ≡ convert old ops
convert-remap old new [] u v = refl
convert-remap old new (op ∷ ops) u v =
    rw
      (to_commit_item-remap old new op u (ground arith), convert-remap old new ops u (ground arith))

pub to_commit_items-remap :
    (old new : Dict) (ops : List Operation)
    → is_dict new ≡ true
    → all_maintained old new ops ≡ true
    → to_commit_items new (remap_ops old new ops) ≡ to_commit_items old ops
to_commit_items-remap old new [] u v = refl
to_commit_items-remap old new (op ∷ ops) u v = convert-remap old new (op ∷ ops) u v
