-- ===== src/MapContext/Laws/Scope.antt =====
-- The context of an activity shows exactly the blocks of the activity.
use mathlib.Core.Path.{subst}
use folioo_ai.Base.{
  ℕ, suc, ◌*◌, true, false, ◌≡◌, refl, sym, ap, ◌∙◌, some, List, [], ◌∷◌, ◌++◌, ◌==◌, arith, inl,
  inr, Option-cases, Bool-cases,
}
use folioo_ai.Commit.Remap.{Dict}
use folioo_ai.Commit.Laws.Remap.{has_key, is_dict}
use folioo_ai.MapContext.Snapshot.{Forest, end, block, walk}
use folioo_ai.MapContext.Activity.{
  Activity, activity_alias, block_alias, activities, activity_by_alias, AliasBlockMetadata, render,
  ActivityContext, context_of, get_activity_context,
}
use folioo_ai.MapContext.Laws.Aliases.{ids, row_ids, ids-render, is_dict-render, even-free}

-- The block ids that the metadata give to the aliases.
abbrev pub metadata_ids : List (ℕ × AliasBlockMetadata) → Dict
metadata_ids [] = []
metadata_ids ((a, m) ∷ ms) = (a, m.block_id) ∷ metadata_ids ms

metadata_ids-append :
    (a b : List (ℕ × AliasBlockMetadata)) → metadata_ids (a ++ b) ≡ metadata_ids a ++ metadata_ids b
metadata_ids-append [] b = refl
metadata_ids-append ((x, m) ∷ a) b = ap (λ z. (x, m.block_id) ∷ z) (metadata_ids-append a b)

metadata_ids-render :
    (depth parent k : ℕ) (f : Forest)
    → metadata_ids (render depth parent k f).metadata ≡ (render depth parent k f).aliases
unfolding render
metadata_ids-render depth parent k end = refl
metadata_ids-render depth parent k (block r children rest) =
    let inner = render (suc depth) (block_alias k) (suc k) children in
    let later = render depth parent inner.next rest in
    ap (λ z. (block_alias k, r.block_id) ∷ z)
      (metadata_ids-append inner.metadata later.metadata
        ∙ ap (λ z. z ++ metadata_ids later.metadata)
            (metadata_ids-render (suc depth) (block_alias k) (suc k) children)
        ∙ ap (λ z. inner.aliases ++ z) (metadata_ids-render depth parent inner.next rest))

activity_alias-even :
    (k alias : ℕ) (l : List Activity) (a : Activity)
    → activity_by_alias k alias l ≡ some a
    → (j : ℕ) × (alias ≡ 2 * j)
activity_alias-even k alias [] a e = absurd (ground arith)
activity_alias-even k alias (x ∷ l) a e = elim (Bool-cases (activity_alias k == alias)) [
  | inl b ↦ (k, ground (arith, b))
  | inr b ↦ activity_alias-even (suc k) alias l a (ground (arith, b))
]

-- The alias names an activity, and the context is that of this activity alone.
pub record IsScoped (alias : ℕ) (roots : Forest) (c : ActivityContext) : Type 0 where
  pub activity : Activity
  pub found : activity_by_alias 1 alias (activities roots) ≡ some activity
  pub own_id : c.activity_id ≡ activity.row.block_id
  pub once : is_dict c.alias_to_block_id ≡ true
  pub whole : ids c.alias_to_block_id ≡ activity.row.block_id ∷ row_ids (walk activity.children)
  pub described : metadata_ids c.alias_metadata ≡ c.alias_to_block_id

context_of-IsScoped :
    (alias : ℕ) (roots : Forest) (a : Activity) (c : ActivityContext)
    → activity_by_alias 1 alias (activities roots) ≡ some a
    → context_of alias (some a) ≡ some c
    → IsScoped alias roots c
context_of-IsScoped alias roots a c f e =
    let inner = render 1 alias 1 a.children in
    let (j, even) = activity_alias-even 1 alias (activities roots) a f in
    let free : has_key alias inner.aliases ≡ false =
      subst (λ z. has_key z inner.aliases ≡ false) (sym even) (even-free j 1 alias 1 a.children) in
    let d = is_dict-render 1 alias 1 a.children in
    record {
      activity = a;
      found = f;
      own_id = ground (arith, e);
      once = ground (arith, e, free, d);
      whole = ground (arith, e, ids-render 1 alias 1 a.children);
      described = ground (arith, e, metadata_ids-render 1 alias 1 a.children);
    }

-- Where a map has a context for an alias, the alias is that of an activity, its dict of aliases has
-- each alias once, names the activity and each block below it in the order of the tree and nothing
-- else, and the metadata give the same blocks to the same aliases.
pub get_activity_context-IsScoped :
    (alias : ℕ) (roots : Forest) (c : ActivityContext)
    → get_activity_context alias roots ≡ some c
    → IsScoped alias roots c
unfolding get_activity_context
get_activity_context-IsScoped alias roots c e =
    elim (Option-cases (activity_by_alias 1 alias (activities roots))) [
      | inl n ↦ absurd (ground (arith, n))
      | inr (a, n) ↦ context_of-IsScoped alias roots a c n (ground (arith, n))
    ]
