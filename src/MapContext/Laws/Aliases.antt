-- ===== src/MapContext/Laws/Aliases.antt =====
-- The aliases of an activity name each of its blocks once, and no other block.
use folioo_ai.Base.{
  ℕ, suc, ◌*◌, ◌≤◌, ◌<◌, Bool, true, false, ◌&&◌, ◌≡◌, refl, sym, ap, ◌∙◌, List, [], ◌∷◌, ◌++◌, leb,
  ltb, arith,
}
use folioo_ai.Commit.Remap.{Dict}
use folioo_ai.Commit.Laws.Remap.{has_key, is_dict}
use folioo_ai.MapContext.Snapshot.{MapBlockRow, Forest, end, block, walk}
use folioo_ai.MapContext.Activity.{block_alias, render}

-- The block ids of a dict in its order.
abbrev pub ids : Dict → List ℕ
ids [] = []
ids ((a, id) ∷ d) = id ∷ ids d

abbrev pub row_ids : List MapBlockRow → List ℕ
row_ids [] = []
row_ids (r ∷ rs) = r.block_id ∷ row_ids rs

ids-append : (d e : Dict) → ids (d ++ e) ≡ ids d ++ ids e
ids-append [] e = refl
ids-append ((a, id) ∷ d) e = ap (λ z. id ∷ z) (ids-append d e)

row_ids-append : (a b : List MapBlockRow) → row_ids (a ++ b) ≡ row_ids a ++ row_ids b
row_ids-append [] b = refl
row_ids-append (r ∷ a) b = ap (λ z. r.block_id ∷ z) (row_ids-append a b)

-- The dict has the blocks of the tree in the order of the walk.
pub ids-render :
    (depth parent k : ℕ) (f : Forest) → ids (render depth parent k f).aliases ≡ row_ids (walk f)
unfolding render
ids-render depth parent k end = refl
ids-render depth parent k (block r children rest) =
    let inner = render (suc depth) (block_alias k) (suc k) children in
    let later = render depth parent inner.next rest in
    ap (λ z. r.block_id ∷ z)
      (ids-append inner.aliases later.aliases
        ∙ ap (λ z. z ++ ids later.aliases) (ids-render (suc depth) (block_alias k) (suc k) children)
        ∙ ap (λ z. row_ids (walk children) ++ z) (ids-render depth parent inner.next rest)
        ∙ sym (row_ids-append (walk children) (walk rest)))

render-next : (depth parent k : ℕ) (f : Forest) → k ≤ (render depth parent k f).next
unfolding render
render-next depth parent k end = omega arith
render-next depth parent k (block r children rest) =
    let inner = render (suc depth) (block_alias k) (suc k) children in
    omega (
      arith,
      render-next (suc depth) (block_alias k) (suc k) children,
      render-next depth parent inner.next rest,
    )

has_key-append :
    (a : ℕ) (d e : Dict) → has_key a d ≡ false → has_key a e ≡ false → has_key a (d ++ e) ≡ false
has_key-append a [] e p q = q
has_key-append a (x ∷ d) e p q = ground (arith, has_key-append a d e)

-- All keys are in a range.
abbrev keys_in : ℕ → ℕ → Dict → Bool
keys_in lo hi [] = true
keys_in lo hi ((a, id) ∷ d) = leb lo a && ltb a hi && keys_in lo hi d

keys_in-below : (lo hi a : ℕ) (d : Dict) → keys_in lo hi d ≡ true → a < lo → has_key a d ≡ false
keys_in-below lo hi a [] e h = refl
keys_in-below lo hi a ((b, id) ∷ d) e h = ground (arith, keys_in-below lo hi a d)

keys_in-above : (lo hi a : ℕ) (d : Dict) → keys_in lo hi d ≡ true → hi ≤ a → has_key a d ≡ false
keys_in-above lo hi a [] e h = refl
keys_in-above lo hi a ((b, id) ∷ d) e h = ground (arith, keys_in-above lo hi a d)

keys_in-append :
    (lo hi l h : ℕ) (d e : Dict)
    → keys_in lo hi d ≡ true
    → keys_in hi h e ≡ true
    → l ≤ lo
    → lo ≤ hi
    → hi ≤ h
    → keys_in l h (d ++ e) ≡ true
keys_in-append lo hi l h [] [] p q a b c = refl
keys_in-append lo hi l h [] ((x, id) ∷ e) p q a b c = ground (arith, keys_in-append lo hi l h [] e)
keys_in-append lo hi l h ((x, id) ∷ d) e p q a b c = ground (arith, keys_in-append lo hi l h d e)

is_dict-append :
    (lo mid hi : ℕ) (d e : Dict)
    → keys_in lo mid d ≡ true
    → keys_in mid hi e ≡ true
    → is_dict d ≡ true
    → is_dict e ≡ true
    → is_dict (d ++ e) ≡ true
is_dict-append lo mid hi [] e p q u v = v
is_dict-append lo mid hi ((x, id) ∷ d) e p q u v =
    ground (arith, is_dict-append lo mid hi d e, has_key-append x d e, keys_in-below mid hi x e)

keys_in-render :
    (depth parent k : ℕ) (f : Forest)
    → let r = render depth parent k f in
      keys_in (block_alias k) (block_alias r.next) r.aliases ≡ true
unfolding render
keys_in-render depth parent k end = refl
keys_in-render depth parent k (block r children rest) =
    let inner = render (suc depth) (block_alias k) (suc k) children in
    let later = render depth parent inner.next rest in
    let n = render-next (suc depth) (block_alias k) (suc k) children in
    let m = render-next depth parent inner.next rest in
    ground (
      arith,
      n,
      m,
      keys_in-append (block_alias (suc k)) (block_alias inner.next) (block_alias k)
          (block_alias later.next) inner.aliases later.aliases
          (keys_in-render (suc depth) (block_alias k) (suc k) children)
          (keys_in-render depth parent inner.next rest) (omega arith) (omega (arith, n))
          (omega (arith, m)),
    )

pub is_dict-render :
    (depth parent k : ℕ) (f : Forest) → is_dict (render depth parent k f).aliases ≡ true
unfolding render
is_dict-render depth parent k end = refl
is_dict-render depth parent k (block r children rest) =
    let inner = render (suc depth) (block_alias k) (suc k) children in
    let later = render depth parent inner.next rest in
    let n = render-next (suc depth) (block_alias k) (suc k) children in
    let ki = keys_in-render (suc depth) (block_alias k) (suc k) children in
    let kl = keys_in-render depth parent inner.next rest in
    let d =
      is_dict-append (block_alias (suc k)) (block_alias inner.next) (block_alias later.next)
        inner.aliases later.aliases ki kl
        (is_dict-render (suc depth) (block_alias k) (suc k) children)
        (is_dict-render depth parent inner.next rest) in
    let free =
      has_key-append (block_alias k) inner.aliases later.aliases
        (keys_in-below (block_alias (suc k)) (block_alias inner.next) (block_alias k) inner.aliases
          ki (omega arith))
        (keys_in-below (block_alias inner.next) (block_alias later.next) (block_alias k)
          later.aliases kl (omega (arith, n))) in
    ground (arith, d, free)

-- No block has the alias of an activity.
pub even-free :
    (a depth parent k : ℕ) (f : Forest) → has_key (2 * a) (render depth parent k f).aliases ≡ false
unfolding render
even-free a depth parent k end = refl
even-free a depth parent k (block r children rest) =
    let inner = render (suc depth) (block_alias k) (suc k) children in
    let later = render depth parent inner.next rest in
    let free =
      has_key-append (2 * a) inner.aliases later.aliases
        (even-free a (suc depth) (block_alias k) (suc k) children)
        (even-free a depth parent inner.next rest) in
    ground (arith, free)
