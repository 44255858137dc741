-- ===== src/Service/Laws/Hash.antt =====
-- The hash of a request: the order of its files and the space around its message do not matter.
use mathlib.Core.Path.{subst}
use mathlib.Core.List.{Perm, Permᴰ, is_set as List-is_set}
use native.Mathlib.Nat.{ℕ_set}
use mathlib.Core.Logic.{∥∥₁_elim}
use folioo_ai.Base.{text_or_empty, ℕ, Text, strip, ◌≡◌, refl, ap, ◌∙◌, Option, List, [], ◌∷◌, arith}
use folioo_ai.Service.Prepare.Request.{insert, sorted, hash_input, HashInput}

insert-swap : (a b : ℕ) (xs : List ℕ) → insert a (insert b xs) ≡ insert b (insert a xs)
insert-swap a b [] = ground arith
insert-swap a b (x ∷ xs) = ground (arith, insert-swap a b xs)

sorted-Permᴰ : (xs ys : List ℕ) → Permᴰ xs ys → sorted xs ≡ sorted ys
sorted-Permᴰ _ _ Permᴰ.nil = refl
sorted-Permᴰ (a ∷ xs) (b ∷ ys) (Permᴰ.cons e p) =
    subst (λ z. insert a (sorted xs) ≡ insert z (sorted ys)) e
      (ap (insert a) (sorted-Permᴰ xs ys p))
sorted-Permᴰ (a ∷ b ∷ xs) (a' ∷ b' ∷ _) (Permᴰ.swap e f) =
    insert-swap a b (sorted xs)
    ∙ ap (λ z. insert z (insert a (sorted xs))) f
    ∙ ap (λ z. insert a' (insert z (sorted xs))) e
sorted-Permᴰ xs ys (Permᴰ.trans {l₂ = zs} p q) = sorted-Permᴰ xs zs p ∙ sorted-Permᴰ zs ys q

abbrev with_files : Option Text → Option ℕ → Option Text → List ℕ → HashInput
with_files message context view files = record {
  message = strip (text_or_empty message);
  context_experience_id = context;
  view = view;
  files = files;
}

-- Two requests whose files have the same digests in any order, and that are otherwise the same,
-- have the same object to hash, so that the second one is answered as the same request.
pub hash_input-Perm :
    (message : Option Text) (context : Option ℕ) (view : Option Text) (files others : List ℕ)
    → Perm files others
    → hash_input message context view files ≡ hash_input message context view others
unfolding hash_input
hash_input-Perm message context view files others p =
    ap (with_files message context view)
      (∥∥₁_elim p (List-is_set ℕ_set _ _) (λ d. sorted-Permᴰ files others d))
