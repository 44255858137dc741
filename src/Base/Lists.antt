-- ===== src/Base/Lists.antt =====
-- Lists by native numbers, predicates on them, and tables: lists of rows under SQL statements.
use Prim.Native.Nat.{ℕ, zero, suc, ◌+◌}
use mathlib.Core.Path.{◌≡◌, refl}
use mathlib.Core.Logic.{◌⊎◌}
use mathlib.Core.Bool.{Bool, true, false}
use mathlib.Core.Option.{Option, none, some}
use mathlib.Core.List.{List, [], ◌∷◌, ◌++◌}
use native.Mathlib.Omega.{arith}
use folioo_ai.Base.Tests.{if◌then◌else◌}

-- `x in xs`, as a statement.
abbrev pub In : {A : Type 0} → A → List A → Type 0
In x [] = ⊥
In x (y ∷ ys) = (x ≡ y) ⊎ In x ys

module _ {ℓ} {A : Type ℓ} where
  abbrev pub length : List A → ℕ
  length [] = 0
  length (x ∷ xs) = suc (length xs)

  abbrev pub take : ℕ → List A → List A
  take zero xs = []
  take (suc n) [] = []
  take (suc n) (x ∷ xs) = x ∷ take n xs

  abbrev pub All {κ} : (A → Type κ) → List A → Type κ
  All P [] = Unit
  All P (x ∷ xs) = P x × All P xs

  -- `any(p(x) for x in xs)`
  abbrev pub any : (A → Bool) → List A → Bool
  any p [] = false
  any p (x ∷ xs) = if p x then true else any p xs

  -- The first row that fits, or `None`.
  abbrev pub select_first : (A → Bool) → List A → Option A
  select_first p [] = none
  select_first p (x ∷ xs) = if p x then some x else select_first p xs

  -- The rows that fit, in order.
  abbrev pub select : (A → Bool) → List A → List A
  select p [] = []
  select p (x ∷ xs) = if p x then x ∷ select p xs else select p xs

  -- `UPDATE … SET f WHERE p`, and the rows of its `RETURNING` clause.
  abbrev pub update_where : (A → Bool) → (A → A) → List A → List A
  update_where p f [] = []
  update_where p f (x ∷ xs) = (if p x then f x else x) ∷ update_where p f xs

  abbrev pub returning : (A → Bool) → (A → A) → List A → List A
  returning p f [] = []
  returning p f (x ∷ xs) = if p x then f x ∷ returning p f xs else returning p f xs

  -- `DELETE … WHERE p`
  abbrev pub delete_where : (A → Bool) → List A → List A
  delete_where p [] = []
  delete_where p (x ∷ xs) = if p x then delete_where p xs else x ∷ delete_where p xs

  -- `fetchrow`: the first record of a result.
  abbrev pub fetchrow : List A → Option A
  fetchrow [] = none
  fetchrow (x ∷ _) = some x

  pub length-append : (xs ys : List A) → length (xs ++ ys) ≡ length xs + length ys
  length-append [] ys = omega arith
  length-append (x ∷ xs) ys = omega (arith, length-append xs ys)

  -- An update that makes `q` true nowhere leaves it false everywhere.
  pub any-update_where :
      (q p : A → Bool) (f : A → A)
      → ((x : A) → q (f x) ≡ true → q x ≡ true)
      → (xs : List A) → any q xs ≡ false
      → any q (update_where p f xs) ≡ false
  any-update_where q p f h [] e = refl
  any-update_where q p f h (x ∷ xs) e = ground (arith, any-update_where q p f h xs, h x)

  pub update_where-eq_self :
      (p : A → Bool) (f : A → A) (xs : List A) → any p xs ≡ false → update_where p f xs ≡ xs
  update_where-eq_self p f [] e = refl
  update_where-eq_self p f (x ∷ xs) e = ground (arith, update_where-eq_self p f xs)

  pub returning-eq_nil :
      (p : A → Bool) (f : A → A) (xs : List A) → any p xs ≡ false → returning p f xs ≡ []
  returning-eq_nil p f [] e = refl
  returning-eq_nil p f (x ∷ xs) e = ground (arith, returning-eq_nil p f xs)

  pub append-eq_nil : (xs ys : List A) → xs ++ ys ≡ [] → (xs ≡ []) × (ys ≡ [])
  append-eq_nil [] ys e = (refl, e)
  append-eq_nil (x ∷ xs) ys e = absurd (ground arith)
