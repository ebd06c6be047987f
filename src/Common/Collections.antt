-- ===== src/Common/Collections.antt =====
-- `Set` and `Map` of JavaScript: insertion order, no key twice.
use imagesilo.Common.Tests.{if◌then◌else◌}
use imagesilo.Common.Lists.{length}
use imagesilo.Common.Equality.{Eq, ◌==◌, eq_iff}
use Prim.Native.Nat.{suc, ◌≤◌}
use mathlib.Core.Path.{◌≡◌, refl}
use mathlib.Core.Bool.{Bool, true, false, ◌||◌}
use mathlib.Core.Option.{Option, none, some}
use mathlib.Core.List.{List, [], ◌∷◌, ◌++◌}
use native.Mathlib.Omega.{arith}

module _ {ℓ} {A : Type ℓ} ⦃e : Eq A⦄ where
  -- `set.has`, `array.includes`
  unfoldable pub has : A → List A → Bool
  has a [] = false
  has a (x ∷ xs) = x == a || has a xs

  -- `set.add`
  unfoldable pub add : A → List A → List A
  unfolding has
  add a xs = if has a xs then xs else xs ++ a ∷ []

  -- `set.delete`
  unfoldable pub delete : A → List A → List A
  delete a [] = []
  delete a (x ∷ xs) = let rest = delete a xs in if x == a then rest else x ∷ rest

  -- No element stands twice.
  abbrev pub IsDistinct : List A → Type 0
  IsDistinct [] = Unit
  IsDistinct (x ∷ xs) = (has x xs ≡ false) × IsDistinct xs

  pub has-append : (a : A) (xs ys : List A) → has a (xs ++ ys) ≡ (has a xs || has a ys)
  unfolding has
  has-append a [] ys = refl
  has-append a (x ∷ xs) ys = ground (arith, has-append a xs ys)

  pub has-add : (a b : A) (xs : List A) → has b (add a xs) ≡ (a == b || has b xs)
  unfolding has add
  has-add a b xs = ground (arith, has-append b xs (a ∷ []), eq_iff a b)

  pub has-delete_self : (a : A) (xs : List A) → has a (delete a xs) ≡ false
  unfolding has delete
  has-delete_self a [] = refl
  has-delete_self a (x ∷ xs) = ground (arith, has-delete_self a xs, eq_iff x a)

  pub has-delete :
      (a b : A) (xs : List A) → has b (delete a xs) ≡ (if a == b then false else has b xs)
  unfolding has delete
  has-delete a b [] = ground arith
  has-delete a b (x ∷ xs) = ground (arith, has-delete a b xs, eq_iff x a, eq_iff x b, eq_iff a b)

  pub delete-IsDistinct : (a : A) (xs : List A) → IsDistinct xs → IsDistinct (delete a xs)
  unfolding delete
  delete-IsDistinct a [] h = tt
  delete-IsDistinct a (x ∷ xs) h =
      ground (arith, delete-IsDistinct a xs h.1, has-delete a x xs, eq_iff a x, eq_iff x a)

  concat-IsDistinct :
      (xs : List A) (a : A) → IsDistinct xs → has a xs ≡ false → IsDistinct (xs ++ a ∷ [])
  unfolding has
  concat-IsDistinct [] a h f = (refl, tt)
  concat-IsDistinct (x ∷ xs) a h f =
      ground (arith, concat-IsDistinct xs a h.1, has-append x xs (a ∷ []), eq_iff x a, eq_iff a x)

  pub add-IsDistinct : (a : A) (xs : List A) → IsDistinct xs → IsDistinct (add a xs)
  unfolding add
  add-IsDistinct a xs h = ground (arith, concat-IsDistinct xs a h)

  pub length-delete : (a : A) (xs : List A) → length (delete a xs) ≤ length xs
  unfolding delete
  length-delete a [] = omega arith
  length-delete a (x ∷ xs) = ground (arith, length-delete a xs)

  pub delete_absent : (a : A) (xs : List A) → has a xs ≡ false → delete a xs ≡ xs
  unfolding has delete
  delete_absent a [] h = refl
  delete_absent a (x ∷ xs) h = ground (arith, delete_absent a xs)

  pub length-delete-has :
      (a : A) (xs : List A)
      → IsDistinct xs
      → has a xs ≡ true
      → suc (length (delete a xs)) ≡ length xs
  unfolding has delete
  length-delete-has a [] d h = ground arith
  length-delete-has a (x ∷ xs) d h =
      ground (arith, length-delete-has a xs d.1, eq_iff x a, delete_absent a xs)

module _ {ℓ κ} {K : Type ℓ} {V : Type κ} ⦃e : Eq K⦄ where
  -- `map.get`
  unfoldable pub lookup : K → List (K × V) → Option V
  lookup k [] = none
  lookup k ((j, v) ∷ m) = let rest = lookup k m in if j == k then some v else rest

  -- `map.delete`
  unfoldable pub remove : K → List (K × V) → List (K × V)
  remove k [] = []
  remove k ((j, v) ∷ m) = let rest = remove k m in if j == k then rest else (j, v) ∷ rest

  -- `map.set`: an existing key keeps its place. On a list with a key twice, as the parameters of a
  -- URL can have, the first entry is replaced and the others are dropped (`URLSearchParams.set`).
  unfoldable pub insert : K → V → List (K × V) → List (K × V)
  unfolding remove
  insert k v [] = (k, v) ∷ []
  insert k v ((j, w) ∷ m) =
      let rest = insert k v m in if j == k then (k, v) ∷ remove k m else (j, w) ∷ rest

  pub lookup-remove :
      (k j : K) (m : List (K × V)) → lookup j (remove k m) ≡ (if k == j then none else lookup j m)
  unfolding lookup remove
  lookup-remove k j [] = ground arith
  lookup-remove k j ((i, w) ∷ m) =
      ground (arith, lookup-remove k j m, eq_iff i k, eq_iff i j, eq_iff k j)

  pub lookup-insert :
      (k j : K) (v : V) (m : List (K × V))
      → lookup j (insert k v m) ≡ (if k == j then some v else lookup j m)
  unfolding lookup insert
  lookup-insert k j v [] = ground arith
  lookup-insert k j v ((i, w) ∷ m) =
      ground (arith, lookup-insert k j v m, lookup-remove k j m, eq_iff i k, eq_iff i j, eq_iff k j)

  pub length-remove : (k : K) (m : List (K × V)) → length (remove k m) ≤ length m
  unfolding remove
  length-remove k [] = omega arith
  length-remove k ((j, v) ∷ m) = ground (arith, length-remove k m)
