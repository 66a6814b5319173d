-- ===== src/Prelude/Rows.antt =====
-- The rows of a table in the order of their primary keys, and the four statements of SQL that the
-- repositories issue over them: SELECT … LIMIT 1, UPDATE … WHERE, DELETE … WHERE and COUNT.
use unified_account_center.Prelude.Tests.{if◌then◌else◌, length}
use Prim.Native.Nat.{ℕ, suc, ◌+◌, ◌≤◌}
use mathlib.Core.Path.{◌≡◌, refl}
use mathlib.Core.Bool.{Bool, true}
use mathlib.Core.Option.{Option, none, some}
use mathlib.Core.List.{List, [], ◌∷◌, ◌++◌}
use native.Mathlib.Omega.{arith}

module _ {ℓ} {A : Type ℓ} where
  unfoldable pub find_by : (A → Bool) → List A → Option A
  find_by p [] = none
  find_by p (x ∷ xs) = if p x then some x else find_by p xs

  unfoldable pub filter_by : (A → Bool) → List A → List A
  filter_by p [] = []
  filter_by p (x ∷ xs) = let rest = filter_by p xs in if p x then x ∷ rest else rest

  unfoldable pub update_where : (A → Bool) → (A → A) → List A → List A
  update_where p f [] = []
  update_where p f (x ∷ xs) = (if p x then f x else x) ∷ update_where p f xs

  unfoldable pub delete_where : (A → Bool) → List A → List A
  delete_where p [] = []
  delete_where p (x ∷ xs) = let rest = delete_where p xs in if p x then rest else x ∷ rest

  unfoldable pub count_where : (A → Bool) → List A → ℕ
  count_where p [] = 0
  count_where p (x ∷ xs) = let rest = count_where p xs in if p x then suc rest else rest

  -- The row found satisfies the condition.
  pub find_by_holds : (p : A → Bool) (xs : List A) (x : A) → find_by p xs ≡ some x → p x ≡ true
  unfolding find_by
  find_by_holds p [] x e = ground arith
  find_by_holds p (y ∷ xs) x e = ground (arith, find_by_holds p xs x)

  pub length-filter_by : (p : A → Bool) (xs : List A) → length (filter_by p xs) ≡ count_where p xs
  unfolding filter_by count_where
  length-filter_by p [] = refl
  length-filter_by p (x ∷ xs) = ground (arith, length-filter_by p xs)

  -- What an update that keeps the condition's truth value leaves at the row that a search finds.
  pub find_by-update_where :
      (p q : A → Bool) (f : A → A) (xs : List A) (x : A)
      → ((y : A) → p (f y) ≡ p y)
      → find_by p xs ≡ some x
      → find_by p (update_where q f xs) ≡ some (if q x then f x else x)
  unfolding find_by update_where
  find_by-update_where p q f [] x same e = ground arith
  find_by-update_where p q f (y ∷ xs) x same e =
      ground (arith, same y, find_by-update_where p q f xs x same)

  -- A row that is found before is found in the same table with rows added at its end.
  pub find_by-append :
      (p : A → Bool) (xs ys : List A) (x : A)
      → find_by p xs ≡ some x
      → find_by p (xs ++ ys) ≡ some x
  unfolding find_by
  find_by-append p [] ys x e = ground arith
  find_by-append p (y ∷ xs) ys x e = ground (arith, find_by-append p xs ys x)

  pub length-append : (xs ys : List A) → length (xs ++ ys) ≡ length xs + length ys
  length-append [] ys = omega arith
  length-append (x ∷ xs) ys = ground (arith, length-append xs ys)

  pub count_where-append :
      (p : A → Bool) (xs ys : List A)
      → count_where p (xs ++ ys) ≡ count_where p xs + count_where p ys
  unfolding count_where
  count_where-append p [] ys = omega arith
  count_where-append p (x ∷ xs) ys = ground (arith, count_where-append p xs ys)

  pub count_where-le-length : (p : A → Bool) (xs : List A) → count_where p xs ≤ length xs
  unfolding count_where
  count_where-le-length p [] = omega arith
  count_where-le-length p (x ∷ xs) = ground (arith, count_where-le-length p xs)
