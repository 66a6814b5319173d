-- ===== src/Prelude/Every.antt =====
-- Tables all of whose rows satisfy a Boolean condition, under the statements of SQL.
use unified_account_center.Prelude.Rows.{find_by, update_where}
use mathlib.Core.Path.{◌≡◌, refl}
use mathlib.Core.Bool.{Bool, true, ◌&&◌}
use mathlib.Core.Option.{some}
use mathlib.Core.List.{List, [], ◌∷◌, ◌++◌}
use native.Mathlib.Omega.{arith}

module _ {ℓ} {A : Type ℓ} where
  abbrev pub every : (A → Bool) → List A → Bool
  every q [] = true
  every q (x ∷ xs) = let rest = every q xs in q x && rest

  pub every-update_where :
      (q p : A → Bool) (f : A → A)
      → ((x : A) → q x ≡ true → q (f x) ≡ true)
      → (xs : List A) → every q xs ≡ true
      → every q (update_where p f xs) ≡ true
  unfolding update_where
  every-update_where q p f h [] k = refl
  every-update_where q p f h (x ∷ xs) k = ground (arith, h x, every-update_where q p f h xs)

  pub every-append :
      (q : A → Bool) (xs : List A) (x : A)
      → q x ≡ true
      → every q xs ≡ true
      → every q (xs ++ (x ∷ [])) ≡ true
  every-append q [] x e h = ground arith
  every-append q (y ∷ xs) x e h = ground (arith, every-append q xs x e)

  pub find_by-every :
      (q p : A → Bool) (xs : List A) (x : A)
      → every q xs ≡ true
      → find_by p xs ≡ some x
      → q x ≡ true
  unfolding find_by
  find_by-every q p [] x h e = ground arith
  find_by-every q p (y ∷ xs) x h e = ground (arith, find_by-every q p xs x)
