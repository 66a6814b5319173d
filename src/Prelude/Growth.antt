-- ===== src/Prelude/Growth.antt =====
-- Tables whose rows are never deleted: each row of the old table stands at its place in the new one,
-- changed only in the ways that a relation allows.
use unified_account_center.Prelude.Tests.{if◌then◌else◌, Bool-cases}
use unified_account_center.Prelude.Rows.{find_by, update_where}
use mathlib.Core.Path.{◌≡◌, refl, ◌∙◌, subst}
use mathlib.Core.Logic.{inl, inr}
use mathlib.Core.Bool.{Bool, true, false}
use mathlib.Core.Option.{some}
use mathlib.Core.List.{List, [], ◌∷◌, ◌++◌}
use native.Mathlib.Omega.{arith}

-- `Grows R old new`.
abbrev pub Grows : {A : Type 0} → (A → A → Type 0) → List A → List A → Type 0
Grows R [] ys = Unit
Grows R (x ∷ xs) [] = ⊥
Grows R (x ∷ xs) (y ∷ ys) = R x y × Grows R xs ys

module _ {A : Type 0} (R : A → A → Type 0) where
  pub Grows-refl : ((x : A) → R x x) → (xs : List A) → Grows R xs xs
  Grows-refl r [] = tt
  Grows-refl r (x ∷ xs) = (r x, Grows-refl r xs)

  pub Grows-trans :
      ((x y z : A) → R x y → R y z → R x z)
      → (xs ys zs : List A) → Grows R xs ys
      → Grows R ys zs
      → Grows R xs zs
  Grows-trans t [] ys zs h k = tt
  Grows-trans t (x ∷ xs) [] zs h k = absurd h
  Grows-trans t (x ∷ xs) (y ∷ ys) [] h k = absurd k
  Grows-trans t (x ∷ xs) (y ∷ ys) (z ∷ zs) h k = (t x y z h.0 k.0, Grows-trans t xs ys zs h.1 k.1)

  pub Grows-append : ((x : A) → R x x) → (xs ys : List A) → Grows R xs (xs ++ ys)
  Grows-append r [] ys = tt
  Grows-append r (x ∷ xs) ys = (r x, Grows-append r xs ys)

  pub Grows-update_where :
      ((x : A) → R x x)
      → (p : A → Bool) (f : A → A) → ((x : A) → p x ≡ true → R x (f x))
      → (xs : List A) → Grows R xs (update_where p f xs)
  unfolding update_where
  Grows-update_where r p f h [] = tt
  Grows-update_where r p f h (x ∷ xs) = (row (p x) (h x), Grows-update_where r p f h xs)
    where
      row : (b : Bool) → (b ≡ true → R x (f x)) → R x (if b then f x else x)
      row true k = k refl
      row false k = r x

  -- A search by columns that do not change finds the same row, as it has become.
  pub Grows-find_by :
      (p : A → Bool)
      → ((x y : A) → R x y → p y ≡ p x)
      → (xs ys : List A) (x : A) → Grows R xs ys
      → find_by p xs ≡ some x
      → (y : A) × (find_by p ys ≡ some y) × R x y
  unfolding find_by
  Grows-find_by p same [] ys x g e = absurd (cc)
  Grows-find_by p same (x' ∷ xs) [] x g e = absurd g
  Grows-find_by p same (x' ∷ xs) (y' ∷ ys) x g e = elim (Bool-cases (p x')) [
    | inl q ↦
        let eq : x' ≡ x = ground arith in
        (y', rw (same x' y' g.0 ∙ q) refl, subst (λ z. R z y') eq g.0)
    | inr q ↦
        let below : find_by p xs ≡ some x = ground arith in
        let (y, f, r) = Grows-find_by p same xs ys x g.1 below in (y, rw (same x' y' g.0 ∙ q) f, r)
  ]
