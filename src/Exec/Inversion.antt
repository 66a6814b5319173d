-- ===== src/Exec/Inversion.antt =====
-- What follows from the success of an action that begins with a given step: the condition that the
-- step tested, and the success of the rest. A command that succeeded took one entry off the faults at
-- most, and otherwise had its effect.
use unified_account_center.Prelude.{
  ◌≡◌, refl, ◌∙◌, sym, Bool, true, false, Option, none, some, List, [], ◌∷◌, ◌⊎◌, inl, inr,
}
use unified_account_center.Errors.{Code, AppError, Result, ok, err}
use unified_account_center.World.{World}
use unified_account_center.Exec.{
  M, pure, raise, gets, guard, require, command, query, modify, ◌>>=◌, continue, trial, or_nil,
  or_default, defaulted, dropped, on_error, reported, commit, rollback,
}

-- The same state with other faults ahead.
abbrev pub facing : World → List Bool → World
facing w fs = record w { faults = fs }

module _ {A B : Type 0} {b : B} {w' : World} where
  pub bind_ok :
      (m : M A) (k : A → M B) (w : World)
      → (m >>= k) w ≡ (ok b, w')
      → (a : A) × (v : World) × (m w ≡ (ok a, v)) × (k a v ≡ (ok b, w'))
  unfolding ◌>>=◌
  bind_ok m k w h = split (m w) refl h
    where
      split :
          (r : Result A × World)
          → m w ≡ r
          → continue k r ≡ (ok b, w')
          → (a : A) × (v : World) × (m w ≡ (ok a, v)) × (k a v ≡ (ok b, w'))
      split (ok a, v) e h = (a, v, e, h)
      split (err x, v) e h = absurd (cc)

  pub require_ok :
      (o : Option A) (c : Code) (k : A → M B) (w : World)
      → (require o c >>= k) w ≡ (ok b, w')
      → (a : A) × (o ≡ some a) × (k a w ≡ (ok b, w'))
  unfolding require ◌>>=◌
  require_ok none c k w h = absurd (cc)
  require_ok (some a) c k w h = (a, refl, h)

  pub gets_ok :
      (f : World → A) (k : A → M B) (w : World)
      → (gets f >>= k) w ≡ (ok b, w')
      → k (f w) w ≡ (ok b, w')
  unfolding gets ◌>>=◌
  gets_ok f k w h = h

  pub command_ok :
      (f : World → A × World) (k : A → M B) (w : World)
      → (command f >>= k) w ≡ (ok b, w')
      → (fs : List Bool) × (k (f (facing w fs)).0 (f (facing w fs)).1 ≡ (ok b, w'))
  unfolding command ◌>>=◌
  command_ok f k w h = by_faults w.faults refl h
    where
      by_faults :
          (fs : List Bool)
          → w.faults ≡ fs
          → continue k (trial fs f w) ≡ (ok b, w')
          → (fs : List Bool) × (k (f (facing w fs)).0 (f (facing w fs)).1 ≡ (ok b, w'))
      by_faults [] e h = ([], rw (← e) h)
      by_faults (true ∷ fs) e h = absurd (cc)
      by_faults (false ∷ fs) e h = (fs, h)

  pub query_ok :
      (f : World → A) (k : A → M B) (w : World)
      → (query f >>= k) w ≡ (ok b, w')
      → (fs : List Bool) × (k (f (facing w fs)) (facing w fs) ≡ (ok b, w'))
  unfolding query
  query_ok f k w h = command_ok (λ v. (f v, v)) k w h

  -- A query whose error is dropped: its answer, or nil.
  pub or_nil-query_ok :
      (f : World → Option A) (k : Option A → M B) (w : World)
      → (or_nil (query f) >>= k) w ≡ (ok b, w')
      → (o : Option A) × (fs : List Bool) × ((o ≡ none) ⊎ (o ≡ f (facing w fs)))
        × (k o (facing w fs) ≡ (ok b, w'))
  unfolding or_nil query command ◌>>=◌
  or_nil-query_ok f k w h = by_faults w.faults refl h
    where
      by_faults :
          (fs : List Bool)
          → w.faults ≡ fs
          → continue k (dropped (trial fs (λ v. (f v, v)) w)) ≡ (ok b, w')
          → (o : Option A) × (fs : List Bool) × ((o ≡ none) ⊎ (o ≡ f (facing w fs)))
            × (k o (facing w fs) ≡ (ok b, w'))
      by_faults [] e h = (f w, [], inr (rw (← e) refl), rw (← e) h)
      by_faults (true ∷ fs) e h = (none, fs, inl refl, h)
      by_faults (false ∷ fs) e h = (f (facing w fs), fs, inr refl, h)

  -- A read that has a value where it fails.
  pub or_default-query_ok :
      (d : A) (f : World → A) (k : A → M B) (w : World)
      → (or_default d (query f) >>= k) w ≡ (ok b, w')
      → (a : A) × (fs : List Bool) × ((a ≡ d) ⊎ (a ≡ f (facing w fs)))
        × (k a (facing w fs) ≡ (ok b, w'))
  unfolding or_default query command ◌>>=◌
  or_default-query_ok d f k w h = by_faults w.faults refl h
    where
      by_faults :
          (fs : List Bool)
          → w.faults ≡ fs
          → continue k (defaulted d (trial fs (λ v. (f v, v)) w)) ≡ (ok b, w')
          → (a : A) × (fs : List Bool) × ((a ≡ d) ⊎ (a ≡ f (facing w fs)))
            × (k a (facing w fs) ≡ (ok b, w'))
      by_faults [] e h = (f w, [], inr (rw (← e) refl), rw (← e) h)
      by_faults (true ∷ fs) e h = (d, fs, inl refl, h)
      by_faults (false ∷ fs) e h = (f (facing w fs), fs, inr refl, h)

module _ {B : Type 0} {b : B} {w' : World} where
  pub modify_ok :
      (f : World → World) (k : Unit {0} → M B) (w : World)
      → (modify f >>= k) w ≡ (ok b, w')
      → (fs : List Bool) × (k tt (f (facing w fs)) ≡ (ok b, w'))
  unfolding modify
  modify_ok f k w h = command_ok (λ v. (tt, f v)) k w h

  pub guard_ok :
      (t : Bool) (c : Code) (k : Unit {0} → M B) (w : World)
      → (guard t c >>= k) w ≡ (ok b, w')
      → (t ≡ true) × (k tt w ≡ (ok b, w'))
  unfolding guard ◌>>=◌
  guard_ok true c k w h = (refl, h)
  guard_ok false c k w h = absurd (cc)

-- A test that ends an action.
pub guard_end :
    (t : Bool) (c : Code) (w w' : World) → guard t c w ≡ (ok tt, w') → (t ≡ true) × (w' ≡ w)
unfolding guard pure raise
guard_end true c w w' h = (refl, cc)
guard_end false c w w' h = absurd (cc)

pub pure_ok : {A : Type 0} (a b : A) (w w' : World) → pure a w ≡ (ok b, w') → (b ≡ a) × (w' ≡ w)
unfolding pure
pure_ok a b w w' h = (cc, cc)

-- What succeeds under a report on errors succeeded by itself.
pub on_error_ok :
    {A : Type 0} (m : M A) (r : M (Unit {0})) (w v : World) (a : A)
    → on_error m r w ≡ (ok a, v)
    → m w ≡ (ok a, v)
unfolding on_error
on_error_ok {A = A} m r w v a h = by_result (m w) refl h
  where
    by_result : (x : Result A × World) → m w ≡ x → reported r x ≡ (ok a, v) → m w ≡ (ok a, v)
    by_result (ok b, u) e k = e ∙ k
    by_result (err b, u) e k = absurd (cc)

-- A failed action may have changed the state; a successful `ignore` is no sign of success.
module _ {A : Type 0} (m : M A) (w : World) where
  pub bind_err :
      {B : Type 0} (k : A → M B) (e : AppError) (v : World)
      → m w ≡ (err e, v)
      → (m >>= k) w ≡ (err e, v)
  unfolding ◌>>=◌
  bind_err k e v h = rw (h, continue) refl

  pub bind_run :
      {B : Type 0} (k : A → M B) (a : A) (v : World) → m w ≡ (ok a, v) → (m >>= k) w ≡ k a v
  unfolding ◌>>=◌
  bind_run k a v h = rw (h, continue) refl

-- What a read found, where an error reads as nil.
pub found_there :
    {A : Type 0} (o p : Option A) (a : A) → (o ≡ none) ⊎ (o ≡ p) → o ≡ some a → p ≡ some a
found_there o p a (inl gone) e = absurd (cc)
found_there o p a (inr there) e = sym there ∙ e

-- A change that succeeds at the end of an action.
pub modify_end :
    (f : World → World) (w w' : World)
    → modify f w ≡ (ok tt, w')
    → (fs : List Bool) × (w' ≡ f (facing w fs))
unfolding pure
modify_end f w w' h =
    let (fs, e) = modify_ok f pure w (bind_run (modify f) w pure tt w' h) in
    let (_, after) = pure_ok tt tt (f (facing w fs)) w' e in (fs, after)

-- What holds of a state whether a command fails or has its effect.
pub command_either :
    {A : Type 0} (f : World → A × World) (w : World) (P : World → Type 0)
    → ((fs : List Bool) → P (facing w fs))
    → ((fs : List Bool) → P (f (facing w fs)).1)
    → P (command f w).1
unfolding command
command_either f w P failed done = either w.faults
  where
    either : (fs : List Bool) → P (trial fs f w).1
    either [] = done w.faults
    either (true ∷ fs) = failed fs
    either (false ∷ fs) = done fs

-- A commit that succeeds leaves what was written.
pub commit_ok :
    (old w w' : World) → commit old w ≡ (ok tt, w') → (fs : List Bool) × (w' ≡ facing w fs)
unfolding commit modify
commit_ok old w w' h = modify_end (λ v. v) w w' (on_error_ok _ (rollback old) w w' tt h)
