-- ===== src/Exec/Frame.antt =====
-- Actions that leave a part of the state as it is, one rule for each way to build an action. The part
-- is a function of the state that does not look at the faults ahead or at the count of draws.
use unified_account_center.Prelude.{
  ℕ, suc, ◌≡◌, refl, ◌∙◌, sym, ap, Bool, true, false, Option, none, some, List, [], ◌∷◌,
  if◌then◌else◌,
}
use mathlib.Core.Bool.{true≢false}
use unified_account_center.Errors.{Code, Result, ok, err, is_ok}
use unified_account_center.World.{World}
use unified_account_center.Exec.{
  M, pure, raise, gets, guard, require, when, ignore, draw, command, query, modify, insert, or_nil,
  begin, rollback, commit, on_error, reported, ◌>>=◌, trial, dropped, continue, or_default,
  defaulted, fall_back, taken_over,
}

-- The part does not look at the faults ahead or at the count of draws.
abbrev pub Blind : {X : Type 0} → (World → X) → Type 0
Blind f = (w : World) (fs : List Bool) (n : ℕ) → f (record w { faults = fs; drawn = n }) ≡ f w

module _ {X : Type 0} (f : World → X) where
  -- Whatever the action answers.
  pub record Frame {A : Type 0} (m : M A) : Type 0 where
    pub at : (w : World) → f (m w).1 ≡ f w

  -- Where the action answers with an error.
  pub record Undone {A : Type 0} (m : M A) : Type 0 where
    pub at : (w : World) → is_ok (m w).0 ≡ false → f (m w).1 ≡ f w

  -- Where the action succeeds.
  pub record Kept {A : Type 0} (m : M A) : Type 0 where
    pub at : (w : World) → is_ok (m w).0 ≡ true → f (m w).1 ≡ f w

  -- Where the action answers with an error, the part is what it was in an earlier state.
  pub record Restores (old : World) {A : Type 0} (m : M A) : Type 0 where
    pub at : (w : World) → is_ok (m w).0 ≡ false → f (m w).1 ≡ f old

-- An action that never answers with an error.
pub record Sure {A : Type 0} (m : M A) : Type 0 where
  pub at : (w : World) → is_ok (m w).0 ≡ true

module _ {X : Type 0} {f : World → X} (blind : Blind f) where
  pub Frame-command :
      {A : Type 0} (g : World → A × World) → ((w : World) → f (g w).1 ≡ f w) → Frame f (command g)
  unfolding command
  Frame-command g h = record { at = λ w. run w.faults w }
    where
      run : (fs : List Bool) (w : World) → f (trial fs g w).1 ≡ f w
      run [] w = h w
      run (true ∷ fs) w = blind w fs w.drawn
      run (false ∷ fs) w = h _ ∙ blind w fs w.drawn

  pub Frame-query : {A : Type 0} (g : World → A) → Frame f (query g)
  unfolding query
  Frame-query g = Frame-command (λ w. (g w, w)) (λ w. refl)

  pub Frame-draw : Frame f draw
  unfolding draw
  Frame-draw = record { at = λ w. blind w w.faults (suc w.drawn) }

  pub Frame-modify : (g : World → World) → ((w : World) → f (g w) ≡ f w) → Frame f (modify g)
  unfolding modify
  Frame-modify g h = Frame-command (λ w. (tt, g w)) h

module _ {X : Type 0} {f : World → X} where
  pub Frame-pure : {A : Type 0} (a : A) → Frame f (pure a)
  unfolding pure
  Frame-pure a = record { at = λ w. refl }

  pub Frame-raise : {A : Type 0} (c : Code) → Frame f (raise {A = A} c)
  unfolding raise
  Frame-raise c = record { at = λ w. refl }

  pub Frame-gets : {A : Type 0} (g : World → A) → Frame f (gets g)
  unfolding gets
  Frame-gets g = record { at = λ w. refl }

  pub Frame-if :
      {A : Type 0} (b : Bool) (m n : M A) → Frame f m → Frame f n → Frame f (if b then m else n)
  Frame-if true m n p q = p
  Frame-if false m n p q = q

  pub Frame-guard : (b : Bool) (c : Code) → Frame f (guard b c)
  unfolding guard
  Frame-guard b c = Frame-if b _ _ (Frame-pure tt) (Frame-raise c)

  pub Frame-require : {A : Type 0} (o : Option A) (c : Code) → Frame f (require o c)
  unfolding require
  Frame-require none c = Frame-raise c
  Frame-require (some a) c = Frame-pure a

  pub Frame-when : (b : Bool) (m : M (Unit {0})) → Frame f m → Frame f (when b m)
  unfolding when
  Frame-when b m p = Frame-if b m _ p (Frame-pure tt)

  pub Frame-ignore : {A : Type 0} (m : M A) → Frame f m → Frame f (ignore m)
  unfolding ignore
  Frame-ignore m p = record { at = p.at }

  pub Frame-or_nil : {A : Type 0} (m : M (Option A)) → Frame f m → Frame f (or_nil m)
  unfolding or_nil
  Frame-or_nil {A = A} m p = record { at = λ w. kept w (m w) (p.at w) }
    where
      kept : (w : World) (r : Result (Option A) × World) → f r.1 ≡ f w → f (dropped r).1 ≡ f w
      kept w (ok o, v) h = h
      kept w (err e, v) h = h

  pub Frame-or_default : {A : Type 0} (d : A) (m : M A) → Frame f m → Frame f (or_default d m)
  unfolding or_default
  Frame-or_default {A = A} d m p = record { at = λ w. kept w (m w) (p.at w) }
    where
      kept : (w : World) (r : Result A × World) → f r.1 ≡ f w → f (defaulted d r).1 ≡ f w
      kept w (ok a, v) h = h
      kept w (err e, v) h = h

  pub Frame-fall_back : {A : Type 0} (m n : M A) → Frame f m → Frame f n → Frame f (fall_back m n)
  unfolding fall_back
  Frame-fall_back {A = A} m n p q = record { at = λ w. kept w (m w) (p.at w) }
    where
      kept : (w : World) (r : Result A × World) → f r.1 ≡ f w → f (taken_over n r).1 ≡ f w
      kept w (ok a, v) h = h
      kept w (err e, v) h = q.at v ∙ h

  pub Frame-bind :
      {A B : Type 0} (m : M A) (k : A → M B)
      → Frame f m
      → ((a : A) → Frame f (k a))
      → Frame f (m >>= k)
  unfolding ◌>>=◌
  Frame-bind {A = A} m k p q = record { at = λ w. next w (m w) (p.at w) }
    where
      next : (w : World) (r : Result A × World) → f r.1 ≡ f w → f (continue k r).1 ≡ f w
      next w (ok a, v) h = (q a).at v ∙ h
      next w (err e, v) h = h

  -- An action that changes nothing, and then one that changes nothing where it fails.
  pub Undone-bind :
      {A B : Type 0} (m : M A) (k : A → M B)
      → Frame f m
      → ((a : A) → Undone f (k a))
      → Undone f (m >>= k)
  unfolding ◌>>=◌
  Undone-bind {A = A} m k p q = record { at = λ w. next w (m w) (p.at w) }
    where
      next :
          (w : World) (r : Result A × World)
          → f r.1 ≡ f w
          → is_ok (continue k r).0 ≡ false
          → f (continue k r).1 ≡ f w
      next w (ok a, v) h e = (q a).at v e ∙ h
      next w (err e, v) h k = h

module _ {X : Type 0} {f : World → X} (blind : Blind f) where
  pub Frame-insert :
      (p : World → Bool) (g : World → World) → ((w : World) → f (g w) ≡ f w) → Frame f (insert p g)
  unfolding insert
  Frame-insert p g h =
      Frame-bind _ _ (Frame-command blind _ (λ w. either w (p w))) (λ c. Frame-guard _ _)
    where
      either : (w : World) (b : Bool) → f (if b then w else g w) ≡ f w
      either w true = refl
      either w false = h w

-- Transactions.
module _ {X : Type 0} {f : World → X} (blind : Blind f) (old : World) where
  pub Restores-rollback : {A : Type 0} (m : M A) → Restores f old (on_error m (rollback old))
  unfolding on_error rollback
  Restores-rollback {A = A} m = record { at = λ w. back (m w) }
    where
      back :
          (r : Result A × World)
          → is_ok (reported (rollback old) r).0 ≡ false
          → f (reported (rollback old) r).1 ≡ f old
      back (ok a, v) h = absurd (cc)
      back (err e, v) h = blind old v.faults v.drawn

  pub Restores-commit : Restores f old (commit old)
  unfolding commit
  Restores-commit = Restores-rollback _

module _ {X : Type 0} {f : World → X} {old : World} where
  pub Restores-Sure : {A : Type 0} (m : M A) → Sure m → Restores f old m
  Restores-Sure m s = record { at = λ w h. absurd (true≢false (sym (s.at w) ∙ h)) }

  pub Restores-bind :
      {A B : Type 0} (m : M A) (k : A → M B)
      → Restores f old m
      → ((a : A) → Restores f old (k a))
      → Restores f old (m >>= k)
  unfolding ◌>>=◌
  Restores-bind {A = A} m k p q = record { at = λ w. next (m w) (p.at w) }
    where
      next :
          (r : Result A × World)
          → (is_ok r.0 ≡ false → f r.1 ≡ f old)
          → is_ok (continue k r).0 ≡ false
          → f (continue k r).1 ≡ f old
      next (ok a, v) g h = (q a).at v h
      next (err e, v) g h = g refl

module _ {X : Type 0} {f : World → X} (blind : Blind f) where
  pub Undone-begin :
      {B : Type 0} (k : World → M B)
      → ((old : World) → Restores f old (k old))
      → Undone f (begin >>= k)
  unfolding begin query command ◌>>=◌
  Undone-begin {B = B} k q = record { at = λ w. by_faults w.faults w }
    where
      by_faults :
          (fs : List Bool) (w : World)
          → is_ok (continue k (trial fs (λ x. (x, x)) w)).0 ≡ false
          → f (continue k (trial fs (λ x. (x, x)) w)).1 ≡ f w
      by_faults [] w h = (q w).at w h
      by_faults (true ∷ fs) w h = blind w fs w.drawn
      by_faults (false ∷ fs) w h = (q _).at _ h ∙ blind w fs w.drawn

module _ {X : Type 0} {f : World → X} where
  pub Kept-Frame : {A : Type 0} (m : M A) → Frame f m → Kept f m
  Kept-Frame m p = record { at = λ w h. p.at w }

  pub Kept-on_error : {A : Type 0} (m : M A) (r : M (Unit {0})) → Frame f m → Kept f (on_error m r)
  unfolding on_error
  Kept-on_error {A = A} m r p = record { at = λ w. kept w (m w) (p.at w) }
    where
      kept :
          (w : World) (x : Result A × World)
          → f x.1 ≡ f w
          → is_ok (reported r x).0 ≡ true
          → f (reported r x).1 ≡ f w
      kept w (ok a, v) h e = h
      kept w (err e, v) h k = absurd (cc)

  -- What a successful action leaves.
  pub Kept-after :
      {A : Type 0} (m : M A) → Kept f m → (w v : World) (a : A) → m w ≡ (ok a, v) → f v ≡ f w
  Kept-after m p w v a h = ap (λ r. f r.1) (sym h) ∙ p.at w (ap (λ r. is_ok r.0) h)

  pub Kept-bind :
      {A B : Type 0} (m : M A) (k : A → M B)
      → Kept f m
      → ((a : A) → Kept f (k a))
      → Kept f (m >>= k)
  unfolding ◌>>=◌
  Kept-bind {A = A} m k p q = record { at = λ w. next w (m w) (p.at w) }
    where
      next :
          (w : World) (r : Result A × World)
          → (is_ok r.0 ≡ true → f r.1 ≡ f w)
          → is_ok (continue k r).0 ≡ true
          → f (continue k r).1 ≡ f w
      next w (ok a, v) g h = (q a).at v h ∙ g refl
      next w (err e, v) g h = absurd (cc)

  pub Kept-commit : Blind f → (old : World) → Kept f (commit old)
  unfolding commit
  Kept-commit blind old = Kept-on_error _ _ (Frame-command blind _ (λ w. refl))

module _ {A : Type 0} where
  pub Sure-pure : (a : A) → Sure (pure a)
  unfolding pure
  Sure-pure a = record { at = λ w. refl }

  pub Sure-gets : (g : World → A) → Sure (gets g)
  unfolding gets
  Sure-gets g = record { at = λ w. refl }

  pub Sure-ignore : (m : M A) → Sure (ignore m)
  unfolding ignore
  Sure-ignore m = record { at = λ w. refl }

  pub Sure-or_nil : (m : M (Option A)) → Sure (or_nil m)
  unfolding or_nil
  Sure-or_nil m = record { at = λ w. either (m w) }
    where
      either : (r : Result (Option A) × World) → is_ok (dropped r).0 ≡ true
      either (ok o, v) = refl
      either (err e, v) = refl

  pub Sure-bind :
      {B : Type 0} (m : M A) (k : A → M B) → Sure m → ((a : A) → Sure (k a)) → Sure (m >>= k)
  unfolding ◌>>=◌
  Sure-bind {B = B} m k p q = record { at = λ w. next (m w) (p.at w) }
    where
      next : (r : Result A × World) → is_ok r.0 ≡ true → is_ok (continue k r).0 ≡ true
      next (ok a, v) h = (q a).at v
      next (err e, v) h = absurd (cc)

pub Sure-when : (b : Bool) (m : M (Unit {0})) → Sure m → Sure (when b m)
unfolding when
Sure-when true m p = p
Sure-when false m p = Sure-pure tt

pub ruleset sure_rules = (Sure-pure, Sure-gets, Sure-ignore, Sure-or_nil, Sure-bind, Sure-when)

pub ruleset frame_rules = (
  Frame-pure, Frame-raise, Frame-gets, Frame-if, Frame-guard, Frame-require, Frame-when,
  Frame-ignore, Frame-or_nil, Frame-bind, Frame-query, Frame-draw, Frame-or_default,
)
