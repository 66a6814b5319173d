-- ===== src/History/Rules.antt =====
-- Actions that take nothing back, one rule for each way to build an action.
use unified_account_center.Prelude.{
  ◌≡◌, refl, Bool, true, false, Option, none, some, List, [], ◌∷◌, if◌then◌else◌, arith,
}
use unified_account_center.Errors.{Code, AppError, Result, ok, err}
use unified_account_center.World.{World}
use unified_account_center.Exec.{
  M, pure, raise, raise_error, gets, guard, require, when, ignore, for_each, draw, command, query,
  fall_back, taken_over, begin, rollback, commit, on_error_of, reported_as, modify, insert, or_nil,
  or_default, on_error, reported, ◌>>=◌, trial, dropped, defaulted, continue,
}
use unified_account_center.History.{Advances, Advances-refl, Advances-trans, Advances-quiet, core}

-- Whether it returns or fails, the action takes nothing back.
pub record Steady {A : Type 0} (m : M A) : Type 0 where
  pub at : (w : World) → Advances w (m w).1

module _ {A : Type 0} where
  pub Steady-pure : (a : A) → Steady (pure a)
  unfolding pure
  Steady-pure a = record { at = Advances-refl }

  pub Steady-raise : (c : Code) → Steady (raise {A = A} c)
  unfolding raise
  Steady-raise c = record { at = Advances-refl }

  pub Steady-raise_error : (e : AppError) → Steady (raise_error {A = A} e)
  unfolding raise_error
  Steady-raise_error e = record { at = Advances-refl }

  pub Steady-gets : (f : World → A) → Steady (gets f)
  unfolding gets
  Steady-gets f = record { at = Advances-refl }

  pub Steady-command :
      (f : World → A × World) → ((w : World) → Advances w (f w).1) → Steady (command f)
  unfolding command
  Steady-command f h = record { at = λ w. run w.faults w }
    where
      run : (fs : List Bool) (w : World) → Advances w (trial fs f w).1
      run [] w = h w
      run (true ∷ fs) w = Advances-quiet _ _ refl
      run (false ∷ fs) w =
          Advances-trans w (record w { faults = fs }) _ (Advances-quiet _ _ refl) (h _)

  pub Steady-query : (f : World → A) → Steady (query f)
  unfolding query
  Steady-query f = Steady-command (λ w. (f w, w)) Advances-refl

  pub Steady-require : (o : Option A) (c : Code) → Steady (require o c)
  unfolding require
  Steady-require none c = Steady-raise c
  Steady-require (some a) c = Steady-pure a

  pub Steady-ignore : (m : M A) → Steady m → Steady (ignore m)
  unfolding ignore
  Steady-ignore m s = record { at = s.at }

  pub Steady-if : (b : Bool) (m n : M A) → Steady m → Steady n → Steady (if b then m else n)
  Steady-if true m n p q = p
  Steady-if false m n p q = q

  pub Steady-or_nil : (m : M (Option A)) → Steady m → Steady (or_nil m)
  unfolding or_nil
  Steady-or_nil m s = record { at = λ w. kept (m w) (s.at w) }
    where
      kept : {w : World} (r : Result (Option A) × World) → Advances w r.1 → Advances w (dropped r).1
      kept (ok o, v) h = h
      kept (err e, v) h = h

  pub Steady-or_default : (d : A) (m : M A) → Steady m → Steady (or_default d m)
  unfolding or_default
  Steady-or_default d m s = record { at = λ w. kept (m w) (s.at w) }
    where
      kept : {w : World} (r : Result A × World) → Advances w r.1 → Advances w (defaulted d r).1
      kept (ok o, v) h = h
      kept (err e, v) h = h

  pub Steady-on_error :
      (m : M A) (report : M (Unit {0})) → Steady m → Steady report → Steady (on_error m report)
  unfolding on_error
  Steady-on_error m report s t = record { at = λ w. kept (m w) (s.at w) }
    where
      kept : {w : World} (r : Result A × World) → Advances w r.1 → Advances w (reported report r).1
      kept (ok a, v) h = h
      kept {w} (err e, v) h = Advances-trans w v _ h (t.at v)

module _ {A B : Type 0} where
  pub Steady-bind : (m : M A) (f : A → M B) → Steady m → ((a : A) → Steady (f a)) → Steady (m >>= f)
  unfolding ◌>>=◌
  Steady-bind m f s t = record { at = λ w. next (m w) (s.at w) }
    where
      next : {w : World} (r : Result A × World) → Advances w r.1 → Advances w (continue f r).1
      next {w} (ok a, v) h = Advances-trans w v _ h ((t a).at v)
      next (err e, v) h = h

pub Steady-modify : (f : World → World) → ((w : World) → Advances w (f w)) → Steady (modify f)
unfolding modify
Steady-modify f h = Steady-command (λ w. (tt, f w)) h

-- A change of the parts that `Advances` does not speak of.
pub Steady-modify_quiet :
    (f : World → World) → ((w : World) → core (f w) ≡ core w) → Steady (modify f)
Steady-modify_quiet f h = Steady-modify f (λ w. Advances-quiet w (f w) (h w))

pub Steady-guard : (b : Bool) (c : Code) → Steady (guard b c)
unfolding guard
Steady-guard b c = Steady-if b _ _ (Steady-pure tt) (Steady-raise c)

pub Steady-when : (b : Bool) (m : M (Unit {0})) → Steady m → Steady (when b m)
unfolding when
Steady-when b m s = Steady-if b m _ s (Steady-pure tt)

pub Steady-insert :
    (p : World → Bool) (f : World → World) → ((w : World) → Advances w (f w)) → Steady (insert p f)
unfolding insert
Steady-insert p f h =
    Steady-bind _ _ (Steady-command _ (λ w. either w (p w))) (λ c. Steady-guard _ _)
  where
    either : (w : World) (b : Bool) → Advances w (if b then w else f w)
    either w true = Advances-refl w
    either w false = h w

pub Steady-for_each :
    {A : Type 0} (xs : List A) (f : A → M (Unit {0}))
    → ((x : A) → Steady (f x))
    → Steady (for_each xs f)
unfolding for_each
Steady-for_each [] f h = Steady-pure tt
Steady-for_each (x ∷ xs) f h = Steady-bind _ _ (h x) (λ _. Steady-for_each xs f h)

pub Steady-draw : Steady draw
unfolding draw
Steady-draw = record {
  at = λ w.
      let r = Advances-refl w in
      record {
        clock = r.clock;
        draws = omega arith;
        tokens = r.tokens;
        challenges = r.challenges;
        audits = r.audits;
      };
}

pub Steady-fall_back : {A : Type 0} (m n : M A) → Steady m → Steady n → Steady (fall_back m n)
unfolding fall_back
Steady-fall_back {A = A} m n s t = record { at = λ w. kept (m w) (s.at w) }
  where
    kept : {w : World} (r : Result A × World) → Advances w r.1 → Advances w (taken_over n r).1
    kept (ok a, v) h = h
    kept {w} (err e, v) h = Advances-trans w v _ h (t.at v)

pub Steady-on_error_of :
    {A : Type 0} (m : M A) (report : AppError → M (Unit {0}))
    → Steady m
    → ((e : AppError) → Steady (report e))
    → Steady (on_error_of m report)
unfolding on_error_of
Steady-on_error_of {A = A} m report s t = record { at = λ w. kept (m w) (s.at w) }
  where
    kept : {w : World} (r : Result A × World) → Advances w r.1 → Advances w (reported_as report r).1
    kept (ok a, v) h = h
    kept {w} (err e, v) h = Advances-trans w v _ h ((t e).at v)

-- In a transaction that began in this state, nothing is taken back that was there before it.
pub record Within (old : World) {A : Type 0} (m : M A) : Type 0 where
  pub at : (w : World) → Advances old w → Advances old (m w).1

pub Within-Steady : {A : Type 0} (old : World) (m : M A) → Steady m → Within old m
Within-Steady old m s = record { at = λ w h. Advances-trans old w _ h (s.at w) }

pub Within-bind :
    {A B : Type 0} (old : World) (m : M A) (k : A → M B)
    → Within old m
    → ((a : A) → Within old (k a))
    → Within old (m >>= k)
unfolding ◌>>=◌
Within-bind {A = A} old m k s t = record { at = λ w h. next (m w) (s.at w h) }
  where
    next : (r : Result A × World) → Advances old r.1 → Advances old (continue k r).1
    next (ok a, v) h = (t a).at v h
    next (err e, v) h = h

pub Within-rollback :
    {A : Type 0} (old : World) (m : M A) → Steady m → Within old (on_error m (rollback old))
unfolding on_error rollback
Within-rollback {A = A} old m s = record {
  at = λ w h. back (m w) (Advances-trans old w _ h (s.at w));
}
  where
    back : (r : Result A × World) → Advances old r.1 → Advances old (reported (rollback old) r).1
    back (ok a, v) h = h
    back (err e, v) h =
        let r = Advances-refl old in
        record {
          clock = r.clock;
          draws = h.draws;
          tokens = r.tokens;
          challenges = r.challenges;
          audits = r.audits;
        }

pub Within-commit : (old : World) → Within old (commit old)
unfolding commit
Within-commit old = Within-rollback old _ (Steady-command _ Advances-refl)

pub Steady-begin :
    {B : Type 0} (k : World → M B) → ((old : World) → Within old (k old)) → Steady (begin >>= k)
unfolding begin query command ◌>>=◌
Steady-begin k t = record { at = λ w. by_faults w.faults w }
  where
    by_faults : (fs : List Bool) (w : World) → Advances w (continue k (trial fs (λ x. (x, x)) w)).1
    by_faults [] w = (t w).at w (Advances-refl w)
    by_faults (true ∷ fs) w = Advances-quiet _ _ refl
    by_faults (false ∷ fs) w =
        Advances-trans w _ _ (Advances-quiet w _ refl) ((t _).at _ (Advances-refl _))

pub ruleset steady_rules = (
  Steady-fall_back, Steady-on_error_of, Steady-pure, Steady-raise, Steady-raise_error, Steady-gets,
  Steady-query, Steady-require, Steady-ignore, Steady-if, Steady-or_nil, Steady-or_default,
  Steady-bind, Steady-guard, Steady-when, Steady-for_each, Steady-draw, Steady-on_error,
)
