-- ===== src/Exec.antt =====
-- Actions on the shared state. An action returns a value or an error, and the state that it leaves:
-- what was written before an error stays written, unless the code rolls a transaction back.
pub mod Inversion
pub mod Frame
use unified_account_center.Prelude.{
  ℕ, suc, Bool, not, true, false, Option, none, some, List, [], ◌∷◌, if◌then◌else◌,
}
use unified_account_center.Errors.{Code, internal, AppError, app_error, Result, ok, err}
use unified_account_center.World.{World}

abbrev pub M : Type 0 → Type 0
M A = World → Result A × World

module _ {A : Type 0} where
  unfoldable pub pure : A → M A
  pure a w = (ok a, w)

  unfoldable pub raise_error : AppError → M A
  raise_error e w = (err e, w)

  unfoldable pub raise : Code → M A
  raise c w = (err (app_error c), w)

  -- A read of the state that sends no command: the clock, a constant.
  unfoldable pub gets : (World → A) → M A
  gets f w = (ok (f w), w)

  abbrev pub answer : A × World → Result A × World
  answer (a, w) = (ok a, w)

  abbrev pub trial : List Bool → (World → A × World) → World → Result A × World
  trial [] f w = answer (f w)
  trial (true ∷ rest) f w = (err (app_error internal), record w { faults = rest })
  trial (false ∷ rest) f w = answer (f (record w { faults = rest }))

  -- One command to MySQL, Redis or a gateway: it fails where the next of `faults` is true.
  unfoldable pub command : (World → A × World) → M A
  command f w = trial w.faults f w

  -- `x, err := …; if err != nil || x == nil`: an error reads as nil.
  abbrev pub dropped : Result (Option A) × World → Result (Option A) × World
  dropped (ok o, w) = (ok o, w)
  dropped (err e, w) = (ok none, w)

  unfoldable pub or_nil : M (Option A) → M (Option A)
  or_nil m w = dropped (m w)

  -- `x, _ := …` with the zero value of the type of x.
  abbrev pub defaulted : A → Result A × World → Result A × World
  defaulted d (ok a, w) = (ok a, w)
  defaulted d (err e, w) = (ok d, w)

  unfoldable pub or_default : A → M A → M A
  or_default d m w = defaulted d (m w)

module _ {A B : Type 0} where
  abbrev pub continue : (A → M B) → Result A × World → Result B × World
  continue f (ok a, w) = f a w
  continue f (err e, w) = (err e, w)

  infixl 5 ◌>>=◌ ◌>>◌
  unfoldable pub ◌>>=◌ : M A → (A → M B) → M B
  ◌>>=◌ m f w = continue f (m w)

  abbrev pub ◌>>◌ : M A → M B → M B
  m >> n = m >>= λ _. n

-- An early return with an error, unless the condition holds.
unfoldable pub guard : Bool → Code → M (Unit {0})
unfolding raise pure
guard b c = if b then pure tt else raise c

-- A value that may be nil: an early return with an error where it is.
unfoldable pub require : {A : Type 0} → Option A → Code → M A
unfolding raise pure
require none c = raise c
require (some a) c = pure a

-- `if cond { … }`.
unfoldable pub when : Bool → M (Unit {0}) → M (Unit {0})
unfolding pure
when b m = if b then m else pure tt

-- `_ = …`: the error is dropped.
unfoldable pub ignore : {A : Type 0} → M A → M (Unit {0})
ignore m w = (ok tt, (m w).1)

-- `for _, x := range xs { … }` with early return.
unfoldable pub for_each : {A : Type 0} → List A → (A → M (Unit {0})) → M (Unit {0})
for_each [] f = pure tt
for_each (x ∷ xs) f = f x >> for_each xs f

-- The next random draw.
unfoldable pub draw : M ℕ
draw w = (ok w.drawn, record w { drawn = suc w.drawn })

-- A statement that reads the tables.
unfoldable pub query : {A : Type 0} → (World → A) → M A
query f = command λ w. (f w, w)

-- A statement that writes.
unfoldable pub modify : (World → World) → M (Unit {0})
modify f = command λ w. (tt, f w)

-- INSERT under unique indexes: an error, and no row, where the new row conflicts with another.
unfoldable pub insert : (World → Bool) → (World → World) → M (Unit {0})
insert conflicts f = do
  conflict ← command (λ w. (conflicts w, if conflicts w then w else f w))
  guard (not conflict) internal

-- `if err != nil { …; return err }`: on an error run a last action, whose own error is dropped.
abbrev pub reported : {A : Type 0} → M (Unit {0}) → Result A × World → Result A × World
reported m (ok a, w) = (ok a, w)
reported m (err e, w) = (err e, (m w).1)

unfoldable pub on_error : {A : Type 0} → M A → M (Unit {0}) → M A
on_error m report w = reported report (m w)

-- The same with the error at hand.
abbrev pub reported_as :
    {A : Type 0} → (AppError → M (Unit {0})) → Result A × World → Result A × World
reported_as m (ok a, w) = (ok a, w)
reported_as m (err e, w) = (err e, (m e w).1)

unfoldable pub on_error_of : {A : Type 0} → M A → (AppError → M (Unit {0})) → M A
on_error_of m report w = reported_as report (m w)

-- On an error another action takes over.
abbrev pub taken_over : {A : Type 0} → M A → Result A × World → Result A × World
taken_over m (ok a, w) = (ok a, w)
taken_over m (err e, w) = m w

unfoldable pub fall_back : {A : Type 0} → M A → M A → M A
fall_back m n w = taken_over n (m w)

-- BEGIN of a transaction: the state that ROLLBACK goes back to.
unfoldable pub begin : M World
begin = query λ w. w

-- ROLLBACK: MySQL puts back what the transaction wrote; its own error is dropped.
unfoldable pub rollback : World → M (Unit {0})
rollback old w = (ok tt, record old { faults = w.faults; drawn = w.drawn })

-- COMMIT: where it fails, MySQL keeps nothing of the transaction.
unfoldable pub commit : World → M (Unit {0})
commit old = on_error (command (λ w. (tt, w))) (rollback old)
