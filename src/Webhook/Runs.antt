-- ===== src/Webhook/Runs.antt =====
-- internal/pkg/webhook/bus.go: what its rows look like in every state that the bus reaches.
use unified_account_center.Prelude.{
  ℕ, ◌+◌, ◌≡◌, refl, ap, ◌∙◌, String, Bool, true, false, not, ◌&&◌, Option, none, some, List, [],
  ◌∷◌, leb, nat_eq, is_some, if◌then◌else◌, arith,
}
use unified_account_center.Prelude.Rows.{update_where}
use unified_account_center.Prelude.Every.{every, every-update_where, every-append}
use unified_account_center.Webhook.{
  Endpoint, Delivery, pending, success, retrying, dead, Job, Failure, Store, Event, Outside, Db,
  trial, continue, statement, done, effect, first, ignore, for_each, draw, clock, ◌>>=◌,
}
use unified_account_center.Webhook.Deliver.{
  backoff, has_id, failed_row, delivered_row, read_row, write_failure, read_failure, Answer, failed,
  answered, send, mark_delivered, conclude_failed, conclude_accepted, conclude,
}
use unified_account_center.Webhook.Bus.{
  find_endpoints, read_endpoint, new_delivery, create_delivery, spawn, enqueue, due, give_up,
  retry_at, retry_row, flush_retries, test_endpoint, offer, emit, replay_delivery,
}

-- When a row that is to be tried again was last tried and is tried next.
abbrev pub timed : ℕ → ℕ → Option ℕ → Bool
timed attempts tried none = false
timed attempts tried (some t) = leb 1 attempts && nat_eq t (tried + backoff attempts)

-- A row as the bus leaves it: a new one is untried, one to be tried again has its delay counted from
-- the last try, and a delivered one was tried and has its instant.
abbrev pub in_order : Delivery → Bool
in_order d = elim d.status [
  | pending ↦ nat_eq d.attempts 0 && not (is_some d.next_retry_at)
  | success ↦ leb 1 d.attempts && is_some d.delivered_at
  | retrying ↦ timed d.attempts d.updated_at d.next_retry_at
  | dead ↦ true
]

abbrev pub all_in_order : Store → Bool
all_in_order b = every in_order b.deliveries

failed-in_order : (now : ℕ) (f : Failure) (d : Delivery) → in_order (failed_row now f d) ≡ true
unfolding failed_row
failed-in_order now f d = ground arith

delivered-in_order : (now code : ℕ) (d : Delivery) → in_order (delivered_row now code d) ≡ true
unfolding delivered_row
delivered-in_order now code d = ground arith

-- Whether it returns or fails, the action leaves the rows in order.
pub record Keeps {A : Type 0} (m : Db A) : Type 0 where
  pub at : (b : Store) → all_in_order b ≡ true → all_in_order (m b).1 ≡ true

module _ {A : Type 0} where
  Keeps-done : (a : A) → Keeps (done a)
  unfolding done
  Keeps-done a = record { at = λ b h. h }

  Keeps-first : (o : Option A) → Keeps (first o)
  unfolding first
  Keeps-first o = record { at = λ b h. h }

  Keeps-statement :
      (f : Store → A × Store)
      → ((b : Store) → all_in_order b ≡ true → all_in_order (f b).1 ≡ true)
      → Keeps (statement f)
  unfolding statement
  Keeps-statement f k = record { at = λ b h. run b.faults b h }
    where
      run :
          (fs : List Bool) (b : Store)
          → all_in_order b ≡ true
          → all_in_order (trial fs f b).1 ≡ true
      run [] b h = k b h
      run (true ∷ fs) b h = h
      run (false ∷ fs) b h = k _ h

  Keeps-ignore : (m : Db A) → Keeps m → Keeps (ignore m)
  unfolding ignore
  Keeps-ignore m k = record { at = k.at }

  Keeps-if : (c : Bool) (m n : Db A) → Keeps m → Keeps n → Keeps (if c then m else n)
  Keeps-if true m n p q = p
  Keeps-if false m n p q = q

Keeps-bind :
    {A B : Type 0} (m : Db A) (f : A → Db B) → Keeps m → ((a : A) → Keeps (f a)) → Keeps (m >>= f)
unfolding ◌>>=◌
Keeps-bind {A = A} {B = B} m f p q = record { at = λ b h. next (m b) (p.at b h) }
  where
    next : (r : Option A × Store) → all_in_order r.1 ≡ true → all_in_order (continue f r).1 ≡ true
    next (none, b) h = h
    next (some a, b) h = (q a).at b h

Keeps-effect :
    (f : Store → Store)
    → ((b : Store) → all_in_order b ≡ true → all_in_order (f b) ≡ true)
    → Keeps (effect f)
unfolding effect
Keeps-effect f k = record { at = k }

Keeps-draw : Keeps draw
unfolding draw
Keeps-draw = record { at = λ b h. h }

module _ {A : Type 0} (f : A → Db (Unit {0})) (k : (x : A) → Keeps (f x)) where
  Keeps-for_each : (xs : List A) → Keeps (for_each xs f)
  unfolding for_each
  Keeps-for_each [] = Keeps-done tt
  Keeps-for_each (x ∷ xs) = Keeps-bind (f x) (λ _. for_each xs f) (k x) (λ _. Keeps-for_each xs)

Keeps-clock : Keeps clock
unfolding clock
Keeps-clock = record { at = λ b h. h }

-- A statement that leaves the deliveries alone.
Keeps-read :
    {A : Type 0} (f : Store → A × Store)
    → ((b : Store) → (f b).1.deliveries ≡ b.deliveries)
    → Keeps (statement f)
Keeps-read f same = Keeps-statement f λ b h. ap (every in_order) (same b) ∙ h

-- An UPDATE whose rows are in order.
Keeps-update :
    (p : Delivery → Bool) (f : ℕ → Delivery → Delivery)
    → ((now : ℕ) (d : Delivery) → in_order d ≡ true → in_order (f now d) ≡ true)
    → Keeps (statement λ b. (tt, record b { deliveries = update_where p (f b.now) b.deliveries }))
Keeps-update p f k =
    Keeps-statement _ λ b h. every-update_where in_order p (f b.now) (k b.now) b.deliveries h

ruleset keeping =
    (Keeps-done, Keeps-first, Keeps-ignore, Keeps-if, Keeps-bind, Keeps-draw, Keeps-clock)

Keeps-read_row : (id : ℕ) → Keeps (read_row id)
unfolding read_row
Keeps-read_row id = Keeps-bind _ _ (Keeps-read _ (λ b. refl)) Keeps-first

Keeps-read_endpoint : (id : ℕ) → Keeps (read_endpoint id)
unfolding read_endpoint
Keeps-read_endpoint id = Keeps-bind _ _ (Keeps-read _ (λ b. refl)) Keeps-first

pub Keeps-write_failure : (f : Failure) → Keeps (write_failure f)
unfolding write_failure
Keeps-write_failure f =
    Keeps-update (has_id f.row.id) (λ now. failed_row now f) λ now d h. failed-in_order now f d

Keeps-mark_delivered : (id code : ℕ) → Keeps (mark_delivered id code)
unfolding mark_delivered
Keeps-mark_delivered id code =
    Keeps-update (has_id id) (λ now. delivered_row now code)
      λ now d h. delivered-in_order now code d

Keeps-give_up : (id : ℕ) → Keeps (give_up id)
unfolding give_up
Keeps-give_up id =
    Keeps-update (has_id id) (λ now d. record d { status = dead; updated_at = now }) λ now d h. refl

Keeps-spawn : (j : Job) → Keeps (spawn j)
unfolding spawn
Keeps-spawn j = Keeps-effect _ λ b h. h

Keeps-create_delivery : (id : ℕ) (e t p : String) → Keeps (create_delivery id e t p)
unfolding create_delivery new_delivery
Keeps-create_delivery id e t p =
    Keeps-statement _ λ b h. every-append in_order b.deliveries _ refl h

ruleset bus_stores = (
  Keeps-read_row, Keeps-read_endpoint, Keeps-write_failure, Keeps-mark_delivered, Keeps-give_up,
  Keeps-spawn, Keeps-create_delivery,
)

Keeps-enqueue : (ep : Endpoint) (e t p : String) → Keeps (enqueue ep e t p)
unfolding enqueue
Keeps-enqueue ep e t p = search (keeping, bus_stores) depth 8

Keeps-retry_row : (d : Delivery) → Keeps (retry_row d)
unfolding retry_row retry_at
Keeps-retry_row d = Keeps-bind _ _ (record { at = (Keeps-read_endpoint d.endpoint_id).at }) next
  where
    next : (o : Option Endpoint) → Keeps (retry_at d o)
    next none = Keeps-ignore (give_up d.id) (Keeps-give_up d.id)
    next (some ep) = Keeps-spawn _

pub Keeps-flush : Keeps flush_retries
unfolding flush_retries due
Keeps-flush = Keeps-bind _ _ (Keeps-read _ (λ b. refl)) (Keeps-for_each retry_row Keeps-retry_row)

pub Keeps-replay : (id : ℕ) → Keeps (replay_delivery id)
unfolding replay_delivery
Keeps-replay id = search (keeping, bus_stores, Keeps-enqueue) depth 8

Keeps-conclude_failed : (j : Job) (code : ℕ) → Keeps (conclude_failed j code)
unfolding conclude_failed read_failure
Keeps-conclude_failed j code = search (keeping, bus_stores) depth 8

Keeps-conclude_accepted : (j : Job) (code : ℕ) → Keeps (conclude_accepted j code)
unfolding conclude_accepted
Keeps-conclude_accepted j code = search (keeping, bus_stores) depth 8

pub Keeps-conclude : (j : Job) (a : Answer) → Keeps (conclude j a)
unfolding conclude
Keeps-conclude j failed = Keeps-conclude_failed j 0
Keeps-conclude j (answered code) =
    Keeps-if _ _ _ (Keeps-conclude_accepted j code) (Keeps-conclude_failed j code)

module _ (outside : Outside) where
  pub Keeps-test : (id : ℕ) (s : String) → Keeps (test_endpoint outside id s)
  unfolding test_endpoint
  Keeps-test id s = search (keeping, bus_stores, Keeps-enqueue) depth 8

  Keeps-offer : (e : Event) (ep : Endpoint) → Keeps (offer outside e ep)
  unfolding offer
  Keeps-offer e ep = search (keeping, bus_stores, Keeps-enqueue) depth 6

  pub Keeps-emit : (type t c u s : String) → Keeps (emit outside type t c u s)
  unfolding emit find_endpoints
  Keeps-emit type t c u s = Keeps-bind _ _ Keeps-draw λ n.
      Keeps-bind _ _ Keeps-clock
        λ now. Keeps-bind _ _ (Keeps-read _ (λ b. refl)) λ eps. Keeps-for_each _ (Keeps-offer _) eps

  pub Keeps-send : (j : Job) → Keeps (send outside j)
  unfolding send
  Keeps-send j = Keeps-effect _ λ b h. h
