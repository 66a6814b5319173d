-- ===== src/Webhook/Reach.antt =====
-- internal/pkg/webhook/bus.go: the states that the bus reaches, its goroutines in any order.
use unified_account_center.Prelude.{
  ℕ, zero, suc, ◌+◌, ◌≤◌, ◌≡◌, refl, String, Bool, true, Option, none, some, List, arith,
}
use unified_account_center.Prelude.Rows.{find_by}
use unified_account_center.Prelude.Every.{find_by-every}
use unified_account_center.Webhook.{Endpoint, Delivery, retrying, Job, Failure, Store, Outside}
use unified_account_center.Webhook.Deliver.{backoff, write_failure, Answer, send, conclude}
use unified_account_center.Webhook.Bus.{flush_retries, test_endpoint, emit, replay_delivery}
use unified_account_center.Webhook.Runs.{
  in_order, timed, all_in_order, Keeps-write_failure, Keeps-conclude, Keeps-test, Keeps-emit,
  Keeps-send, Keeps-flush, Keeps-replay,
}

-- One step of the process: an operation that a service or the ticker starts; a goroutine that sends,
-- one that comes to its conclusion, one that writes the failure that it has read, whenever it read it;
-- time that passes; and a change of the endpoints, of the goroutines left or of the faults ahead.
pub data Step (outside : Outside) (b : Store) : Store → Type 0 where
  emits : (type t c u s : String) → Step outside b (emit outside type t c u s b).1
  tests : (id : ℕ) (s : String) → Step outside b (test_endpoint outside id s b).1
  replays : (id : ℕ) → Step outside b (replay_delivery id b).1
  ticks : Step outside b (flush_retries b).1
  sends : (j : Job) → Step outside b (send outside j b).1
  concludes : (j : Job) (a : Answer) → Step outside b (conclude j a b).1
  writes : (f : Failure) → Step outside b (write_failure f b).1
  waits : (n : ℕ) → Step outside b (record b { now = b.now + n })
  changes :
      (eps : List Endpoint) (jobs : List Job) (fs : List Bool)
      → Step outside b (record b { endpoints = eps; jobs = jobs; faults = fs })

pub data Reach (outside : Outside) (b : Store) : Store → Type 0 where
  here : Reach outside b b
  then : {c d : Store} → Reach outside b c → Step outside c d → Reach outside b d

Step-all_in_order :
    {outside : Outside} {b c : Store}
    → Step outside b c
    → all_in_order b ≡ true
    → all_in_order c ≡ true
Step-all_in_order {outside} {b} (emits type t c u s) h = (Keeps-emit outside type t c u s).at b h
Step-all_in_order {outside} {b} (tests id s) h = (Keeps-test outside id s).at b h
Step-all_in_order {outside} {b} (replays id) h = (Keeps-replay id).at b h
Step-all_in_order {outside} {b} ticks h = Keeps-flush.at b h
Step-all_in_order {outside} {b} (sends j) h = (Keeps-send outside j).at b h
Step-all_in_order {outside} {b} (concludes j a) h = (Keeps-conclude j a).at b h
Step-all_in_order {outside} {b} (writes f) h = (Keeps-write_failure f).at b h
Step-all_in_order (waits n) h = h
Step-all_in_order (changes eps jobs fs) h = h

-- From rows in order, whatever the bus and its goroutines do in whatever order and whichever
-- statements fail, the rows stay in order: a pending row is untried, a delivered one was tried and has
-- its instant, and one that is to be tried again has been tried and waits the delay of its attempts.
pub Reach-all_in_order :
    {outside : Outside} {b c : Store}
    → Reach outside b c
    → all_in_order b ≡ true
    → all_in_order c ≡ true
Reach-all_in_order here h = h
Reach-all_in_order (then r s) h = Step-all_in_order s (Reach-all_in_order r h)

backoff_bounds : (n : ℕ) → 1 ≤ n → (2 ≤ backoff n) × (backoff n ≤ 32)
unfolding backoff
backoff_bounds zero h = omega arith
backoff_bounds (suc zero) h = (omega arith, omega arith)
backoff_bounds (suc (suc zero)) h = (omega arith, omega arith)
backoff_bounds (suc (suc (suc zero))) h = (omega arith, omega arith)
backoff_bounds (suc (suc (suc (suc zero)))) h = (omega arith, omega arith)
backoff_bounds (suc (suc (suc (suc (suc n))))) h = ground arith

timed_within :
    (attempts tried : ℕ) (o : Option ℕ)
    → timed attempts tried o ≡ true
    → (t : ℕ) × (o ≡ some t) × (tried + 2 ≤ t) × (t ≤ tried + 32)
timed_within attempts tried none h = absurd (cc)
timed_within attempts tried (some t) h =
    let e : (1 ≤ attempts) × (t ≡ tried + backoff attempts) = ground arith in
    let bounds = backoff_bounds attempts e.0 in (t, refl, omega arith, omega arith)

-- In every state that the bus reaches from one with its rows in order, a row that is to be tried
-- again has its next attempt two seconds after its last one at the earliest and thirty-two at the
-- latest.
pub retry_delay :
    {outside : Outside} {b c : Store} (p : Delivery → Bool) (d : Delivery)
    → Reach outside b c
    → all_in_order b ≡ true
    → find_by p c.deliveries ≡ some d
    → d.status ≡ retrying
    → (t : ℕ) × (d.next_retry_at ≡ some t) × (d.updated_at + 2 ≤ t) × (t ≤ d.updated_at + 32)
retry_delay {c = c} p d r h found s =
    let fine : in_order d ≡ true =
      find_by-every in_order p c.deliveries d (Reach-all_in_order r h) found in
    timed_within d.attempts d.updated_at d.next_retry_at (ground arith)
