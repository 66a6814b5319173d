-- ===== src/Examples/Webhooks.antt =====
-- A delivery that fails until it is dead, and an event for two endpoints.
use unified_account_center.Prelude.{
  ℕ, ◌+◌, ◌≤◌, ◌≡◌, refl, true, false, none, some, [], ◌∷◌, List, arith,
}
use unified_account_center.Prelude.Rows.{find_by, filter_by, update_where}
use unified_account_center.Webhook.{
  Endpoint, Delivery, pending, retrying, Job, Store, Outside, statement,
}
use unified_account_center.Webhook.Deliver.{Answer, failed, answered, has_id, write_failure}
use unified_account_center.Webhook.Bus.{emit}
use unified_account_center.Webhook.Reach.{
  Reach, here, then, writes, Reach-all_in_order, retry_delay,
}
use unified_account_center.Webhook.Runs.{all_in_order}
use unified_account_center.Webhook.Attempts.{row, attempts_at, Settled, attempts_settle}
use unified_account_center.Webhook.Emission.{Reached, event_of, concerned, emit_reaches}

abbrev small_outside : Outside
small_outside = record {
  event_id = λ n. "evt";
  marshal = λ e. "{}";
  builds = λ url. true;
  hmac_hex = λ secret s. "00";
  decimal = λ n. "1000";
}

abbrev hook : Endpoint
hook = record {
  id = 1;
  url = "https://a.example";
  secret = "s";
  events = "login.ok" ∷ [];
  enabled = true;
  timeout_sec = 5;
  max_attempts = 2;
}

abbrev waiting : Delivery
waiting = record {
  id = 7;
  endpoint_id = 1;
  event_id = "evt";
  event_type = "login.ok";
  payload = "{}";
  status = pending;
  attempts = 0;
  last_status = 0;
  next_retry_at = none;
  delivered_at = none;
  created_at = 1000;
  updated_at = 1000;
}

abbrev small_job : Job
small_job = record {
  endpoint = hook;
  delivery_id = 7;
  body = "{}";
  event_id = "evt";
  event_type = "login.ok";
}

abbrev small_store : Store
small_store = record {
  now = 1000;
  drawn = 0;
  faults = [];
  endpoints =
      hook ∷ record hook { id = 2; events = [] } ∷ record hook { id = 3; enabled = false } ∷ [];
  deliveries = waiting ∷ [];
  next_id = 8;
  jobs = [];
  sent = [];
}

abbrev two_tries : List (ℕ × Answer)
two_tries = (1, failed) ∷ (9, answered 500) ∷ []

attempts_settle_example :
    (d : Delivery) × (row 7 (attempts_at small_outside small_job two_tries small_store) ≡ some d)
    × Settled 2 d
unfolding find_by
attempts_settle_example =
    attempts_settle small_outside small_job two_tries small_store waiting refl refl refl
      (omega arith) (omega arith)

emit_reaches_example :
    Reached small_outside
      (event_of small_outside "login.ok" "" "" "" "" small_store)
      (concerned "login.ok" (filter_by (λ ep. ep.enabled) small_store.endpoints))
      small_store
      (emit small_outside "login.ok" "" "" "" "" small_store).1
emit_reaches_example = emit_reaches small_outside "login.ok" "" "" "" "" small_store refl

abbrev once_failed : Store
once_failed =
    (write_failure (record { row = waiting; http_status = 500; max_attempts = 2 }) small_store).1

one_failure : Reach small_outside small_store once_failed
one_failure = then here (writes (record { row = waiting; http_status = 500; max_attempts = 2 }))

Reach-all_in_order_example : all_in_order once_failed ≡ true
Reach-all_in_order_example = Reach-all_in_order one_failure refl

abbrev retried : Delivery
retried = record waiting {
  status = retrying;
  attempts = 1;
  last_status = 500;
  next_retry_at = some 1002;
}

is_retried : find_by (has_id 7) once_failed.deliveries ≡ some retried
unfolding write_failure statement find_by update_where
is_retried = refl

retry_delay_example : (t : ℕ) × (retried.next_retry_at ≡ some t) × (1000 + 2 ≤ t) × (t ≤ 1000 + 32)
retry_delay_example = retry_delay (has_id 7) retried one_failure refl is_retried refl
