-- ===== src/Webhook/Bus.antt =====
-- `Emit`, `matchEvent`, `flushRetries`, `TestEndpoint` and `ReplayDelivery` of
-- internal/pkg/webhook/bus.go, on a bus that has a database.
use unified_account_center.Prelude.{
  ℕ, zero, suc, String, Bool, true, false, Option, none, some, List, [], ◌∷◌, ◌++◌, ◌||◌, ◌==◌, leb,
  nat_eq, is_nil, if◌then◌else◌,
}
use unified_account_center.Prelude.Rows.{find_by, filter_by, update_where}
use unified_account_center.Webhook.{
  Endpoint, Delivery, pending, retrying, dead, Job, Event, Outside, Db, statement, done, effect,
  first, ignore, for_each, draw, clock, ◌>>=◌,
}
use unified_account_center.Webhook.Deliver.{has_id, read_row, replay_event}

-- `matchEvent`.
abbrev pub names : List String → String → Bool
names [] type = false
names (e ∷ events) type = let rest = names events type in e == type || e == "*" || rest

unfoldable pub match_event : List String → String → Bool
match_event events type = if is_nil events then true else names events type

unfoldable pub find_endpoints : Db (List Endpoint)
find_endpoints = statement λ b. (filter_by (λ e. e.enabled) b.endpoints, b)

unfoldable pub read_endpoint : ℕ → Db Endpoint
read_endpoint id = do
  found ← statement λ b. (find_by (λ e. nat_eq e.id id) b.endpoints, b)
  first found

unfoldable pub new_delivery : ℕ → ℕ → ℕ → String → String → String → Delivery
new_delivery now id endpoint_id event_id event_type payload = record {
  id = id;
  endpoint_id = endpoint_id;
  event_id = event_id;
  event_type = event_type;
  payload = payload;
  status = pending;
  attempts = 0;
  last_status = 0;
  next_retry_at = none;
  delivered_at = none;
  created_at = now;
  updated_at = now;
}

-- INSERT with the next primary key.
unfoldable pub create_delivery : ℕ → String → String → String → Db ℕ
unfolding new_delivery
create_delivery endpoint_id event_id event_type payload = statement λ b.
    let d = new_delivery b.now b.next_id endpoint_id event_id event_type payload in
    (b.next_id, record b { deliveries = b.deliveries ++ (d ∷ []); next_id = suc b.next_id })

-- `go b.deliver(…)`.
unfoldable pub spawn : Job → Db (Unit {0})
spawn j = effect λ b. record b { jobs = b.jobs ++ (j ∷ []) }

-- A new row, and the goroutine that delivers it.
unfoldable pub enqueue : Endpoint → String → String → String → Db ℕ
unfolding create_delivery spawn
enqueue ep event_id event_type payload = do
  id ← create_delivery ep.id event_id event_type payload
  _ ← spawn (record {
    endpoint = ep;
    delivery_id = id;
    body = payload;
    event_id = event_id;
    event_type = event_type;
  })
  done id

-- The rows that a tick takes up: due, in the order of their keys, 50 at most.
abbrev pub is_due : ℕ → Delivery → Bool
is_due now d = elim d.status [
  | retrying ↦ elim d.next_retry_at [ none ↦ false | some t ↦ leb t now ]
  | _ ↦ false
]

unfoldable pub first_rows : ℕ → List Delivery → List Delivery
first_rows zero ds = []
first_rows (suc n) [] = []
first_rows (suc n) (d ∷ ds) = d ∷ first_rows n ds

unfoldable pub due : Db (List Delivery)
unfolding first_rows
due = statement λ b. (first_rows 50 (filter_by (is_due b.now) b.deliveries), b)

unfoldable pub give_up : ℕ → Db (Unit {0})
give_up id = statement λ b.
    let rows =
      update_where (has_id id) (λ d. record d { status = dead; updated_at = b.now }) b.deliveries in
    (tt, record b { deliveries = rows })

abbrev pub enabled_only : Option Endpoint → Option Endpoint
enabled_only none = none
enabled_only (some ep) = if ep.enabled then some ep else none

-- An endpoint that cannot be read counts as missing.
unfoldable pub enabled_endpoint : ℕ → Db (Option Endpoint)
unfolding read_endpoint
enabled_endpoint id b = let (o, rest) = read_endpoint id b in (some (enabled_only o), rest)

unfoldable pub retry_at : Delivery → Option Endpoint → Db (Unit {0})
unfolding give_up spawn
retry_at d none = ignore (give_up d.id)
retry_at d (some ep) = spawn (record {
  endpoint = ep;
  delivery_id = d.id;
  body = d.payload;
  event_id = d.event_id;
  event_type = d.event_type;
})

unfoldable pub retry_row : Delivery → Db (Unit {0})
unfolding enabled_endpoint retry_at
retry_row d = do ep ← enabled_endpoint d.endpoint_id; retry_at d ep

-- `flushRetries`.
unfoldable pub flush_retries : Db (Unit {0})
unfolding due retry_row
flush_retries = do rows ← due; for_each rows retry_row

module _ (outside : Outside) where
  -- `TestEndpoint`.
  unfoldable pub test_endpoint : ℕ → String → Db ℕ
  unfolding enqueue read_endpoint
  test_endpoint endpoint_id data_json = do
    ep ← read_endpoint endpoint_id
    n ← draw
    now ← clock
    let event : Event = record {
      type = "webhook.test";
      id = outside.event_id n;
      timestamp = now;
      tenant_id = "";
      client_id = "";
      user_id = "";
      payload = data_json;
    }
    enqueue ep event.id event.type (outside.marshal event)

  unfoldable pub offer : Event → Endpoint → Db (Unit {0})
  unfolding enqueue match_event
  offer event ep =
      if match_event ep.events event.type
      then ignore (enqueue ep event.id event.type (outside.marshal event))
      else done tt

  -- `Emit`.
  unfoldable pub emit : String → String → String → String → String → Db (Unit {0})
  unfolding find_endpoints offer
  emit type tenant_id client_id user_id data_json = do
    n ← draw
    now ← clock
    endpoints ← find_endpoints
    let event : Event = record {
      type = type;
      id = outside.event_id n;
      timestamp = now;
      tenant_id = tenant_id;
      client_id = client_id;
      user_id = user_id;
      payload = data_json;
    }
    for_each endpoints (offer event)

-- `ReplayDelivery`.
unfoldable pub replay_delivery : ℕ → Db ℕ
unfolding read_row read_endpoint enqueue
replay_delivery id = do
  old ← read_row id
  ep ← read_endpoint old.endpoint_id
  enqueue ep (replay_event old.event_id) old.event_type old.payload
