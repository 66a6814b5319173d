-- ===== src/Webhook.antt =====
-- internal/pkg/webhook/bus.go, the outgoing events: the tables webhook_endpoints and
-- webhook_deliveries, the goroutines that deliver, and the requests that they sent.
-- `faults` decides which of the coming statements fail; a statement that fails has no effect.
-- Instants are in seconds. A negative number in an endpoint counts as zero wherever it is read.
pub mod Deliver
pub mod Bus
pub mod Runs
pub mod Reach
pub mod Attempts
pub mod Emission
use unified_account_center.Prelude.{
  ℕ, suc, String, Bool, true, false, Option, none, some, List, [], ◌∷◌,
}

-- `WebhookEndpoint` of internal/model/model.go; the name and the dates are not modelled.
pub record Endpoint : Type 0 where
  pub id : ℕ
  pub url : String
  pub secret : String
  pub events : List String
  pub enabled : Bool
  pub timeout_sec : ℕ
  pub max_attempts : ℕ

-- The constants `WebhookDelivery…` of internal/model/model.go.
pub data DeliveryStatus : Type 0 where
  pending success retrying dead : DeliveryStatus

-- `WebhookDelivery` of internal/model/model.go; the text of the last error is not modelled.
pub record Delivery : Type 0 where
  pub id : ℕ
  pub endpoint_id : ℕ
  pub event_id : String
  pub event_type : String
  pub payload : String
  pub status : DeliveryStatus
  pub attempts : ℕ
  pub last_status : ℕ
  pub next_retry_at : Option ℕ
  pub delivered_at : Option ℕ
  pub created_at : ℕ
  pub updated_at : ℕ

-- The arguments of a goroutine `go b.deliver(ep, deliveryID, body, eventID, eventType)`.
pub record Job : Type 0 where
  pub endpoint : Endpoint
  pub delivery_id : ℕ
  pub body : String
  pub event_id : String
  pub event_type : String

-- A failure that `markFail` is about to write: the row as it read it, and its arguments.
pub record Failure : Type 0 where
  pub row : Delivery
  pub http_status : ℕ
  pub max_attempts : ℕ

-- A request as it left for an endpoint, with the headers that depend on the delivery.
pub record Request : Type 0 where
  pub url : String
  pub event : String
  pub delivery : String
  pub timestamp : String
  pub signature : String
  pub body : String

pub record Store : Type 0 where
  pub now : ℕ
  pub drawn : ℕ
  pub faults : List Bool
  pub endpoints : List Endpoint
  pub deliveries : List Delivery
  pub next_id : ℕ
  pub jobs : List Job
  pub sent : List Request

-- `Event`.
pub record Event : Type 0 where
  pub type : String
  pub id : String
  pub timestamp : ℕ
  pub tenant_id : String
  pub client_id : String
  pub user_id : String
  pub payload : String

-- What rests on other libraries: identifiers, JSON, HMAC-SHA256 in hexadecimal, and the decimal
-- digits of a number.
pub record Outside : Type 0 where
  pub event_id : ℕ → String
  pub marshal : Event → String
  pub builds : String → Bool
  pub hmac_hex : String → String → String
  pub decimal : ℕ → String

-- A statement, or a chain of them that stops at the first error: `none` on an error.
abbrev pub Db : Type 0 → Type 0
Db A = Store → Option A × Store

abbrev pub answer : {A : Type 0} → A × Store → Option A × Store
answer (a, b) = (some a, b)

abbrev pub trial : {A : Type 0} → List Bool → (Store → A × Store) → Store → Option A × Store
trial [] f b = answer (f b)
trial (true ∷ rest) f b = (none, record b { faults = rest })
trial (false ∷ rest) f b = answer (f (record b { faults = rest }))

unfoldable pub statement : {A : Type 0} → (Store → A × Store) → Db A
statement f b = trial b.faults f b

unfoldable pub done : {A : Type 0} → A → Db A
done a b = (some a, b)

-- An effect on the process alone: it cannot fail.
unfoldable pub effect : (Store → Store) → Db (Unit {0})
effect f b = (some tt, f b)

-- `First`: no row is an error.
unfoldable pub first : {A : Type 0} → Option A → Db A
first o b = (o, b)

abbrev pub continue : {A B : Type 0} → (A → Db B) → Option A × Store → Option B × Store
continue f (none, b) = (none, b)
continue f (some a, b) = f a b

infixl 5 ◌>>=◌ ◌>>◌
unfoldable pub ◌>>=◌ : {A B : Type 0} → Db A → (A → Db B) → Db B
◌>>=◌ m f b = continue f (m b)

abbrev pub ◌>>◌ : {A B : Type 0} → Db A → Db B → Db B
m >> n = m >>= λ _. n

-- `_ = …` and `continue`: the error is dropped.
unfoldable pub ignore : {A : Type 0} → Db A → Db (Unit {0})
ignore m b = (some tt, (m b).1)

unfoldable pub for_each : {A : Type 0} → List A → (A → Db (Unit {0})) → Db (Unit {0})
unfolding done
for_each [] f = done tt
for_each (x ∷ xs) f = f x >> for_each xs f

unfoldable pub draw : Db ℕ
draw b = (some b.drawn, record b { drawn = suc b.drawn })

unfoldable pub clock : Db ℕ
clock b = (some b.now, b)
