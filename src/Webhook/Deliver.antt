-- ===== src/Webhook/Deliver.antt =====
-- `Sign`, `deliver` and `markFail` of internal/pkg/webhook/bus.go. Each is split where another
-- goroutine can come in between: after the answer, and between the read and the write of `markFail`.
use unified_account_center.Prelude.{
  ℕ, suc, ◌+◌, ◌^◌, String, Bool, Option, none, some, ◌∷◌, ◌&&◌, leb, ltb, nat_eq, if◌then◌else◌,
}
use unified_account_center.Prelude.Rows.{find_by, update_where}
use Prim.Native.String.{◌++◌}
use unified_account_center.Webhook.{
  Delivery, success, retrying, dead, Job, Failure, Request, Outside, Db, statement, done, effect,
  first, ignore, ◌>>=◌,
}

-- `min`.
abbrev pub min : ℕ → ℕ → ℕ
min a b = if ltb a b then a else b

-- The delay before the next attempt, in seconds.
unfoldable pub backoff : ℕ → ℕ
backoff attempts = 2 ^ min attempts 5

abbrev pub has_id : ℕ → Delivery → Bool
has_id id d = nat_eq d.id id

abbrev pub or_five : ℕ → ℕ
or_five n = if nat_eq n 0 then 5 else n

-- The updates of `markFail`, on the row as it stands when they are written.
unfoldable pub failed_row : ℕ → Failure → Delivery → Delivery
unfolding backoff
failed_row now f d =
    let attempts = suc f.row.attempts in
    let tried = record d { attempts = attempts; last_status = f.http_status; updated_at = now } in
    if leb f.max_attempts attempts
    then record tried { status = dead; next_retry_at = none }
    else record tried { status = retrying; next_retry_at = some (now + backoff attempts) }

-- The updates after an answer 2xx.
unfoldable pub delivered_row : ℕ → ℕ → Delivery → Delivery
delivered_row now code d = record d {
  status = success;
  attempts = suc d.attempts;
  last_status = code;
  delivered_at = some now;
  updated_at = now;
}

-- The event's id under which `ReplayDelivery` sends again.
abbrev pub replay_event : String → String
replay_event event_id = event_id ++ "-replay"

unfoldable pub read_row : ℕ → Db Delivery
read_row id = do found ← statement λ b. (find_by (has_id id) b.deliveries, b); first found

unfoldable pub write_failure : Failure → Db (Unit {0})
unfolding failed_row
write_failure f = statement λ b.
    let rows = update_where (has_id f.row.id) (failed_row b.now f) b.deliveries in
    (tt, record b { deliveries = rows })

unfoldable pub read_failure : ℕ → ℕ → ℕ → Db Failure
unfolding read_row
read_failure id http_status max_attempts = do
  d ← read_row id
  done (record { row = d; http_status = http_status; max_attempts = max_attempts })

-- `markFail`.
unfoldable pub mark_fail : ℕ → ℕ → ℕ → Db (Unit {0})
unfolding read_failure write_failure
mark_fail id http_status max_attempts = do
  f ← read_failure id http_status max_attempts
  write_failure f

-- What came of the request: an error of the transport, or an answer with its status.
pub data Answer : Type 0 where
  failed : Answer
  answered : ℕ → Answer

abbrev pub accepted : ℕ → Bool
accepted code = leb 200 code && ltb code 300

unfoldable pub mark_delivered : ℕ → ℕ → Db (Unit {0})
unfolding delivered_row
mark_delivered id code = statement λ b.
    let rows = update_where (has_id id) (delivered_row b.now code) b.deliveries in
    (tt, record b { deliveries = rows })

unfoldable pub conclude_failed : Job → ℕ → Db (Option Failure)
unfolding read_failure
conclude_failed j http_status = do
  f ← read_failure j.delivery_id http_status (or_five j.endpoint.max_attempts)
  done (some f)

unfoldable pub conclude_accepted : Job → ℕ → Db (Option Failure)
unfolding mark_delivered
conclude_accepted j code = do _ ← ignore (mark_delivered j.delivery_id code); done none

-- The end of `deliver`, up to the read of `markFail` where there is one: the failure left to write.
unfoldable pub conclude : Job → Answer → Db (Option Failure)
unfolding conclude_failed conclude_accepted
conclude j failed = conclude_failed j 0
conclude j (answered code) =
    if accepted code then conclude_accepted j code else conclude_failed j code

unfoldable pub write_left : Option Failure → Db (Unit {0})
unfolding write_failure
write_left none = done tt
write_left (some f) = write_failure f

module _ (outside : Outside) where
  -- `Sign`.
  unfoldable pub sign : String → String → String → String
  sign secret timestamp body = outside.hmac_hex secret (timestamp ++ "." ++ body)

  unfoldable pub request_of : ℕ → Job → Request
  unfolding sign
  request_of now j =
      let ts = outside.decimal now in
      record {
        url = j.endpoint.url;
        event = j.event_type;
        delivery = j.event_id;
        timestamp = ts;
        signature = "sha256=" ++ sign j.endpoint.secret ts j.body;
        body = j.body;
      }

  unfoldable pub send : Job → Db (Unit {0})
  unfolding request_of
  send j = effect λ b. record b { sent = request_of b.now j ∷ b.sent }

  -- What `deliver` comes to: http.NewRequest refuses an address that it cannot parse, and then nothing
  -- is sent.
  unfoldable pub outcome : Job → Answer → Answer
  outcome j a = if outside.builds j.endpoint.url then a else failed

  unfoldable pub send_built : Job → Db (Unit {0})
  unfolding send
  send_built j = if outside.builds j.endpoint.url then send j else done tt

  -- `deliver` without another goroutine in between.
  unfoldable pub deliver : Job → Answer → Db (Unit {0})
  unfolding send_built outcome conclude write_left
  deliver j a = do _ ← send_built j; left ← conclude j (outcome j a); write_left left
