-- ===== src/Webhook/Attempts.antt =====
-- internal/pkg/webhook/bus.go: the attempts at one row, one after another, come to an end.
use unified_account_center.Prelude.{
  ℕ, suc, ◌+◌, ◌≤◌, ◌<◌, ◌≡◌, ◌⊎◌, inl, inr, refl, ap, ◌∙◌, Bool, true, false, Option, none, some,
  List, [], ◌∷◌, leb, nat_eq, length, Bool-cases, if◌then◌else◌, arith,
}
use unified_account_center.Prelude.Rows.{find_by, update_where, find_by-update_where, find_by_holds}
use unified_account_center.Webhook.{
  Delivery, DeliveryStatus, pending, success, retrying, dead, Job, Failure, Request, Store, Outside,
  statement, done, effect, first, ignore, ◌>>=◌,
}
use unified_account_center.Webhook.Deliver.{
  has_id, or_five, failed_row, delivered_row, read_row, write_failure, read_failure, Answer, failed,
  answered, accepted, mark_delivered, conclude_failed, conclude_accepted, conclude, write_left,
  send, send_built, outcome, deliver, request_of,
}

-- Whether a row is still to be delivered.
abbrev pub is_open : DeliveryStatus → Bool
is_open pending = true
is_open retrying = true
is_open success = false
is_open dead = false

abbrev pub row_open : Option Delivery → Bool
row_open none = false
row_open (some d) = is_open d.status

abbrev pub row : ℕ → Store → Option Delivery
row id b = find_by (has_id id) b.deliveries

-- The state after `n` seconds.
abbrev pub waited : ℕ → Store → Store
waited n b = record b { now = b.now + n }

module _ (outside : Outside) (j : Job) where
  -- The attempts at the row of one job as the ticks start them, each after a time and with its
  -- answer, while the row is still to be delivered.
  unfoldable pub attempts_at : List (ℕ × Answer) → Store → Store
  attempts_at [] b = b
  attempts_at ((n, a) ∷ tries) b =
      let rest = attempts_at tries (deliver outside j a (waited n b)).1 in
      if row_open (row j.delivery_id b) then rest else b

  abbrev max : ℕ
  max = or_five j.endpoint.max_attempts

-- What an attempt makes of a row.
abbrev pub Tried : ℕ → Delivery → Delivery → Type 0
Tried most d d' =
    (d'.attempts ≡ suc d.attempts)
    × ((d'.status ≡ success)
        ⊎ ((d'.status ≡ (if leb most (suc d.attempts) then dead else retrying))))

failed_row_id : (now : ℕ) (f : Failure) (d : Delivery) → (failed_row now f d).id ≡ d.id
unfolding failed_row
failed_row_id now f d = ground arith

failed_row-Tried :
    (now : ℕ) (f : Failure) (d : Delivery) → f.row ≡ d → Tried f.max_attempts d (failed_row now f d)
unfolding failed_row
failed_row-Tried now f d e =
    let same : f.row.attempts ≡ d.attempts = ap (λ x. x.attempts) e in
    (ground arith, inr (ground arith))

delivered_row_id : (now code : ℕ) (d : Delivery) → (delivered_row now code d).id ≡ d.id
unfolding delivered_row
delivered_row_id now code d = refl

delivered_row-Tried : (now code most : ℕ) (d : Delivery) → Tried most d (delivered_row now code d)
unfolding delivered_row
delivered_row-Tried now code most d = (refl, inl refl)

module _ (outside : Outside) (j : Job) (b : Store) (d : Delivery) (quiet : b.faults ≡ []) where
  -- What has been sent after the attempt.
  abbrev sent_then : List Request
  sent_then = if outside.builds j.endpoint.url then request_of outside b.now j ∷ b.sent else b.sent

  -- The state after the attempt, for what it makes of the row.
  abbrev written : (Delivery → Delivery) → ℕ → Store
  written f id = record b { sent = sent_then; deliveries = update_where (has_id id) f b.deliveries }

  send_built_run : send_built outside j b ≡ (some tt, record b { sent = sent_then })
  unfolding send_built send effect done
  send_built_run = by_builds (outside.builds j.endpoint.url)
    where
      by_builds :
          (c : Bool)
          → (if c then send outside j else done tt) b ≡ (
            some tt,
            record b { sent = if c then request_of outside b.now j ∷ b.sent else b.sent },
          )
      by_builds true = refl
      by_builds false = refl

  abbrev failure : ℕ → Failure
  failure code = record {
    row = d;
    http_status = code;
    max_attempts = or_five j.endpoint.max_attempts;
  }

  deliver_failed :
      (a : Answer)
      → outcome outside j a ≡ failed
      → row j.delivery_id b ≡ some d
      → (deliver outside j a b).1 ≡ written (failed_row b.now (failure 0)) d.id
  unfolding deliver conclude conclude_failed read_failure read_row write_left write_failure first
      done statement ◌>>=◌
  deliver_failed a e found = rw (send_built_run, e, quiet, found) refl

  deliver_refused :
      (a : Answer) (code : ℕ)
      → outcome outside j a ≡ answered code
      → accepted code ≡ false
      → row j.delivery_id b ≡ some d
      → (deliver outside j a b).1 ≡ written (failed_row b.now (failure code)) d.id
  unfolding deliver conclude conclude_failed read_failure read_row write_left write_failure first
      done statement ◌>>=◌
  deliver_refused a code o e found = rw (send_built_run, o, e, quiet, found) refl

  deliver-accepted :
      (a : Answer) (code : ℕ)
      → outcome outside j a ≡ answered code
      → accepted code ≡ true
      → (deliver outside j a b).1 ≡ written (delivered_row b.now code) j.delivery_id
  unfolding deliver conclude conclude_accepted mark_delivered ignore write_left done statement ◌>>=◌
  deliver-accepted a code o e = rw (send_built_run, o, e, quiet) refl

  -- The row that an update of it leaves.
  row-written :
      (f : Delivery → Delivery)
      → ((x : Delivery) → (f x).id ≡ x.id)
      → row j.delivery_id b ≡ some d
      → row j.delivery_id (written f j.delivery_id) ≡ some (f d)
  row-written f same found =
      let p = has_id j.delivery_id in
      let mine : p d ≡ true = find_by_holds p b.deliveries d found in
      find_by-update_where p p f b.deliveries d (λ y. ap (λ i. nat_eq i j.delivery_id) (same y))
        found
      ∙ ap (λ c. some (if c then f d else d)) mine

  own_id : row j.delivery_id b ≡ some d → d.id ≡ j.delivery_id
  own_id found =
      let mine : has_id j.delivery_id d ≡ true =
        find_by_holds (has_id j.delivery_id) b.deliveries d found in
      ground arith

  failed-Tried :
      (code : ℕ) (c : Store)
      → c ≡ written (failed_row b.now (failure code)) d.id
      → row j.delivery_id b ≡ some d
      → (d' : Delivery) × (row j.delivery_id c ≡ some d')
        × (c.faults ≡ [])
        × Tried (or_five j.endpoint.max_attempts) d d'
  failed-Tried code c e found =
      let f = failed_row b.now (failure code) in
      let at : c ≡ written f j.delivery_id = e ∙ ap (written f) (own_id found) in
      let g = row-written f (failed_row_id b.now (failure code)) found in
      let c_row : row j.delivery_id c ≡ row j.delivery_id (written f j.delivery_id) =
        ap (row j.delivery_id) at in
      (f d, c_row ∙ g, ap (λ x. x.faults) at ∙ quiet, failed_row-Tried b.now (failure code) d refl)

  deliver-Tried :
      (a : Answer)
      → row j.delivery_id b ≡ some d
      → (d' : Delivery) × (row j.delivery_id (deliver outside j a b).1 ≡ some d')
        × ((deliver outside j a b).1.faults ≡ [])
        × Tried (or_five j.endpoint.max_attempts) d d'
  deliver-Tried a found = by_outcome (outcome outside j a) refl
    where
      by_outcome :
          (o : Answer)
          → outcome outside j a ≡ o
          → (d' : Delivery) × (row j.delivery_id (deliver outside j a b).1 ≡ some d')
            × ((deliver outside j a b).1.faults ≡ [])
            × Tried (or_five j.endpoint.max_attempts) d d'
      by_outcome failed o = failed-Tried 0 _ (deliver_failed a o found) found
      by_outcome (answered code) o = elim (Bool-cases (accepted code)) [
        | inl e ↦
            let at = deliver-accepted a code o e in
            let f = delivered_row b.now code in
            let g = row-written f (delivered_row_id b.now code) found in
            (
              f d,
              ap (row j.delivery_id) at ∙ g,
              ap (λ x. x.faults) at ∙ quiet,
              delivered_row-Tried b.now code (or_five j.endpoint.max_attempts) d,
            )
        | inr e ↦ failed-Tried code _ (deliver_refused a code o e found) found
      ]

-- Whether the row is settled, within the attempts that are allowed.
abbrev pub Settled : ℕ → Delivery → Type 0
Settled most d =
    (d.attempts ≤ most) × ((d.status ≡ success) ⊎ ((d.status ≡ dead) × (d.attempts ≡ most)))

-- An attempt at an open row within its attempts settles it, or leaves it open with one attempt less.
after_try :
    (most : ℕ) (d d' : Delivery)
    → Tried most d d'
    → d.attempts < most
    → Settled most d'
      ⊎ ((is_open d'.status ≡ true) × (d'.attempts ≡ suc d.attempts) × (d'.attempts < most))
after_try most d d' (count, inl s) h = inl (omega arith, inl s)
after_try most d d' (count, inr s) h = elim (Bool-cases (leb most (suc d.attempts))) [
  | inl e ↦ inl (omega arith, inr (s ∙ ap (λ c. if c then dead else retrying) e, ground arith))
  | inr e ↦
      let st : d'.status ≡ retrying = s ∙ ap (λ c. if c then dead else retrying) e in
      inr (ap is_open st, count, ground arith)
]

Settled-shut : (most : ℕ) (d : Delivery) → Settled most d → is_open d.status ≡ false
Settled-shut most d (h, inl s) = ap is_open s
Settled-shut most d (h, inr (s, e)) = ap is_open s

module _ (outside : Outside) (j : Job) where
  abbrev most_attempts : ℕ
  most_attempts = or_five j.endpoint.max_attempts

  -- A settled row takes no further attempt.
  settled_stops :
      (tries : List (ℕ × Answer)) (b : Store) (d : Delivery)
      → row j.delivery_id b ≡ some d
      → is_open d.status ≡ false
      → attempts_at outside j tries b ≡ b
  unfolding attempts_at
  settled_stops [] b d found shut = refl
  settled_stops ((n, a) ∷ tries) b d found shut = rw (found, shut) refl

  -- Where the attempts at a delivery follow one another and no statement fails, as many attempts as it
  -- has left settle it: it has been delivered within the attempts that are allowed, or all of them are
  -- used up and it is dead.
  pub attempts_settle :
      (tries : List (ℕ × Answer)) (b : Store) (d : Delivery)
      → b.faults ≡ []
      → row j.delivery_id b ≡ some d
      → is_open d.status ≡ true
      → d.attempts < most_attempts
      → most_attempts ≤ d.attempts + length tries
      → (d' : Delivery) × (row j.delivery_id (attempts_at outside j tries b) ≡ some d')
        × Settled most_attempts d'
  unfolding attempts_at
  attempts_settle [] b d quiet found open_ more enough = absurd (omega arith)
  attempts_settle ((n, a) ∷ tries) b d quiet found open_ more enough =
      let c = waited n b in
      let (d1, found1, quiet1, tried) = deliver-Tried outside j c d quiet a found in
      let next = (deliver outside j a c).1 in
      let on : attempts_at outside j ((n, a) ∷ tries) b ≡ attempts_at outside j tries next =
        rw (found, open_) refl in
      elim (after_try most_attempts d d1 tried more) [
        | inl s ↦
            let stops : attempts_at outside j tries next ≡ next =
              settled_stops tries next d1 found1 (Settled-shut most_attempts d1 s) in
            (d1, ap (row j.delivery_id) (on ∙ stops) ∙ found1, s)
        | inr (o, count, more1) ↦
            let (d2, found2, s) =
              attempts_settle tries next d1 quiet1 found1 o more1 (omega arith) in
            (d2, ap (row j.delivery_id) on ∙ found2, s)
      ]
