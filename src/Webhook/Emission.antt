-- ===== src/Webhook/Emission.antt =====
-- internal/pkg/webhook/bus.go: to which endpoints an event goes.
use unified_account_center.Prelude.{
  ℕ, suc, ◌≡◌, refl, sym, ◌∙◌, String, true, false, none, List, [], ◌∷◌, ◌++◌, some, Bool-cases,
  inl, inr,
}
use mathlib.Core.List.{append_assoc, append-nil}
use unified_account_center.Prelude.Rows.{filter_by}
use unified_account_center.Webhook.{
  Endpoint, Job, Delivery, pending, Store, Event, Outside, statement, done, effect, ignore,
  for_each, draw, clock, ◌>>=◌,
}
use unified_account_center.Webhook.Bus.{
  match_event, find_endpoints, new_delivery, create_delivery, spawn, enqueue, offer, emit,
}

abbrev pub concerned : String → List Endpoint → List Endpoint
concerned type eps = filter_by (λ ep. match_event ep.events type) eps

-- The rows of an event for these endpoints, untried, with the keys from this one on.
abbrev pub rows_for : Outside → Event → ℕ → ℕ → List Endpoint → List Delivery
rows_for outside e now id [] = []
rows_for outside e now id (ep ∷ eps) =
    record {
      id = id;
      endpoint_id = ep.id;
      event_id = e.id;
      event_type = e.type;
      payload = outside.marshal e;
      status = pending;
      attempts = 0;
      last_status = 0;
      next_retry_at = none;
      delivered_at = none;
      created_at = now;
      updated_at = now;
    }
    ∷ rows_for outside e now (suc id) eps

-- The deliveries of the same event: to each endpoint the one of its own row.
abbrev pub jobs_for : Outside → Event → ℕ → List Endpoint → List Job
jobs_for outside e id [] = []
jobs_for outside e id (ep ∷ eps) =
    record {
      endpoint = ep;
      delivery_id = id;
      body = outside.marshal e;
      event_id = e.id;
      event_type = e.type;
    }
    ∷ jobs_for outside e (suc id) eps

-- What a run of offers leaves, for the endpoints that the event concerns.
abbrev pub Reached : Outside → Event → List Endpoint → Store → Store → Type 0
Reached outside e eps b c =
    (c.jobs ≡ b.jobs ++ jobs_for outside e b.next_id eps)
    × (c.deliveries ≡ b.deliveries ++ rows_for outside e b.now b.next_id eps)

module _ (outside : Outside) (e : Event) where
  -- What the state is after an offer without faults.
  abbrev offered : Endpoint → Store → Store
  offered ep b =
      let payload = outside.marshal e in
      let d = new_delivery b.now b.next_id ep.id e.id e.type payload in
      let j : Job = record {
        endpoint = ep;
        delivery_id = b.next_id;
        body = payload;
        event_id = e.id;
        event_type = e.type;
      } in
      record b {
        deliveries = b.deliveries ++ (d ∷ []);
        next_id = suc b.next_id;
        jobs = b.jobs ++ (j ∷ []);
      }

  offer_run :
      (ep : Endpoint) (b : Store)
      → b.faults ≡ []
      → match_event ep.events e.type ≡ true
      → offer outside e ep b ≡ (some tt, offered ep b)
  unfolding offer ignore enqueue create_delivery spawn statement done effect ◌>>=◌
  offer_run ep b quiet m = rw (m, quiet) refl

  offer_skip :
      (ep : Endpoint) (b : Store)
      → match_event ep.events e.type ≡ false
      → offer outside e ep b ≡ (some tt, b)
  unfolding offer done
  offer_skip ep b m = rw m refl

  offers_reach :
      (eps : List Endpoint) (b : Store)
      → b.faults ≡ []
      → Reached outside e (concerned e.type eps) b (for_each eps (offer outside e) b).1
  unfolding for_each done ◌>>=◌ filter_by new_delivery
  offers_reach [] b quiet = (sym (append-nil _), sym (append-nil _))
  offers_reach (ep ∷ eps) b quiet = elim (Bool-cases (match_event ep.events e.type)) [
    | inl m ↦
        let (jobs, rows) = offers_reach eps (offered ep b) quiet in
        rw (offer_run ep b quiet m, m)
          (jobs ∙ append_assoc b.jobs (_ ∷ []) _, rows ∙ append_assoc b.deliveries (_ ∷ []) _)
    | inr m ↦ rw (offer_skip ep b m, m) (offers_reach eps b quiet)
  ]

-- The event that Emit makes.
abbrev pub event_of : Outside → String → String → String → String → String → Store → Event
event_of outside type tenant_id client_id user_id data_json b = record {
  type = type;
  id = outside.event_id b.drawn;
  timestamp = b.now;
  tenant_id = tenant_id;
  client_id = client_id;
  user_id = user_id;
  payload = data_json;
}

-- Where no statement fails, an event starts one delivery for each endpoint that is enabled and subscribed
-- to the event's type, in the endpoints' order, and none elsewhere; and each delivery has a new untried row
-- of its own, for the same endpoint and event.
pub emit_reaches :
    (outside : Outside) (type tenant_id client_id user_id data_json : String) (b : Store)
    → b.faults ≡ []
    → Reached outside
        (event_of outside type tenant_id client_id user_id data_json b)
        (concerned type (filter_by (λ ep. ep.enabled) b.endpoints))
        b
        (emit outside type tenant_id client_id user_id data_json b).1
unfolding emit find_endpoints draw clock statement ◌>>=◌
emit_reaches outside type tenant_id client_id user_id data_json b quiet =
    rw quiet (offers_reach outside _ _ _ refl)
