-- ===== src/Service/OauthFlow/State.antt =====
-- The state of an OAuth login is good once, for the request that it was made for.
use unified_account_center.Prelude.{
  ℕ, ◌+◌, String, refl, [], is_empty, ◌≡◌, ◌∙◌, sym, ap, Bool, true, false, List, Option, none,
  some, ◌==◌, eq_refl, if◌then◌else◌,
}
use mathlib.Core.Option.{none-ne-some}
use unified_account_center.Errors.{invalid_cred, ok, is_ok, not_ok}
use unified_account_center.World.{World, OauthStatePayload}
use unified_account_center.Cache
use unified_account_center.Cache.{get, without}
use unified_account_center.Cache.Laws.{get-without}
use unified_account_center.Exec.Inversion.{facing, bind_ok, require_ok, guard_ok, pure_ok}
use unified_account_center.Repo.Redis
use unified_account_center.Repo.Redis.Taken.{get_del_json-Left}
use unified_account_center.Exec.{fall_back, command, guard, raise, pure, require, ◌>>=◌, ◌>>◌}
use unified_account_center.Service.StepUp.Single.{later}
use unified_account_center.Service.OauthFlow.{state_key, consume_state}

-- What a state that was accepted was made for. It may be stored still, where commands failed.
pub record Consumed (client_id provider state redirect_uri : String) (p : OauthStatePayload)
    (w w' : World) : Type 0 where
  pub stored : get w.now (state_key state) w.oauth_states ≡ some p
  pub of_client : (p.client_id == client_id) ≡ true
  pub of_provider : (p.provider == provider) ≡ true
  pub of_uri : (p.redirect_uri == redirect_uri) ≡ true

-- A state that is accepted was stored, still alive, for the same application, provider and redirect
-- address.
pub consume_state-Consumed :
    (client_id provider state redirect_uri : String) (p : OauthStatePayload) (w w' : World)
    → consume_state client_id provider state redirect_uri w ≡ (ok p, w')
    → Consumed client_id provider state redirect_uri p w w'
unfolding consume_state Redis.take_oauth_state
consume_state-Consumed client_id provider state redirect_uri p w w' h =
    let (_, h1) = guard_ok _ _ _ w h in
    let (o, v, taken, h2) = bind_ok _ _ w h1 in
    let (q, s, h3) = require_ok _ _ _ _ h2 in
    let (c, h4) = guard_ok _ _ _ _ h3 in
    let (r, h5) = guard_ok _ _ _ _ h4 in
    let (u, h6) = guard_ok _ _ _ _ h5 in
    let (same, _) = pure_ok _ _ _ _ h6 in
    let (read, _) =
      get_del_json-Left (λ u. u.oauth_states) Redis.with_oauth_states (state_key state) w v o
        (λ fs. refl) taken in
    record {
      stored = rw same (sym read ∙ s);
      of_client = rw same c;
      of_provider = rw same r;
      of_uri = rw same u;
    }

-- Without faults the state is deleted whatever comes of it.
consume_state_deletes :
    (client_id provider state redirect_uri : String) (w : World)
    → w.faults ≡ []
    → is_empty state ≡ false
    → (consume_state client_id provider state redirect_uri w).1
      ≡ record w { oauth_states = without (state_key state) w.oauth_states }
unfolding consume_state Redis.take_oauth_state Redis.get_del_json fall_back command guard raise pure
    require ◌>>=◌ Cache.get_del
consume_state_deletes client_id provider state redirect_uri w quiet e =
    rw (quiet, e) (rest (get w.now (state_key state) w.oauth_states))
  where
    after : World
    after = record w { faults = []; oauth_states = without (state_key state) w.oauth_states }

    tests :
        (a b c : Bool) (p : OauthStatePayload)
        → ((do guard a invalid_cred; guard b invalid_cred; guard c invalid_cred; pure p) after).1
          ≡ after
    tests false b c p = refl
    tests true false c p = refl
    tests true true false p = refl
    tests true true true p = refl

    rest :
        (o : Option OauthStatePayload)
        → ((do
          payload ← require o invalid_cred
          guard (payload.client_id == client_id) invalid_cred
          guard (payload.provider == provider) invalid_cred
          guard (payload.redirect_uri == redirect_uri) invalid_cred
          pure payload)
            after).1
          ≡ after
    rest none = refl
    rest (some p) =
        tests (p.client_id == client_id) (p.provider == provider) (p.redirect_uri == redirect_uri) p

pair_path : {A B : Type 0} (x : A × B) {a : A} → x.0 ≡ a → x ≡ (a, x.1)
pair_path x e = ap (λ y. (y, x.1)) e

-- A state is good once: after any use of it in which no command failed, whoever used it, it is refused
-- to every application, provider and redirect address, whatever time passes and whatever fails then.
pub state_once :
    (client_id provider state uri again other elsewhere : String) (d : ℕ) (fs : List Bool)
    (w : World)
    → w.faults ≡ []
    → is_empty state ≡ false
    → is_ok
        (consume_state again other state elsewhere
          (facing (later d (consume_state client_id provider state uri w).1) fs)).0
      ≡ false
state_once client_id provider state uri again other elsewhere d fs w quiet given =
    let gone = consume_state_deletes client_id provider state uri w quiet given in
    let v = facing (later d (consume_state client_id provider state uri w).1) fs in
    not_ok _ λ q e.
      let second =
        consume_state-Consumed again other state elsewhere q v
          (consume_state again other state elsewhere v).1 (pair_path _ e) in
      let key = state_key state in
      let absent : get v.now key v.oauth_states ≡ none =
        ap (λ x. get (x.now + d) key x.oauth_states) gone
        ∙ get-without (w.now + d) key key w.oauth_states
        ∙ ap (λ b. if b then none else get (w.now + d) key w.oauth_states) (eq_refl key) in
      absurd (none-ne-some q (sym absent ∙ second.stored))
