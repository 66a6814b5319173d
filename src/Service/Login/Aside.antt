-- ===== src/Service/Login/Aside.antt =====
-- What the steps of a login round the proof of the identity leave as it is.
use unified_account_center.Prelude.{
  String, ◌≡◌, refl, Bool, true, false, ◌==◌, [], if◌then◌else◌, is_empty, Bool-cases, inl, inr,
}
use unified_account_center.Errors.{ok}
use unified_account_center.World.{World, Env, OauthStatePayload}
use unified_account_center.Model
use unified_account_center.Model.Session.{App}
use unified_account_center.Exec.{query, pure, ◌>>◌}
use unified_account_center.Exec.Frame.{
  Blind, Frame, Kept, Frame-fall_back, Frame-command, Frame-modify, Frame-bind, Frame-guard,
  Frame-pure, Frame-when, Frame-query, Frame-ignore, Kept-Frame, Kept-bind, Kept-on_error,
  frame_rules, Kept-after,
}
use unified_account_center.Exec.Inversion.{bind_ok, pure_ok}
use unified_account_center.Repo.Tenancy
use unified_account_center.Repo.Redis
use unified_account_center.Repo.Redis.{get_then_del, get_del_json, drop_key}
use unified_account_center.Auth.Principal.{IdentityPrincipal}
use unified_account_center.Service.Apps.{RequestMeta, require_app}
use unified_account_center.Service.Risk.{assert_not_locked}
use unified_account_center.Service.Users.{validate_invite}
use unified_account_center.Service.Tenants.{assert_local_login_allowed, load_tenant}
use unified_account_center.Service.OauthFlow.{consume_state}
use unified_account_center.Service.Login.{
  LoginDto, provider_of, oauth_ready, check_pkce, login_provider, may_register,
}

-- The state but for the commands that are to fail, the count of draws and the OAuth states.
abbrev pub aside : World → World
aside w = record w { faults = []; drawn = 0; oauth_states = [] }

blind : Blind aside
blind w fs n = refl

aside-query : {A : Type 0} (g : World → A) → Frame aside (query g)
aside-query g = Frame-query blind g

pub require_app-aside : (client_id : String) → Frame aside (require_app client_id)
unfolding require_app Tenancy.find_app
require_app-aside client_id = search (frame_rules, aside-query)

pub assert_not_locked-aside : (identity ip : String) → Frame aside (assert_not_locked identity ip)
unfolding assert_not_locked Redis.get_flag
assert_not_locked-aside identity ip = search (frame_rules, aside-query)

pub assert_local_login_allowed-aside :
    (app : App) (method : String) → Frame aside (assert_local_login_allowed app method)
unfolding assert_local_login_allowed load_tenant Tenancy.find_tenant
assert_local_login_allowed-aside app method = search (frame_rules, aside-query)

pub may_register-aside :
    (env : Env) (meta : RequestMeta) (app : App) (dto : LoginDto) (p : IdentityPrincipal)
    → Frame aside (may_register env meta app dto p)
unfolding may_register validate_invite Tenancy.find_invite
may_register-aside env meta app dto p = search (frame_rules, aside-query) depth 30

take_state : (key : String) → Frame aside (Redis.take_oauth_state key)
unfolding Redis.take_oauth_state get_del_json get_then_del drop_key
take_state key = Frame-fall_back _ _ (Frame-command blind _ λ w. refl) (
    Frame-bind _ _ (Frame-query blind _) (λ v.
      Frame-bind _ _ (Frame-when _ _ (Frame-ignore _ (Frame-modify blind _ λ w. refl)))
        (λ u. Frame-pure v)))

consume_state-aside :
    (client_id provider state uri : String)
    → Frame aside (consume_state client_id provider state uri)
unfolding consume_state
consume_state-aside client_id provider state uri = search (frame_rules, take_state) depth 20

module _ (env : Env) (meta : RequestMeta) (app : App) (dto : LoginDto) where
  check_pkce-aside : (p : OauthStatePayload) → Kept aside (check_pkce env meta app dto p)
  unfolding check_pkce
  check_pkce-aside p = elim (Bool-cases (is_empty p.code_challenge)) [
    | inl e ↦ rw e (Kept-Frame _ (Frame-guard _ _))
    | inr e ↦ rw e (Kept-on_error _ _ (Frame-guard _ _))
  ]

  oauth_ready-aside : Kept aside (oauth_ready env meta app dto)
  unfolding oauth_ready
  oauth_ready-aside = Kept-bind _ _ (Kept-Frame _ (Frame-guard _ _)) (λ _.
      Kept-bind _ _ (Kept-Frame _ (Frame-guard _ _))
        (λ _. Kept-bind _ _ (Kept-on_error _ _ (consume_state-aside _ _ _ _)) check_pkce-aside))

  -- The provider that a login is verified with.
  abbrev pub asked : String
  asked = if dto.method == Model.Method.oauth2 then provider_of dto else dto.provider

  pub login_provider-aside :
      (w v : World) (provider : String)
      → login_provider env meta app dto w ≡ (ok provider, v)
      → (aside v ≡ aside w) × (provider ≡ asked)
  unfolding login_provider
  login_provider-aside w v provider h = either (dto.method == Model.Method.oauth2) h
    where
      either :
          (b : Bool)
          → (if b
                then (do oauth_ready env meta app dto; pure (provider_of dto))
                else pure dto.provider)
              w
            ≡ (ok provider, v)
          → (aside v ≡ aside w) × (provider ≡ (if b then provider_of dto else dto.provider))
      either true h =
          let (_, u, e, k) = bind_ok _ _ w h in
          let (same, after) = pure_ok _ _ _ _ k in
          (rw after (Kept-after _ oauth_ready-aside w u _ e), same)
      either false h = let (same, after) = pure_ok _ _ _ _ h in (rw after refl, same)
