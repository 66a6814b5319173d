-- ===== src/Service/Login/Steadiness.antt =====
-- No challenge and no login takes anything back.
use unified_account_center.Prelude.{String, Bool, List, Option, none, some}
use unified_account_center.World.{Env, OauthStatePayload}
use unified_account_center.Model.Account.{User, Identity}
use unified_account_center.Model.Session.{App}
use unified_account_center.History.Rules.{Steady}
use unified_account_center.Auth.Principal.{IdentityPrincipal}
use unified_account_center.Service.Apps.{RequestMeta, ClientInfo}
use unified_account_center.Service.Risk.{assert_not_locked, is_new_device}
use unified_account_center.Service.Mfa.{user_has_mfa, create_mfa_pending}
use unified_account_center.Service.Users.{
  active_user, create_join_request, register, join_or_register, by_identity, by_profile,
  resolve_user, validate_invite,
}
use unified_account_center.Service.Steadiness.{
  service_rules, Steady-issue_tokens, Steady-roles_for_user,
}
use unified_account_center.Service.Completion.Steadiness.{
  Steady-note_login_failure, Steady-clear_login_failures, Steady-remember_device,
  Steady-identity_views,
}
use unified_account_center.Service.Tenants.Steadiness.{
  Steady-assert_local_login_allowed, Steady-assert_tenant_otp_quota,
}
use unified_account_center.Service.OauthFlow.Steadiness.{Steady-consume_state}
use unified_account_center.Service.Login.{
  ChallengeDto, LoginDto, alert_otp_limit, note_challenge, challenge_failed, challenge,
  reset_password_start, check_pkce, oauth_ready, login_provider, login_failed, may_register,
  pend_login, issue_login, enter, prove, identify, login,
}

Steady-assert_not_locked : (key ip : String) → Steady (assert_not_locked key ip)
unfolding assert_not_locked
Steady-assert_not_locked key ip = search service_rules depth 12

Steady-is_new_device :
    (user_id client_id device_id : String) → Steady (is_new_device user_id client_id device_id)
unfolding is_new_device
Steady-is_new_device user_id client_id device_id = search service_rules depth 8

Steady-user_has_mfa : (user_id : String) → Steady (user_has_mfa user_id)
unfolding user_has_mfa
Steady-user_has_mfa user_id = search service_rules

Steady-active_user : (user_id : String) (c : _) → Steady (active_user user_id c)
unfolding active_user
Steady-active_user user_id c = search service_rules depth 8

module _ (env : Env) where
  Steady-create_mfa_pending :
      (app : App) (user : User) (client : ClientInfo) (is_new : Bool)
      → Steady (create_mfa_pending env app user client is_new)
  unfolding create_mfa_pending
  Steady-create_mfa_pending app user client is_new = search service_rules depth 12

  Steady-register : (app : App) (p : IdentityPrincipal) → Steady (register env app p)
  unfolding register
  Steady-register app p = search service_rules depth 14

  Steady-create_join_request :
      (app : App) (p : IdentityPrincipal) → Steady (create_join_request env app p)
  unfolding create_join_request
  Steady-create_join_request app p = search service_rules depth 8

  Steady-join_or_register :
      (app : App) (p : IdentityPrincipal) (auto : Bool) → Steady (join_or_register env app p auto)
  unfolding join_or_register
  Steady-join_or_register app p auto =
      search (service_rules, Steady-register, Steady-create_join_request) depth 8

  Steady-by_identity :
      (app : App) (p : IdentityPrincipal) (auto : Bool) (o : Option Identity)
      → Steady (by_identity env app p auto o)
  unfolding by_identity
  Steady-by_identity app p auto none = Steady-join_or_register app p auto
  Steady-by_identity app p auto (some i) = search (service_rules, Steady-active_user)

  Steady-by_profile :
      (app : App) (p : IdentityPrincipal) (auto : Bool) (o : Option String)
      → Steady (by_profile env app p auto o)
  unfolding by_profile
  Steady-by_profile app p auto (some uid) = search (service_rules, Steady-active_user)
  Steady-by_profile app p auto none = search (service_rules, Steady-by_identity)

  Steady-resolve_user :
      (app : App) (p : IdentityPrincipal) (auto : Bool) → Steady (resolve_user env app p auto)
  unfolding resolve_user
  Steady-resolve_user app p auto = Steady-by_profile app p auto _

  Steady-validate_invite :
      (app : App) (code : String) (p : IdentityPrincipal) → Steady (validate_invite env app code p)
  unfolding validate_invite
  Steady-validate_invite app code p = search service_rules depth 24

module _ (env : Env) (meta : RequestMeta) where
  pub Steady-challenge : (dto : ChallengeDto) → Steady (challenge env meta dto)
  unfolding challenge note_challenge challenge_failed alert_otp_limit
  Steady-challenge dto =
      search (service_rules, Steady-assert_local_login_allowed, Steady-assert_tenant_otp_quota)
        depth 18

  pub Steady-reset_password_start :
      (method identity : String) → Steady (reset_password_start env meta method identity)
  unfolding reset_password_start
  Steady-reset_password_start method identity = search Steady-challenge

  Steady-check_pkce :
      (app : App) (dto : LoginDto) (p : OauthStatePayload) → Steady (check_pkce env meta app dto p)
  unfolding check_pkce
  Steady-check_pkce app dto p = search service_rules depth 8

  Steady-oauth_ready : (app : App) (dto : LoginDto) → Steady (oauth_ready env meta app dto)
  unfolding oauth_ready
  Steady-oauth_ready app dto =
      search (service_rules, Steady-consume_state, Steady-check_pkce) depth 12

  Steady-login_provider : (app : App) (dto : LoginDto) → Steady (login_provider env meta app dto)
  unfolding login_provider
  Steady-login_provider app dto = search (service_rules, Steady-oauth_ready) depth 8

  Steady-login_failed : (app : App) (dto : LoginDto) → Steady (login_failed env meta app dto)
  unfolding login_failed
  Steady-login_failed app dto = search (service_rules, Steady-note_login_failure) depth 8

  Steady-may_register :
      (app : App) (dto : LoginDto) (p : IdentityPrincipal)
      → Steady (may_register env meta app dto p)
  unfolding may_register
  Steady-may_register app dto p = search (service_rules, Steady-validate_invite) depth 8

  Steady-pend_login :
      (app : App) (dto : LoginDto) (user : User) (is_new : Bool) (flags : List String)
      → Steady (pend_login env meta app dto user is_new flags)
  unfolding pend_login
  Steady-pend_login app dto user is_new flags =
      search (service_rules, Steady-create_mfa_pending) depth 10

  Steady-issue_login :
      (app : App) (dto : LoginDto) (user : User) (is_new : Bool) (flags : List String)
      → Steady (issue_login env meta app dto user is_new flags)
  unfolding issue_login
  Steady-issue_login app dto user is_new flags =
      search
        (
          service_rules, Steady-issue_tokens, Steady-remember_device, Steady-clear_login_failures,
          Steady-identity_views, Steady-roles_for_user,
        )
        depth 20

  Steady-enter :
      (app : App) (dto : LoginDto) (user : User) (is_new : Bool)
      → Steady (enter env meta app dto user is_new)
  unfolding enter
  Steady-enter app dto user is_new =
      search
        (
          service_rules, Steady-is_new_device, Steady-user_has_mfa, Steady-pend_login,
          Steady-issue_login,
        )
        depth 12

  Steady-prove : (app : App) (dto : LoginDto) → Steady (prove env meta app dto)
  unfolding prove
  Steady-prove app dto = search (service_rules, Steady-login_provider, Steady-login_failed) depth 10

  Steady-identify :
      (app : App) (dto : LoginDto) (p : IdentityPrincipal) → Steady (identify env meta app dto p)
  unfolding identify
  Steady-identify app dto p =
      search (service_rules, Steady-may_register, Steady-resolve_user) depth 8

  pub Steady-login : (dto : LoginDto) → Steady (login env meta dto)
  unfolding login
  Steady-login dto =
      search
        (
          service_rules, Steady-assert_not_locked, Steady-assert_local_login_allowed, Steady-prove,
          Steady-identify, Steady-enter,
        )
        depth 16
