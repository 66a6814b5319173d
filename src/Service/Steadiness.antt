-- ===== src/Service/Steadiness.antt =====
-- No operation of the services takes back a revocation, a consumption, a counted try or an audit
-- record, whether it succeeds or fails and whichever commands fail on the way.
use unified_account_center.Prelude.{ℕ, String, Bool, Option, none, some, List, zero, suc}
use unified_account_center.World.{Env, Claims}
use unified_account_center.Model.Account.{User, Credential}
use unified_account_center.Model.Session.{App, RefreshToken}
use unified_account_center.History.Rules.{Steady, Steady-bind, Steady-draw, Steady-pure}
use unified_account_center.History.Stores.{steady_stores}
use unified_account_center.Auth.Principal.{IdentityPrincipal}
use unified_account_center.Auth.Steadiness.{auth_rules}
use unified_account_center.Service.Apps.{RequestMeta, ClientInfo, require_app, audit}
use unified_account_center.Service.Roles.{roles_for_user, assign_role}
use unified_account_center.Service.Mfa.{
  verify_mfa_code, spend_backup, backup_codes, mfa_setup, mfa_enable,
}
use unified_account_center.Service.StepUp.{
  StepUpDto, consume_step_up, same_user, issue_step_up, step_up_totp, step_up_method, step_up,
  mfa_disable,
}
use unified_account_center.Service.Passwords.{
  validate_password, assert_password_not_reused, record_password_history, password_expired,
  change_password, set_password, ResetConfirmDto, reset_password_confirm,
}
use unified_account_center.Service.Tokens.{
  issue_access, issue_id_token, device_or_new, issue_tokens, reject_reuse, consume_row,
  spend_refresh, reissue, refresh, revoke_found, revoke_refresh, logout, revoke_parsed,
  revoke_token, standing, introspect,
}

pub Steady-require_app : (client_id : String) → Steady (require_app client_id)
unfolding require_app
Steady-require_app client_id = search steady_stores depth 8

pub Steady-audit :
    (app : App) (user_id action : String) (success : Bool) (detail : String) (meta : RequestMeta)
    → Steady (audit app user_id action success detail meta)
unfolding audit
Steady-audit app user_id action success detail meta = search steady_stores depth 8

pub ruleset service_rules = (auth_rules, Steady-require_app, Steady-audit)

pub Steady-roles_for_user : (user_id tenant_id : String) → Steady (roles_for_user user_id tenant_id)
unfolding roles_for_user
Steady-roles_for_user user_id tenant_id = search service_rules

pub Steady-assign_role :
    (user_id tenant_id role : String) → Steady (assign_role user_id tenant_id role)
unfolding assign_role
Steady-assign_role user_id tenant_id role = search service_rules depth 8

pub Steady-consume_step_up :
    (user_id client_id token : String) → Steady (consume_step_up user_id client_id token)
unfolding consume_step_up
Steady-consume_step_up user_id client_id token = search service_rules depth 8

pub Steady-mfa_disable :
    (meta : RequestMeta) (user_id token : String) → Steady (mfa_disable meta user_id token)
unfolding mfa_disable
Steady-mfa_disable meta user_id token = search (service_rules, Steady-consume_step_up) depth 12

Steady-same_user :
    (app : App) (user_id : String) (p : IdentityPrincipal) (o : Option String)
    → Steady (same_user app user_id p o)
unfolding same_user
Steady-same_user app user_id p none = search service_rules
Steady-same_user app user_id p (some uid) = search service_rules

module _ (env : Env) where
  Steady-spend_backup : (c : Credential) (o : Option (List String)) → Steady (spend_backup env c o)
  unfolding spend_backup
  Steady-spend_backup c none = search service_rules
  Steady-spend_backup c (some left) = search service_rules

  pub Steady-verify_mfa_code : (user_id code : String) → Steady (verify_mfa_code env user_id code)
  unfolding verify_mfa_code
  Steady-verify_mfa_code user_id code = search (service_rules, Steady-spend_backup) depth 10

  Steady-backup_codes : (n : ℕ) → Steady (backup_codes env n)
  unfolding backup_codes
  Steady-backup_codes zero = search service_rules
  Steady-backup_codes (suc n) =
      Steady-bind _ _ Steady-draw λ _. Steady-bind _ _ (Steady-backup_codes n) λ _. Steady-pure _

  pub Steady-mfa_setup :
      (meta : RequestMeta) (user_id : String) → Steady (mfa_setup env meta user_id)
  unfolding mfa_setup
  Steady-mfa_setup meta user_id = search service_rules depth 14

  pub Steady-mfa_enable :
      (meta : RequestMeta) (user_id code : String) → Steady (mfa_enable env meta user_id code)
  unfolding mfa_enable
  Steady-mfa_enable meta user_id code = search (service_rules, Steady-backup_codes) depth 14

  Steady-issue_step_up : (app : App) (user_id : String) → Steady (issue_step_up env app user_id)
  unfolding issue_step_up
  Steady-issue_step_up app user_id = search service_rules depth 8

  Steady-step_up_totp :
      (meta : RequestMeta) (user_id code : String) → Steady (step_up_totp env meta user_id code)
  unfolding step_up_totp
  Steady-step_up_totp meta user_id code =
      search (service_rules, Steady-verify_mfa_code, Steady-issue_step_up) depth 10

  Steady-step_up_method :
      (meta : RequestMeta) (user_id : String) (dto : StepUpDto)
      → Steady (step_up_method env meta user_id dto)
  unfolding step_up_method
  Steady-step_up_method meta user_id dto =
      search (service_rules, Steady-same_user, Steady-issue_step_up) depth 12

  pub Steady-step_up :
      (meta : RequestMeta) (user_id : String) (dto : StepUpDto)
      → Steady (step_up env meta user_id dto)
  unfolding step_up
  Steady-step_up meta user_id dto =
      search (service_rules, Steady-step_up_totp, Steady-step_up_method)

  Steady-validate_password : (pwd : String) → Steady (validate_password env pwd)
  unfolding validate_password
  Steady-validate_password pwd = search service_rules

  Steady-assert_password_not_reused :
      (user_id pwd current : String) → Steady (assert_password_not_reused env user_id pwd current)
  unfolding assert_password_not_reused
  Steady-assert_password_not_reused user_id pwd current = search service_rules

  Steady-record_password_history :
      (user_id old : String) → Steady (record_password_history env user_id old)
  unfolding record_password_history
  Steady-record_password_history user_id old = search service_rules

  Steady-password_expired :
      (user_id : String) (days : ℕ) → Steady (password_expired env user_id days)
  unfolding password_expired
  Steady-password_expired user_id days = search service_rules depth 8

  Steady-change_password : (user_id pwd : String) → Steady (change_password env user_id pwd)
  unfolding change_password
  Steady-change_password user_id pwd =
      search
        (
          service_rules, Steady-validate_password, Steady-assert_password_not_reused,
          Steady-record_password_history,
        )
        depth 14

  pub Steady-set_password :
      (meta : RequestMeta) (user_id pwd token : String)
      → Steady (set_password env meta user_id pwd token)
  unfolding set_password
  Steady-set_password meta user_id pwd token =
      search
        (service_rules, Steady-password_expired, Steady-consume_step_up, Steady-change_password)
        depth 14

  pub Steady-reset_password_confirm :
      (meta : RequestMeta) (dto : ResetConfirmDto) → Steady (reset_password_confirm env meta dto)
  unfolding reset_password_confirm
  Steady-reset_password_confirm meta dto = search (service_rules, Steady-change_password) depth 14

  Steady-issue_access :
      (user : User) (app : App) (ttl : ℕ) (roles scope : List String) (must : Bool) (uv : ℕ)
      → Steady (issue_access env user app ttl roles scope must uv)
  unfolding issue_access
  Steady-issue_access user app ttl roles scope must uv = search service_rules depth 8

  Steady-issue_id_token :
      (user : User) (app : App) (ttl : ℕ) → Steady (issue_id_token env user app ttl)
  unfolding issue_id_token
  Steady-issue_id_token user app ttl = search service_rules depth 8

  Steady-device_or_new : (device_id : String) → Steady (device_or_new env device_id)
  unfolding device_or_new
  Steady-device_or_new device_id = search service_rules

  pub Steady-issue_tokens :
      (app : App) (user : User) (client : ClientInfo) (meta : RequestMeta)
      → Steady (issue_tokens env app user client meta)
  unfolding issue_tokens
  Steady-issue_tokens app user client meta =
      search
        (
          service_rules, Steady-roles_for_user, Steady-password_expired, Steady-issue_access,
          Steady-issue_id_token, Steady-device_or_new,
        )
        depth 18

  pub Steady-reject_reuse : (rt : RefreshToken) (now : ℕ) → Steady (reject_reuse env rt now)
  unfolding reject_reuse
  Steady-reject_reuse rt now = search service_rules

  Steady-consume_row : (rt : RefreshToken) (now : ℕ) → Steady (consume_row env rt now)
  unfolding consume_row
  Steady-consume_row rt now = search service_rules depth 12

  pub Steady-spend_refresh : (app : App) (token : String) → Steady (spend_refresh env app token)
  unfolding spend_refresh
  Steady-spend_refresh app token =
      search (service_rules, Steady-reject_reuse, Steady-consume_row) depth 10

  pub Steady-reissue :
      (app : App) (rt : RefreshToken) (user : User) (meta : RequestMeta)
      → Steady (reissue env app rt user meta)
  unfolding reissue
  Steady-reissue app rt user meta = search (service_rules, Steady-issue_tokens) depth 8

  pub Steady-refresh : (meta : RequestMeta) (token : String) → Steady (refresh env meta token)
  unfolding refresh
  Steady-refresh meta token = search (service_rules, Steady-spend_refresh, Steady-reissue) depth 12

  Steady-revoke_found : (o : Option RefreshToken) (now : ℕ) → Steady (revoke_found env o now)
  unfolding revoke_found
  Steady-revoke_found none now = search service_rules
  Steady-revoke_found (some rt) now = search service_rules

  Steady-revoke_refresh : (token : String) → Steady (revoke_refresh env token)
  unfolding revoke_refresh
  Steady-revoke_refresh token = search (service_rules, Steady-revoke_found)

  pub Steady-logout :
      (meta : RequestMeta) (user_id jti token : String) (all : Bool) (ttl : ℕ)
      → Steady (logout env meta user_id jti token all ttl)
  unfolding logout
  Steady-logout meta user_id jti token all ttl =
      search (service_rules, Steady-revoke_refresh) depth 12

  Steady-revoke_parsed :
      (token : String) (now : ℕ) (o : Option Claims) → Steady (revoke_parsed env token now o)
  unfolding revoke_parsed
  Steady-revoke_parsed token now none = search (service_rules, Steady-revoke_refresh)
  Steady-revoke_parsed token now (some c) = search service_rules

  pub Steady-revoke_token : (token hint : String) → Steady (revoke_token env token hint)
  unfolding revoke_token
  Steady-revoke_token token hint = search (service_rules, Steady-revoke_parsed) depth 8

  Steady-standing : (o : Option Claims) → Steady (standing env o)
  unfolding standing
  Steady-standing none = search service_rules
  Steady-standing (some c) = search service_rules depth 8

  pub Steady-introspect : (token : String) → Steady (introspect env token)
  unfolding introspect
  Steady-introspect token = search (service_rules, Steady-standing)
