-- ===== src/Service/Completion/Steadiness.antt =====
-- Completing a login takes nothing back.
use unified_account_center.Prelude.{String, Bool}
use unified_account_center.World.{Env}
use unified_account_center.Model.Account.{User}
use unified_account_center.Model.Session.{App}
use unified_account_center.History.Rules.{Steady}
use unified_account_center.Service.Apps.{RequestMeta, ClientInfo}
use unified_account_center.Service.Risk.{
  note_failure, note_login_failure, clear_login_failures, remember_device,
}
use unified_account_center.Service.Users.{identity_views}
use unified_account_center.Service.Steadiness.{
  service_rules, Steady-verify_mfa_code, Steady-issue_tokens, Steady-roles_for_user,
}
use unified_account_center.Service.Completion.{
  MfaCompleteDto, mfa_failed, complete_login, mfa_complete,
}

Steady-note_failure : (env : Env) (kind key : String) → Steady (note_failure env kind key)
unfolding note_failure
Steady-note_failure env kind key = search service_rules depth 10

pub Steady-note_login_failure :
    (env : Env) (key ip : String) → Steady (note_login_failure env key ip)
unfolding note_login_failure
Steady-note_login_failure env key ip = search (service_rules, Steady-note_failure)

pub Steady-clear_login_failures : (key ip : String) → Steady (clear_login_failures key ip)
unfolding clear_login_failures
Steady-clear_login_failures key ip = search service_rules depth 10

pub Steady-remember_device :
    (user_id client_id : String) (client : ClientInfo) (meta : RequestMeta)
    → Steady (remember_device user_id client_id client meta)
unfolding remember_device
Steady-remember_device user_id client_id client meta = search service_rules

pub Steady-identity_views : (user_id : String) → Steady (identity_views user_id)
unfolding identity_views
Steady-identity_views user_id = search service_rules

module _ (env : Env) (meta : RequestMeta) where
  Steady-mfa_failed : (app : App) (user_id : String) → Steady (mfa_failed env meta app user_id)
  unfolding mfa_failed
  Steady-mfa_failed app user_id = search (service_rules, Steady-note_login_failure)

  Steady-complete_login :
      (app : App) (user : User) (client : ClientInfo) (is_new : Bool)
      → Steady (complete_login env meta app user client is_new)
  unfolding complete_login
  Steady-complete_login app user client is_new =
      search
        (
          service_rules, Steady-issue_tokens, Steady-remember_device, Steady-clear_login_failures,
          Steady-identity_views, Steady-roles_for_user,
        )
        depth 14

  pub Steady-mfa_complete : (dto : MfaCompleteDto) → Steady (mfa_complete env meta dto)
  unfolding mfa_complete
  Steady-mfa_complete dto =
      search (service_rules, Steady-verify_mfa_code, Steady-mfa_failed, Steady-complete_login) depth
        14
