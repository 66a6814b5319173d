-- ===== src/Service/AdminSession/Steadiness.antt =====
-- No login to the administration takes anything back.
use unified_account_center.Prelude.{String}
use unified_account_center.World.{Env}
use unified_account_center.Model.Account.{User}
use unified_account_center.History.Rules.{Steady}
use unified_account_center.Service.Steadiness.{service_rules}
use unified_account_center.Service.AdminSession.{
  AdminLoginRequest, login_by_token, roles_for_admin_user, admin_identity, checked_user,
  open_session, login_by_password, admin_login,
}

Steady-login_by_token : (configured token : String) → Steady (login_by_token configured token)
unfolding login_by_token
Steady-login_by_token configured token = search service_rules depth 8

Steady-roles_for_admin_user :
    (user_id tenant_id : String) → Steady (roles_for_admin_user user_id tenant_id)
unfolding roles_for_admin_user
Steady-roles_for_admin_user user_id tenant_id = search service_rules depth 8

module _ (env : Env) where
  Steady-admin_identity : (method raw : String) → Steady (admin_identity env method raw)
  unfolding admin_identity
  Steady-admin_identity method raw = search service_rules depth 8

  Steady-checked_user :
      (tid id_type identifier password : String)
      → Steady (checked_user env tid id_type identifier password)
  unfolding checked_user
  Steady-checked_user tid id_type identifier password = search service_rules depth 14

  Steady-open_session : (user : User) → Steady (open_session env user)
  unfolding open_session
  Steady-open_session user = search (service_rules, Steady-roles_for_admin_user) depth 12

  Steady-login_by_password : (req : AdminLoginRequest) → Steady (login_by_password env req)
  unfolding login_by_password
  Steady-login_by_password req =
      search (service_rules, Steady-admin_identity, Steady-checked_user, Steady-open_session) depth
        12

  pub Steady-admin_login :
      (configured : String) (req : AdminLoginRequest) → Steady (admin_login env configured req)
  unfolding admin_login
  Steady-admin_login configured req =
      search (service_rules, Steady-login_by_token, Steady-login_by_password) depth 8
