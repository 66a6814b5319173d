-- ===== src/Service/Merge/Steadiness.antt =====
-- No merge and no reset by the administration takes anything back.
use unified_account_center.Prelude.{String, Option, none, some}
use unified_account_center.World.{World, Env}
use unified_account_center.Exec.{M}
use unified_account_center.Model.Account.{User, Identity, Credential}
use unified_account_center.Model.Session.{App}
use unified_account_center.History.Rules.{
  Steady, Steady-modify_quiet, Steady-begin, Within, Within-bind, Within-Steady, Within-rollback,
  Within-commit,
}
use unified_account_center.Auth.Principal.{IdentityPrincipal}
use unified_account_center.Service.Apps.{RequestMeta}
use unified_account_center.Service.Steadiness.{service_rules}
use unified_account_center.Service.Login.{LoginDto}
use unified_account_center.Service.Merge.{
  start_merge, merge_start, inherit, drop_credential, merge_credentials, or_rollback, merge_rest,
  merge_body, merge_users, merge_confirm, admin_merge_users, admin_unlock, reset_found,
  admin_reset_mfa,
}

module _ (env : Env) (meta : RequestMeta) where
  Steady-start_merge :
      (app : App) (target : String) (p : IdentityPrincipal) (i : Identity)
      → Steady (start_merge env meta app target p i)
  unfolding start_merge
  Steady-start_merge app target p i = search service_rules depth 12

  pub Steady-merge_start :
      (target : String) (dto : LoginDto) → Steady (merge_start env meta target dto)
  unfolding merge_start
  Steady-merge_start target dto = search (service_rules, Steady-start_merge) depth 14

Steady-inherit : (target : String) (s t : Option Credential) → Steady (inherit target s t)
unfolding inherit
Steady-inherit target none t = search service_rules
Steady-inherit target (some s) none = search service_rules
Steady-inherit target (some s) (some t) = search service_rules

Steady-drop_credential :
    (source : String) (o : Option Credential) → Steady (drop_credential source o)
unfolding drop_credential
Steady-drop_credential source none = search service_rules
Steady-drop_credential source (some s) = search service_rules

Steady-merge_credentials : (target source : String) → Steady (merge_credentials target source)
unfolding merge_credentials
Steady-merge_credentials target source =
    search (service_rules, Steady-inherit, Steady-drop_credential) depth 10

Within-statement : (old : World) (m : M (Unit {0})) → Steady m → Within old (or_rollback old m)
unfolding or_rollback
Within-statement old m s = Within-rollback old m s

Within-merge_body :
    (old : World) (tenant_id target : String) (source : User)
    → Within old (merge_body old tenant_id target source)
unfolding merge_body merge_rest
Within-merge_body old tenant_id target source =
    search
      (
        service_rules, Within-bind, Within-statement, Within-Steady, Within-commit,
        Steady-merge_credentials, Steady-modify_quiet,
      )
      depth 24

Steady-merge_users :
    (tenant_id target source : String) → Steady (merge_users tenant_id target source)
unfolding merge_users
Steady-merge_users tenant_id target source =
    search (service_rules, Steady-begin, Within-merge_body) depth 14

pub Steady-merge_confirm :
    (meta : RequestMeta) (target token : String) → Steady (merge_confirm meta target token)
unfolding merge_confirm
Steady-merge_confirm meta target token = search (service_rules, Steady-merge_users) depth 12

pub Steady-admin_merge_users : (target source : String) → Steady (admin_merge_users target source)
unfolding admin_merge_users
Steady-admin_merge_users target source = search (service_rules, Steady-merge_users) depth 12

pub Steady-admin_unlock : (kind key : String) → Steady (admin_unlock kind key)
unfolding admin_unlock
Steady-admin_unlock kind key = search service_rules depth 8

Steady-reset_found : (user : User) (o : Option Credential) → Steady (reset_found user o)
unfolding reset_found
Steady-reset_found user none = search service_rules
Steady-reset_found user (some c) = search service_rules depth 8

pub Steady-admin_reset_mfa : (user_id : String) → Steady (admin_reset_mfa user_id)
unfolding admin_reset_mfa
Steady-admin_reset_mfa user_id = search (service_rules, Steady-reset_found) depth 10
