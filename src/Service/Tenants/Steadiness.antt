-- ===== src/Service/Tenants/Steadiness.antt =====
-- No operation on tenants takes anything back.
use unified_account_center.Prelude.{String, Option, none, some}
use unified_account_center.World.{Env}
use unified_account_center.Model.Session.{App}
use unified_account_center.Model.Tenancy.{Tenant}
use unified_account_center.History.Rules.{Steady}
use unified_account_center.Service.Steadiness.{service_rules}
use unified_account_center.Service.Tenants.{
  load_tenant, assert_local_login_allowed, app_room, app_quota, assert_tenant_app_quota,
  assert_tenant_otp_quota, CreateTenantRequest, UpdateTenantRequest, tenant_id_for, tenant_taken,
  create_tenant, update_tenant, ensure_default_tenant,
}

Steady-load_tenant : (tenant_id : String) → Steady (load_tenant tenant_id)
unfolding load_tenant
Steady-load_tenant tenant_id = search service_rules depth 8

pub Steady-assert_local_login_allowed :
    (app : App) (method : String) → Steady (assert_local_login_allowed app method)
unfolding assert_local_login_allowed
Steady-assert_local_login_allowed app method = search (service_rules, Steady-load_tenant) depth 8

Steady-app_room : (t : Tenant) (tenant_id : String) → Steady (app_room t tenant_id)
unfolding app_room
Steady-app_room t tenant_id = search service_rules depth 8

Steady-app_quota : (o : Option Tenant) (tenant_id : String) → Steady (app_quota o tenant_id)
unfolding app_quota
Steady-app_quota none tenant_id = search service_rules
Steady-app_quota (some t) tenant_id = Steady-app_room t tenant_id

pub Steady-assert_tenant_app_quota :
    (tenant_id : String) → Steady (assert_tenant_app_quota tenant_id)
unfolding assert_tenant_app_quota
Steady-assert_tenant_app_quota tenant_id = search (service_rules, Steady-app_quota)

pub Steady-ensure_default_tenant : Steady ensure_default_tenant
unfolding ensure_default_tenant
Steady-ensure_default_tenant = search service_rules

module _ (env : Env) where
  pub Steady-assert_tenant_otp_quota :
      (tenant_id : String) → Steady (assert_tenant_otp_quota env tenant_id)
  unfolding assert_tenant_otp_quota
  Steady-assert_tenant_otp_quota tenant_id = search (service_rules, Steady-load_tenant) depth 10

  Steady-tenant_id_for : (req : CreateTenantRequest) → Steady (tenant_id_for env req)
  unfolding tenant_id_for
  Steady-tenant_id_for req = search service_rules

  Steady-tenant_taken : (tid : String) → Steady (tenant_taken env tid)
  unfolding tenant_taken
  Steady-tenant_taken tid = search service_rules

  pub Steady-create_tenant : (req : CreateTenantRequest) → Steady (create_tenant env req)
  unfolding create_tenant
  Steady-create_tenant req =
      search (service_rules, Steady-tenant_id_for, Steady-tenant_taken) depth 12

  pub Steady-update_tenant :
      (tenant_id : String) (req : UpdateTenantRequest) → Steady (update_tenant env tenant_id req)
  unfolding update_tenant
  Steady-update_tenant tenant_id req = search service_rules depth 12
