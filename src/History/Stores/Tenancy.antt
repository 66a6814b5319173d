-- ===== src/History/Stores/Tenancy.antt =====
-- The statements of internal/repository on applications, tenants, invitations and join requests take nothing back.
use unified_account_center.Prelude.{String, refl}
use unified_account_center.Model.Tenancy.{Tenant, Invite, JoinRequest}
use unified_account_center.History.{Advances-quiet}
use unified_account_center.History.Rules.{
  Steady, Steady-query, Steady-modify_quiet, Steady-command, Steady-insert,
}
use unified_account_center.Repo.Tenancy

pub Steady-find_app : (client_id : String) → Steady (Tenancy.find_app client_id)
unfolding Tenancy.find_app
Steady-find_app client_id = Steady-query _

pub Steady-count_apps : (tenant_id : String) → Steady (Tenancy.count_apps tenant_id)
unfolding Tenancy.count_apps
Steady-count_apps tenant_id = Steady-query _

pub Steady-find_tenant : (tenant_id : String) → Steady (Tenancy.find_tenant tenant_id)
unfolding Tenancy.find_tenant
Steady-find_tenant tenant_id = Steady-query _

pub Steady-find_invite : (code : String) → Steady (Tenancy.find_invite code)
unfolding Tenancy.find_invite
Steady-find_invite code = Steady-query _

pub Steady-find_join : (request_id : String) → Steady (Tenancy.find_join request_id)
unfolding Tenancy.find_join
Steady-find_join request_id = Steady-query _

pub Steady-update_invite : (i : Invite) → Steady (Tenancy.update_invite i)
unfolding Tenancy.update_invite
Steady-update_invite i = Steady-modify_quiet _ (λ w. refl)

pub Steady-update_join : (r : JoinRequest) → Steady (Tenancy.update_join r)
unfolding Tenancy.update_join
Steady-update_join r = Steady-modify_quiet _ (λ w. refl)

pub Steady-consume_invite : (code : String) → Steady (Tenancy.consume_invite code)
unfolding Tenancy.consume_invite
Steady-consume_invite code = Steady-command _ (λ w. Advances-quiet _ _ refl)

pub Steady-create_invite : (i : Invite) → Steady (Tenancy.create_invite i)
unfolding Tenancy.create_invite
Steady-create_invite i = Steady-insert _ _ (λ w. Advances-quiet _ _ refl)

pub Steady-create_join : (r : JoinRequest) → Steady (Tenancy.create_join r)
unfolding Tenancy.create_join
Steady-create_join r = Steady-insert _ _ (λ w. Advances-quiet _ _ refl)

pub Steady-create_tenant : (t : Tenant) → Steady (Tenancy.create_tenant t)
unfolding Tenancy.create_tenant
Steady-create_tenant t = Steady-insert _ _ (λ w. Advances-quiet _ _ refl)

pub Steady-update_tenant : (t : Tenant) → Steady (Tenancy.update_tenant t)
unfolding Tenancy.update_tenant
Steady-update_tenant t = Steady-modify_quiet _ (λ w. refl)

pub ruleset tenancy_rules = (
  Steady-create_tenant, Steady-update_tenant, Steady-find_app, Steady-count_apps,
  Steady-find_tenant, Steady-find_invite, Steady-find_join, Steady-update_invite,
  Steady-update_join, Steady-consume_invite, Steady-create_invite, Steady-create_join,
)
