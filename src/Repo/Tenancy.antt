-- ===== src/Repo/Tenancy.antt =====
-- internal/repository/impl.go and p2.go: applications, tenants, invitations and join requests.
pub mod Uses
use unified_account_center.Prelude.{
  ℕ, suc, String, Bool, true, Option, none, some, [], ◌∷◌, ◌++◌, ◌&&◌, ◌==◌, is_some, ltb,
}
use unified_account_center.Prelude.Rows.{find_by, update_where, count_where}
use unified_account_center.Model
use unified_account_center.Model.Session.{App}
use unified_account_center.Model.Tenancy.{Tenant, Invite, JoinRequest}
use unified_account_center.Exec.{M, command, query, modify, insert}

unfoldable pub find_app : String → M (Option App)
find_app client_id = query λ w. find_by (λ a. a.client_id == client_id) w.apps

-- `CountAppsByTenant`.
unfoldable pub count_apps : String → M ℕ
count_apps tenant_id = query λ w. count_where (λ a. a.tenant_id == tenant_id) w.apps

unfoldable pub find_tenant : String → M (Option Tenant)
find_tenant tenant_id = query λ w. find_by (λ t. t.tenant_id == tenant_id) w.tenants

unfoldable pub create_tenant : Tenant → M (Unit {0})
create_tenant t =
    insert (λ w. is_some (find_by (λ u. u.tenant_id == t.tenant_id) w.tenants))
      (λ w. record w { tenants = w.tenants ++ t ∷ [] })

-- `Save`: the row with the primary key of `t`; tenant_id is unique.
unfoldable pub update_tenant : Tenant → M (Unit {0})
update_tenant t =
    modify
      λ w. record w { tenants = update_where (λ u. u.tenant_id == t.tenant_id) (λ _. t) w.tenants }

unfoldable pub create_invite : Invite → M (Unit {0})
create_invite i =
    insert (λ w. is_some (find_by (λ j. j.code == i.code) w.invites))
      (λ w. record w { invites = w.invites ++ i ∷ [] })

unfoldable pub find_invite : String → M (Option Invite)
find_invite code = query λ w. find_by (λ i. i.code == code) w.invites

unfoldable pub update_invite : Invite → M (Unit {0})
update_invite i =
    modify λ w. record w { invites = update_where (λ j. j.code == i.code) (λ _. i) w.invites }

-- "code = ? AND status = ? AND used_count < max_uses AND (expire_at IS NULL OR expire_at > ?)".
abbrev pub unexpired : ℕ → Option ℕ → Bool
unexpired now none = true
unexpired now (some t) = ltb now t

abbrev pub is_consumable : String → ℕ → Invite → Bool
is_consumable code now i =
    i.code == code
    && i.status == Model.Status.active
    && ltb i.used_count i.max_uses
    && unexpired now i.expire_at

unfoldable pub consume_invite : String → M Bool
consume_invite code = command λ w. (
  ltb 0 (count_where (is_consumable code w.now) w.invites),
  record w {
    invites =
        update_where (is_consumable code w.now) (λ i. record i { used_count = suc i.used_count })
          w.invites;
  },
)

unfoldable pub create_join : JoinRequest → M (Unit {0})
create_join r =
    insert (λ w. is_some (find_by (λ s. s.request_id == r.request_id) w.joins))
      (λ w. record w { joins = w.joins ++ r ∷ [] })

unfoldable pub find_join : String → M (Option JoinRequest)
find_join request_id = query λ w. find_by (λ r. r.request_id == request_id) w.joins

unfoldable pub update_join : JoinRequest → M (Unit {0})
update_join r =
    modify
      λ w. record w { joins = update_where (λ s. s.request_id == r.request_id) (λ _. r) w.joins }
