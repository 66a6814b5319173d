-- ===== src/Service/Invites/Steadiness.antt =====
-- No operation on invitations and join requests takes anything back.
use unified_account_center.Prelude.{String, List, [], ◌∷◌}
use unified_account_center.World.{Env}
use unified_account_center.Model.Tenancy.{JoinRequest}
use unified_account_center.History.Rules.{Steady, Steady-bind}
use unified_account_center.Service.Steadiness.{service_rules}
use unified_account_center.Service.Tenants.{get_tenant}
use unified_account_center.Service.Invites.{
  tenant_there, CreateInviteRequest, create_invite, CreateUserRequest, add_identity, add_phone,
  bind_roles, password_for, store_password, create_named, admin_create_user, admit, decide,
  review_join_request, revoke_invite,
}

Steady-get_tenant : (tenant_id : String) → Steady (get_tenant tenant_id)
unfolding get_tenant
Steady-get_tenant tenant_id = search service_rules depth 8

Steady-tenant_there : (tid : String) → Steady (tenant_there tid)
unfolding tenant_there
Steady-tenant_there tid = search (service_rules, Steady-get_tenant) depth 8

Steady-add_phone : (tid user_id phone : String) → Steady (add_phone tid user_id phone)
unfolding add_phone add_identity
Steady-add_phone tid user_id phone = search service_rules depth 8

Steady-bind_roles :
    (user_id tid : String) (roles : List String) → Steady (bind_roles user_id tid roles)
unfolding bind_roles
Steady-bind_roles user_id tid [] = search service_rules
Steady-bind_roles user_id tid (r ∷ rs) =
    Steady-bind _ _ (search service_rules) (λ _. Steady-bind_roles user_id tid rs)

module _ (env : Env) where
  pub Steady-create_invite : (req : CreateInviteRequest) → Steady (create_invite env req)
  unfolding create_invite
  Steady-create_invite req = search (service_rules, Steady-tenant_there) depth 12

  Steady-password_for : (given : String) → Steady (password_for env given)
  unfolding password_for
  Steady-password_for given = search service_rules

  Steady-store_password : (user_id pwd : String) → Steady (store_password env user_id pwd)
  unfolding store_password
  Steady-store_password user_id pwd = search service_rules depth 8

  Steady-create_named :
      (req : CreateUserRequest) (tid phone email : String)
      → Steady (create_named env req tid phone email)
  unfolding create_named add_identity
  Steady-create_named req tid phone email =
      search
        (
          service_rules, Steady-add_phone, Steady-bind_roles, Steady-password_for,
          Steady-store_password,
        )
        depth 16

  pub Steady-admin_create_user : (req : CreateUserRequest) → Steady (admin_create_user env req)
  unfolding admin_create_user
  Steady-admin_create_user req = search (service_rules, Steady-create_named)

  Steady-admit : (req : JoinRequest) → Steady (admit env req)
  unfolding admit add_identity
  Steady-admit req = search service_rules depth 10

  Steady-decide :
      (req : JoinRequest) (decision reviewer note : String)
      → Steady (decide env req decision reviewer note)
  unfolding decide
  Steady-decide req decision reviewer note = search (service_rules, Steady-admit) depth 8

  pub Steady-review_join_request :
      (request_id decision reviewer note : String)
      → Steady (review_join_request env request_id decision reviewer note)
  unfolding review_join_request
  Steady-review_join_request request_id decision reviewer note =
      search (service_rules, Steady-decide) depth 10

pub Steady-revoke_invite : (code : String) → Steady (revoke_invite code)
unfolding revoke_invite
Steady-revoke_invite code = search service_rules depth 8
