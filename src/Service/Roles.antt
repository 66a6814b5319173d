-- ===== src/Service/Roles.antt =====
-- internal/service/rbac.go: roles, their scopes, and the test of a role set. A set of scopes is a list
-- without repetition; the code joins it with blanks in the order of a Go map, which is arbitrary.
pub mod Capability
use unified_account_center.Prelude.{
  String, Bool, true, false, not, ◌&&◌, ◌||◌, ◌==◌, Option, none, some, List, [], ◌∷◌, ◌++◌, map,
  if◌then◌else◌, is_empty, is_nil,
}
use unified_account_center.Prelude.Rows.{filter_by}
use unified_account_center.Text.{trim_space}
use unified_account_center.Errors.{bad_request, not_found, Result, ok, err}
use unified_account_center.Model
use unified_account_center.Model.Account.{User, RoleBinding}
use unified_account_center.Exec.{M, pure, guard, require, or_nil, or_default, ◌>>=◌, ◌>>◌}
use unified_account_center.Repo.Accounts
use unified_account_center.Service.Apps.{contains}

abbrev scopes_of : String → List String
scopes_of r =
    if r == Model.Role.platform_admin
    then "admin:*" ∷ "read:*" ∷ "write:*" ∷ []
    else if r == Model.Role.tenant_admin
    then "admin:tenant" ∷ "read:tenant" ∷ "write:tenant" ∷ []
    else if r == Model.Role.operator
    then "read:tenant" ∷ "write:users" ∷ []
    else if r == Model.Role.viewer
    then "read:tenant" ∷ []
    else "user" ∷ []

unfoldable pub add_new : List String → List String → List String
unfolding contains
add_new [] set = set
add_new (x ∷ xs) set = add_new xs (if contains set x then set else set ++ x ∷ [])

-- `roleScopes`.
unfoldable pub role_scopes_from : List String → List String → List String
unfolding add_new
role_scopes_from [] set = set
role_scopes_from (r ∷ rs) set = role_scopes_from rs (add_new (scopes_of r) set)

unfoldable pub role_scopes : List String → List String
unfolding role_scopes_from
role_scopes roles = role_scopes_from roles []

unfoldable pub applies : String → RoleBinding → Bool
applies tenant_id b =
    is_empty b.tenant_id || b.tenant_id == tenant_id || b.role == Model.Role.platform_admin

abbrev or_user : List String → List String
or_user roles = if is_nil roles then Model.Role.user ∷ [] else roles

abbrev role_of : RoleBinding → String
role_of b = b.role

-- `rolesForUser`: the roles, and their scopes.
unfoldable pub roles_of : String → List RoleBinding → List String × List String
unfolding role_scopes
roles_of tenant_id list =
    if is_nil list
    then (Model.Role.user ∷ [], "user" ∷ [])
    else let roles = or_user (map role_of (filter_by (applies tenant_id) list)) in
      (roles, role_scopes roles)

unfoldable pub roles_for_user : String → String → M (List String × List String)
roles_for_user user_id tenant_id = do
  list ← or_default [] (Accounts.list_roles user_id)
  pure (roles_of tenant_id list)

unfoldable pub known_role : String → Bool
known_role r =
    r == Model.Role.platform_admin
    || r == Model.Role.tenant_admin
    || r == Model.Role.operator
    || r == Model.Role.viewer
    || r == Model.Role.user

abbrev binding_tenant : String → String → User → String
binding_tenant role tenant_id user =
    if role == Model.Role.platform_admin
    then ""
    else if is_empty tenant_id
    then user.tenant_id
    else tenant_id

-- `AssignRole`.
unfoldable pub assign_role : String → String → String → M (Unit {0})
assign_role user_id tenant_id role = do
  let r = trim_space role
  guard (known_role r) bad_request
  found ← or_nil (Accounts.find_user user_id)
  user ← require found not_found
  Accounts.upsert_role (record {
    user_id = user_id;
    tenant_id = binding_tenant r (trim_space tenant_id) user;
    role = r;
  })

abbrev pub grants : String → String → Bool
grants need r =
    if need == "read"
    then r == Model.Role.tenant_admin || r == Model.Role.operator || r == Model.Role.viewer
    else if need == "write"
    then r == Model.Role.tenant_admin || r == Model.Role.operator
    else if need == "admin"
    then r == Model.Role.tenant_admin
    else false

-- `HasAdminCapability`.
unfoldable pub has_admin_capability : List String → String → Bool
has_admin_capability [] need = false
has_admin_capability (r ∷ rs) need =
    trim_space r == Model.Role.platform_admin
    || grants need (trim_space r)
    || has_admin_capability rs need

-- `IsPlatformAdmin`.
unfoldable pub is_platform_admin : List String → Bool
is_platform_admin [] = false
is_platform_admin (r ∷ rs) = trim_space r == Model.Role.platform_admin || is_platform_admin rs
