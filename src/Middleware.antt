-- ===== src/Middleware.antt =====
-- internal/middleware/middleware.go: what stands before the handlers. A handler function is modelled by
-- what it puts into the context of the request, or the error that it answers with.
pub mod Passed
use unified_account_center.Prelude.{
  ℕ, String, Bool, true, false, not, ◌&&◌, ◌||◌, ◌==◌, Option, none, some, List, [], ◌∷◌,
  if◌then◌else◌, is_empty, ltb,
}
use Prim.Native.String.{◌++◌}
use unified_account_center.Text.{trim_space, has_prefix, trim_prefix, split_char}
use unified_account_center.Errors.{unauthorized, forbidden_app, password_change_required}
use unified_account_center.World.{Env, Claims}
use unified_account_center.Model
use unified_account_center.Exec.{M, pure, raise, gets, guard, require, or_default, ◌>>=◌, ◌>>◌}
use unified_account_center.Repo.Redis
use unified_account_center.Service.Apps.{RequestMeta, list_methods, verify_client_secret}
use unified_account_center.Service.Roles.{has_admin_capability, is_platform_admin}

-- The headers of a request and its route, which is `c.FullPath()`, or the path of the URL where gin
-- knows no route.
pub record Request : Type 0 where
  pub authorization : String
  pub admin_token : String
  pub client_id : String
  pub client_secret : String
  pub path : String

-- `RequestID`: the one of the request, or a new one.
unfoldable pub request_id : Env → String → ℕ → String
request_id env given n = if is_empty given then env.random_id "req" n else given

abbrev pub bearer : String → String
bearer header = trim_space (trim_prefix header "Bearer ")

-- `passwordChangeAllowed`.
unfoldable pub password_change_allowed : String → Bool
password_change_allowed path =
    path == "/api/v1/auth/password/set"
    || path == "/api/v1/auth/step-up"
    || path == "/api/v1/auth/me"
    || path == "/api/v1/auth/logout"
    || path == "/api/v1/auth/userinfo"
    || path == "/api/v1/auth/notifications"
    || path == "/api/v1/auth/notifications/:id/read"
    || path == "/api/v1/auth/preferences"
    || has_prefix path "/api/v1/auth/notifications"

module _ (env : Env) where
  -- `RequireClientSecret`.
  unfoldable pub require_client_secret : Request → M (Unit {0})
  require_client_secret req = do
    _ ← verify_client_secret env req.client_id req.client_secret
    pure tt

  -- `ClientAuth`.
  unfoldable pub client_auth : RequestMeta → Request → M (Unit {0})
  unfolding require_client_secret
  client_auth meta req = do
    guard (not (is_empty req.client_id)) forbidden_app
    (if is_empty req.client_secret
        then (do _ ← list_methods (record meta { client_id = req.client_id }); pure tt)
        else require_client_secret req)

  -- The tests of `UserAuth` on the claims of a token that parses. A read of the token's own entry that
  -- fails counts as listed, a read of the user's entry or version as nothing there.
  unfoldable pub claims_good : Request → Claims → M Claims
  claims_good req c = do
    listed ← or_default true (Redis.is_access_blacklisted c.jti)
    guard (not listed) unauthorized
    user_listed ← or_default false (Redis.is_user_access_blacklisted c.user_id)
    guard (not user_listed) unauthorized
    uv ← or_default 0 (Redis.get_user_version c.user_id)
    guard (not (ltb 0 uv && ltb c.user_version uv)) unauthorized
    guard (is_empty req.client_id || c.client_id == req.client_id) forbidden_app
    guard (not c.must_change_password || password_change_allowed req.path) password_change_required
    pure c

  -- `UserAuth`: the claims that go into the context.
  unfoldable pub user_auth : Request → M Claims
  unfolding claims_good
  user_auth req = do
    guard (has_prefix req.authorization "Bearer ") unauthorized
    now ← gets (λ w. w.now)
    c ← require (env.parse_access (bearer req.authorization) now) unauthorized
    claims_good req c

-- What `AdminAuth` puts into the context: CtxAdminRole, CtxAdminTenant and CtxTenantID.
pub record AdminContext : Type 0 where
  pub role : String
  pub admin_tenant : String
  pub tenant_id : String

-- strings.Join(roles, ",").
unfoldable pub join_roles : List String → String
join_roles [] = ""
join_roles (r ∷ []) = r
join_roles (r ∷ s ∷ rs) = r ++ "," ++ join_roles (s ∷ rs)

abbrev pub claims_context : Claims → AdminContext
claims_context c = record {
  role = join_roles c.roles;
  admin_tenant = c.tenant_id;
  tenant_id = c.tenant_id;
}

unfoldable pub admin_claims : Option Claims → M AdminContext
unfolding join_roles
admin_claims none = raise unauthorized
admin_claims (some c) = do
  listed ← or_default false (Redis.is_access_blacklisted c.jti)
  guard (not listed) unauthorized
  guard (has_admin_capability c.roles "read") unauthorized
  pure (claims_context c)

-- `AdminAuth`, where the signing of tokens and Redis are set up.
unfoldable pub admin_auth : Env → String → Request → M AdminContext
unfolding admin_claims
admin_auth env token req =
    if not (is_empty token) && not (is_empty req.admin_token) && req.admin_token == token
    then pure (record { role = Model.Role.platform_admin; admin_tenant = ""; tenant_id = "" })
    else (do
      now ← gets (λ w. w.now)
      admin_claims (
          if has_prefix req.authorization "Bearer "
          then env.parse_access (bearer req.authorization) now
          else none))

-- `ParseAdminRoles` of internal/service/rbac.go.
unfoldable pub non_blank : List String → List String
non_blank [] = []
non_blank (p ∷ ps) =
    let rest = non_blank ps in if is_empty (trim_space p) then rest else trim_space p ∷ rest

unfoldable pub parse_admin_roles : String → List String
unfolding non_blank
parse_admin_roles raw = non_blank (split_char 44 raw)

-- `AdminRequire`.
unfoldable pub admin_require : String → AdminContext → M (Unit {0})
admin_require need ctx =
    guard (has_admin_capability (parse_admin_roles ctx.role) need) forbidden_app

abbrev or_other : String → String → String
or_other s t = if is_empty s then t else s

-- `AdminTenantFilter`: the tenant that a query is limited to, and whether the caller is of the platform.
unfoldable pub admin_tenant_filter : AdminContext → String → String × Bool
admin_tenant_filter ctx requested =
    if is_platform_admin (parse_admin_roles ctx.role)
    then (trim_space requested, true)
    else (or_other (or_other (trim_space ctx.admin_tenant) ctx.tenant_id) "default", false)
