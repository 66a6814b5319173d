-- ===== src/Service/Apps.antt =====
-- internal/service/auth_service.go and oauth_service.go: the application behind a request, its white
-- lists, and the audit log.
pub mod Known
use unified_account_center.Prelude.{
  ℕ, String, Bool, false, not, ◌&&◌, ◌||◌, ◌==◌, List, [], ◌∷◌, is_empty,
}
use unified_account_center.Text.{trim_space}
use unified_account_center.Errors.{forbidden_app}
use unified_account_center.World.{Env}
use unified_account_center.Model
use unified_account_center.Model.Session.{App, AuditLog}
use unified_account_center.Exec.{M, pure, gets, guard, require, ignore, ◌>>=◌, ◌>>◌}
use unified_account_center.Repo.Tokens
use unified_account_center.Repo.Tenancy

-- `RequestMeta`.
pub record RequestMeta : Type 0 where
  pub client_id : String
  pub ip : String
  pub ua : String
  pub request_id : String
  pub jti : String
  pub device_id : String

-- `ClientInfo`, without the platform, which nothing reads.
pub record ClientInfo : Type 0 where
  pub device_id : String
  pub fingerprint : String

-- `contains`, and `methodAllowed` over the allowed methods.
unfoldable pub contains : List String → String → Bool
contains [] v = false
contains (x ∷ xs) v = x == v || contains xs v

unfoldable pub method_allowed : App → String → Bool
unfolding contains
method_allowed app method = contains app.allowed_methods method

-- `redirectAllowed`: an exact match with the white list.
unfoldable pub redirect_allowed : List String → String → Bool
unfolding contains
redirect_allowed list uri = not (is_empty uri) && contains list uri

-- `requireApp`.
unfoldable pub require_app : String → M App
require_app client_id = do
  guard (not (is_empty client_id)) forbidden_app
  found ← Tenancy.find_app client_id
  app ← require found forbidden_app
  guard (app.status == Model.Status.active) forbidden_app
  pure app

audit_log : App → String → String → Bool → String → RequestMeta → ℕ → AuditLog
audit_log app user_id action success detail meta now = record {
  tenant_id = app.tenant_id;
  client_id = app.client_id;
  user_id = user_id;
  action = action;
  success = success;
  detail = trim_space detail;
  ip = meta.ip;
  ua = meta.ua;
  request_id = meta.request_id;
  jti = meta.jti;
  device_id = meta.device_id;
  created_at = now;
}

-- `audit`: the error is dropped.
unfoldable pub audit : App → String → String → Bool → String → RequestMeta → M (Unit {0})
unfolding audit_log
audit app user_id action success detail meta = do
  now ← gets (λ w. w.now)
  ignore (Tokens.create_audit (audit_log app user_id action success detail meta now))

-- `ListMethods`.
unfoldable pub list_methods : RequestMeta → M (List String)
list_methods meta = do app ← require_app meta.client_id; pure app.allowed_methods

-- `VerifyClientSecret`.
unfoldable pub verify_client_secret : Env → String → String → M App
verify_client_secret env client_id secret = do
  app ← require_app client_id
  guard (not (is_empty secret) && env.verify_secret app.client_secret_hash secret) forbidden_app
  pure app
