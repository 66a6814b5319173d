-- ===== src/Service/AdminSession.antt =====
-- internal/service/admin_session.go: the login to the administration, by its token or by a password.
pub mod Admitted
pub mod Steadiness
use unified_account_center.Prelude.{
  ℕ, ◌+◌, ◌*◌, String, Bool, true, false, not, ◌&&◌, ◌||◌, ◌==◌, Option, none, some, List, [], ◌∷◌,
  if◌then◌else◌, is_empty, nat_eq,
}
use unified_account_center.Text.{trim_space}
use unified_account_center.Errors.{bad_request, unauthorized, forbidden_app, internal}
use unified_account_center.World.{Env}
use unified_account_center.Model
use unified_account_center.Model.Account.{User}
use unified_account_center.Identity.{normalize_phone, normalize_email}
use unified_account_center.Exec.{
  M, pure, raise, gets, guard, require, draw, or_nil, or_default, ◌>>=◌, ◌>>◌,
}
use unified_account_center.Repo.Accounts
use unified_account_center.Service.Roles.{roles_of, has_admin_capability}

-- `AdminLoginRequest`.
pub record AdminLoginRequest : Type 0 where
  pub mode : String
  pub token : String
  pub identity : String
  pub password : String
  pub method : String
  pub tenant_id : String

-- `AdminSession`.
pub record AdminSession : Type 0 where
  pub auth_type : String
  pub token : String
  pub role : String
  pub roles : List String
  pub user_id : String
  pub tenant_id : String
  pub display_name : String
  pub expires_in : ℕ

-- `loginByToken`, with the token that is configured.
unfoldable pub login_by_token : String → String → M AdminSession
login_by_token configured token = do
  let got = trim_space token
  guard (not (is_empty got || is_empty configured) && got == configured) unauthorized
  pure (record {
    auth_type = "token";
    token = got;
    role = Model.Role.platform_admin;
    roles = Model.Role.platform_admin ∷ [];
    user_id = "";
    tenant_id = "";
    display_name = "";
    expires_in = 0;
  })

-- `rolesForAdminUser`.
unfoldable pub roles_for_admin_user : String → String → M (List String × List String)
roles_for_admin_user user_id tenant_id = do
  list ← or_default [] (Accounts.list_roles user_id)
  pure (roles_of tenant_id list)

-- The role that the session shows: platform_admin, or else tenant_admin, or else the first one.
unfoldable pub primary_from : String → List String → String
primary_from primary [] = primary
primary_from primary (r ∷ rs) =
    if r == Model.Role.platform_admin
    then r
    else primary_from (if r == Model.Role.tenant_admin then r else primary) rs

unfoldable pub primary_of : List String → String
unfolding primary_from
primary_of [] = ""
primary_of (r ∷ rs) = primary_from r (r ∷ rs)

abbrev or_false : Option Bool → Bool
or_false none = false
or_false (some b) = b

abbrev or_text : String → String → String
or_text s t = if is_empty s then t else s

module _ (env : Env) where
  -- The type and the canonical form of the identity.
  unfoldable pub admin_identity : String → String → M (String × String)
  admin_identity method raw =
      if method == Model.Method.phone_password
      then (do norm ← require (normalize_phone raw) bad_request; pure (Model.IdType.phone, norm))
      else if method == Model.Method.email_password
      then (do
        norm ← require (normalize_email env.to_lower raw) bad_request
        pure (Model.IdType.email, norm))
      else raise bad_request

  -- The user behind the identity, where the password is right.
  unfoldable pub checked_user : String → String → String → String → M User
  checked_user tid id_type identifier password = do
    found ← or_nil (Accounts.find_identity tid id_type "" identifier)
    ident ← require found unauthorized
    found_user ← or_nil (Accounts.find_user ident.user_id)
    user ← require found_user unauthorized
    guard (not (user.status == Model.Status.disabled)) forbidden_app
    found_cred ← or_nil (Accounts.find_credential user.user_id)
    cred ← require found_cred unauthorized
    guard (not (is_empty cred.password_hash)) unauthorized
    guard (or_false (env.verify_password cred.password_hash password)) unauthorized
    pure user

  abbrev admin_ttl : ℕ
  admin_ttl = if nat_eq env.cfg.jwt_access_ttl 0 then 2 * 3600 else env.cfg.jwt_access_ttl

  -- The session of a user whose roles may read.
  unfoldable pub open_session : User → M AdminSession
  unfolding primary_of
  open_session user = do
    (roles, scope) ← roles_for_admin_user user.user_id user.tenant_id
    guard (has_admin_capability roles "read") forbidden_app
    n ← draw
    now ← gets (λ w. w.now)
    signed ←
        require
          (env.sign_access (record {
            user_id = user.user_id;
            client_id = "admin_console";
            tenant_id = user.tenant_id;
            roles = roles;
            scope = scope;
            must_change_password = false;
            user_version = 0;
            expires_at = now + admin_ttl;
            jti = env.random_id "at" n;
          }))
          internal
    pure (record {
      auth_type = "bearer";
      token = signed;
      role = primary_of roles;
      roles = roles;
      user_id = user.user_id;
      tenant_id = user.tenant_id;
      display_name = user.display_name;
      expires_in = admin_ttl;
    })

  -- `loginByPassword`, where the signing of tokens is set up.
  unfoldable pub login_by_password : AdminLoginRequest → M AdminSession
  unfolding admin_identity checked_user open_session
  login_by_password req = do
    let method = or_text (trim_space req.method) Model.Method.phone_password
    let raw = trim_space req.identity
    guard (not (is_empty raw || is_empty req.password)) bad_request
    let tid = or_text (trim_space req.tenant_id) "default"
    (id_type, identifier) ← admin_identity method raw
    user ← checked_user tid id_type identifier req.password
    open_session user

  -- `AdminLogin`.
  unfoldable pub admin_login : String → AdminLoginRequest → M AdminSession
  unfolding login_by_password
  admin_login configured req =
      let inferred = if is_empty (trim_space req.token) then "password" else "token" in
      let mode = or_text (trim_space req.mode) inferred in
      if mode == "token"
      then login_by_token configured req.token
      else if mode == "password"
      then login_by_password req
      else raise bad_request
