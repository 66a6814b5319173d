-- ===== src/Service/Tokens.antt =====
-- internal/service/auth_service.go and internal/pkg/jwtutil/jwtutil.go: issuing, rotating and revoking
-- tokens. The counters of internal/pkg/observability, which nothing reads, are not modelled.
pub mod Rotation
pub mod Single
use Prim.Native.String.{◌++◌}
use unified_account_center.Prelude.{
  ℕ, ◌+◌, ◌-◌, String, Bool, true, false, not, ◌&&◌, ◌||◌, ◌==◌, Option, none, some, List,
  if◌then◌else◌, is_empty, is_some, ltb, nat_eq,
}
use unified_account_center.Text.{trim_space}
use unified_account_center.Errors.{bad_request, invalid_cred, forbidden_app, internal, Result}
use unified_account_center.World.{World, Env, Claims, IdTokenClaims, TokenDto}
use unified_account_center.Model
use unified_account_center.Model.Account.{User}
use unified_account_center.Model.Session.{App, RefreshToken}
use unified_account_center.Exec.{
  M, pure, raise, gets, guard, require, when, ignore, draw, or_nil, or_default, ◌>>=◌, ◌>>◌,
}
use unified_account_center.Repo.Accounts
use unified_account_center.Repo.Tokens
use unified_account_center.Repo.Redis
use unified_account_center.Auth.Otp.{or_else}
use unified_account_center.Service.Apps.{RequestMeta, ClientInfo, require_app, audit}
use unified_account_center.Service.Roles.{roles_for_user}
use unified_account_center.Service.Passwords.{password_expired}

module _ (env : Env) where
  -- `IssueAccess`: the signed token and its id.
  unfoldable pub issue_access :
      User → App → ℕ → List String → List String → Bool → ℕ → M (String × String)
  issue_access user app ttl roles scope must uv = do
    n ← draw
    now ← gets (λ w. w.now)
    signed ←
        require
          (env.sign_access (record {
            user_id = user.user_id;
            client_id = app.client_id;
            tenant_id = app.tenant_id;
            roles = roles;
            scope = scope;
            must_change_password = must;
            user_version = uv;
            expires_at = now + ttl;
            jti = env.random_id "at" n;
          }))
          internal
    pure (signed, env.random_id "at" n)

  -- `IssueIDToken`.
  unfoldable pub issue_id_token : User → App → ℕ → M String
  issue_id_token user app ttl = do
    n ← draw
    now ← gets (λ w. w.now)
    require
        (env.sign_id_token (record {
          user_id = user.user_id;
          tenant_id = app.tenant_id;
          client_id = app.client_id;
          auth_time = now;
          expires_at = now + ttl;
          jti = env.random_id "id" n;
        }))
        internal

  -- The device of the request, or a new one.
  unfoldable pub device_or_new : String → M String
  device_or_new device_id =
      if is_empty device_id then (do n ← draw; pure (env.random_id "dev" n)) else pure device_id

  refresh_row : User → App → ClientInfo → RequestMeta → String → String → String → ℕ → RefreshToken
  refresh_row user app client meta plain jti device expire_at = record {
    jti = jti;
    token_hash = env.sha256_hex plain;
    user_id = user.user_id;
    client_id = app.client_id;
    device_id = device;
    fingerprint = client.fingerprint;
    ip = meta.ip;
    ua = meta.ua;
    expire_at = expire_at;
    revoked_at = none;
    replaced_by_jti = "";
  }

  -- `issueTokens`: the tokens, and the request's data with the id of the access token in it.
  unfoldable pub issue_tokens : App → User → ClientInfo → RequestMeta → M (TokenDto × RequestMeta)
  unfolding refresh_row
  issue_tokens app user client meta = do
    let access_ttl = or_else app.access_ttl env.cfg.jwt_access_ttl
    let refresh_ttl = or_else app.refresh_ttl env.cfg.jwt_refresh_ttl
    (roles, scope) ← roles_for_user user.user_id app.tenant_id
    expired ← password_expired env user.user_id app.password_max_age_days
    uv ← or_default 0 (Redis.get_user_version user.user_id)
    (access, access_jti) ← issue_access user app access_ttl roles scope expired uv
    id_token ← issue_id_token user app access_ttl
    n ← draw
    m ← draw
    let plain = env.random_id "rt" n ++ env.random_hex 16 m
    k ← draw
    let jti = env.random_id "rj" k
    device ← device_or_new client.device_id
    now ← gets (λ w. w.now)
    Tokens.create (refresh_row user app client meta plain jti device (now + refresh_ttl))
    pure (
      record {
        access_token = access;
        token_type = "Bearer";
        expire_in = access_ttl;
        refresh_token = plain;
        refresh_expire_in = refresh_ttl;
        id_token = id_token;
        device_id = device;
        refresh_jti = jti;
        password_expired = expired;
        must_change_password = expired;
      },
      record meta { jti = access_jti; device_id = device },
    )

  -- A token that was revoked before is presented again: every token of the user at the application is
  -- revoked.
  unfoldable pub reject_reuse : RefreshToken → ℕ → M (Unit {0})
  reject_reuse rt now =
      when (is_some rt.revoked_at)
        (do ignore (Tokens.revoke_all_by_user rt.user_id rt.client_id now); raise invalid_cred)

  -- `Refresh` on a row that is not revoked, down to `ConsumeActive`: the owner, for whom the row is now
  -- revoked.
  unfoldable pub consume_row : RefreshToken → ℕ → M User
  consume_row rt now = do
    guard (not (ltb rt.expire_at now)) invalid_cred
    owner ← or_nil (Accounts.find_user rt.user_id)
    user ← require owner invalid_cred
    guard (user.status == Model.Status.active) forbidden_app
    consumed ← Tokens.consume_active rt.jti "" now
    guard consumed invalid_cred
    pure user

  -- `Refresh` down to `ConsumeActive`: the row of the token, and its owner.
  unfoldable pub spend_refresh : App → String → M (RefreshToken × User)
  spend_refresh app token = do
    found ← Tokens.find_by_hash (env.sha256_hex token)
    rt ← require found invalid_cred
    guard (rt.client_id == app.client_id) invalid_cred
    now ← gets (λ w. w.now)
    reject_reuse rt now
    user ← consume_row rt now
    pure (rt, user)

  -- The rest of `Refresh`: new tokens for the device of the old one.
  unfoldable pub reissue : App → RefreshToken → User → RequestMeta → M TokenDto
  reissue app rt user meta = do
    (tokens, meta') ←
        issue_tokens app user (record { device_id = rt.device_id; fingerprint = "" }) meta
    audit app user.user_id "token_refresh" true "" meta'
    pure tokens

  -- `Refresh`: the old token is consumed before the new one is issued.
  unfoldable pub refresh : RequestMeta → String → M TokenDto
  refresh meta token = do
    app ← require_app meta.client_id
    guard (not (is_empty token)) bad_request
    (rt, user) ← spend_refresh app token
    reissue app rt user meta

  unfoldable pub revoke_found : Option RefreshToken → ℕ → M (Unit {0})
  revoke_found none now = pure tt
  revoke_found (some rt) now = ignore (Tokens.revoke rt.jti now)

  -- Revoke the refresh token with this text, if there is one; errors are dropped.
  unfoldable pub revoke_refresh : String → M (Unit {0})
  unfolding revoke_found
  revoke_refresh token = do
    found ← or_default (some Tokens.no_token) (Tokens.find_by_hash (env.sha256_hex token))
    now ← gets (λ w. w.now)
    revoke_found found now

  -- `Logout`.
  unfoldable pub logout : RequestMeta → String → String → String → Bool → ℕ → M (Unit {0})
  logout meta user_id access_jti token all_devices access_ttl = do
    app ← require_app meta.client_id
    now ← gets (λ w. w.now)
    if all_devices
        then ignore (Tokens.revoke_all_by_user user_id app.client_id now)
        else when (not (is_empty token)) (revoke_refresh token)
    when (not (is_empty access_jti)) (ignore (Redis.blacklist_access access_jti access_ttl))
    audit app user_id "logout" true "" meta

  -- `RevokeToken`: an access token goes to the black list while it lives, and anything else is tried as
  -- a refresh token.
  abbrev parsed : String → String → ℕ → Option Claims
  parsed token hint now = if hint == "refresh_token" then none else env.parse_access token now

  unfoldable pub revoke_parsed : String → ℕ → Option Claims → M (Unit {0})
  revoke_parsed token now none = revoke_refresh token
  revoke_parsed token now (some c) =
      when (ltb now c.expires_at) (ignore (Redis.blacklist_access c.jti (c.expires_at - now)))

  unfoldable pub revoke_token : String → String → M (Unit {0})
  unfolding revoke_parsed
  revoke_token token hint = when (not (is_empty (trim_space token))) (do
    now ← gets (λ w. w.now)
    revoke_parsed (trim_space token) now (parsed (trim_space token) hint now))

  -- `Introspect`: whether the token is active, and its claims if so.
  unfoldable pub standing : Option Claims → M (Option Claims)
  standing none = pure none
  standing (some c) = do
    listed ← Redis.is_access_blacklisted c.jti
    user_listed ← or_default false (Redis.is_user_access_blacklisted c.user_id)
    uv ← or_default 0 (Redis.get_user_version c.user_id)
    pure (if listed || user_listed || ltb 0 uv && ltb c.user_version uv then none else some c)

  unfoldable pub introspect : String → M (Option Claims)
  introspect token = do now ← gets (λ w. w.now); standing (env.parse_access token now)
