-- ===== src/Service/Hosted.antt =====
-- internal/service/hosted.go: the authorization code that a hosted login hands to the application, and
-- the sessions of a user.
pub mod Code
pub mod Steadiness
use Prim.Native.String.{◌++◌}
use unified_account_center.Prelude.{
  ℕ, ◌*◌, String, Bool, true, false, not, ◌&&◌, ◌||◌, ◌==◌, Option, none, some, List, map,
  if◌then◌else◌, is_empty,
}
use unified_account_center.Errors.{bad_request, invalid_cred, not_found}
use unified_account_center.World.{World, Env, TokenDto, HostedCodePayload}
use unified_account_center.Model.Session.{App, RefreshToken}
use unified_account_center.Exec.{
  M, pure, gets, guard, require, ignore, draw, or_nil, or_default, ◌>>=◌, ◌>>◌,
}
use unified_account_center.Repo.Tokens
use unified_account_center.Repo.Redis
use unified_account_center.Service.Apps.{RequestMeta, require_app, redirect_allowed, audit}
use unified_account_center.Service.OauthFlow.{verify_s256}

-- `IssueHostedCodeDTO`.
pub record IssueHostedCodeDto : Type 0 where
  pub redirect_uri : String
  pub state : String
  pub code_challenge : String

-- `IssueHostedCodeResult`.
pub record IssueHostedCodeResult : Type 0 where
  pub code : String
  pub redirect_uri : String
  pub state : String

-- `hostedCodeTTL`.
abbrev code_ttl : ℕ
code_ttl = 5 * 60

abbrev pub code_key : String → String
code_key code = "uac:hosted:code:" ++ code

-- `ExchangeTokenDTO`.
pub record ExchangeTokenDto : Type 0 where
  pub grant_type : String
  pub code : String
  pub redirect_uri : String
  pub code_verifier : String

-- `ExchangeTokenResult`.
pub record ExchangeTokenResult : Type 0 where
  pub token : TokenDto
  pub user_id : String
  pub device_id : String

-- `SessionView`, with the instant at which the session ends.
pub record SessionView : Type 0 where
  pub jti : String
  pub client_id : String
  pub device_id : String
  pub ip : String
  pub ua : String
  pub expire_at : ℕ
  pub current : Bool

module _ (env : Env) (meta : RequestMeta) where
  -- `IssueHostedCode`.
  unfoldable pub issue_hosted_code :
      String → TokenDto → String → IssueHostedCodeDto → M IssueHostedCodeResult
  issue_hosted_code user_id token device_id dto = do
    app ← require_app meta.client_id
    guard (redirect_allowed app.redirect_uris dto.redirect_uri) bad_request
    guard (not (app.require_pkce && is_empty dto.code_challenge)) bad_request
    n ← draw
    m ← draw
    let code = env.random_id "ac" n ++ env.random_hex 12 m
    Redis.set_hosted_code (code_key code)
        (record {
          client_id = app.client_id;
          user_id = user_id;
          redirect_uri = dto.redirect_uri;
          state = dto.state;
          code_challenge = dto.code_challenge;
          token = token;
          device_id = device_id;
        })
        code_ttl
    audit app user_id "hosted_code_issued" true dto.redirect_uri meta
    pure (record { code = code; redirect_uri = dto.redirect_uri; state = dto.state })

  unfoldable pub pkce_ok : App → HostedCodePayload → String → Bool
  pkce_ok app payload verifier =
      if is_empty payload.code_challenge
      then not app.require_pkce
      else verify_s256 env verifier payload.code_challenge

  -- The tests of `ExchangeToken` on the payload, in their order; each fails alike.
  unfoldable pub redeemable : App → HostedCodePayload → ExchangeTokenDto → Bool
  unfolding pkce_ok
  redeemable app payload dto =
      payload.client_id == app.client_id
      && payload.redirect_uri == dto.redirect_uri
      && pkce_ok app payload dto.code_verifier

  -- `ExchangeToken`: the code is read, and deleted by a command of its own once it is found good.
  unfoldable pub exchange_token : ExchangeTokenDto → M ExchangeTokenResult
  unfolding redeemable
  exchange_token dto = do
    guard (dto.grant_type == "authorization_code") bad_request
    app ← require_app meta.client_id
    guard (not (is_empty dto.code || is_empty dto.redirect_uri)) bad_request
    found ← Redis.get_hosted_code (code_key dto.code)
    payload ← require found invalid_cred
    guard (redeemable app payload dto) invalid_cred
    ignore (Redis.del_hosted_code (code_key dto.code))
    audit app payload.user_id "hosted_code_exchanged" true "" meta
    pure (record {
      token = record payload.token { device_id = payload.device_id };
      user_id = payload.user_id;
      device_id = payload.device_id;
    })

  -- `ResolveRefreshJTI`.
  abbrev jti_of : Option RefreshToken → String
  jti_of none = ""
  jti_of (some rt) = rt.jti

  unfoldable pub resolve_refresh_jti : String → M String
  resolve_refresh_jti token = if is_empty token then pure "" else (do
    rt ← or_default (some Tokens.no_token) (Tokens.find_by_hash (env.sha256_hex token))
    pure (jti_of rt))

module _ (meta : RequestMeta) where
  abbrev session_view : String → RefreshToken → SessionView
  session_view current rt = record {
    jti = rt.jti;
    client_id = rt.client_id;
    device_id = rt.device_id;
    ip = rt.ip;
    ua = rt.ua;
    expire_at = rt.expire_at;
    current = not (is_empty current) && rt.jti == current;
  }

  -- `ListSessions`.
  unfoldable pub list_sessions : String → String → M (List SessionView)
  list_sessions user_id current = do
    app ← require_app meta.client_id
    list ← Tokens.list_active_by_user user_id app.client_id
    pure (map (session_view current) list)

  abbrev own_session : String → App → Option RefreshToken → Option RefreshToken
  own_session user_id app none = none
  own_session user_id app (some rt) =
      if rt.user_id == user_id && rt.client_id == app.client_id then some rt else none

  -- `RevokeSession`.
  unfoldable pub revoke_session : String → String → M (Unit {0})
  revoke_session user_id jti = do
    app ← require_app meta.client_id
    found ← Tokens.find_by_jti jti
    _ ← require (own_session user_id app found) not_found
    now ← gets (λ w. w.now)
    Tokens.revoke jti now
    audit app user_id "session_revoke" true jti meta

  -- `RevokeOtherSessions`.
  unfoldable pub revoke_other_sessions : String → String → M (Unit {0})
  revoke_other_sessions user_id keep_jti = do
    app ← require_app meta.client_id
    guard (not (is_empty keep_jti)) bad_request
    now ← gets (λ w. w.now)
    Tokens.revoke_others user_id app.client_id keep_jti now
    audit app user_id "session_revoke_others" true keep_jti meta
