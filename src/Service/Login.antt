-- ===== src/Service/Login.antt =====
-- internal/service/auth_service.go: `Challenge`, `Login` and `ResetPasswordStart`. The counters of
-- internal/pkg/observability, the events of the webhook bus and the notice of a new device change none
-- of the modelled state.
pub mod Steadiness
pub mod Aside
pub mod Factor
pub mod Pending
use unified_account_center.Prelude.{
  String, Bool, true, false, not, ◌&&◌, ◌==◌, List, [], ◌∷◌, if◌then◌else◌, is_empty, nat_eq,
}
use Prim.Native.String.{◌++◌}
use unified_account_center.Errors.{
  bad_request, invalid_cred, forbidden_app, mfa_required, mfa_session, rate_limited, code_number,
  AppError,
}
use unified_account_center.World.{Env, OauthStatePayload}
use unified_account_center.Model
use unified_account_center.Model.Account.{User}
use unified_account_center.Model.Session.{App}
use unified_account_center.Exec.{
  M, pure, raise_error, guard, when, ignore, or_default, on_error, on_error_of, gets, ◌>>=◌, ◌>>◌,
}
use unified_account_center.Repo.Tenancy
use unified_account_center.Repo.Tokens
use unified_account_center.Auth.Principal.{
  Form, field, IdentityPrincipal, ChallengeRequest, ChallengeResult, VerifyRequest,
}
use unified_account_center.Auth.Registry
use unified_account_center.Service.Apps.{
  RequestMeta, ClientInfo, require_app, method_allowed, redirect_allowed, audit,
}
use unified_account_center.Service.Risk.{
  assert_not_locked, note_login_failure, clear_login_failures, is_new_device, remember_device,
}
use unified_account_center.Service.Roles.{roles_for_user}
use unified_account_center.Service.Mfa.{user_has_mfa, create_mfa_pending}
use unified_account_center.Service.Tokens.{issue_tokens}
use unified_account_center.Service.Users.{identity_views, resolve_user, validate_invite}
use unified_account_center.Service.Completion.{LoginResult}
use unified_account_center.Service.Tenants.{
  is_otp, assert_local_login_allowed, assert_tenant_otp_quota,
}
use unified_account_center.Service.OauthFlow.{provider_allowed, verify_s256, consume_state}

-- `ChallengeDTO`.
pub record ChallengeDto : Type 0 where
  pub method : String
  pub identity : String
  pub scene : String
  pub captcha_token : String

-- `LoginDTO`, without the options, which are empty.
pub record LoginDto : Type 0 where
  pub method : String
  pub identity : String
  pub provider : String
  pub credential : Form
  pub client : ClientInfo
  pub invite_code : String

-- The provider that the request names, or its credential.
abbrev pub provider_of : LoginDto → String
provider_of dto = if is_empty dto.provider then field "provider" dto.credential else dto.provider

abbrev scene_or_login : String → String
scene_or_login scene = if is_empty scene then Model.Scene.login else scene

abbrev pub verify_request : RequestMeta → App → LoginDto → String → String → VerifyRequest
verify_request meta app dto provider scene = record {
  client_id = meta.client_id;
  tenant_id = app.tenant_id;
  method = dto.method;
  identity = dto.identity;
  provider = provider;
  credential = dto.credential;
  scene = scene;
  ip = meta.ip;
}

module _ (env : Env) (meta : RequestMeta) where
  abbrev challenge_request : App → ChallengeDto → ChallengeRequest
  challenge_request app dto = record {
    client_id = meta.client_id;
    tenant_id = app.tenant_id;
    identity = dto.identity;
    scene = scene_or_login dto.scene;
    captcha_token = dto.captcha_token;
    ip = meta.ip;
  }

  unfoldable pub note_challenge : App → ChallengeDto → Bool → M (Unit {0})
  note_challenge app dto success =
      audit app "" "challenge" success (dto.method ++ ":" ++ dto.identity) meta

  -- `alertOTPLimit`: its record has neither tenant nor application. The alert itself is not modelled.
  unfoldable pub alert_otp_limit : String → String → M (Unit {0})
  alert_otp_limit kind key = do
    now ← gets (λ w. w.now)
    ignore (
        Tokens.create_audit (record {
          tenant_id = "";
          client_id = "";
          user_id = "";
          action = "otp_limit_alert";
          success = false;
          detail = kind ++ ":" ++ key;
          ip = "";
          ua = "";
          request_id = "";
          jti = "";
          device_id = "";
          created_at = now;
        }))

  -- What `Challenge` does about an error of the method.
  unfoldable pub challenge_failed : App → ChallengeDto → AppError → M (Unit {0})
  unfolding alert_otp_limit note_challenge
  challenge_failed app dto e = do
    when (nat_eq (code_number e.code) (code_number rate_limited))
        (alert_otp_limit "challenge" dto.identity)
    note_challenge app dto false

  -- `Challenge`: it is audited whether it succeeds or fails.
  unfoldable pub challenge : ChallengeDto → M ChallengeResult
  unfolding note_challenge challenge_failed
  challenge dto = do
    app ← require_app meta.client_id
    guard (method_allowed app dto.method) forbidden_app
    assert_local_login_allowed app dto.method
    when (is_otp dto.method) (assert_tenant_otp_quota env app.tenant_id)
    guard (Registry.known_method env dto.method) bad_request
    res ←
        on_error_of (Registry.challenge env dto.method (challenge_request app dto))
          (challenge_failed app dto)
    note_challenge app dto true
    pure res

  abbrev otp_of : String → String
  otp_of method =
      if method == Model.Method.phone_password
      then Model.Method.phone_otp
      else if method == Model.Method.email_password
      then Model.Method.email_otp
      else method

  -- `ResetPasswordStart`.
  unfoldable pub reset_password_start : String → String → M ChallengeResult
  unfolding challenge
  reset_password_start method identity = challenge (record {
    method = otp_of method;
    identity = identity;
    scene = Model.Scene.reset_password;
    captcha_token = "";
  })

  -- Whether the code verifier fits the challenge that the state keeps, where it keeps one.
  unfoldable pub check_pkce : App → LoginDto → OauthStatePayload → M (Unit {0})
  check_pkce app dto payload =
      if is_empty payload.code_challenge
      then guard (not app.require_pkce) bad_request
      else on_error
          (guard (verify_s256 env (field "code_verifier" dto.credential) payload.code_challenge)
            invalid_cred)
          (audit app "" "login_fail" false "oauth_pkce" meta)

  -- What `Login` does for OAuth before the verification.
  unfoldable pub oauth_ready : App → LoginDto → M (Unit {0})
  unfolding check_pkce
  oauth_ready app dto = do
    guard (provider_allowed app (provider_of dto)) forbidden_app
    guard (redirect_allowed app.redirect_uris (field "redirect_uri" dto.credential)) bad_request
    payload ←
        on_error
          (consume_state meta.client_id (provider_of dto) (field "state" dto.credential)
            (field "redirect_uri" dto.credential))
          (audit app "" "login_fail" false "oauth_state" meta)
    check_pkce app dto payload

  unfoldable pub login_provider : App → LoginDto → M String
  unfolding oauth_ready
  login_provider app dto =
      if dto.method == Model.Method.oauth2
      then (do oauth_ready app dto; pure (provider_of dto))
      else pure dto.provider

  unfoldable pub login_failed : App → LoginDto → M (Unit {0})
  login_failed app dto = do
    audit app "" "login_fail" false dto.method meta
    note_login_failure env dto.identity meta.ip

  -- Whether the user may be registered: by the application, or by an invitation that fits.
  unfoldable pub may_register : App → LoginDto → IdentityPrincipal → M Bool
  may_register app dto p =
      if is_empty dto.invite_code
      then pure app.auto_register
      else (do validate_invite env app dto.invite_code p; pure true)

  abbrev risk_flags : Bool → Bool → List String
  risk_flags new_device need_mfa =
      if not new_device
      then []
      else if env.cfg.risk_require_mfa_on_new_device && not need_mfa
      then "new_device" ∷ "new_device_no_mfa" ∷ []
      else "new_device" ∷ []

  -- The login waits for the second factor.
  unfoldable pub pend_login : App → LoginDto → User → Bool → List String → M LoginResult
  pend_login app dto user is_new flags = do
    (token, methods) ← create_mfa_pending env app user dto.client is_new
    audit app user.user_id "mfa_required" true dto.method meta
    raise_error (record { code = mfa_required; details = mfa_session token methods flags })

  -- The end of `Login`.
  unfoldable pub issue_login : App → LoginDto → User → Bool → List String → M LoginResult
  issue_login app dto user is_new flags = do
    (token, meta') ← issue_tokens env app user dto.client meta
    when (is_new && not (is_empty dto.invite_code))
        (ignore (Tenancy.consume_invite dto.invite_code))
    ignore (remember_device user.user_id app.client_id dto.client meta')
    clear_login_failures dto.identity meta.ip
    views ← or_default [] (identity_views user.user_id)
    (roles, _) ← roles_for_user user.user_id app.tenant_id
    audit app user.user_id "login_ok" true dto.method meta'
    pure (record {
      user = user;
      roles = roles;
      identities = views;
      token = token;
      is_new_user = is_new;
      risk_flags = flags;
    })

  -- What `Login` does for the user that it has found.
  unfoldable pub enter : App → LoginDto → User → Bool → M LoginResult
  unfolding pend_login issue_login
  enter app dto user is_new = do
    new_device ← is_new_device user.user_id app.client_id dto.client.device_id
    need_mfa ← user_has_mfa user.user_id
    on_error (guard (not (app.require_mfa && not need_mfa)) forbidden_app)
        (audit app user.user_id "login_fail" false "mfa_required_by_app" meta)
    let flags = risk_flags new_device need_mfa
    (if need_mfa
        then pend_login app dto user is_new flags
        else issue_login app dto user is_new flags)

  -- The identity that the request proves.
  unfoldable pub prove : App → LoginDto → M IdentityPrincipal
  unfolding login_provider login_failed
  prove app dto = do
    guard (Registry.known_method env dto.method) bad_request
    provider ← login_provider app dto
    on_error
        (Registry.verify env dto.method (verify_request meta app dto provider Model.Scene.login))
        (login_failed app dto)

  -- The user that the proved identity is, or becomes. The text of the error in the audit record is not
  -- modelled.
  unfoldable pub identify : App → LoginDto → IdentityPrincipal → M (User × Bool)
  unfolding may_register
  identify app dto p = do
    auto_reg ← may_register app dto p
    on_error (resolve_user env app p auto_reg) (audit app "" "login_fail" false "" meta)

  -- `Login`.
  unfoldable pub login : LoginDto → M LoginResult
  unfolding prove identify enter
  login dto = do
    app ← require_app meta.client_id
    assert_not_locked dto.identity meta.ip
    guard (method_allowed app dto.method) forbidden_app
    assert_local_login_allowed app dto.method
    p ← prove app dto
    (user, is_new) ← identify app dto p
    enter app dto user is_new
