-- ===== src/Service/Completion.antt =====
-- internal/service/mfa.go: `MFAComplete`, the second factor of a login.
pub mod Session
pub mod Steadiness
use unified_account_center.Prelude.{
  String, Bool, true, false, ◌==◌, Option, none, some, List, [], if◌then◌else◌, is_empty,
}
use unified_account_center.Errors.{invalid_cred, not_found}
use unified_account_center.World.{World, Env, TokenDto, MfaPendingPayload}
use unified_account_center.Model.Account.{User}
use unified_account_center.Model.Session.{App}
use unified_account_center.Exec.{
  M, pure, require, ignore, or_nil, or_default, on_error, ◌>>=◌, ◌>>◌,
}
use unified_account_center.Repo.Accounts
use unified_account_center.Repo.Redis
use unified_account_center.Service.Apps.{RequestMeta, ClientInfo, require_app, audit}
use unified_account_center.Service.Risk.{note_login_failure, clear_login_failures, remember_device}
use unified_account_center.Service.Roles.{roles_for_user}
use unified_account_center.Service.Mfa.{verify_mfa_code}
use unified_account_center.Service.Tokens.{issue_tokens}
use unified_account_center.Service.Users.{IdentityView, identity_views}

-- `MFACompleteDTO`.
pub record MfaCompleteDto : Type 0 where
  pub mfa_token : String
  pub code : String
  pub client : ClientInfo

-- `LoginResult`; the view of the user is the row and the roles.
pub record LoginResult : Type 0 where
  pub user : User
  pub roles : List String
  pub identities : List IdentityView
  pub token : TokenDto
  pub is_new_user : Bool
  pub risk_flags : List String

-- A session that was stored for this application.
abbrev pub pending_at : App → Option MfaPendingPayload → Option MfaPendingPayload
pending_at app none = none
pending_at app (some p) = if p.client_id == app.client_id then some p else none

abbrev or_pending : String → String → String
or_pending given pending = if is_empty given then pending else given

abbrev pub completed_client : ClientInfo → MfaPendingPayload → ClientInfo
completed_client c p = record {
  device_id = or_pending c.device_id p.device_id;
  fingerprint = or_pending c.fingerprint p.fingerprint;
}

module _ (env : Env) (meta : RequestMeta) where
  -- What happens to a wrong code.
  unfoldable pub mfa_failed : App → String → M (Unit {0})
  mfa_failed app user_id = do
    audit app user_id "mfa_fail" false "" meta
    note_login_failure env user_id meta.ip

  -- The end of `MFAComplete`: tokens, and what the login is remembered by.
  unfoldable pub complete_login : App → User → ClientInfo → Bool → M LoginResult
  complete_login app user client is_new = do
    (token, meta') ← issue_tokens env app user client meta
    ignore (remember_device user.user_id app.client_id client meta')
    clear_login_failures user.user_id meta.ip
    views ← or_default [] (identity_views user.user_id)
    (roles, _) ← roles_for_user user.user_id app.tenant_id
    audit app user.user_id "login_ok" true "mfa" meta'
    pure (record {
      user = user;
      roles = roles;
      identities = views;
      token = token;
      is_new_user = is_new;
      risk_flags = [];
    })

  -- `MFAComplete`.
  unfoldable pub mfa_complete : MfaCompleteDto → M LoginResult
  mfa_complete dto = do
    app ← require_app meta.client_id
    session ← Redis.take_mfa_session dto.mfa_token
    p ← require (pending_at app session) invalid_cred
    on_error (verify_mfa_code env p.user_id dto.code) (mfa_failed app p.user_id)
    found ← or_nil (Accounts.find_user p.user_id)
    user ← require found not_found
    complete_login app user (completed_client dto.client p) p.is_new
