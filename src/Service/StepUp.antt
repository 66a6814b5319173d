-- ===== src/Service/StepUp.antt =====
-- internal/service/stepup.go, and what mfa.go does with step-up tokens: a fresh proof of identity before
-- a sensitive operation. The prefix "uac:stepup:" is the cache `step_ups`.
pub mod Single
use Prim.Native.String.{◌++◌}
use unified_account_center.Prelude.{
  ℕ, ◌*◌, String, Bool, true, false, not, ◌&&◌, ◌||◌, ◌==◌, Option, none, some, [], if◌then◌else◌,
  is_empty,
}
use unified_account_center.Errors.{bad_request, invalid_cred, not_found}
use unified_account_center.World.{World, Env, StepUpPayload}
use unified_account_center.Model
use unified_account_center.Model.Account.{Identity}
use unified_account_center.Model.Session.{App}
use unified_account_center.Exec.{
  M, pure, raise, guard, require, draw, or_nil, on_error, ◌>>=◌, ◌>>◌,
}
use unified_account_center.Repo.Accounts
use unified_account_center.Repo.Redis
use unified_account_center.Auth.Principal.{Form, field, IdentityPrincipal, VerifyRequest}
use unified_account_center.Auth.Registry
use unified_account_center.Service.Apps.{RequestMeta, require_app, audit}
use unified_account_center.Service.Mfa.{verify_mfa_code, only_on}

-- `StepUpDTO`.
pub record StepUpDto : Type 0 where
  pub method : String
  pub identity : String
  pub provider : String
  pub credential : Form

abbrev names_token : StepUpPayload → String → String → Bool
names_token p user_id client_id = p.user_id == user_id && p.client_id == client_id

abbrev pub payload_for : String → String → Option StepUpPayload → Bool
payload_for user_id client_id none = false
payload_for user_id client_id (some p) = names_token p user_id client_id

-- `consumeStepUp`.
unfoldable pub consume_step_up : String → String → String → M (Unit {0})
consume_step_up user_id client_id token = do
  guard (not (is_empty token)) bad_request
  payload ← Redis.take_step_up token
  guard (payload_for user_id client_id payload) invalid_cred

-- Whether an identity row belongs to the user.
abbrev owned_by : String → Option Identity → Bool
owned_by user_id none = false
owned_by user_id (some i) = i.user_id == user_id

-- The proof must be of the current user: by the user that the method found, and otherwise by the
-- identity that it proved.
unfoldable pub same_user : App → String → IdentityPrincipal → Option String → M (Unit {0})
same_user app user_id p (some uid) = guard (is_empty uid || uid == user_id) invalid_cred
same_user app user_id p none = do
  i ← or_nil (Accounts.find_identity app.tenant_id p.id_type p.provider p.identifier)
  guard (owned_by user_id i) invalid_cred

module _ (env : Env) where
  unfoldable pub issue_step_up : App → String → M String
  issue_step_up app user_id = do
    n ← draw
    m ← draw
    let token = env.random_id "su" n ++ env.random_hex 8 m
    Redis.set_step_up token (record { user_id = user_id; client_id = app.client_id }) (5 * 60)
    pure token

  -- `stepUpTOTP`.
  unfoldable pub step_up_totp : RequestMeta → String → String → M String
  unfolding issue_step_up
  step_up_totp meta user_id code = do
    app ← require_app meta.client_id
    on_error (verify_mfa_code env user_id code) (audit app user_id "step_up_fail" false "totp" meta)
    token ← issue_step_up app user_id
    audit app user_id "step_up_ok" true "totp" meta
    pure token

  abbrev code_of : Form → String
  code_of f = if is_empty (field "code" f) then field "otp" f else field "code" f

  step_up_request : App → RequestMeta → StepUpDto → VerifyRequest
  step_up_request app meta dto = record {
    client_id = meta.client_id;
    tenant_id = app.tenant_id;
    method = dto.method;
    identity = dto.identity;
    provider = dto.provider;
    credential = dto.credential;
    scene = Model.Scene.step_up;
    ip = meta.ip;
  }

  unfoldable pub step_up_method : RequestMeta → String → StepUpDto → M String
  unfolding issue_step_up step_up_request
  step_up_method meta user_id dto = do
    app ← require_app meta.client_id
    guard (Registry.known_method env dto.method) bad_request
    p ← Registry.verify env dto.method (step_up_request app meta dto)
    same_user app user_id p p.profile.user_id
    token ← issue_step_up app user_id
    audit app user_id "step_up_ok" true dto.method meta
    pure token

  -- `StepUp`.
  unfoldable pub step_up : RequestMeta → String → StepUpDto → M String
  unfolding step_up_totp step_up_method
  step_up meta user_id dto =
      if dto.method == Model.Method.totp
      then step_up_totp meta user_id (code_of dto.credential)
      else step_up_method meta user_id dto

-- `MFADisable`, which spends a step-up token.
unfoldable pub mfa_disable : RequestMeta → String → String → M (Unit {0})
mfa_disable meta user_id token = do
  app ← require_app meta.client_id
  consume_step_up user_id app.client_id token
  found ← or_nil (Accounts.find_credential user_id)
  c ← require found not_found
  Accounts.save_credential
      (record c { mfa_enabled = false; mfa_secret = ""; mfa_backup_hashes = [] })
  audit app user_id "mfa_disable" true "" meta
