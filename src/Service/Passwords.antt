-- ===== src/Service/Passwords.antt =====
-- internal/service/auth_service.go: the rules on passwords, and setting and resetting one.
pub mod Fresh
use unified_account_center.Prelude.{
  ℕ, ◌+◌, ◌*◌, String, Bool, true, false, not, ◌&&◌, ◌||◌, ◌==◌, Option, none, some, List, [], ◌∷◌,
  map, if◌then◌else◌, is_empty, ltb, leb, nat_eq,
}
use unified_account_center.Text.{byte_len, any_char}
use unified_account_center.Errors.{bad_request, not_found, internal}
use unified_account_center.World.{World, Env}
use unified_account_center.Model
use unified_account_center.Model.Account.{Credential, PasswordHistory}
use unified_account_center.Exec.{
  M, pure, gets, guard, require, when, ignore, draw, or_nil, or_default, ◌>>=◌, ◌>>◌,
}
use unified_account_center.Repo.Accounts
use unified_account_center.Repo.Tokens
use unified_account_center.Repo.Redis
use unified_account_center.Auth.Principal.{VerifyRequest}
use unified_account_center.Auth.Registry
use unified_account_center.Service.Apps.{RequestMeta, require_app, audit}
use unified_account_center.Service.StepUp.{consume_step_up}
use mathlib.Core.List as CoreList

-- `validatePassword`.
unfoldable pub validate_password : Env → String → M (Unit {0})
validate_password env pwd = do
  guard (leb env.cfg.password_min_length (byte_len pwd)) bad_request
  when env.cfg.password_require_letter_number
      (guard (any_char env.is_letter pwd && any_char env.is_digit pwd) bad_request)

-- Whether a stored hash, if it can be read, is of the password.
abbrev pub hash_of : Option Bool → Bool
hash_of none = false
hash_of (some b) = b

unfoldable pub matches_any : Env → String → List String → Bool
matches_any env pwd [] = false
matches_any env pwd (h ∷ hs) = hash_of (env.verify_password h pwd) || matches_any env pwd hs

abbrev pub row_hash : PasswordHistory → String
row_hash h = h.password_hash

-- `assertPasswordNotReused`.
unfoldable pub assert_password_not_reused : Env → String → String → String → M (Unit {0})
assert_password_not_reused env user_id pwd current = when (ltb 0 env.cfg.password_history_count) (do
  recent ← Accounts.list_recent user_id env.cfg.password_history_count
  let stored = map row_hash recent
  guard (not (matches_any env pwd (if is_empty current then stored else current ∷ stored)))
      bad_request)

-- `recordPasswordHistory`.
unfoldable pub record_password_history : Env → String → String → M (Unit {0})
record_password_history env user_id old =
    when (ltb 0 env.cfg.password_history_count && not (is_empty old)) (do
      Accounts.append_history user_id old
      Accounts.trim_history user_id env.cfg.password_history_count)

-- The age that counts: the last change of the password, or else of the row.
abbrev changed_at : Credential → ℕ
changed_at c = elim c.password_updated_at [ none ↦ c.updated_at | some t ↦ t ]

abbrev too_old : ℕ → ℕ → Option Credential → Bool
too_old days now none = false
too_old days now (some c) = not (is_empty c.password_hash) && ltb (changed_at c + days * 86400) now

-- `passwordExpiryFlags`; the two flags that it returns are always equal.
unfoldable pub password_expired : Env → String → ℕ → M Bool
password_expired env user_id app_max_age =
    let days = if ltb 0 app_max_age then app_max_age else env.cfg.password_max_age_days in
    if nat_eq days 0 then pure false else (do
      c ← or_nil (Accounts.find_credential user_id)
      now ← gets (λ w. w.now)
      pure (too_old days now c))

abbrev old_hash : Option Credential → String
old_hash none = ""
old_hash (some c) = c.password_hash

-- What `SetPassword` and `ResetPasswordConfirm` share: the rules, then the new hash, then the history.
-- The error of the first read is dropped, and what it points to is then an empty row.
unfoldable pub change_password : Env → String → String → M (Unit {0})
change_password env user_id pwd = do
  validate_password env pwd
  cred ← or_default (some (Accounts.no_credential "" 0)) (Accounts.find_credential user_id)
  assert_password_not_reused env user_id pwd (old_hash cred)
  n ← draw
  hash ← require (env.hash_password pwd n) internal
  now ← gets (λ w. w.now)
  Accounts.upsert_password user_id hash now
  record_password_history env user_id (old_hash cred)

-- `SetPassword`: a step-up token is spent unless the password has expired.
unfoldable pub set_password : Env → RequestMeta → String → String → String → M (Unit {0})
set_password env meta user_id pwd token = do
  app ← require_app meta.client_id
  force_change ← password_expired env user_id app.password_max_age_days
  when (not force_change) (consume_step_up user_id app.client_id token)
  change_password env user_id pwd
  now ← gets (λ w. w.now)
  ignore (Tokens.revoke_all_by_user user_id app.client_id now)
  when force_change (ignore (Redis.bump_user_version user_id))
  audit app user_id "password_set" true "" meta

-- A password method is reset by the code of the same channel.
unfoldable pub otp_method : String → String
otp_method m =
    if m == Model.Method.phone_password
    then Model.Method.phone_otp
    else if m == Model.Method.email_password
    then Model.Method.email_otp
    else m

-- `ResetConfirmDTO`.
pub record ResetConfirmDto : Type 0 where
  pub method : String
  pub identity : String
  pub challenge_id : String
  pub otp : String
  pub password : String

reset_request : RequestMeta → String → ResetConfirmDto → VerifyRequest
reset_request meta tenant_id dto = record {
  client_id = meta.client_id;
  tenant_id = tenant_id;
  method = otp_method dto.method;
  identity = dto.identity;
  provider = "";
  credential = ("challenge_id", dto.challenge_id) ∷ ("otp", dto.otp) ∷ [];
  scene = Model.Scene.reset_password;
  ip = "";
}

-- `ResetPasswordConfirm`.
unfoldable pub reset_password_confirm : Env → RequestMeta → ResetConfirmDto → M (Unit {0})
unfolding reset_request
reset_password_confirm env meta dto = do
  app ← require_app meta.client_id
  guard (Registry.known_method env (otp_method dto.method)) bad_request
  p ← Registry.verify env (otp_method dto.method) (reset_request meta app.tenant_id dto)
  found ← or_nil (Accounts.find_identity app.tenant_id p.id_type p.provider p.identifier)
  i ← require found not_found
  change_password env i.user_id dto.password
  now ← gets (λ w. w.now)
  ignore (Tokens.revoke_all_by_user i.user_id app.client_id now)
  audit app i.user_id "password_reset" true "" meta
