-- ===== src/Service/Mfa.antt =====
-- internal/service/mfa.go: TOTP with backup codes, and the session between the first factor of a login
-- and the second.
pub mod Backup
use Prim.Native.String.{◌++◌}
use mathlib.Core.List
use unified_account_center.Prelude.{
  ℕ, zero, suc, ◌*◌, String, Bool, true, false, not, ◌&&◌, ◌||◌, ◌==◌, Option, none, some, List, [],
  ◌∷◌, map, if◌then◌else◌, is_empty, is_nil,
}
use unified_account_center.Text.{trim_space}
use unified_account_center.Errors.{bad_request, invalid_cred, not_found}
use unified_account_center.World.{World, Env, MfaPendingPayload}
use unified_account_center.Model.Account.{User, Credential}
use unified_account_center.Model.Session.{App}
use unified_account_center.Exec.{
  M, pure, raise, gets, guard, require, ignore, draw, or_nil, or_default, ◌>>=◌, ◌>>◌,
}
use unified_account_center.Repo.Accounts
use unified_account_center.Repo.Redis
use unified_account_center.Service.Apps.{RequestMeta, ClientInfo, require_app, audit}

-- MFA is on: the flag is set and there is a secret.
unfoldable pub mfa_on : Credential → Bool
mfa_on c = c.mfa_enabled && not (is_empty c.mfa_secret)

abbrev is_on : Option Credential → Bool
is_on none = false
is_on (some c) = mfa_on c

abbrev pub only_on : Option Credential → Option Credential
only_on none = none
only_on (some c) = if mfa_on c then some c else none

-- `userHasMFA`.
unfoldable pub user_has_mfa : String → M Bool
user_has_mfa user_id = do c ← or_nil (Accounts.find_credential user_id); pure (is_on c)

-- The loop of `verifyMFACode` over the stored hashes: the hashes left when the first one that is `h` is
-- taken out, if there is one.
unfoldable pub use_backup : String → List String → Option (List String)
use_backup h [] = none
use_backup h (x ∷ xs) =
    if x == h then some xs else elim (use_backup h xs) [ none ↦ none | some left ↦ some (x ∷ left) ]

module _ (env : Env) where
  unfoldable pub spend_backup : Credential → Option (List String) → M (Unit {0})
  spend_backup c none = raise invalid_cred
  spend_backup c (some left) =
      ignore (Accounts.save_credential (record c { mfa_backup_hashes = left }))

  -- `verifyMFACode`: a TOTP code, or a backup code, which is spent.
  unfoldable pub verify_mfa_code : String → String → M (Unit {0})
  unfolding spend_backup
  verify_mfa_code user_id code = do
    found ← or_nil (Accounts.find_credential user_id)
    c ← require (only_on found) bad_request
    now ← gets (λ w. w.now)
    let given = trim_space code
    if env.totp_validate given c.mfa_secret now
        then pure tt
        else spend_backup c (use_backup (env.sha256_hex given) c.mfa_backup_hashes)

  -- `MFASetup`.
  unfoldable pub mfa_setup : RequestMeta → String → M String
  mfa_setup meta user_id = do
    app ← require_app meta.client_id
    user ← or_nil (Accounts.find_user user_id)
    _ ← require user not_found
    n ← draw
    now ← gets (λ w. w.now)
    c ← Accounts.ensure_credential user_id now
    guard (not c.mfa_enabled) bad_request
    Accounts.save_credential
        (record c { mfa_secret = env.totp_secret user_id n; mfa_enabled = false })
    audit app user_id "mfa_setup" true "totp" meta
    pure (env.totp_secret user_id n)

  with_secret : Option Credential → Option Credential
  with_secret none = none
  with_secret (some c) = if is_empty c.mfa_secret then none else some c

  -- `generateBackupCodes`: n codes, each from its own draw.
  unfoldable pub backup_codes : ℕ → M (List String)
  backup_codes zero = pure []
  backup_codes (suc k) = do n ← draw; rest ← backup_codes k; pure (env.backup_code n ∷ rest)

  -- `MFAEnable`.
  unfoldable pub mfa_enable : RequestMeta → String → String → M (List String)
  unfolding with_secret
  mfa_enable meta user_id code = do
    app ← require_app meta.client_id
    found ← or_nil (Accounts.find_credential user_id)
    c ← require (with_secret found) bad_request
    now ← gets (λ w. w.now)
    guard (env.totp_validate (trim_space code) c.mfa_secret now) invalid_cred
    codes ← backup_codes 8
    Accounts.save_credential
        (record c { mfa_enabled = true; mfa_backup_hashes = map env.sha256_hex codes })
    audit app user_id "mfa_enable" true "totp" meta
    pure codes

-- `mfaPendingKey`; the prefix "uac:mfa:pending:" is the cache `mfa_sessions`. `createMFAPending`: the
-- token of the session, and the methods that can complete it.
abbrev backup_left : Option Credential → Bool
backup_left none = false
backup_left (some c) = not (is_nil c.mfa_backup_hashes)

unfoldable pub create_mfa_pending : Env → App → User → ClientInfo → Bool → M (String × List String)
create_mfa_pending env app user client is_new = do
  n ← draw
  m ← draw
  let token = env.random_id "mfa" n ++ env.random_hex 8 m
  Redis.set_mfa_session token
      (record {
        user_id = user.user_id;
        client_id = app.client_id;
        device_id = client.device_id;
        fingerprint = client.fingerprint;
        is_new = is_new;
      })
      (5 * 60)
  c ← or_default (some (Accounts.no_credential "" 0)) (Accounts.find_credential user.user_id)
  pure (token, if backup_left c then "totp" ∷ "backup_code" ∷ [] else "totp" ∷ [])
