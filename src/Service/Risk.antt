-- ===== src/Service/Risk.antt =====
-- internal/service/risk.go: locks after failed logins, and known devices. The alert webhook, which
-- changes no state, is not modelled.
use Prim.Native.String.{◌++◌}
use unified_account_center.Prelude.{
  ◌*◌, String, Bool, true, false, not, is_empty, is_some, if◌then◌else◌,
}
use unified_account_center.Errors.{rate_limited}
use unified_account_center.World.{Env}
use unified_account_center.Exec.{M, pure, guard, when, ignore, or_default, or_nil, ◌>>=◌, ◌>>◌}
use unified_account_center.Repo.Accounts
use unified_account_center.Repo.Redis
use unified_account_center.Auth.Otp.{or_else}
use unified_account_center.Service.Apps.{RequestMeta, ClientInfo}

-- `riskLockKey`.
abbrev pub risk_lock_key : String → String → String
risk_lock_key kind key = "uac:risk:lock:" ++ kind ++ ":" ++ key

abbrev not_locked_one : String → String → M (Unit {0})
not_locked_one kind key = when (not (is_empty key)) (do
  locked ← or_default false (Redis.get_flag (risk_lock_key kind key))
  guard (not locked) rate_limited)

-- `assertNotLocked`: a failed read counts as not locked.
unfoldable pub assert_not_locked : String → String → M (Unit {0})
assert_not_locked identity_key ip = do not_locked_one "id" identity_key; not_locked_one "ip" ip

-- `check` of `noteLoginFailure`: past the limit the key is locked. An error of the limiter locks
-- nothing.
unfoldable pub note_failure : Env → String → String → M (Unit {0})
note_failure env kind key = when (not (is_empty key)) (do
  passed ← or_default true (
      Redis.allow ("uac:risk:fail:" ++ kind ++ ":" ++ key)
        (or_else env.cfg.risk_lock_after_failures 10)
        (or_else env.cfg.risk_lock_window_sec (15 * 60)))
  when (not passed) (
      ignore (
        Redis.set_flag (risk_lock_key kind key)
          (or_else env.cfg.risk_lock_duration_sec (15 * 60)))))

-- `noteLoginFailure`.
unfoldable pub note_login_failure : Env → String → String → M (Unit {0})
note_login_failure env identity_key ip = do
  note_failure env "id" identity_key
  note_failure env "ip" ip

-- `clearLoginFailures`.
unfoldable pub clear_login_failures : String → String → M (Unit {0})
clear_login_failures identity_key ip = do
  when (not (is_empty identity_key)) (ignore (Redis.del_flag (risk_lock_key "id" identity_key)))
  when (not (is_empty ip)) (ignore (Redis.del_flag (risk_lock_key "ip" ip)))

-- `isNewDevice`.
unfoldable pub is_new_device : String → String → String → M Bool
is_new_device user_id client_id device_id =
    if is_empty device_id
    then pure true
    else (do d ← or_nil (Accounts.find_device user_id client_id device_id); pure (not (is_some d)))

-- `rememberDevice`.
unfoldable pub remember_device : String → String → ClientInfo → RequestMeta → M (Unit {0})
remember_device user_id client_id client meta = when (not (is_empty client.device_id)) (
    Accounts.upsert_device (record {
      user_id = user_id;
      client_id = client_id;
      device_id = client.device_id;
      fingerprint = client.fingerprint;
      ip = meta.ip;
      ua = meta.ua;
    }))
