-- ===== src/Examples/Entry.antt =====
-- A login by a code that was sent to the phone of a user.
use unified_account_center.Prelude.{◌≡◌, refl, true, false, [], ◌∷◌}
use unified_account_center.Prelude.Rows.{find_by, filter_by, update_where}
use unified_account_center.Text.{
  trim_space, trim_left, trim_right, is_space_code, remove_char, has_prefix, byte_len, all_chars,
  char_count, take_chars, drop_chars,
}
use unified_account_center.Cache
use unified_account_center.Errors.{ok, Result}
use unified_account_center.World.{World}
use unified_account_center.Exec
use unified_account_center.Exec.{◌>>=◌}
use unified_account_center.Repo.Accounts
use unified_account_center.Repo.Challenges
use unified_account_center.Repo.Redis
use unified_account_center.Repo.Tenancy
use unified_account_center.Repo.Tokens as Rows
use unified_account_center.Identity.{normalize_phone, phone_loose, mask_phone}
use unified_account_center.Auth.Otp
use unified_account_center.Auth.Principal.{field}
use unified_account_center.Auth.Registry
use unified_account_center.Service.Apps.{require_app, audit, method_allowed, contains}
use unified_account_center.Service.Mfa.{user_has_mfa, mfa_on}
use unified_account_center.Service.Risk.{
  assert_not_locked, clear_login_failures, remember_device, is_new_device,
}
use unified_account_center.Service.Roles.{roles_for_user, roles_of}
use unified_account_center.Service.Passwords.{password_expired}
use unified_account_center.Service.Tenants.{
  assert_local_login_allowed, load_tenant, is_password, is_otp,
}
use unified_account_center.Service.Tokens.{
  issue_tokens, issue_access, issue_id_token, device_or_new,
}
use unified_account_center.Service.Users.{
  resolve_user, by_profile, by_identity, identity_views, active_user, shown,
}
use unified_account_center.Service.Completion.{LoginResult}
use unified_account_center.Service.Login.{
  LoginDto, login, prove, identify, enter, may_register, login_provider, issue_login,
}
use unified_account_center.Service.Login.Factor.{Entered, login-Entered}
use unified_account_center.Examples.Setting.{small_env, small_world, small_meta, small_user}

abbrev bound : World
bound = record small_world {
  identities =
      record {
        id = 1;
        tenant_id = "default";
        user_id = "u1";
        id_type = "phone";
        provider = "";
        identifier = "+8613800138000";
        verified = true;
      }
      ∷ [];
  next_identity_id = 2;
}

abbrev by_phone : LoginDto
by_phone = record {
  method = "phone_otp";
  identity = "13800138000";
  provider = "";
  credential = ("challenge_id", "ch1") ∷ ("otp", "123456") ∷ [];
  client = record { device_id = "d1"; fingerprint = "" };
  invite_code = "";
}

abbrev entered : Result LoginResult × World
entered = login small_env small_meta by_phone bound

abbrev session : LoginResult
session = record {
  user = small_user;
  roles = "user" ∷ [];
  identities =
      record { id_type = "phone"; provider = ""; value = "138****8000"; verified = true } ∷ [];
  token = record {
    access_token = "access";
    token_type = "Bearer";
    expire_in = 3600;
    refresh_token = "rt_1ab";
    refresh_expire_in = 86400;
    id_token = "id";
    device_id = "d1";
    refresh_jti = "rj_1";
    password_expired = false;
    must_change_password = false;
  };
  is_new_user = false;
  risk_flags = "new_device" ∷ [];
}

enters : entered ≡ (ok session, entered.1)
unfolding login prove identify enter may_register login_provider issue_login Registry.verify
    Registry.known_method Otp.verify Otp.settle Otp.normalize Otp.acceptable Otp.method_of
    normalize_phone phone_loose mask_phone trim_space trim_left trim_right is_space_code remove_char
    has_prefix byte_len all_chars char_count field contains method_allowed
    assert_local_login_allowed load_tenant is_password is_otp assert_not_locked is_new_device
    user_has_mfa mfa_on resolve_user by_profile by_identity active_user identity_views issue_tokens
    issue_access issue_id_token device_or_new require_app audit roles_for_user roles_of
    password_expired clear_login_failures remember_device ◌>>=◌ Exec.guard Exec.require Exec.pure
    Exec.raise Exec.gets Exec.query Exec.command Exec.modify Exec.insert Exec.ignore Exec.draw
    Exec.when Exec.or_nil Exec.or_default Exec.on_error find_by filter_by update_where Rows.create
    Rows.create_audit Accounts.find_user Accounts.find_identity Accounts.find_credential
    Accounts.list_roles Accounts.list_identities Accounts.upsert_device Accounts.upsert_device_found
    Accounts.find_device Challenges.find_by_id Challenges.mark_consumed Redis.get_user_version
    Redis.get_flag Redis.del_flag Tenancy.find_app Tenancy.find_tenant Cache.get Cache.lookup
    Cache.live Cache.del Cache.without Cache.exists Otp.principal_of Otp.id_type_of shown drop_chars
    take_chars
enters = refl

login-Entered_example : Entered small_env small_meta by_phone bound session
login-Entered_example = login-Entered small_env small_meta by_phone bound entered.1 session enters
