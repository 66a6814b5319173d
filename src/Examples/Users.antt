-- ===== src/Examples/Users.antt =====
-- A new user, and a login that a backup code completes.
use unified_account_center.Prelude.{◌≡◌, Bool, refl, true, false, none, some, [], ◌∷◌}
use unified_account_center.Prelude.Rows.{find_by, filter_by, update_where}
use unified_account_center.Text.{trim_space, trim_left, trim_right, is_space_code}
use unified_account_center.Cache
use unified_account_center.Errors.{ok, Result}
use unified_account_center.World.{World}
use unified_account_center.Model.Account.{User}
use unified_account_center.Exec
use unified_account_center.Exec.{◌>>=◌}
use unified_account_center.Auth.Principal.{IdentityPrincipal, no_profile}
use unified_account_center.Repo.Accounts
use unified_account_center.Repo.Redis
use unified_account_center.Repo.Tenancy
use unified_account_center.Repo.Tokens as Rows
use unified_account_center.Service.Apps.{require_app, audit}
use unified_account_center.Service.Mfa.{verify_mfa_code, mfa_on}
use unified_account_center.Service.Risk.{clear_login_failures, remember_device}
use unified_account_center.Service.Roles.{roles_for_user, roles_of}
use unified_account_center.Service.Passwords.{password_expired}
use unified_account_center.Service.Tokens.{
  issue_tokens, issue_access, issue_id_token, device_or_new,
}
use unified_account_center.Service.Users.{
  resolve_user, by_profile, by_identity, join_or_register, register, identity_views,
  default_display,
}
use unified_account_center.Service.Users.Active.{IsActive, resolve_user-IsActive}
use unified_account_center.Service.Completion.{
  MfaCompleteDto, LoginResult, mfa_complete, complete_login, mfa_failed,
}
use unified_account_center.Service.Completion.Session.{Completed, mfa_complete-Completed}
use unified_account_center.Examples.Setting.{
  small_env, small_world, small_meta, small_app, small_user,
}

abbrev newcomer : IdentityPrincipal
newcomer = record {
  id_type = "oauth";
  provider = "wechat";
  identifier = "w1";
  verified = true;
  profile = record no_profile { name = some "Wang" };
}

abbrev resolved : Result (User × Bool) × World
resolved = resolve_user small_env small_app newcomer true small_world

abbrev wang : User
wang = record small_user { user_id = "u_1"; display_name = "Wang" }

resolves : resolved ≡ (ok (wang, true), resolved.1)
unfolding resolve_user by_profile by_identity join_or_register register default_display ◌>>=◌
    Exec.guard Exec.require Exec.pure Exec.raise Exec.gets Exec.query Exec.command Exec.modify
    Exec.insert Exec.ignore Exec.draw Exec.when find_by filter_by update_where
    Accounts.find_identity Accounts.create_user Accounts.create_identity Accounts.upsert_oauth
    Accounts.upsert_oauth_found Accounts.upsert_role Accounts.upsert_role_found
resolves = refl

resolve_user-IsActive_example : IsActive wang
resolve_user-IsActive_example =
    resolve_user-IsActive small_env small_app newcomer true small_world resolved.1 wang true
      resolves

-- The first factor was given, and the authenticator shows the code "totp".
abbrev halfway : World
halfway = record small_world {
  credentials =
      record {
        user_id = "u1";
        password_hash = "";
        password_updated_at = none;
        mfa_secret = "totp";
        mfa_enabled = true;
        mfa_backup_hashes = [];
        updated_at = 0;
      }
      ∷ [];
  mfa_sessions =
      (
        "m1",
        record {
          value = record {
            user_id = "u1";
            client_id = "web";
            device_id = "d1";
            fingerprint = "";
            is_new = false;
          };
          expires = some 1200;
        },
      )
      ∷ [];
}

abbrev second_factor : MfaCompleteDto
second_factor = record {
  mfa_token = "m1";
  code = "totp";
  client = record { device_id = ""; fingerprint = "" };
}

abbrev completed : Result LoginResult × World
completed = mfa_complete small_env small_meta second_factor halfway

abbrev login : LoginResult
login = record {
  user = small_user;
  roles = "user" ∷ [];
  identities = [];
  token = record {
    access_token = "access";
    token_type = "Bearer";
    expire_in = 3600;
    refresh_token = "rt_1ab";
    refresh_expire_in = 86400;
    id_token = "id";
    device_id = "d1";
    refresh_jti = "rj_1";
    password_expired = false;
    must_change_password = false;
  };
  is_new_user = false;
  risk_flags = [];
}

completes : completed ≡ (ok login, completed.1)
unfolding mfa_complete complete_login mfa_failed verify_mfa_code mfa_on trim_space trim_left
    trim_right is_space_code issue_tokens issue_access issue_id_token device_or_new require_app
    audit roles_for_user roles_of password_expired clear_login_failures remember_device
    identity_views ◌>>=◌ Exec.guard Exec.require Exec.pure Exec.raise Exec.gets Exec.query
    Exec.command Exec.modify Exec.insert Exec.ignore Exec.draw Exec.when Exec.or_nil Exec.or_default
    Exec.on_error find_by filter_by update_where Rows.create Rows.create_audit Accounts.find_user
    Accounts.find_credential Accounts.list_roles Accounts.list_identities Accounts.upsert_device
    Accounts.upsert_device_found Accounts.find_device Redis.get_user_version Redis.take_mfa_session
    Redis.del_flag Tenancy.find_app Cache.get Cache.get_del Exec.fall_back Redis.get_del_json
    Cache.lookup Cache.live
completes = refl

mfa_complete-Completed_example : Completed small_env small_meta second_factor halfway
mfa_complete-Completed_example =
    mfa_complete-Completed small_env small_meta second_factor halfway completed.1 login completes
