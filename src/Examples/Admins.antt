-- ===== src/Examples/Admins.antt =====
-- A login to the administration by a password.
use unified_account_center.Prelude.{◌≡◌, refl, true, false, none, [], ◌∷◌}
use unified_account_center.Prelude.Rows.{find_by, filter_by}
use unified_account_center.Text.{
  trim_space, trim_left, trim_right, is_space_code, remove_char, has_prefix, char_count, byte_len,
  all_chars,
}
use unified_account_center.Identity.{normalize_phone, phone_loose}
use unified_account_center.Errors.{ok, Result}
use unified_account_center.World.{World}
use unified_account_center.Exec
use unified_account_center.Exec.{◌>>=◌}
use unified_account_center.Repo.Accounts
use unified_account_center.Service.Roles.{roles_of, applies, has_admin_capability}
use unified_account_center.Service.AdminSession.{
  AdminLoginRequest, AdminSession, login_by_password, admin_identity, checked_user, open_session,
  roles_for_admin_user, primary_of, primary_from,
}
use unified_account_center.Service.AdminSession.Admitted.{Admitted, login_by_password-Admitted}
use unified_account_center.Examples.Setting.{small_env, small_world}

abbrev managed : World
managed = record small_world {
  identities =
      record {
        id = 1;
        tenant_id = "default";
        user_id = "u1";
        id_type = "phone";
        provider = "";
        identifier = "+8613800138000";
        verified = true;
      }
      ∷ [];
  credentials =
      record {
        user_id = "u1";
        password_hash = "psecret1";
        password_updated_at = none;
        mfa_secret = "";
        mfa_enabled = false;
        mfa_backup_hashes = [];
        updated_at = 0;
      }
      ∷ [];
  roles = record { user_id = "u1"; tenant_id = "default"; role = "viewer" } ∷ [];
}

abbrev by_password : AdminLoginRequest
by_password = record {
  mode = "";
  token = "";
  identity = "13800138000";
  password = "secret1";
  method = "";
  tenant_id = "";
}

abbrev opened : Result AdminSession × World
opened = login_by_password small_env by_password managed

abbrev viewing : AdminSession
viewing = record {
  auth_type = "bearer";
  token = "access";
  role = "viewer";
  roles = "viewer" ∷ [];
  user_id = "u1";
  tenant_id = "default";
  display_name = "Li";
  expires_in = 3600;
}

opens : opened ≡ (ok viewing, opened.1)
unfolding login_by_password admin_identity checked_user open_session roles_for_admin_user primary_of
    primary_from roles_of has_admin_capability normalize_phone phone_loose trim_space trim_left
    trim_right is_space_code remove_char has_prefix byte_len all_chars char_count find_by filter_by
    ◌>>=◌ Exec.guard Exec.require Exec.pure Exec.raise Exec.gets Exec.query Exec.command Exec.draw
    Exec.or_nil Exec.or_default Accounts.find_identity Accounts.find_user Accounts.find_credential
    Accounts.list_roles applies
opens = refl

login_by_password-Admitted_example : Admitted small_env by_password managed viewing
login_by_password-Admitted_example =
    login_by_password-Admitted small_env by_password managed opened.1 viewing opens
