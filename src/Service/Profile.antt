-- ===== src/Service/Profile.antt =====
-- internal/service/auth_service.go and mfa.go: `Me`, `UpdateProfile` and `MFAStatus`. The count of
-- passkeys is not modelled.
pub mod Steadiness
use unified_account_center.Prelude.{
  ℕ, String, Bool, true, false, not, ◌&&◌, ◌||◌, Option, none, some, List, [], is_empty, is_some,
  leb, length,
}
use unified_account_center.Text.{trim_space, byte_len}
use unified_account_center.Errors.{bad_request, not_found}
use unified_account_center.World.{Env, TokenDto}
use unified_account_center.Model.Account.{User, Credential}
use unified_account_center.Exec.{M, pure, guard, require, or_nil, or_default, ◌>>=◌, ◌>>◌}
use unified_account_center.Repo.Accounts
use unified_account_center.Service.Roles.{roles_for_user}
use unified_account_center.Service.Passwords.{password_expired}
use unified_account_center.Service.Users.{identity_views}
use unified_account_center.Service.Completion.{LoginResult}

-- `UpdateProfileDTO`; `none` for nil.
pub record UpdateProfileDto : Type 0 where
  pub display_name : Option String
  pub avatar : Option String

abbrev no_token : Bool → TokenDto
no_token expired = record {
  access_token = "";
  token_type = "";
  expire_in = 0;
  refresh_token = "";
  refresh_expire_in = 0;
  id_token = "";
  device_id = "";
  refresh_jti = "";
  password_expired = expired;
  must_change_password = expired;
}

-- `Me`.
unfoldable pub me : Env → String → M LoginResult
me env user_id = do
  found ← or_nil (Accounts.find_user user_id)
  user ← require found not_found
  views ← or_default [] (identity_views user_id)
  (roles, _) ← roles_for_user user_id user.tenant_id
  expired ← password_expired env user_id 0
  pure (record {
    user = user;
    roles = roles;
    identities = views;
    token = no_token expired;
    is_new_user = false;
    risk_flags = [];
  })

abbrev renamed : Option String → User → User
renamed none u = u
renamed (some s) u = record u { display_name = trim_space s }

abbrev pictured : Option String → User → User
pictured none u = u
pictured (some s) u = record u { avatar = trim_space s }

abbrev fits : Option String → ℕ → Bool
fits none most = true
fits (some s) most = leb (byte_len (trim_space s)) most

-- `UpdateProfile`: the row and the roles.
unfoldable pub update_profile : String → UpdateProfileDto → M (User × List String)
update_profile user_id dto = do
  guard (is_some dto.display_name || is_some dto.avatar) bad_request
  found ← or_nil (Accounts.find_user user_id)
  user ← require found not_found
  guard (fits dto.display_name 128) bad_request
  guard (fits dto.avatar 512) bad_request
  let changed = pictured dto.avatar (renamed dto.display_name user)
  Accounts.update_user changed
  (roles, _) ← roles_for_user user_id user.tenant_id
  pure (changed, roles)

-- `MFAStatus`: whether a second factor is on, and how many backup codes are left.
abbrev mfa_of : Option Credential → Bool × ℕ
mfa_of none = (false, 0)
mfa_of (some c) = (c.mfa_enabled && not (is_empty c.mfa_secret), length c.mfa_backup_hashes)

unfoldable pub mfa_status : String → M (Bool × ℕ)
mfa_status user_id = do cred ← Accounts.find_credential user_id; pure (mfa_of cred)
