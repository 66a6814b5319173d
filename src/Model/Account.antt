-- ===== src/Model/Account.antt =====
-- internal/model/model.go: users, the identities they log in by, and their credentials.
use unified_account_center.Prelude.{ℕ, String, Bool, Option, List}

pub record User : Type 0 where
  pub user_id : String
  pub tenant_id : String
  pub display_name : String
  pub avatar : String
  pub status : String
  pub pref_notify_email : Bool
  pub pref_notify_sms : Bool

-- (tenant_id, id_type, provider, identifier) is the unique index uk_identity.
pub record Identity : Type 0 where
  pub id : ℕ
  pub tenant_id : String
  pub user_id : String
  pub id_type : String
  pub provider : String
  pub identifier : String
  pub verified : Bool

-- user_id is unique. `password_updated_at` is none for NULL.
pub record Credential : Type 0 where
  pub user_id : String
  pub password_hash : String
  pub password_updated_at : Option ℕ
  pub mfa_secret : String
  pub mfa_enabled : Bool
  pub mfa_backup_hashes : List String
  pub updated_at : ℕ

pub record PasswordHistory : Type 0 where
  pub id : ℕ
  pub user_id : String
  pub password_hash : String

pub record KnownDevice : Type 0 where
  pub user_id : String
  pub client_id : String
  pub device_id : String
  pub fingerprint : String
  pub ip : String
  pub ua : String

pub record OauthAccount : Type 0 where
  pub user_id : String
  pub provider : String
  pub subject : String

pub record RoleBinding : Type 0 where
  pub user_id : String
  pub tenant_id : String
  pub role : String
