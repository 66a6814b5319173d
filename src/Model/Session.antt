-- ===== src/Model/Session.antt =====
-- internal/model/model.go: applications, challenges, refresh tokens and the audit log.
use unified_account_center.Prelude.{ℕ, String, Bool, Option, List}

pub record App : Type 0 where
  pub client_id : String
  pub client_secret_hash : String
  pub name : String
  pub tenant_id : String
  pub allowed_methods : List String
  pub redirect_uris : List String
  pub oauth_providers : List String
  pub auto_register : Bool
  pub require_pkce : Bool
  pub access_ttl : ℕ
  pub refresh_ttl : ℕ
  pub require_mfa : Bool
  pub password_max_age_days : ℕ
  pub status : String

-- `consumed_at` is none for NULL: not consumed yet.
pub record AuthChallenge : Type 0 where
  pub challenge_id : String
  pub client_id : String
  pub tenant_id : String
  pub method : String
  pub scene : String
  pub identity : String
  pub code_hash : String
  pub try_count : ℕ
  pub expire_at : ℕ
  pub consumed_at : Option ℕ

-- `revoked_at` is none for NULL: the token can still be used.
pub record RefreshToken : Type 0 where
  pub jti : String
  pub token_hash : String
  pub user_id : String
  pub client_id : String
  pub device_id : String
  pub fingerprint : String
  pub ip : String
  pub ua : String
  pub expire_at : ℕ
  pub revoked_at : Option ℕ
  pub replaced_by_jti : String

pub record AuditLog : Type 0 where
  pub tenant_id : String
  pub client_id : String
  pub user_id : String
  pub action : String
  pub success : Bool
  pub detail : String
  pub ip : String
  pub ua : String
  pub request_id : String
  pub jti : String
  pub device_id : String
  pub created_at : ℕ
