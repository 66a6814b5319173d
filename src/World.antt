-- ===== src/World.antt =====
-- The state that the services share, and what they take from outside the repository.
-- MySQL is the lists of rows; Redis is a cache for each prefix of keys (the INCR counters stand in one
-- cache under their whole keys). `faults` decides which of the coming commands to MySQL, Redis or a
-- mail or SMS gateway fail; a command that fails has no effect. `drawn` counts the random draws.
use unified_account_center.Prelude.{ℕ, String, Bool, Option, List}
use unified_account_center.Errors.{Result}
use unified_account_center.Cache.{Cache}
use unified_account_center.Model.Account.{
  User, Identity, Credential, PasswordHistory, KnownDevice, OauthAccount, RoleBinding,
}
use unified_account_center.Model.Session.{App, AuthChallenge, RefreshToken, AuditLog}
use unified_account_center.Model.Tenancy.{Tenant, Invite, JoinRequest}

-- The payload of a step-up token (internal/service/stepup.go).
pub record StepUpPayload : Type 0 where
  pub user_id : String
  pub client_id : String

-- `mfaPendingPayload` of internal/service/mfa.go.
pub record MfaPendingPayload : Type 0 where
  pub user_id : String
  pub client_id : String
  pub device_id : String
  pub fingerprint : String
  pub is_new : Bool

-- `mergePayload` of internal/service/merge.go.
pub record MergePayload : Type 0 where
  pub target_user_id : String
  pub source_user_id : String
  pub client_id : String

-- `TokenDTO` of internal/service/auth_service.go.
pub record TokenDto : Type 0 where
  pub access_token : String
  pub token_type : String
  pub expire_in : ℕ
  pub refresh_token : String
  pub refresh_expire_in : ℕ
  pub id_token : String
  pub device_id : String
  pub refresh_jti : String
  pub password_expired : Bool
  pub must_change_password : Bool

-- `hostedCodePayload` of internal/service/hosted.go.
pub record HostedCodePayload : Type 0 where
  pub client_id : String
  pub user_id : String
  pub redirect_uri : String
  pub state : String
  pub code_challenge : String
  pub token : TokenDto
  pub device_id : String

-- `OAuthStatePayload` of internal/service/oauth_service.go.
pub record OauthStatePayload : Type 0 where
  pub client_id : String
  pub provider : String
  pub redirect_uri : String
  pub code_challenge : String
  pub bind_user_id : String

pub record World : Type 0 where
  pub now : ℕ
  pub drawn : ℕ
  pub faults : List Bool
  pub apps : List App
  pub users : List User
  pub identities : List Identity
  pub next_identity_id : ℕ
  pub credentials : List Credential
  pub histories : List PasswordHistory
  pub next_history_id : ℕ
  pub devices : List KnownDevice
  pub oauth_accounts : List OauthAccount
  pub roles : List RoleBinding
  pub challenges : List AuthChallenge
  pub refresh_tokens : List RefreshToken
  pub audits : List AuditLog
  pub tenants : List Tenant
  pub invites : List Invite
  pub joins : List JoinRequest
  pub outbox : List (String × String)
  pub counters : Cache ℕ
  pub versions : Cache ℕ
  pub flags : Cache Bool
  pub step_ups : Cache StepUpPayload
  pub mfa_sessions : Cache MfaPendingPayload
  pub merges : Cache MergePayload
  pub hosted_codes : Cache HostedCodePayload
  pub oauth_states : Cache OauthStatePayload

-- `Claims` of internal/pkg/jwtutil/jwtutil.go with its registered claims.
pub record Claims : Type 0 where
  pub user_id : String
  pub client_id : String
  pub tenant_id : String
  pub roles : List String
  pub scope : List String
  pub must_change_password : Bool
  pub user_version : ℕ
  pub expires_at : ℕ
  pub jti : String

-- `IDTokenClaims` of internal/pkg/jwtutil/jwtutil.go.
pub record IdTokenClaims : Type 0 where
  pub user_id : String
  pub tenant_id : String
  pub client_id : String
  pub auth_time : ℕ
  pub expires_at : ℕ
  pub jti : String

-- The parts of internal/config/config.go that the modelled code reads. Go's integers there may be
-- negative; every reader treats a negative value as zero.
pub record Config : Type 0 where
  pub otp_length : ℕ
  pub otp_ttl : ℕ
  pub otp_resend_interval : ℕ
  pub otp_max_tries : ℕ
  pub otp_daily_limit_per_identity : ℕ
  pub otp_daily_limit_per_ip : ℕ
  pub password_min_length : ℕ
  pub password_require_letter_number : Bool
  pub password_max_age_days : ℕ
  pub password_history_count : ℕ
  pub risk_lock_after_failures : ℕ
  pub risk_lock_window_sec : ℕ
  pub risk_lock_duration_sec : ℕ
  pub risk_require_mfa_on_new_device : Bool
  pub jwt_access_ttl : ℕ
  pub jwt_refresh_ttl : ℕ

-- `UserInfo` of internal/adapter/oauth/oauth.go.
pub record OauthInfo : Type 0 where
  pub subject : String
  pub name : String
  pub avatar : String

-- What rests on other libraries: random draws, numbered by `drawn`; SHA-256; the password hash;
-- TOTP; signing and parsing of a JWT; the date; the answers of the captcha and OAuth services.
pub record Env : Type 0 where
  pub cfg : Config
  pub random_id : String → ℕ → String
  pub random_hex : ℕ → ℕ → String
  pub random_digits : ℕ → ℕ → String
  pub sha256_hex : String → String
  pub challenge_s256 : String → String
  pub hash_password : String → ℕ → Option String
  pub verify_password : String → String → Option Bool
  pub verify_secret : String → String → Bool
  pub totp_validate : String → String → ℕ → Bool
  pub totp_secret : String → ℕ → String
  pub backup_code : ℕ → String
  pub sign_access : Claims → Option String
  pub parse_access : String → ℕ → Option Claims
  pub sign_id_token : IdTokenClaims → Option String
  pub day_of : ℕ → String
  pub to_lower : String → String
  pub equal_fold : String → String → Bool
  pub oauth_known : String → Bool
  pub oauth_url : String → String → String → String → String
  pub oauth_exchange : String → String → String → String → Option OauthInfo
  pub captcha_verify : String → String → Result (Unit {0})
  pub is_letter : ℕ → Bool
  pub is_digit : ℕ → Bool
