-- ===== src/Examples/Setting.antt =====
-- A small world: one application, one user with a phone number, a refresh token and a challenge.
use Prim.Native.String.{◌++◌}
use unified_account_center.Prelude.{String, true, false, none, some, [], ◌∷◌, ◌==◌}
use unified_account_center.Errors.{ok}
use unified_account_center.World.{World, Env, Config}
use unified_account_center.Model.Account.{User}
use unified_account_center.Model.Session.{App, AuthChallenge, RefreshToken}
use unified_account_center.Service.Apps.{RequestMeta}
use unified_account_center.Auth.Principal.{VerifyRequest}

abbrev pub small_config : Config
small_config = record {
  otp_length = 6;
  otp_ttl = 300;
  otp_resend_interval = 60;
  otp_max_tries = 3;
  otp_daily_limit_per_identity = 20;
  otp_daily_limit_per_ip = 50;
  password_min_length = 8;
  password_require_letter_number = true;
  password_max_age_days = 0;
  password_history_count = 3;
  risk_lock_after_failures = 5;
  risk_lock_window_sec = 900;
  risk_lock_duration_sec = 900;
  risk_require_mfa_on_new_device = false;
  jwt_access_ttl = 3600;
  jwt_refresh_ttl = 86400;
}

abbrev pub small_env : Env
small_env = record {
  cfg = small_config;
  random_id = λ prefix n. prefix ++ "_1";
  random_hex = λ bytes n. "ab";
  random_digits = λ digits n. "123456";
  sha256_hex = λ s. "#" ++ s;
  challenge_s256 = λ s. "c" ++ s;
  hash_password = λ pwd n. some ("p" ++ pwd);
  verify_password = λ hash pwd. some (hash == "p" ++ pwd);
  verify_secret = λ hash s. hash == "s" ++ s;
  totp_validate = λ code secret now. code == secret;
  totp_secret = λ user n. "secret";
  backup_code = λ n. "backup";
  sign_access = λ claims. some "access";
  parse_access = λ token now. none;
  sign_id_token = λ claims. some "id";
  day_of = λ now. "20240101";
  to_lower = λ s. s;
  equal_fold = λ s t. s == t;
  oauth_known = λ provider. false;
  oauth_url = λ provider state uri challenge. state;
  oauth_exchange = λ provider code uri verifier. none;
  captcha_verify = λ token ip. ok tt;
  is_letter = λ c. true;
  is_digit = λ c. true;
}

abbrev pub small_app : App
small_app = record {
  client_id = "web";
  client_secret_hash = "ssecret";
  name = "Web";
  tenant_id = "default";
  allowed_methods = "phone_otp" ∷ [];
  redirect_uris = [];
  oauth_providers = [];
  auto_register = true;
  require_pkce = false;
  access_ttl = 0;
  refresh_ttl = 0;
  require_mfa = false;
  password_max_age_days = 0;
  status = "active";
}

abbrev pub small_user : User
small_user = record {
  user_id = "u1";
  tenant_id = "default";
  display_name = "Li";
  avatar = "";
  status = "active";
  pref_notify_email = true;
  pref_notify_sms = true;
}

abbrev pub small_token : RefreshToken
small_token = record {
  jti = "rj_0";
  token_hash = "#first";
  user_id = "u1";
  client_id = "web";
  device_id = "d1";
  fingerprint = "";
  ip = "";
  ua = "";
  expire_at = 9000;
  revoked_at = none;
  replaced_by_jti = "";
}

abbrev pub small_challenge : AuthChallenge
small_challenge = record {
  challenge_id = "ch1";
  client_id = "web";
  tenant_id = "default";
  method = "phone_otp";
  scene = "login";
  identity = "+8613800138000";
  code_hash = "#123456";
  try_count = 0;
  expire_at = 1300;
  consumed_at = none;
}

abbrev pub small_world : World
small_world = record {
  now = 1000;
  drawn = 0;
  faults = [];
  apps = small_app ∷ [];
  users = small_user ∷ [];
  identities = [];
  next_identity_id = 1;
  credentials = [];
  histories = [];
  next_history_id = 1;
  devices = [];
  oauth_accounts = [];
  roles = [];
  challenges = small_challenge ∷ [];
  refresh_tokens = small_token ∷ [];
  audits = [];
  tenants = [];
  invites = [];
  joins = [];
  outbox = [];
  counters = [];
  versions = [];
  flags = [];
  step_ups = [];
  mfa_sessions = [];
  merges = [];
  hosted_codes = [];
  oauth_states = [];
}

abbrev pub small_meta : RequestMeta
small_meta = record {
  client_id = "web";
  ip = "10.0.0.1";
  ua = "";
  request_id = "r1";
  jti = "";
  device_id = "";
}

abbrev pub otp_request : String → VerifyRequest
otp_request code = record {
  client_id = "web";
  tenant_id = "default";
  method = "phone_otp";
  identity = "13800138000";
  provider = "";
  credential = ("challenge_id", "ch1") ∷ ("otp", code) ∷ [];
  scene = "login";
  ip = "10.0.0.1";
}
