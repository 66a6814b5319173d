-- ===== src/Examples/Logins.antt =====
-- An OAuth state, a hosted code, and a login that waits for the second factor.
use unified_account_center.Prelude.{◌≡◌, refl, true, false, none, some, [], ◌∷◌}
use unified_account_center.Prelude.Rows.{find_by}
use unified_account_center.Text.{trim_space, trim_left, trim_right, is_space_code}
use unified_account_center.Cache
use unified_account_center.Errors.{ok, is_ok, Result}
use unified_account_center.World.{World, OauthStatePayload, TokenDto}
use unified_account_center.Model.Account.{Credential}
use unified_account_center.Exec
use unified_account_center.Exec.{◌>>=◌}
use unified_account_center.Repo.Redis
use unified_account_center.Repo.Tenancy
use unified_account_center.Repo.Tokens as Rows
use unified_account_center.Service.StepUp.Single.{later}
use unified_account_center.Exec.Inversion.{facing}
use unified_account_center.Service.OauthFlow.{consume_state, state_key, verify_s256}
use unified_account_center.Service.OauthFlow.State.{state_once}
use unified_account_center.Service.Hosted.{
  ExchangeTokenDto, ExchangeTokenResult, exchange_token, code_key, redeemable, pkce_ok,
}
use unified_account_center.Service.Hosted.Code.{Redeemed, exchange_token-Redeemed}
use unified_account_center.Service.Apps.{require_app, audit}
use unified_account_center.Service.Mfa.{mfa_on}
use unified_account_center.Service.Login.{LoginDto, enter}
use unified_account_center.Service.Login.Pending.{Pends, enter-Pends}
use unified_account_center.Examples.Setting.{
  small_env, small_world, small_meta, small_app, small_user,
}

abbrev kept_state : OauthStatePayload
kept_state = record {
  client_id = "web";
  provider = "wechat";
  redirect_uri = "https://a";
  code_challenge = "";
  bind_user_id = "";
}

abbrev with_state : World
with_state = record small_world {
  oauth_states = (state_key "s1", record { value = kept_state; expires = some 1600 }) ∷ [];
}

state_once_example :
    is_ok
      (consume_state "app" "wechat" "s1" "https://b" (
        facing
          (later 5 (consume_state "web" "wechat" "s1" "https://a" with_state).1)
          (true ∷ []))).0
    ≡ false
state_once_example =
    state_once "web" "wechat" "s1" "https://a" "app" "wechat" "https://b" 5 (true ∷ []) with_state
      refl refl

abbrev small_tokens : TokenDto
small_tokens = record {
  access_token = "access";
  token_type = "Bearer";
  expire_in = 3600;
  refresh_token = "rt";
  refresh_expire_in = 86400;
  id_token = "";
  device_id = "";
  refresh_jti = "rj";
  password_expired = false;
  must_change_password = false;
}

abbrev coded : World
coded = record small_world {
  hosted_codes =
      (
        code_key "ac1",
        record {
          value = record {
            client_id = "web";
            user_id = "u1";
            redirect_uri = "https://a";
            state = "";
            code_challenge = "cv";
            token = small_tokens;
            device_id = "d1";
          };
          expires = some 1300;
        },
      )
      ∷ [];
}

abbrev exchange : ExchangeTokenDto
exchange = record {
  grant_type = "authorization_code";
  code = "ac1";
  redirect_uri = "https://a";
  code_verifier = "v";
}

abbrev exchanged : Result ExchangeTokenResult × World
exchanged = exchange_token small_env small_meta exchange coded

abbrev exchange_result : ExchangeTokenResult
exchange_result = record {
  token = record small_tokens { device_id = "d1" };
  user_id = "u1";
  device_id = "d1";
}

exchanges : exchanged ≡ (ok exchange_result, exchanged.1)
unfolding exchange_token redeemable pkce_ok verify_s256 require_app audit trim_space trim_left
    trim_right is_space_code Exec.guard Exec.require Exec.pure Exec.raise Exec.gets Exec.query
    Exec.command Exec.modify Exec.ignore ◌>>=◌ find_by Tenancy.find_app Redis.get_hosted_code
    Redis.del_hosted_code Rows.create_audit Cache.get Cache.lookup Cache.live Cache.del
    Cache.without
exchanges = refl

exchange_token-Redeemed_example : Redeemed small_env small_meta exchange coded exchange_result
exchange_token-Redeemed_example =
    exchange_token-Redeemed small_env small_meta exchange coded exchanged.1 exchange_result
      exchanges

abbrev guarded : Credential
guarded = record {
  user_id = "u1";
  password_hash = "";
  password_updated_at = none;
  mfa_secret = "totp";
  mfa_enabled = true;
  mfa_backup_hashes = [];
  updated_at = 0;
}

abbrev first_factor : LoginDto
first_factor = record {
  method = "phone_otp";
  identity = "13800138000";
  provider = "";
  credential = [];
  client = record { device_id = ""; fingerprint = "" };
  invite_code = "";
}

abbrev guarded_world : World
guarded_world = record small_world { credentials = guarded ∷ [] }

enter-Pends_example :
    Pends small_env small_meta small_app first_factor small_user false guarded_world guarded
      (enter small_env small_meta small_app first_factor small_user false guarded_world)
unfolding find_by mfa_on
enter-Pends_example =
    enter-Pends small_env small_meta small_app first_factor small_user false guarded_world guarded
      refl refl refl
