-- ===== src/Service/OauthFlow.antt =====
-- internal/service/oauth_service.go, and internal/pkg/pkce/pkce.go: the state that ties the return from
-- an OAuth provider to the start of the login, and the proof of possession of its code.
pub mod State
pub mod Steadiness
use Prim.Native.String.{◌++◌}
use unified_account_center.Prelude.{
  ℕ, ◌*◌, String, Bool, true, false, not, ◌&&◌, ◌||◌, ◌==◌, Option, none, some, List, if◌then◌else◌,
  is_empty, is_nil,
}
use unified_account_center.Text.{trim_space}
use unified_account_center.Errors.{bad_request, invalid_cred, forbidden_app}
use unified_account_center.World.{Env, OauthStatePayload}
use unified_account_center.Model
use unified_account_center.Model.Session.{App}
use unified_account_center.Exec.{M, pure, guard, require, draw, ◌>>=◌, ◌>>◌}
use unified_account_center.Repo.Redis
use unified_account_center.Service.Apps.{require_app, contains, redirect_allowed}

-- `OAuthStartResult`.
pub record OauthStartResult : Type 0 where
  pub authorize_url : String
  pub state : String

-- `oauthStateTTL`.
abbrev state_ttl : ℕ
state_ttl = 10 * 60

-- `oauthStateKey`.
abbrev pub state_key : String → String
state_key state = "uac:oauth:state:" ++ state

abbrev pub provider_allowed : App → String → Bool
provider_allowed app provider = is_nil app.oauth_providers || contains app.oauth_providers provider

-- `VerifyS256` of internal/pkg/pkce/pkce.go.
unfoldable pub verify_s256 : Env → String → String → Bool
verify_s256 env verifier challenge =
    not (is_empty verifier || is_empty challenge)
    && trim_space (env.challenge_s256 verifier) == trim_space challenge

module _ (env : Env) where
  abbrev given_or_drawn : String → ℕ → String
  given_or_drawn state n = if is_empty state then env.random_hex 16 n else state

  -- `Start`.
  unfoldable pub oauth_start :
      String → String → String → String → String → String → M OauthStartResult
  oauth_start client_id provider redirect_uri given code_challenge bind_user_id = do
    app ← require_app client_id
    guard (contains app.allowed_methods Model.Method.oauth2) forbidden_app
    guard (provider_allowed app provider) forbidden_app
    guard (redirect_allowed app.redirect_uris redirect_uri) bad_request
    guard (not (app.require_pkce && is_empty code_challenge)) bad_request
    guard (env.oauth_known provider) bad_request
    n ← draw
    let state = given_or_drawn given n
    Redis.set_oauth_state (state_key state)
        (record {
          client_id = client_id;
          provider = provider;
          redirect_uri = redirect_uri;
          code_challenge = code_challenge;
          bind_user_id = bind_user_id;
        })
        state_ttl
    pure (record {
      authorize_url = env.oauth_url provider state redirect_uri code_challenge;
      state = state;
    })

-- `ConsumeState`.
unfoldable pub consume_state : String → String → String → String → M OauthStatePayload
consume_state client_id provider state redirect_uri = do
  guard (not (is_empty state)) bad_request
  found ← Redis.take_oauth_state (state_key state)
  payload ← require found invalid_cred
  guard (payload.client_id == client_id) invalid_cred
  guard (payload.provider == provider) invalid_cred
  guard (payload.redirect_uri == redirect_uri) invalid_cred
  pure payload
