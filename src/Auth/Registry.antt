-- ===== src/Auth/Registry.antt =====
-- internal/authenticator/oauth2.go, and the registry of login methods as internal/app/app.go fills it.
-- The exchange of a code for a profile is an HTTP call to the provider: a parameter.
use unified_account_center.Prelude.{
  String, Bool, true, not, some, is_empty, ◌||◌, ◌==◌, if◌then◌else◌,
}
use unified_account_center.Errors.{bad_request, invalid_cred}
use unified_account_center.World.{Env, OauthInfo}
use unified_account_center.Model
use unified_account_center.Exec.{M, pure, raise, guard, require, ◌>>=◌, ◌>>◌}
use unified_account_center.Auth.Principal.{
  field, no_profile, IdentityPrincipal, ChallengeRequest, ChallengeResult, VerifyRequest,
}
use unified_account_center.Auth.Otp
use unified_account_center.Auth.Otp.{phone, email}
use unified_account_center.Auth.Password

abbrev or_text : String → String → String
or_text s t = if is_empty s then t else s

unfoldable pub oauth_principal : String → OauthInfo → IdentityPrincipal
oauth_principal provider info = record {
  id_type = Model.IdType.oauth;
  provider = provider;
  identifier = info.subject;
  verified = true;
  profile = record no_profile { name = some info.name; avatar = some info.avatar };
}

module _ (env : Env) where
  -- `OAuth2Auth.Verify`.
  unfoldable pub verify_oauth : VerifyRequest → M IdentityPrincipal
  verify_oauth req = do
    let provider = or_text req.provider (field "provider" req.credential)
    guard (not (is_empty provider)) bad_request
    guard (env.oauth_known provider) bad_request
    let code = field "code" req.credential
    let redirect_uri = field "redirect_uri" req.credential
    guard (not (is_empty code || is_empty redirect_uri)) bad_request
    info ←
        require
          (env.oauth_exchange provider code redirect_uri (field "code_verifier" req.credential))
          invalid_cred
    pure (oauth_principal provider info)

  -- Whether `Registry.Get` knows the method.
  unfoldable pub known_method : String → Bool
  known_method m =
      m == Model.Method.phone_otp
      || m == Model.Method.email_otp
      || m == Model.Method.phone_password
      || m == Model.Method.email_password
      || m == Model.Method.oauth2

  -- The method's `Verify`.
  unfoldable pub verify : String → VerifyRequest → M IdentityPrincipal
  verify m req =
      if m == Model.Method.phone_otp
      then Otp.verify env phone req
      else if m == Model.Method.email_otp
      then Otp.verify env email req
      else if m == Model.Method.phone_password
      then Password.verify env phone req
      else if m == Model.Method.email_password
      then Password.verify env email req
      else if m == Model.Method.oauth2
      then verify_oauth req
      else raise bad_request

  -- The method's `Challenge`.
  unfoldable pub challenge : String → ChallengeRequest → M ChallengeResult
  challenge m req =
      if m == Model.Method.phone_otp
      then Otp.challenge env phone req
      else if m == Model.Method.email_otp
      then Otp.challenge env email req
      else if m == Model.Method.phone_password || m == Model.Method.email_password
      then pure (record { challenge_id = ""; expire_in = 0; resend_after = 0; masked_target = "" })
      else raise bad_request
