-- ===== src/Auth/Password.antt =====
-- internal/authenticator/password.go: a phone number or e-mail address with a password.
use Prim.Native.String.{◌++◌}
use unified_account_center.Prelude.{
  ℕ, ◌*◌, String, Bool, false, not, Option, none, some, leb, is_empty, if◌then◌else◌,
}
use unified_account_center.Errors.{bad_request, invalid_cred, rate_limited}
use unified_account_center.World.{Env}
use unified_account_center.Model.Account.{Identity, Credential}
use unified_account_center.Exec.{M, pure, raise, guard, require, when, ignore, ◌>>=◌, ◌>>◌}
use unified_account_center.Repo.Accounts
use unified_account_center.Repo.Redis
use unified_account_center.Auth.Principal.{field, no_profile, IdentityPrincipal, VerifyRequest}
use unified_account_center.Auth.Otp.{OtpKind, id_type_of, normalize}

-- `failCountAtLeast`.
abbrev at_least : Option ℕ → ℕ → Bool
at_least none limit = false
at_least (some n) limit = leb limit n

unfoldable pub not_blocked : String → ℕ → M (Unit {0})
not_blocked key limit = do n ← Redis.count_of key; guard (not (at_least n limit)) rate_limited

abbrev id_key : String → String
id_key norm = "uac:rl:pwd:fail:id:" ++ norm

abbrev ip_key : String → String
ip_key ip = "uac:rl:pwd:fail:ip:" ++ ip

-- `fail`: count the failure under the identity and the address; errors are dropped.
unfoldable pub count_failure : String → String → M (Unit {0})
count_failure norm ip = do
  ignore (Redis.allow (id_key norm) 10 (15 * 60))
  when (not (is_empty ip)) (ignore (Redis.allow (ip_key ip) 30 (15 * 60)))

unfoldable pub refuse : {A : Type 0} → String → String → M A
refuse norm ip = do count_failure norm ip; raise invalid_cred

-- The credential that a password can match.
abbrev usable : Option Credential → Option Credential
usable none = none
usable (some c) = if is_empty c.password_hash then none else some c

abbrev matches : Option Bool → Bool
matches none = false
matches (some b) = b

module _ (env : Env) (kind : OtpKind) where
  unfoldable pub check_password :
      String → String → String → Identity → Option Credential → M IdentityPrincipal
  check_password norm ip password i none = refuse norm ip
  check_password norm ip password i (some c) =
      if matches (env.verify_password c.password_hash password)
      then (do
        ignore (Redis.del_counter (id_key norm))
        pure (record {
          id_type = id_type_of kind;
          provider = "";
          identifier = norm;
          verified = i.verified;
          profile = record no_profile { user_id = some i.user_id };
        }))
      else refuse norm ip

  unfoldable pub check_identity : String → String → String → Option Identity → M IdentityPrincipal
  check_identity norm ip password none = refuse norm ip
  check_identity norm ip password (some i) = do
    cred ← Accounts.find_credential i.user_id
    check_password norm ip password i (usable cred)

  -- `Verify`.
  unfoldable pub verify : VerifyRequest → M IdentityPrincipal
  unfolding check_identity check_password
  verify req = do
    norm ← require (normalize env kind req.identity) bad_request
    let password = field "password" req.credential
    guard (not (is_empty password)) bad_request
    not_blocked (id_key norm) 10
    when (not (is_empty req.ip)) (not_blocked (ip_key req.ip) 30)
    found ← Accounts.find_identity req.tenant_id (id_type_of kind) "" norm
    check_identity norm req.ip password found
