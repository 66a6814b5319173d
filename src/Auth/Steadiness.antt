-- ===== src/Auth/Steadiness.antt =====
-- No login method takes anything back.
use unified_account_center.Prelude.{ℕ, String, Option, none, some}
use unified_account_center.World.{Env}
use unified_account_center.Model.Account.{Identity, Credential}
use unified_account_center.History.Rules.{Steady}
use unified_account_center.History.Stores.{steady_stores}
use unified_account_center.Auth.Principal.{ChallengeRequest, VerifyRequest}
use unified_account_center.Auth.Otp.{OtpKind}
use unified_account_center.Auth.Otp.Steadiness
use unified_account_center.Auth.Password
use unified_account_center.Auth.Registry

Steady-count_failure : (norm ip : String) → Steady (Password.count_failure norm ip)
unfolding Password.count_failure
Steady-count_failure norm ip = search steady_stores

Steady-refuse : {A : Type 0} (norm ip : String) → Steady (Password.refuse {A = A} norm ip)
unfolding Password.refuse
Steady-refuse norm ip = search (steady_stores, Steady-count_failure)

Steady-not_blocked : (key : String) (limit : ℕ) → Steady (Password.not_blocked key limit)
unfolding Password.not_blocked
Steady-not_blocked key limit = search steady_stores

module _ (env : Env) (kind : OtpKind) where
  Steady-check_password :
      (norm ip password : String) (i : Identity) (o : Option Credential)
      → Steady (Password.check_password env kind norm ip password i o)
  unfolding Password.check_password
  Steady-check_password norm ip password i none = Steady-refuse norm ip
  Steady-check_password norm ip password i (some c) = search (steady_stores, Steady-refuse) depth 8

  Steady-check_identity :
      (norm ip password : String) (o : Option Identity)
      → Steady (Password.check_identity env kind norm ip password o)
  unfolding Password.check_identity
  Steady-check_identity norm ip password none = Steady-refuse norm ip
  Steady-check_identity norm ip password (some i) = search (steady_stores, Steady-check_password)

  Steady-verify_password : (req : VerifyRequest) → Steady (Password.verify env kind req)
  unfolding Password.verify
  Steady-verify_password req =
      search (steady_stores, Steady-not_blocked, Steady-check_identity) depth 12

module _ (env : Env) where
  Steady-verify_oauth : (req : VerifyRequest) → Steady (Registry.verify_oauth env req)
  unfolding Registry.verify_oauth
  Steady-verify_oauth req = search steady_stores depth 12

  pub Steady-verify : (m : String) (req : VerifyRequest) → Steady (Registry.verify env m req)
  unfolding Registry.verify
  Steady-verify m req =
      search (steady_stores, Steadiness.Steady-verify, Steady-verify_password, Steady-verify_oauth)
        depth 8

  pub Steady-challenge :
      (m : String) (req : ChallengeRequest) → Steady (Registry.challenge env m req)
  unfolding Registry.challenge
  Steady-challenge m req = search (steady_stores, Steadiness.Steady-challenge) depth 8

pub ruleset auth_rules = (steady_stores, Steady-verify, Steady-challenge)
