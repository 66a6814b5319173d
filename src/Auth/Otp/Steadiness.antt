-- ===== src/Auth/Otp/Steadiness.antt =====
-- Issuing and verifying codes takes nothing back.
use unified_account_center.Prelude.{String, refl, ℕ}
use unified_account_center.World.{Env}
use unified_account_center.Model.Session.{AuthChallenge}
use unified_account_center.History.{Advances-refl}
use unified_account_center.History.Rules.{Steady, Steady-modify_quiet}
use unified_account_center.History.Stores.{steady_stores}
use unified_account_center.Auth.Principal.{ChallengeRequest, VerifyRequest}
use unified_account_center.Auth.Otp.{
  OtpKind, limit_to, hourly_limits, daily_limits, resend_limit, send_otp, issue, captcha, challenge,
  settle, verify,
}

Steady-limit_to : (key : String) (limit window : ℕ) → Steady (limit_to key limit window)
unfolding limit_to
Steady-limit_to key limit window = search steady_stores

module _ (env : Env) (kind : OtpKind) where
  Steady-hourly_limits : (norm ip : String) → Steady (hourly_limits env kind norm ip)
  unfolding hourly_limits
  Steady-hourly_limits norm ip = search (steady_stores, Steady-limit_to)

  Steady-daily_limits : (norm ip : String) → Steady (daily_limits env kind norm ip)
  unfolding daily_limits
  Steady-daily_limits norm ip = search (steady_stores, Steady-limit_to)

  Steady-resend_limit : (norm : String) → Steady (resend_limit env kind norm)
  unfolding resend_limit
  Steady-resend_limit norm = search steady_stores

  Steady-send_otp : (norm code : String) → Steady (send_otp env kind norm code)
  unfolding send_otp
  Steady-send_otp norm code = Steady-modify_quiet _ (λ w. refl)

  Steady-issue : (req : ChallengeRequest) (norm : String) → Steady (issue env kind req norm)
  unfolding issue
  Steady-issue req norm = search (steady_stores, Steady-send_otp) depth 12

  Steady-captcha : (token ip : String) → Steady (captcha env kind token ip)
  unfolding captcha
  Steady-captcha token ip = record { at = Advances-refl }

  pub Steady-challenge : (req : ChallengeRequest) → Steady (challenge env kind req)
  unfolding challenge
  Steady-challenge req =
      search
        (
          steady_stores, Steady-captcha, Steady-hourly_limits, Steady-daily_limits,
          Steady-resend_limit, Steady-issue,
        )
        depth 12

  Steady-settle :
      (ch : AuthChallenge) (id otp : String) (now : ℕ) → Steady (settle env kind ch id otp now)
  unfolding settle
  Steady-settle ch id otp now = search steady_stores

  pub Steady-verify : (req : VerifyRequest) → Steady (verify env kind req)
  unfolding verify
  Steady-verify req = search (steady_stores, Steady-settle) depth 12
