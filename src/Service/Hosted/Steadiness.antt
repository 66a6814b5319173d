-- ===== src/Service/Hosted/Steadiness.antt =====
-- The hosted login and the sessions take nothing back.
use unified_account_center.Prelude.{String}
use unified_account_center.World.{Env, TokenDto}
use unified_account_center.History.Rules.{Steady}
use unified_account_center.Service.Apps.{RequestMeta}
use unified_account_center.Service.Steadiness.{service_rules}
use unified_account_center.Service.Hosted.{
  IssueHostedCodeDto, ExchangeTokenDto, issue_hosted_code, exchange_token, revoke_session,
  revoke_other_sessions,
}

module _ (meta : RequestMeta) where
  pub Steady-issue_hosted_code :
      (env : Env) (user_id : String) (token : TokenDto) (device_id : String)
      (dto : IssueHostedCodeDto)
      → Steady (issue_hosted_code env meta user_id token device_id dto)
  unfolding issue_hosted_code
  Steady-issue_hosted_code env user_id token device_id dto = search service_rules depth 16

  pub Steady-exchange_token :
      (env : Env) (dto : ExchangeTokenDto) → Steady (exchange_token env meta dto)
  unfolding exchange_token
  Steady-exchange_token env dto = search service_rules depth 18

  pub Steady-revoke_session : (user_id jti : String) → Steady (revoke_session meta user_id jti)
  unfolding revoke_session
  Steady-revoke_session user_id jti = search service_rules depth 14

  pub Steady-revoke_other_sessions :
      (user_id keep : String) → Steady (revoke_other_sessions meta user_id keep)
  unfolding revoke_other_sessions
  Steady-revoke_other_sessions user_id keep = search service_rules depth 12
