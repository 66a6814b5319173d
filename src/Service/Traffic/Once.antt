-- ===== src/Service/Traffic/Once.antt =====
-- What holds of all later traffic.
use unified_account_center.Prelude.{ℕ, ◌+◌, ◌≡◌, refl, arith, false, some, String}
use unified_account_center.Errors.{ok, is_ok}
use unified_account_center.World.{World, Env, TokenDto}
use unified_account_center.History.{Advances, Advances-refl, Advances-trans, Advances-quiet}
use unified_account_center.History.Rules.{Steady, Steady-ignore}
use unified_account_center.Auth.Principal.{field, IdentityPrincipal, VerifyRequest}
use unified_account_center.Auth.Otp.{OtpKind}
use unified_account_center.Auth.Otp
use unified_account_center.Auth.Otp.Attempts.{IsDead, verify_dead, verify_once}
use unified_account_center.Auth.Otp.Verify.{has_id}
use unified_account_center.Prelude.Rows.{find_by}
use unified_account_center.Model.Session.{AuthChallenge}
use unified_account_center.Auth.Steadiness as Methods
use unified_account_center.Service.Steadiness as Services
use unified_account_center.Service.Completion.Steadiness as Completions
use unified_account_center.Service.Login.Steadiness as Logins
use unified_account_center.Service.OauthFlow.Steadiness as Flows
use unified_account_center.Service.Binding.Steadiness as Bindings
use unified_account_center.Service.Profile.Steadiness as Profiles
use unified_account_center.Service.Hosted.Steadiness as Hosteds
use unified_account_center.Service.Merge.Steadiness as Merges
use unified_account_center.Service.AdminSession.Steadiness as Admins
use unified_account_center.Service.Invites.Steadiness as Invitations
use unified_account_center.Service.Tenants.Steadiness as Tenant
use unified_account_center.Service.Apps.{RequestMeta}
use unified_account_center.Service.Tokens.{refresh}
use unified_account_center.Service.Tokens.Single.{IsSpent, refresh_revoked, refresh_once}
use unified_account_center.Service.Traffic.{
  Call, serve, Step, served, waited, faulted, Reaches, here, after, challenge_call, verify_call,
  refresh_call, logout_call, revoke_token_call, introspect_call, issue_tokens_call, step_up_call,
  mfa_setup_call, mfa_enable_call, mfa_disable_call, mfa_complete_call, set_password_call,
  reset_password_call, assign_role_call, start_challenge_call, reset_start_call, login_call,
  oauth_start_call, bind_call, unbind_call, update_profile_call, hosted_code_call, exchange_call,
  revoke_session_call, revoke_others_call, merge_start_call, merge_confirm_call, admin_merge_call,
  admin_unlock_call, admin_reset_mfa_call, create_tenant_call, update_tenant_call,
  default_tenant_call, app_quota_call, create_invite_call, admin_login_call, revoke_invite_call,
  create_user_call, review_call,
}

Steady-serve : (env : Env) (c : Call) → Steady (serve env c)
unfolding serve
Steady-serve env (challenge_call m req) = Steady-ignore _ (Methods.Steady-challenge env m req)
Steady-serve env (verify_call m req) = Steady-ignore _ (Methods.Steady-verify env m req)
Steady-serve env (refresh_call meta token) =
    Steady-ignore _ (Services.Steady-refresh env meta token)
Steady-serve env (logout_call meta user_id jti token all ttl) =
    Steady-ignore _ (Services.Steady-logout env meta user_id jti token all ttl)
Steady-serve env (revoke_token_call token hint) =
    Steady-ignore _ (Services.Steady-revoke_token env token hint)
Steady-serve env (introspect_call token) = Steady-ignore _ (Services.Steady-introspect env token)
Steady-serve env (issue_tokens_call app user client meta) =
    Steady-ignore _ (Services.Steady-issue_tokens env app user client meta)
Steady-serve env (step_up_call meta user_id dto) =
    Steady-ignore _ (Services.Steady-step_up env meta user_id dto)
Steady-serve env (mfa_setup_call meta user_id) =
    Steady-ignore _ (Services.Steady-mfa_setup env meta user_id)
Steady-serve env (mfa_enable_call meta user_id code) =
    Steady-ignore _ (Services.Steady-mfa_enable env meta user_id code)
Steady-serve env (mfa_disable_call meta user_id token) =
    Steady-ignore _ (Services.Steady-mfa_disable meta user_id token)
Steady-serve env (mfa_complete_call meta dto) =
    Steady-ignore _ (Completions.Steady-mfa_complete env meta dto)
Steady-serve env (set_password_call meta user_id pwd token) =
    Steady-ignore _ (Services.Steady-set_password env meta user_id pwd token)
Steady-serve env (reset_password_call meta dto) =
    Steady-ignore _ (Services.Steady-reset_password_confirm env meta dto)
Steady-serve env (assign_role_call user_id tenant_id role) =
    Steady-ignore _ (Services.Steady-assign_role user_id tenant_id role)
Steady-serve env (start_challenge_call meta dto) =
    Steady-ignore _ (Logins.Steady-challenge env meta dto)
Steady-serve env (reset_start_call meta method identity) =
    Steady-ignore _ (Logins.Steady-reset_password_start env meta method identity)
Steady-serve env (login_call meta dto) = Steady-ignore _ (Logins.Steady-login env meta dto)
Steady-serve env (oauth_start_call client provider uri state challenge user) =
    Steady-ignore _ (Flows.Steady-oauth_start env client provider uri state challenge user)
Steady-serve env (bind_call meta user_id dto) =
    Steady-ignore _ (Bindings.Steady-bind env meta user_id dto)
Steady-serve env (unbind_call meta user_id dto) =
    Steady-ignore _ (Bindings.Steady-unbind env meta user_id dto)
Steady-serve env (update_profile_call user_id dto) =
    Steady-ignore _ (Profiles.Steady-update_profile user_id dto)
Steady-serve env (hosted_code_call meta user_id token device dto) =
    Steady-ignore _ (Hosteds.Steady-issue_hosted_code meta env user_id token device dto)
Steady-serve env (exchange_call meta dto) =
    Steady-ignore _ (Hosteds.Steady-exchange_token meta env dto)
Steady-serve env (revoke_session_call meta user_id jti) =
    Steady-ignore _ (Hosteds.Steady-revoke_session meta user_id jti)
Steady-serve env (revoke_others_call meta user_id keep) =
    Steady-ignore _ (Hosteds.Steady-revoke_other_sessions meta user_id keep)
Steady-serve env (merge_start_call meta target dto) =
    Steady-ignore _ (Merges.Steady-merge_start env meta target dto)
Steady-serve env (merge_confirm_call meta target token) =
    Steady-ignore _ (Merges.Steady-merge_confirm meta target token)
Steady-serve env (admin_merge_call target source) =
    Steady-ignore _ (Merges.Steady-admin_merge_users target source)
Steady-serve env (admin_unlock_call kind key) =
    Steady-ignore _ (Merges.Steady-admin_unlock kind key)
Steady-serve env (admin_reset_mfa_call user_id) =
    Steady-ignore _ (Merges.Steady-admin_reset_mfa user_id)
Steady-serve env (create_tenant_call req) = Steady-ignore _ (Tenant.Steady-create_tenant env req)
Steady-serve env (update_tenant_call tenant_id req) =
    Steady-ignore _ (Tenant.Steady-update_tenant env tenant_id req)
Steady-serve env default_tenant_call = Steady-ignore _ Tenant.Steady-ensure_default_tenant
Steady-serve env (app_quota_call tenant_id) =
    Steady-ignore _ (Tenant.Steady-assert_tenant_app_quota tenant_id)
Steady-serve env (admin_login_call token req) =
    Steady-ignore _ (Admins.Steady-admin_login env token req)
Steady-serve env (create_invite_call req) =
    Steady-ignore _ (Invitations.Steady-create_invite env req)
Steady-serve env (revoke_invite_call code) = Steady-ignore _ (Invitations.Steady-revoke_invite code)
Steady-serve env (create_user_call req) =
    Steady-ignore _ (Invitations.Steady-admin_create_user env req)
Steady-serve env (review_call id decision reviewer note) =
    Steady-ignore _ (Invitations.Steady-review_join_request env id decision reviewer note)

waited-Advances : (w : World) (d : ℕ) → Advances w (record w { now = w.now + d })
waited-Advances w d =
    let r = Advances-refl w in
    record {
      clock = omega arith;
      draws = r.draws;
      tokens = r.tokens;
      challenges = r.challenges;
      audits = r.audits;
    }

Step-Advances : (env : Env) {v w : World} → Step env v w → Advances v w
Step-Advances env {v} (served c) = (Steady-serve env c).at v
Step-Advances env {v} (waited d) = waited-Advances v d
Step-Advances env {v} (faulted fs) = Advances-quiet v _ refl

-- No sequence of operations, whatever fails in it, takes back a revocation of a refresh token, the
-- consumption of a challenge, a counted try or an audit record, or turns the clock back.
pub Reaches-Advances : (env : Env) {v w : World} → Reaches env v w → Advances v w
Reaches-Advances env {v} here = Advances-refl v
Reaches-Advances env {v} (after {v = u} {w = w} r s) =
    Advances-trans v u w (Reaches-Advances env r) (Step-Advances env s)

-- A refresh token rotates once: after a refresh that succeeded, no traffic on the service makes the same
-- token good again, at any application.
pub rotated_once :
    (env : Env) (meta again : RequestMeta) (token : String) (w w' v : World) (t : TokenDto)
    → refresh env meta token w ≡ (ok t, w')
    → Reaches env w' v
    → is_ok (refresh env again token v).0 ≡ false
rotated_once env meta again token w w' v t h r =
    refresh_once env meta again token w w' v t h (Reaches-Advances env r)

-- A one-time code verifies once: after a Verify that succeeded, no traffic on the service makes the
-- challenge good again, for any code and under either method.
pub verified_once :
    (env : Env) (kind other : OtpKind) (req again : VerifyRequest) (w w' v : World)
    (p : IdentityPrincipal)
    → Otp.verify env kind req w ≡ (ok p, w')
    → field "challenge_id" again.credential ≡ field "challenge_id" req.credential
    → Reaches env w' v
    → is_ok (Otp.verify env other again v).0 ≡ false
verified_once env kind other req again w w' v p h same r =
    verify_once env kind other req again w w' v p h same (Reaches-Advances env r)

-- A refresh token whose row is revoked is refused from then on at every application, after any sequence
-- of the modelled operations, with time passing and commands failing in between.
pub revoked_refused :
    (env : Env) (meta : RequestMeta) (token : String) (w v : World)
    → IsSpent env token w
    → Reaches env w v
    → is_ok (refresh env meta token v).0 ≡ false
revoked_refused env meta token w v s r =
    refresh_revoked env meta token w v s (Reaches-Advances env r)

-- A challenge that is consumed, or has as many tries as are allowed, refuses every code under either
-- method, after any sequence of the modelled operations, with time passing and commands failing in between.
pub dead_refused :
    (env : Env) (kind : OtpKind) (req : VerifyRequest) (w v : World) (ch : AuthChallenge)
    → find_by (has_id (field "challenge_id" req.credential)) w.challenges ≡ some ch
    → IsDead env ch
    → Reaches env w v
    → is_ok (Otp.verify env kind req v).0 ≡ false
dead_refused env kind req w v ch found dead r =
    verify_dead env kind req w v ch found dead (Reaches-Advances env r)
