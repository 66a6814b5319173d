-- ===== src/Service/Traffic.antt =====
-- The traffic on the service: any sequence of its operations, with time passing and commands failing
-- in between.
pub mod Once
use unified_account_center.Prelude.{ℕ, ◌+◌, String, Bool, List}
use unified_account_center.World.{World, Env, TokenDto}
use unified_account_center.Model.Account.{User}
use unified_account_center.Model.Session.{App}
use unified_account_center.Exec.{M, ignore}
use unified_account_center.Auth.Principal.{ChallengeRequest, VerifyRequest}
use unified_account_center.Auth.Registry
use unified_account_center.Service.Apps.{RequestMeta, ClientInfo}
use unified_account_center.Service.Roles
use unified_account_center.Service.Mfa
use unified_account_center.Service.StepUp
use unified_account_center.Service.StepUp.{StepUpDto}
use unified_account_center.Service.Passwords
use unified_account_center.Service.Passwords.{ResetConfirmDto}
use unified_account_center.Service.Tokens
use unified_account_center.Service.Completion
use unified_account_center.Service.Completion.{MfaCompleteDto}
use unified_account_center.Service.Login
use unified_account_center.Service.Login.{ChallengeDto, LoginDto}
use unified_account_center.Service.OauthFlow
use unified_account_center.Service.Binding
use unified_account_center.Service.Binding.{UnbindDto}
use unified_account_center.Service.Profile
use unified_account_center.Service.Profile.{UpdateProfileDto}
use unified_account_center.Service.Hosted
use unified_account_center.Service.Hosted.{IssueHostedCodeDto, ExchangeTokenDto}
use unified_account_center.Service.Merge
use unified_account_center.Service.AdminSession
use unified_account_center.Service.AdminSession.{AdminLoginRequest}
use unified_account_center.Service.Invites
use unified_account_center.Service.Invites.{CreateInviteRequest, CreateUserRequest}
use unified_account_center.Service.Tenants
use unified_account_center.Service.Tenants.{CreateTenantRequest, UpdateTenantRequest}

-- The operations with their arguments.
pub data Call : Type 0 where
  challenge_call : String → ChallengeRequest → Call
  verify_call : String → VerifyRequest → Call
  refresh_call : RequestMeta → String → Call
  logout_call : RequestMeta → String → String → String → Bool → ℕ → Call
  revoke_token_call : String → String → Call
  introspect_call : String → Call
  issue_tokens_call : App → User → ClientInfo → RequestMeta → Call
  step_up_call : RequestMeta → String → StepUpDto → Call
  mfa_setup_call : RequestMeta → String → Call
  mfa_enable_call : RequestMeta → String → String → Call
  mfa_disable_call : RequestMeta → String → String → Call
  mfa_complete_call : RequestMeta → MfaCompleteDto → Call
  set_password_call : RequestMeta → String → String → String → Call
  reset_password_call : RequestMeta → ResetConfirmDto → Call
  assign_role_call : String → String → String → Call
  start_challenge_call : RequestMeta → ChallengeDto → Call
  reset_start_call : RequestMeta → String → String → Call
  login_call : RequestMeta → LoginDto → Call
  oauth_start_call : String → String → String → String → String → String → Call
  bind_call : RequestMeta → String → LoginDto → Call
  unbind_call : RequestMeta → String → UnbindDto → Call
  update_profile_call : String → UpdateProfileDto → Call
  hosted_code_call : RequestMeta → String → TokenDto → String → IssueHostedCodeDto → Call
  exchange_call : RequestMeta → ExchangeTokenDto → Call
  revoke_session_call : RequestMeta → String → String → Call
  revoke_others_call : RequestMeta → String → String → Call
  merge_start_call : RequestMeta → String → LoginDto → Call
  merge_confirm_call : RequestMeta → String → String → Call
  admin_merge_call : String → String → Call
  admin_unlock_call : String → String → Call
  admin_reset_mfa_call : String → Call
  create_tenant_call : CreateTenantRequest → Call
  update_tenant_call : String → UpdateTenantRequest → Call
  default_tenant_call : Call
  app_quota_call : String → Call
  create_invite_call : CreateInviteRequest → Call
  admin_login_call : String → AdminLoginRequest → Call
  revoke_invite_call : String → Call
  create_user_call : CreateUserRequest → Call
  review_call : String → String → String → String → Call

-- An operation, whatever it answers.
unfoldable pub serve : Env → Call → M (Unit {0})
serve env (challenge_call m req) = ignore (Registry.challenge env m req)
serve env (verify_call m req) = ignore (Registry.verify env m req)
serve env (refresh_call meta token) = ignore (Tokens.refresh env meta token)
serve env (logout_call meta user_id jti token all ttl) =
    ignore (Tokens.logout env meta user_id jti token all ttl)
serve env (revoke_token_call token hint) = ignore (Tokens.revoke_token env token hint)
serve env (introspect_call token) = ignore (Tokens.introspect env token)
serve env (issue_tokens_call app user client meta) =
    ignore (Tokens.issue_tokens env app user client meta)
serve env (step_up_call meta user_id dto) = ignore (StepUp.step_up env meta user_id dto)
serve env (mfa_setup_call meta user_id) = ignore (Mfa.mfa_setup env meta user_id)
serve env (mfa_enable_call meta user_id code) = ignore (Mfa.mfa_enable env meta user_id code)
serve env (mfa_disable_call meta user_id token) = ignore (StepUp.mfa_disable meta user_id token)
serve env (mfa_complete_call meta dto) = ignore (Completion.mfa_complete env meta dto)
serve env (set_password_call meta user_id pwd token) =
    ignore (Passwords.set_password env meta user_id pwd token)
serve env (reset_password_call meta dto) = ignore (Passwords.reset_password_confirm env meta dto)
serve env (assign_role_call user_id tenant_id role) =
    ignore (Roles.assign_role user_id tenant_id role)
serve env (start_challenge_call meta dto) = ignore (Login.challenge env meta dto)
serve env (reset_start_call meta method identity) =
    ignore (Login.reset_password_start env meta method identity)
serve env (login_call meta dto) = ignore (Login.login env meta dto)
serve env (oauth_start_call client provider uri state challenge user) =
    ignore (OauthFlow.oauth_start env client provider uri state challenge user)
serve env (bind_call meta user_id dto) = ignore (Binding.bind env meta user_id dto)
serve env (unbind_call meta user_id dto) = ignore (Binding.unbind env meta user_id dto)
serve env (update_profile_call user_id dto) = ignore (Profile.update_profile user_id dto)
serve env (hosted_code_call meta user_id token device dto) =
    ignore (Hosted.issue_hosted_code env meta user_id token device dto)
serve env (exchange_call meta dto) = ignore (Hosted.exchange_token env meta dto)
serve env (revoke_session_call meta user_id jti) = ignore (Hosted.revoke_session meta user_id jti)
serve env (revoke_others_call meta user_id keep) =
    ignore (Hosted.revoke_other_sessions meta user_id keep)
serve env (merge_start_call meta target dto) = ignore (Merge.merge_start env meta target dto)
serve env (merge_confirm_call meta target token) = ignore (Merge.merge_confirm meta target token)
serve env (admin_merge_call target source) = ignore (Merge.admin_merge_users target source)
serve env (admin_unlock_call kind key) = ignore (Merge.admin_unlock kind key)
serve env (admin_reset_mfa_call user_id) = ignore (Merge.admin_reset_mfa user_id)
serve env (create_tenant_call req) = ignore (Tenants.create_tenant env req)
serve env (update_tenant_call tenant_id req) = ignore (Tenants.update_tenant env tenant_id req)
serve env default_tenant_call = ignore (Tenants.ensure_default_tenant)
serve env (app_quota_call tenant_id) = ignore (Tenants.assert_tenant_app_quota tenant_id)
serve env (admin_login_call token req) = ignore (AdminSession.admin_login env token req)
serve env (create_invite_call req) = ignore (Invites.create_invite env req)
serve env (revoke_invite_call code) = ignore (Invites.revoke_invite code)
serve env (create_user_call req) = ignore (Invites.admin_create_user env req)
serve env (review_call id decision reviewer note) =
    ignore (Invites.review_join_request env id decision reviewer note)

-- One step: an operation runs, time passes, or other faults lie ahead.
pub data Step (env : Env) : World → World → Type 0 where
  served : {w : World} (c : Call) → Step env w (serve env c w).1
  waited : {w : World} (d : ℕ) → Step env w (record w { now = w.now + d })
  faulted : {w : World} (fs : List Bool) → Step env w (record w { faults = fs })

-- The states that any number of steps reaches.
pub data Reaches (env : Env) : World → World → Type 0 where
  here : {w : World} → Reaches env w w
  after : {u v w : World} → Reaches env u v → Step env v w → Reaches env u w
