-- ===== src/History/Stores/Redis.antt =====
-- The statements of internal/pkg/redisx take nothing back.
use unified_account_center.Prelude.{ℕ, String, ◌≡◌, refl}
use unified_account_center.World.{
  World, StepUpPayload, MfaPendingPayload, MergePayload, HostedCodePayload, OauthStatePayload,
}
use unified_account_center.Cache.{Cache}
use unified_account_center.History.{core, Advances-quiet}
use unified_account_center.History.Rules.{
  Steady, Steady-query, Steady-fall_back, Steady-bind, Steady-when, Steady-ignore, Steady-pure,
  Steady-modify_quiet, Steady-command,
}
use unified_account_center.Repo.Redis

pub Steady-count_of : (key : String) → Steady (Redis.count_of key)
unfolding Redis.count_of
Steady-count_of key = Steady-query _

pub Steady-get_flag : (key : String) → Steady (Redis.get_flag key)
unfolding Redis.get_flag
Steady-get_flag key = Steady-query _

pub Steady-get_user_version : (user_id : String) → Steady (Redis.get_user_version user_id)
unfolding Redis.get_user_version
Steady-get_user_version user_id = Steady-query _

pub Steady-get_hosted_code : (key : String) → Steady (Redis.get_hosted_code key)
unfolding Redis.get_hosted_code
Steady-get_hosted_code key = Steady-query _

pub Steady-del_counter : (key : String) → Steady (Redis.del_counter key)
unfolding Redis.del_counter
Steady-del_counter key = Steady-modify_quiet _ (λ w. refl)

pub Steady-set_flag : (key : String) (ttl : ℕ) → Steady (Redis.set_flag key ttl)
unfolding Redis.set_flag
Steady-set_flag key ttl = Steady-modify_quiet _ (λ w. refl)

pub Steady-del_flag : (key : String) → Steady (Redis.del_flag key)
unfolding Redis.del_flag
Steady-del_flag key = Steady-modify_quiet _ (λ w. refl)

pub Steady-set_step_up :
    (key : String) (v : StepUpPayload) (ttl : ℕ) → Steady (Redis.set_step_up key v ttl)
unfolding Redis.set_step_up
Steady-set_step_up key v ttl = Steady-modify_quiet _ (λ w. refl)

pub Steady-set_mfa_session :
    (key : String) (v : MfaPendingPayload) (ttl : ℕ) → Steady (Redis.set_mfa_session key v ttl)
unfolding Redis.set_mfa_session
Steady-set_mfa_session key v ttl = Steady-modify_quiet _ (λ w. refl)

pub Steady-set_merge :
    (key : String) (v : MergePayload) (ttl : ℕ) → Steady (Redis.set_merge key v ttl)
unfolding Redis.set_merge
Steady-set_merge key v ttl = Steady-modify_quiet _ (λ w. refl)

pub Steady-set_hosted_code :
    (key : String) (v : HostedCodePayload) (ttl : ℕ) → Steady (Redis.set_hosted_code key v ttl)
unfolding Redis.set_hosted_code
Steady-set_hosted_code key v ttl = Steady-modify_quiet _ (λ w. refl)

pub Steady-del_hosted_code : (key : String) → Steady (Redis.del_hosted_code key)
unfolding Redis.del_hosted_code
Steady-del_hosted_code key = Steady-modify_quiet _ (λ w. refl)

pub Steady-set_oauth_state :
    (key : String) (v : OauthStatePayload) (ttl : ℕ) → Steady (Redis.set_oauth_state key v ttl)
unfolding Redis.set_oauth_state
Steady-set_oauth_state key v ttl = Steady-modify_quiet _ (λ w. refl)

pub Steady-allow : (key : String) (limit window : ℕ) → Steady (Redis.allow key limit window)
unfolding Redis.allow
Steady-allow key limit window = Steady-command _ (λ w. Advances-quiet _ _ refl)

pub Steady-set_nx : (key : String) (ttl : ℕ) → Steady (Redis.set_nx key ttl)
unfolding Redis.set_nx
Steady-set_nx key ttl = Steady-command _ (λ w. Advances-quiet _ _ refl)

pub Steady-bump_user_version : (user_id : String) → Steady (Redis.bump_user_version user_id)
unfolding Redis.bump_user_version
Steady-bump_user_version user_id = Steady-command _ (λ w. Advances-quiet _ _ refl)

Steady-get_del_json :
    {V : Type 0} (read : World → Cache V) (write : World → Cache V → World) (key : String)
    → ((w : World) (c : Cache V) → core (write w c) ≡ core w)
    → Steady (Redis.get_del_json read write key)
unfolding Redis.get_del_json Redis.get_then_del Redis.drop_key
Steady-get_del_json read write key h =
    Steady-fall_back _ _ (Steady-command _ (λ w. Advances-quiet _ _ (h w _))) (
      Steady-bind _ _ (Steady-query _) λ v.
        Steady-bind _ _ (Steady-when _ _ (Steady-ignore _ (Steady-modify_quiet _ (λ w. h w _))))
          (λ _. Steady-pure v))

pub Steady-take_step_up : (key : String) → Steady (Redis.take_step_up key)
unfolding Redis.take_step_up
Steady-take_step_up key =
    Steady-get_del_json (λ w. w.step_ups) Redis.with_step_ups key (λ w c. refl)

pub Steady-take_mfa_session : (key : String) → Steady (Redis.take_mfa_session key)
unfolding Redis.take_mfa_session
Steady-take_mfa_session key =
    Steady-get_del_json (λ w. w.mfa_sessions) Redis.with_mfa_sessions key (λ w c. refl)

pub Steady-take_merge : (key : String) → Steady (Redis.take_merge key)
unfolding Redis.take_merge
Steady-take_merge key = Steady-get_del_json (λ w. w.merges) Redis.with_merges key (λ w c. refl)

pub Steady-take_oauth_state : (key : String) → Steady (Redis.take_oauth_state key)
unfolding Redis.take_oauth_state
Steady-take_oauth_state key =
    Steady-get_del_json (λ w. w.oauth_states) Redis.with_oauth_states key (λ w c. refl)

pub Steady-blacklist_access : (jti : String) (ttl : ℕ) → Steady (Redis.blacklist_access jti ttl)
unfolding Redis.blacklist_access
Steady-blacklist_access jti ttl = Steady-set_flag _ ttl

pub Steady-is_access_blacklisted : (jti : String) → Steady (Redis.is_access_blacklisted jti)
unfolding Redis.is_access_blacklisted
Steady-is_access_blacklisted jti = Steady-get_flag _

pub Steady-is_user_access_blacklisted :
    (user_id : String) → Steady (Redis.is_user_access_blacklisted user_id)
unfolding Redis.is_user_access_blacklisted
Steady-is_user_access_blacklisted user_id = Steady-get_flag _

pub ruleset redis_rules = (
  Steady-count_of, Steady-get_flag, Steady-get_user_version, Steady-get_hosted_code,
  Steady-del_counter, Steady-set_flag, Steady-del_flag, Steady-set_step_up, Steady-set_mfa_session,
  Steady-set_merge, Steady-set_hosted_code, Steady-del_hosted_code, Steady-set_oauth_state,
  Steady-allow, Steady-set_nx, Steady-bump_user_version, Steady-take_step_up,
  Steady-take_mfa_session, Steady-take_merge, Steady-take_oauth_state, Steady-blacklist_access,
  Steady-is_access_blacklisted, Steady-is_user_access_blacklisted,
)
