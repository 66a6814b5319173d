-- ===== src/Repo/Redis.antt =====
-- internal/pkg/redisx/redisx.go as the services call it: each prefix of keys is a field of the state.
pub mod Taken
use unified_account_center.Prelude.{
  ℕ, ◌*◌, String, Bool, true, Option, none, some, nat_eq, is_some, if◌then◌else◌,
}
use Prim.Native.String.{◌++◌}
use unified_account_center.Cache
use unified_account_center.Cache.{value_of, alive}
use unified_account_center.World.{
  World, StepUpPayload, MfaPendingPayload, MergePayload, HostedCodePayload, OauthStatePayload,
}
use unified_account_center.Exec.{
  M, pure, command, query, modify, when, ignore, fall_back, ◌>>=◌, ◌>>◌,
}

-- `Allow`.
unfoldable pub allow : String → ℕ → ℕ → M Bool
allow key limit window = command λ w.
    let (passed, c) = Cache.allow w.now key limit window w.counters in
    (passed, record w { counters = c })

-- GET of a counter.
unfoldable pub count_of : String → M (Option ℕ)
count_of key = query λ w. Cache.get w.now key w.counters

unfoldable pub del_counter : String → M (Unit {0})
del_counter key = modify λ w. record w { counters = Cache.del key w.counters }

-- `SetNX`.
unfoldable pub set_nx : String → ℕ → M Bool
set_nx key ttl =
    command
      λ w. let (set, c) = Cache.set_nx w.now key true ttl w.flags in (set, record w { flags = c })

unfoldable pub set_flag : String → ℕ → M (Unit {0})
set_flag key ttl = modify λ w. record w { flags = Cache.put w.now key true ttl w.flags }

unfoldable pub get_flag : String → M Bool
get_flag key = query λ w. Cache.exists w.now key w.flags

unfoldable pub del_flag : String → M (Unit {0})
del_flag key = modify λ w. record w { flags = Cache.del key w.flags }

-- `BlacklistAccess`, `IsAccessBlacklisted`.
unfoldable pub blacklist_access : String → ℕ → M (Unit {0})
unfolding set_flag
blacklist_access jti ttl = set_flag ("uac:bl:at:" ++ jti) ttl

unfoldable pub is_access_blacklisted : String → M Bool
unfolding get_flag
is_access_blacklisted jti = get_flag ("uac:bl:at:" ++ jti)

-- `BlacklistUserAccess`, `IsUserAccessBlacklisted`.
unfoldable pub blacklist_user_access : String → ℕ → M (Unit {0})
unfolding set_flag
blacklist_user_access user_id ttl =
    set_flag ("uac:bl:user:" ++ user_id) (if nat_eq ttl 0 then 2 * 3600 else ttl)

unfoldable pub is_user_access_blacklisted : String → M Bool
unfolding get_flag
is_user_access_blacklisted user_id = get_flag ("uac:bl:user:" ++ user_id)

-- `BumpUserVersion`, `GetUserVersion`; the keys "uac:uv:" are a cache of their own.
unfoldable pub bump_user_version : String → M ℕ
bump_user_version user_id =
    command λ w. let (n, c) = Cache.incr w.now user_id w.versions in (n, record w { versions = c })

abbrev or_zero : Option ℕ → ℕ
or_zero none = 0
or_zero (some n) = n

unfoldable pub get_user_version : String → M ℕ
get_user_version user_id = query λ w. or_zero (Cache.get w.now user_id w.versions)

-- `GetDelJSON` on the keys of one prefix: where GETDEL fails, GET and then DEL, whose error is dropped.
module _ {V : Type 0} (read : World → Cache.Cache V) (write : World → Cache.Cache V → World) where
  unfoldable pub drop_key : String → Bool → M (Unit {0})
  drop_key key there = when there (ignore (modify λ w. write w (Cache.del key (read w))))

  unfoldable pub get_then_del : String → M (Option V)
  unfolding drop_key
  get_then_del key = do
    v ← query (λ w. Cache.get w.now key (read w))
    drop_key key (is_some v)
    pure v

  unfoldable pub get_del_json : String → M (Option V)
  unfolding get_then_del
  get_del_json key =
      fall_back (command λ w. let (v, c) = Cache.get_del w.now key (read w) in (v, write w c))
        (get_then_del key)

unfoldable pub set_step_up : String → StepUpPayload → ℕ → M (Unit {0})
set_step_up key v ttl = modify λ w. record w { step_ups = Cache.put w.now key v ttl w.step_ups }

abbrev pub with_step_ups : World → Cache.Cache StepUpPayload → World
with_step_ups w c = record w { step_ups = c }

unfoldable pub take_step_up : String → M (Option StepUpPayload)
unfolding get_del_json
take_step_up key = get_del_json (λ w. w.step_ups) with_step_ups key

unfoldable pub set_mfa_session : String → MfaPendingPayload → ℕ → M (Unit {0})
set_mfa_session key v ttl =
    modify λ w. record w { mfa_sessions = Cache.put w.now key v ttl w.mfa_sessions }

abbrev pub with_mfa_sessions : World → Cache.Cache MfaPendingPayload → World
with_mfa_sessions w c = record w { mfa_sessions = c }

unfoldable pub take_mfa_session : String → M (Option MfaPendingPayload)
unfolding get_del_json
take_mfa_session key = get_del_json (λ w. w.mfa_sessions) with_mfa_sessions key

unfoldable pub set_merge : String → MergePayload → ℕ → M (Unit {0})
set_merge key v ttl = modify λ w. record w { merges = Cache.put w.now key v ttl w.merges }

abbrev pub with_merges : World → Cache.Cache MergePayload → World
with_merges w c = record w { merges = c }

unfoldable pub take_merge : String → M (Option MergePayload)
unfolding get_del_json
take_merge key = get_del_json (λ w. w.merges) with_merges key

unfoldable pub set_hosted_code : String → HostedCodePayload → ℕ → M (Unit {0})
set_hosted_code key v ttl =
    modify λ w. record w { hosted_codes = Cache.put w.now key v ttl w.hosted_codes }

unfoldable pub get_hosted_code : String → M (Option HostedCodePayload)
get_hosted_code key = query λ w. Cache.get w.now key w.hosted_codes

unfoldable pub del_hosted_code : String → M (Unit {0})
del_hosted_code key = modify λ w. record w { hosted_codes = Cache.del key w.hosted_codes }

unfoldable pub set_oauth_state : String → OauthStatePayload → ℕ → M (Unit {0})
set_oauth_state key v ttl =
    modify λ w. record w { oauth_states = Cache.put w.now key v ttl w.oauth_states }

abbrev pub with_oauth_states : World → Cache.Cache OauthStatePayload → World
with_oauth_states w c = record w { oauth_states = c }

unfoldable pub take_oauth_state : String → M (Option OauthStatePayload)
unfolding get_del_json
take_oauth_state key = get_del_json (λ w. w.oauth_states) with_oauth_states key
