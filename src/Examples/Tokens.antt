-- ===== src/Examples/Tokens.antt =====
-- A refresh token that rotates, once.
use unified_account_center.Prelude.{◌+◌, ◌≡◌, refl, false, true, some, [], ◌∷◌}
use unified_account_center.Prelude.Rows.{find_by, update_where, count_where, filter_by}
use unified_account_center.Cache
use unified_account_center.Errors.{ok, is_ok, Result}
use unified_account_center.World.{World, TokenDto}
use unified_account_center.Exec
use unified_account_center.Exec.{◌>>=◌}
use unified_account_center.Repo.Tokens as Rows
use unified_account_center.Repo.Accounts
use unified_account_center.Repo.Redis
use unified_account_center.Repo.Tenancy
use unified_account_center.History.{Advances}
use unified_account_center.Service.Apps.{require_app, audit}
use unified_account_center.Service.Roles.{roles_for_user, roles_of}
use unified_account_center.Service.Passwords.{password_expired}
use unified_account_center.Service.Tokens.{
  refresh, spend_refresh, consume_row, reject_reuse, reissue, issue_tokens, issue_access,
  issue_id_token, device_or_new,
}
use unified_account_center.Service.Tokens.Single.{IsSpent, Refreshed, refresh-Refreshed}
use unified_account_center.Service.Traffic.{
  refresh_call, waited, here, after, served, serve, logout_call,
}
use unified_account_center.Service.Traffic.Once.{revoked_refused, rotated_once, Reaches-Advances}
use unified_account_center.Examples.Setting.{small_env, small_world, small_meta, small_token}

abbrev rotated : Result TokenDto × World
rotated = refresh small_env small_meta "first" small_world

abbrev tokens : TokenDto
tokens = record {
  access_token = "access";
  token_type = "Bearer";
  expire_in = 3600;
  refresh_token = "rt_1ab";
  refresh_expire_in = 86400;
  id_token = "id";
  device_id = "d1";
  refresh_jti = "rj_1";
  password_expired = false;
  must_change_password = false;
}

-- The token "first" rotates.
rotates : rotated ≡ (ok tokens, rotated.1)
unfolding refresh spend_refresh consume_row reject_reuse reissue issue_tokens issue_access
    issue_id_token device_or_new require_app audit roles_for_user roles_of password_expired ◌>>=◌
    Exec.guard Exec.require Exec.pure Exec.raise Exec.gets Exec.query Exec.command Exec.modify
    Exec.insert Exec.ignore Exec.draw Exec.when Exec.or_nil Exec.or_default find_by filter_by
    update_where count_where Rows.find_by_hash Rows.consume_active Rows.create Rows.create_audit
    Accounts.find_user Accounts.list_roles Redis.get_user_version Tenancy.find_app Cache.get
    Cache.lookup
rotates = refl

refresh-Refreshed_example : Refreshed small_env small_meta "first" small_world rotated.1
refresh-Refreshed_example =
    refresh-Refreshed small_env small_meta "first" small_world rotated.1 tokens rotates

-- After the rotation the user logs out everywhere, and the old token is tried again.
abbrev later_world : World
later_world = (serve small_env (logout_call small_meta "u1" "" "" true 0) rotated.1).1

rotated_once_example : is_ok (refresh small_env small_meta "first" later_world).0 ≡ false
rotated_once_example =
    rotated_once small_env small_meta small_meta "first" small_world rotated.1 later_world tokens
      rotates (after here (served (logout_call small_meta "u1" "" "" true 0)))

Reaches-Advances_example : Advances rotated.1 later_world
Reaches-Advances_example =
    Reaches-Advances small_env (after here (served (logout_call small_meta "u1" "" "" true 0)))

abbrev revoked_world : World
revoked_world = record small_world {
  refresh_tokens = record small_token { revoked_at = some 900 } ∷ [];
}

is_spent : IsSpent small_env "first" revoked_world
unfolding find_by
is_spent = record {
  row = record small_token { revoked_at = some 900 };
  found = refl;
  revoked = refl;
}

-- The token is tried, which revokes the user's tokens, and a minute passes.
abbrev tried_world : World
tried_world =
    let v = (serve small_env (refresh_call small_meta "first") revoked_world).1 in
    record v { now = v.now + 60 }

revoked_refused_example : is_ok (refresh small_env small_meta "first" tried_world).0 ≡ false
unfolding serve
revoked_refused_example =
    revoked_refused small_env small_meta "first" revoked_world tried_world is_spent
      (after (after here (served (refresh_call small_meta "first"))) (waited 60))
