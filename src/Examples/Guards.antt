-- ===== src/Examples/Guards.antt =====
-- A request that carries a token, the same after a logout, and a request to join that is reviewed twice.
use unified_account_center.Prelude.{◌≡◌, refl, true, false, some, [], ◌∷◌, arith}
use unified_account_center.Prelude.Rows.{find_by, update_where}
use unified_account_center.Text.{trim_space, trim_left, trim_right, is_space_code, has_prefix}
use unified_account_center.Cache
use unified_account_center.Errors.{ok, is_ok}
use unified_account_center.World.{World, Env, Claims}
use unified_account_center.Model.Tenancy.{JoinRequest}
use unified_account_center.Exec
use unified_account_center.Exec.{◌>>=◌}
use unified_account_center.Exec.Inversion.{facing}
use unified_account_center.Repo.Redis
use unified_account_center.Repo.Tenancy
use unified_account_center.Service.StepUp.Single.{later}
use unified_account_center.Service.Invites.{decide, review_join_request}
use unified_account_center.Service.Invites.Review.{review_once}
use unified_account_center.Middleware.{Request, password_change_allowed, claims_good, user_auth}
use unified_account_center.Middleware.Passed.{Passed, user_auth-Passed, blacklisted_refused}
use unified_account_center.Examples.Setting.{small_env, small_world}

abbrev small_claims : Claims
small_claims = record {
  user_id = "u1";
  client_id = "web";
  tenant_id = "default";
  roles = "user" ∷ [];
  scope = "user" ∷ [];
  must_change_password = true;
  user_version = 0;
  expires_at = 4600;
  jti = "at_1";
}

abbrev reading : Env
reading = record small_env { parse_access = λ token now. some small_claims }

abbrev me_request : Request
me_request = record {
  authorization = "Bearer access";
  admin_token = "";
  client_id = "web";
  client_secret = "";
  path = "/api/v1/auth/me";
}

passes : user_auth reading me_request small_world ≡ (ok small_claims, small_world)
unfolding user_auth claims_good has_prefix password_change_allowed ◌>>=◌ Exec.guard Exec.require
    Exec.pure Exec.raise Exec.gets Exec.query Exec.command Exec.or_default
    Redis.is_access_blacklisted Redis.get_flag Redis.is_user_access_blacklisted
    Redis.get_user_version Cache.exists Cache.get Cache.lookup
passes = refl

user_auth-Passed_example : Passed reading me_request small_world small_claims
user_auth-Passed_example =
    user_auth-Passed reading me_request small_world small_world small_claims passes

abbrev logged_out : World
logged_out = record small_world {
  flags = ("uac:bl:at:at_1", record { value = true; expires = some 4600 }) ∷ [];
}

lists_token : Redis.blacklist_access "at_1" 3600 small_world ≡ (ok tt, logged_out)
unfolding Redis.blacklist_access Redis.set_flag Exec.modify Exec.command Cache.put Cache.without
lists_token = refl

-- A minute later, with a command that fails.
blacklisted_refused_example :
    is_ok (user_auth reading me_request (facing (later 60 logged_out) (true ∷ []))).0 ≡ false
blacklisted_refused_example =
    blacklisted_refused reading me_request small_claims 3600 60 (true ∷ []) small_world logged_out
      lists_token refl (omega arith)

abbrev waiting : JoinRequest
waiting = record {
  request_id = "jr_1";
  tenant_id = "default";
  client_id = "web";
  method = "";
  profile_name = "";
  identity = "w1";
  provider = "wechat";
  id_type = "oauth";
  identifier = "w1";
  status = "pending";
  reviewer = "";
  note = "";
}

abbrev asked : World
asked = record small_world { joins = waiting ∷ [] }

abbrev turned_down : World
turned_down = record small_world {
  joins = record waiting { status = "rejected"; reviewer = "admin"; note = "no" } ∷ [];
}

rejects : review_join_request small_env "jr_1" "reject" "admin" "no" asked ≡ (ok tt, turned_down)
unfolding review_join_request decide trim_space trim_left trim_right is_space_code ◌>>=◌ Exec.guard
    Exec.require Exec.pure Exec.raise Exec.query Exec.command Exec.modify Exec.or_nil find_by
    update_where Tenancy.find_join Tenancy.update_join
rejects = refl

-- An hour later the request is approved in vain.
review_once_example :
    is_ok (review_join_request small_env "jr_1" "approve" "other" "" (later 3600 turned_down)).0
    ≡ false
review_once_example =
    review_once small_env "jr_1" "reject" "admin" "no" "approve" "other" "" 3600 asked turned_down
      rejects
