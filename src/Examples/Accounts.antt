-- ===== src/Examples/Accounts.antt =====
-- Two accounts that become one, an identity that is removed, and a tenant's quota.
use unified_account_center.Prelude.{
  ℕ, ◌+◌, ◌≤◌, ◌≡◌, refl, String, true, false, some, [], ◌∷◌, ◌==◌,
}
use unified_account_center.Prelude.Rows.{
  find_by, filter_by, update_where, delete_where, count_where,
}
use unified_account_center.Text.{trim_space, trim_left, trim_right, is_space_code}
use unified_account_center.Cache
use unified_account_center.Errors.{ok, err, Result, app_error, internal}
use unified_account_center.World.{World}
use unified_account_center.Model.Account.{Identity}
use unified_account_center.Model.Tenancy.{Tenant}
use unified_account_center.Exec
use unified_account_center.Exec.{◌>>=◌}
use unified_account_center.Repo.Accounts
use unified_account_center.Repo.Redis
use unified_account_center.Repo.Tenancy
use unified_account_center.Repo.Tokens as Rows
use unified_account_center.Service.Apps.{require_app, audit}
use unified_account_center.Service.StepUp.{consume_step_up}
use unified_account_center.Service.Binding.{UnbindDto, unbind, remove_one, is_target, canonical}
use unified_account_center.Service.Binding.Last.{of_user, unbind_keeps}
use unified_account_center.Service.Merge.{
  or_rollback, merge_users, merge_body, merge_rest, merge_credentials, inherit, drop_credential,
}
use unified_account_center.Service.Merge.Moved.{merge_users_undone, merge_users-Moved, rows}
use unified_account_center.Service.Tenants.{assert_tenant_app_quota, app_quota, app_room}
use unified_account_center.Service.Tenants.Domains.{Room, assert_tenant_app_quota-Room}
use unified_account_center.Examples.Setting.{small_env, small_world, small_meta, small_user}

abbrev phone_of : ℕ → String → Identity
phone_of n user_id = record {
  id = n;
  tenant_id = "default";
  user_id = user_id;
  id_type = "phone";
  provider = "";
  identifier = "+8613800138000";
  verified = true;
}

abbrev wechat_of : ℕ → String → Identity
wechat_of n user_id = record (phone_of n user_id) {
  id_type = "oauth";
  provider = "wechat";
  identifier = "w1";
}

abbrev two_ways : World
two_ways = record small_world {
  identities = phone_of 1 "u1" ∷ wechat_of 2 "u1" ∷ [];
  step_ups =
      ("su", record { value = record { user_id = "u1"; client_id = "web" }; expires = some 1300 })
      ∷ [];
}

abbrev without_wechat : UnbindDto
without_wechat = record { id_type = "oauth"; provider = "wechat"; value = ""; step_up_token = "su" }

abbrev unbound : Result (Unit {0}) × World
unbound = unbind small_env small_meta "u1" without_wechat two_ways

unbinds : unbound ≡ (ok tt, unbound.1)
unfolding unbind remove_one is_target canonical consume_step_up require_app audit trim_space
    trim_left trim_right is_space_code Exec.guard Exec.require Exec.pure Exec.raise Exec.gets
    Exec.query Exec.command Exec.modify Exec.ignore ◌>>=◌ find_by filter_by delete_where
    Tenancy.find_app Redis.take_step_up Rows.create_audit Accounts.list_identities
    Accounts.delete_identity Cache.get_del Cache.get Cache.lookup Cache.live Cache.without
    Exec.fall_back Redis.get_del_json
unbinds = refl

unbind_keeps_example : 1 ≤ count_where (of_user "u1") unbound.1.identities
unbind_keeps_example =
    unbind_keeps small_env small_meta "u1" without_wechat two_ways unbound.1 refl unbinds

abbrev two_accounts : World
two_accounts = record small_world {
  users = small_user ∷ record small_user { user_id = "u2" } ∷ [];
  identities = phone_of 1 "u1" ∷ wechat_of 2 "u2" ∷ [];
}

abbrev merged : Result (Unit {0}) × World
merged = merge_users "default" "u1" "u2" two_accounts

merges : merged ≡ (ok tt, merged.1)
unfolding merge_users merge_credentials inherit drop_credential Exec.begin Exec.rollback Exec.commit
    Exec.on_error or_rollback merge_rest merge_body Exec.guard Exec.require Exec.pure Exec.raise
    Exec.gets Exec.query Exec.command Exec.modify Exec.ignore Exec.or_nil ◌>>=◌ find_by update_where
    Accounts.find_user Accounts.move_identities Accounts.move_oauth Accounts.find_credential
    Accounts.update_user Rows.revoke_all_by_user Rows.create_audit
merges = refl

merge_users-Moved_example :
    (count_where (λ i. i.user_id == "u2") merged.1.identities ≡ 0)
    × (count_where (λ i. i.user_id == "u1") merged.1.identities
        ≡ count_where (λ i. i.user_id == "u1") two_accounts.identities
          + count_where (λ i. i.user_id == "u2") two_accounts.identities)
merge_users-Moved_example = merge_users-Moved "default" "u1" "u2" two_accounts merged.1 merges

-- The commit fails.
abbrev uncommitted : World
uncommitted = record two_accounts {
  faults =
      false ∷ false ∷ false ∷ false ∷ false ∷ false ∷ false ∷ false ∷ false ∷ false ∷ false ∷ true
      ∷ [];
}

abbrev failing : Result (Unit {0}) × World
failing = merge_users "default" "u1" "u2" uncommitted

fails : failing ≡ (err (app_error internal), failing.1)
unfolding merge_users merge_credentials inherit drop_credential Exec.begin Exec.rollback Exec.commit
    Exec.on_error or_rollback merge_rest merge_body Exec.guard Exec.require Exec.pure Exec.raise
    Exec.gets Exec.query Exec.command Exec.modify Exec.ignore Exec.or_nil ◌>>=◌ find_by update_where
    Accounts.find_user Accounts.move_identities Accounts.move_oauth Accounts.find_credential
    Accounts.update_user Rows.revoke_all_by_user Rows.create_audit
fails = refl

merge_users_undone_example : rows failing.1 ≡ rows uncommitted
merge_users_undone_example =
    merge_users_undone "default" "u1" "u2" uncommitted failing.1 (app_error internal) fails

abbrev acme : Tenant
acme = record {
  tenant_id = "acme";
  name = "Acme";
  status = "active";
  max_apps = 1;
  daily_otp_limit = 0;
  force_sso = false;
  disable_local_password = false;
  sso_domains = [];
}

abbrev with_acme : World
with_acme = record small_world { tenants = acme ∷ [] }

acme_found : find_by (λ u. u.tenant_id == "acme") with_acme.tenants ≡ some acme
unfolding find_by
acme_found = refl

acme_passes : assert_tenant_app_quota "acme" with_acme ≡ (ok tt, with_acme)
unfolding assert_tenant_app_quota app_quota app_room find_by count_where Tenancy.find_tenant
    Tenancy.count_apps Exec.guard Exec.when Exec.pure Exec.raise Exec.query Exec.command ◌>>=◌
acme_passes = refl

assert_tenant_app_quota-Room_example : Room "acme" with_acme acme
assert_tenant_app_quota-Room_example =
    assert_tenant_app_quota-Room "acme" with_acme with_acme acme acme_found acme_passes
