-- ===== src/Service/Merge.antt =====
-- internal/service/merge.go: one account taken into another, and what the administration does about
-- locks and second factors. The rows of passkeys are not modelled: their update is a statement that
-- may fail.
pub mod Moved
pub mod Steadiness
use Prim.Native.String.{◌++◌}
use unified_account_center.Prelude.{
  ℕ, ◌*◌, String, Bool, true, false, not, ◌&&◌, ◌||◌, ◌==◌, Option, none, some, List, [],
  if◌then◌else◌, is_empty,
}
use unified_account_center.Errors.{bad_request, invalid_cred, not_found}
use unified_account_center.World.{World, Env, MergePayload}
use unified_account_center.Model
use unified_account_center.Model.Account.{User, Identity, Credential}
use unified_account_center.Model.Session.{App, AuditLog}
use unified_account_center.Identity.{mask_phone, mask_email}
use unified_account_center.Exec.{
  M, pure, gets, guard, require, when, ignore, draw, modify, or_nil, begin, rollback, commit,
  on_error, ◌>>=◌, ◌>>◌,
}
use unified_account_center.Repo.Accounts
use unified_account_center.Repo.Tokens
use unified_account_center.Repo.Redis
use unified_account_center.Auth.Principal.{IdentityPrincipal}
use unified_account_center.Auth.Registry
use unified_account_center.Service.Apps.{RequestMeta, require_app, audit}
use unified_account_center.Service.Risk.{risk_lock_key}
use unified_account_center.Service.Login.{LoginDto, verify_request}

-- `MergeStartResult`.
pub record MergeStartResult : Type 0 where
  pub merge_token : String
  pub expire_in : ℕ
  pub source_user_id : String
  pub source_hint : String

-- `mergeTokenTTL`.
abbrev merge_ttl : ℕ
merge_ttl = 10 * 60

-- `mergeKey`.
abbrev pub merge_key : String → String
merge_key token = "uac:merge:" ++ token

unfoldable pub hint_of : IdentityPrincipal → String
hint_of p =
    if p.id_type == Model.IdType.phone
    then mask_phone p.identifier
    else if p.id_type == Model.IdType.email
    then mask_email p.identifier
    else p.identifier

-- The record that the services write without a request behind it.
abbrev pub plain_log : String → String → String → String → ℕ → AuditLog
plain_log tenant_id user_id action detail now = record {
  tenant_id = tenant_id;
  client_id = "";
  user_id = user_id;
  action = action;
  success = true;
  detail = detail;
  ip = "";
  ua = "";
  request_id = "";
  jti = "";
  device_id = "";
  created_at = now;
}

-- The identity of another user.
abbrev pub foreign : String → Identity → Bool
foreign target i = not (i.user_id == target)

module _ (env : Env) (meta : RequestMeta) where
  unfoldable pub start_merge : App → String → IdentityPrincipal → Identity → M MergeStartResult
  unfolding hint_of
  start_merge app target p i = do
    n ← draw
    m ← draw
    let token = env.random_id "mg" n ++ env.random_hex 8 m
    Redis.set_merge (merge_key token)
        (record { target_user_id = target; source_user_id = i.user_id; client_id = app.client_id })
        merge_ttl
    audit app target "merge_start" true i.user_id meta
    pure (record {
      merge_token = token;
      expire_in = merge_ttl;
      source_user_id = i.user_id;
      source_hint = hint_of p;
    })

  -- `MergeStart`; its request is that of a login.
  unfoldable pub merge_start : String → LoginDto → M MergeStartResult
  unfolding start_merge
  merge_start target dto = do
    app ← require_app meta.client_id
    guard (Registry.known_method env dto.method) bad_request
    p ← Registry.verify env dto.method (verify_request meta app dto dto.provider Model.Scene.merge)
    found ← Accounts.find_identity app.tenant_id p.id_type p.provider p.identifier
    i ← require found not_found
    guard (foreign target i) bad_request
    start_merge app target p i

-- The password that the target inherits where it has none; the second factor of the target stays.
unfoldable pub inherit : String → Option Credential → Option Credential → M (Unit {0})
inherit target none t = pure tt
inherit target (some s) none = ignore (Accounts.create_credential (record s { user_id = target }))
inherit target (some s) (some t) =
    when (is_empty t.password_hash && not (is_empty s.password_hash)) (
      ignore (
        Accounts.save_credential (record t {
          password_hash = s.password_hash;
          password_updated_at = s.password_updated_at;
        })))

unfoldable pub drop_credential : String → Option Credential → M (Unit {0})
drop_credential source none = pure tt
drop_credential source (some s) = ignore (Accounts.delete_credential source)

unfoldable pub merge_credentials : String → String → M (Unit {0})
unfolding inherit drop_credential
merge_credentials target source = do
  s ← or_nil (Accounts.find_credential source)
  t ← or_nil (Accounts.find_credential target)
  inherit target s t
  drop_credential source s

abbrev pub merged_away : User → User
merged_away u = record u {
  status = Model.Status.disabled;
  display_name = u.display_name ++ " (merged)";
}

-- A statement of the transaction that began in this state: where it fails, it is rolled back.
unfoldable pub or_rollback : World → M (Unit {0}) → M (Unit {0})
or_rollback old m = on_error m (rollback old)

-- What `mergeUsers` does in its transaction after the identities.
unfoldable pub merge_rest : World → String → String → User → M (Unit {0})
unfolding merge_credentials or_rollback
merge_rest old tenant_id target source = do
  or_rollback old (Accounts.move_oauth source.user_id target)
  or_rollback old (modify (λ w. w))
  merge_credentials target source.user_id
  now ← gets (λ w. w.now)
  ignore (Tokens.revoke_all_by_user source.user_id "" now)
  or_rollback old (Accounts.update_user (merged_away source))
  ignore (
      Tokens.create_audit (
        plain_log tenant_id target "user_merged" ("merged " ++ source.user_id ++ " into " ++ target)
          now))
  commit old

-- What `mergeUsers` does in its transaction, which began in this state.
unfoldable pub merge_body : World → String → String → User → M (Unit {0})
unfolding merge_rest
merge_body old tenant_id target source = do
  or_rollback old (Accounts.move_identities source.user_id target)
  merge_rest old tenant_id target source

-- `mergeUsers`.
unfoldable pub merge_users : String → String → String → M (Unit {0})
unfolding merge_body
merge_users tenant_id target_id source_id = do
  guard (not (target_id == source_id)) bad_request
  found_target ← or_nil (Accounts.find_user target_id)
  _ ← require found_target not_found
  found_source ← or_nil (Accounts.find_user source_id)
  source ← require found_source not_found
  old ← begin
  merge_body old tenant_id target_id source

-- A merge that this user started at this application.
abbrev pub own_merge : App → String → Option MergePayload → Option MergePayload
own_merge app target none = none
own_merge app target (some p) =
    if p.target_user_id == target && p.client_id == app.client_id then some p else none

-- `MergeConfirm`.
unfoldable pub merge_confirm : RequestMeta → String → String → M (Unit {0})
unfolding merge_users
merge_confirm meta target token = do
  app ← require_app meta.client_id
  found ← Redis.take_merge (merge_key token)
  p ← require (own_merge app target found) invalid_cred
  merge_users app.tenant_id p.target_user_id p.source_user_id
  audit app target "merge_ok" true p.source_user_id meta

-- `AdminMergeUsers`.
unfoldable pub admin_merge_users : String → String → M (Unit {0})
unfolding merge_users
admin_merge_users target_id source_id = do
  found ← or_nil (Accounts.find_user target_id)
  target ← require found not_found
  merge_users target.tenant_id target_id source_id
  now ← gets (λ w. w.now)
  ignore (
      Tokens.create_audit (
        plain_log target.tenant_id target_id "admin_merge"
          ("merged " ++ source_id ++ " into " ++ target_id) now))

-- `AdminUnlock`.
unfoldable pub admin_unlock : String → String → M (Unit {0})
admin_unlock kind key = do
  guard (kind == "id" || kind == "ip") bad_request
  guard (not (is_empty key)) bad_request
  Redis.del_flag (risk_lock_key kind key)

unfoldable pub reset_found : User → Option Credential → M (Unit {0})
reset_found user none = pure tt
reset_found user (some c) = do
  Accounts.save_credential
      (record c { mfa_enabled = false; mfa_secret = ""; mfa_backup_hashes = [] })
  now ← gets (λ w. w.now)
  ignore (
      Tokens.create_audit (
        plain_log user.tenant_id user.user_id "admin_mfa_reset"
          ("admin reset mfa for " ++ user.user_id) now))

-- `AdminResetMFA`.
unfoldable pub admin_reset_mfa : String → M (Unit {0})
unfolding reset_found
admin_reset_mfa user_id = do
  found ← or_nil (Accounts.find_user user_id)
  user ← require found not_found
  cred ← Accounts.find_credential user_id
  reset_found user cred
