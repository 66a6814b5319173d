-- ===== src/Service/Tenants.antt =====
-- internal/service/tenant.go, and `assertLocalLoginAllowed` of sso.go: tenants, their quotas, and the
-- login methods that a tenant leaves to its users. Events to the webhook bus and alerts change none of
-- the modelled state. A negative limit counts as zero, as the code tests for `<= 0`.
pub mod Domains
pub mod Steadiness
use Prim.Native.String.{◌++◌}
use unified_account_center.Prelude.{
  ℕ, ◌*◌, String, Bool, true, false, not, ◌&&◌, ◌||◌, ◌==◌, Option, none, some, List, [], ◌∷◌,
  if◌then◌else◌, is_empty, leb, ltb, nat_eq, is_some,
}
use unified_account_center.Text.{trim_space, trim_prefix}
use unified_account_center.Errors.{
  bad_request, conflict_account, not_found, forbidden_app, internal, rate_limited,
}
use unified_account_center.World.{Env}
use unified_account_center.Model
use unified_account_center.Model.Session.{App}
use unified_account_center.Model.Tenancy.{Tenant}
use unified_account_center.Exec.{
  M, pure, raise, gets, guard, require, when, draw, or_nil, or_default, ◌>>=◌, ◌>>◌,
}
use unified_account_center.Repo.Tenancy
use unified_account_center.Repo.Redis
use unified_account_center.Service.Apps.{contains}

-- `CreateTenantRequest`.
pub record CreateTenantRequest : Type 0 where
  pub tenant_id : String
  pub name : String
  pub max_apps : ℕ
  pub daily_otp_limit : ℕ
  pub force_sso : Bool
  pub disable_local_password : Bool
  pub sso_domains : List String

-- `UpdateTenantRequest`; `none` for nil.
pub record UpdateTenantRequest : Type 0 where
  pub name : Option String
  pub status : Option String
  pub max_apps : Option ℕ
  pub daily_otp_limit : Option ℕ
  pub force_sso : Option Bool
  pub disable_local_password : Option Bool
  pub sso_domains : Option (List String)

-- `TenantView`: the row, and how many applications it has. The dates are not modelled.
abbrev pub TenantView : Type 0
TenantView = Tenant × ℕ

abbrev default_tenant : Tenant
default_tenant = record {
  tenant_id = "default";
  name = "Default";
  status = Model.Status.active;
  max_apps = 100;
  daily_otp_limit = 100000;
  force_sso = false;
  disable_local_password = false;
  sso_domains = [];
}

module _ (lower : String → String) where
  -- One domain as it is stored.
  unfoldable pub domain_of : String → String
  domain_of d = trim_prefix (lower (trim_space d)) "@"

  -- The loop of `normalizeDomains`, with what was seen so far.
  unfoldable pub domains_from : List String → List String → List String
  unfolding domain_of contains
  domains_from seen [] = []
  domains_from seen (d ∷ ds) =
      let dom = domain_of d in
      let skip = is_empty dom || contains seen dom in
      let rest = domains_from (if skip then seen else dom ∷ seen) ds in
      if skip then rest else dom ∷ rest

  -- `normalizeDomains`.
  unfoldable pub normalize_domains : List String → List String
  unfolding domains_from
  normalize_domains ds = domains_from [] ds

abbrev or_tenant : Option Tenant → String → Option Tenant
or_tenant (some t) id = some t
or_tenant none id = if id == "default" then some default_tenant else none

-- `loadTenant`.
unfoldable pub load_tenant : String → M Tenant
load_tenant tenant_id = do
  let id = if is_empty tenant_id then "default" else tenant_id
  found ← Tenancy.find_tenant id
  t ← require (or_tenant found id) not_found
  guard (t.status == Model.Status.active) forbidden_app
  pure t

-- `assertLocalLoginAllowed`.
unfoldable pub is_password : String → Bool
is_password method = method == Model.Method.phone_password || method == Model.Method.email_password

unfoldable pub is_otp : String → Bool
is_otp method = method == Model.Method.phone_otp || method == Model.Method.email_otp

unfoldable pub assert_local_login_allowed : App → String → M (Unit {0})
unfolding is_password is_otp
assert_local_login_allowed app method = do
  tenant ← load_tenant app.tenant_id
  guard (not (tenant.force_sso && (is_password method || is_otp method))) forbidden_app
  guard (not (tenant.disable_local_password && is_password method)) forbidden_app

-- `assertTenantAppQuota`.
unfoldable pub app_room : Tenant → String → M (Unit {0})
app_room t tenant_id = do
  guard (t.status == Model.Status.active) forbidden_app
  when (not (nat_eq t.max_apps 0))
      (do n ← Tenancy.count_apps tenant_id; guard (not (leb t.max_apps n)) forbidden_app)

unfoldable pub app_quota : Option Tenant → String → M (Unit {0})
unfolding app_room
app_quota none tenant_id = guard (tenant_id == "default") not_found
app_quota (some t) tenant_id = app_room t tenant_id

unfoldable pub assert_tenant_app_quota : String → M (Unit {0})
unfolding app_quota
assert_tenant_app_quota tenant_id = do
  found ← Tenancy.find_tenant tenant_id
  app_quota found tenant_id

module _ (env : Env) where
  -- `assertTenantOTPQuota`: a limiter that fails lets the call through.
  unfoldable pub assert_tenant_otp_quota : String → M (Unit {0})
  assert_tenant_otp_quota tenant_id = do
    t ← load_tenant tenant_id
    now ← gets (λ w. w.now)
    when (not (nat_eq t.daily_otp_limit 0)) (do
      passed ← or_default true (
          Redis.allow ("uac:tenant:otp:" ++ tenant_id ++ ":" ++ env.day_of now) t.daily_otp_limit
            (24 * 3600))
      guard passed rate_limited)

  abbrev or_limit : ℕ → ℕ → ℕ
  or_limit given default = if nat_eq given 0 then default else given

  unfoldable pub tenant_row : String → CreateTenantRequest → Tenant
  unfolding normalize_domains
  tenant_row tid req = record {
    tenant_id = tid;
    name = trim_space req.name;
    status = Model.Status.active;
    max_apps = or_limit req.max_apps 20;
    daily_otp_limit = or_limit req.daily_otp_limit 5000;
    force_sso = req.force_sso;
    disable_local_password = req.disable_local_password;
    sso_domains = normalize_domains env.to_lower req.sso_domains;
  }

  unfoldable pub tenant_id_for : CreateTenantRequest → M String
  tenant_id_for req =
      let given = trim_space req.tenant_id in
      if is_empty given then (do n ← draw; pure (env.random_id "ten" n)) else pure given

  -- Whether the id is taken; the caller takes a read that failed for a row, as the repository returns
  -- a pointer with the error.
  unfoldable pub tenant_taken : String → M Bool
  tenant_taken tid = do existing ← Tenancy.find_tenant tid; pure (is_some existing)

  -- `CreateTenant`.
  unfoldable pub create_tenant : CreateTenantRequest → M TenantView
  unfolding tenant_row tenant_id_for tenant_taken
  create_tenant req = do
    guard (not (is_empty (trim_space req.name))) bad_request
    tid ← tenant_id_for req
    taken ← or_default true (tenant_taken tid)
    guard (not taken) conflict_account
    Tenancy.create_tenant (tenant_row tid req)
    pure (tenant_row tid req, 0)

  abbrev or_kept : {A : Type 0} → Option A → A → A
  or_kept none a = a
  or_kept (some b) a = b

  abbrev trimmed_or : Option String → String → String
  trimmed_or none s = s
  trimmed_or (some t) s = trim_space t

  abbrev normalized : Option (List String) → List String → List String
  normalized none ds = ds
  normalized (some es) ds = normalize_domains env.to_lower es

  unfoldable pub changed_tenant : Tenant → UpdateTenantRequest → Tenant
  changed_tenant row req = record row {
    name = trimmed_or req.name row.name;
    status = trimmed_or req.status row.status;
    max_apps = or_kept req.max_apps row.max_apps;
    daily_otp_limit = or_kept req.daily_otp_limit row.daily_otp_limit;
    force_sso = or_kept req.force_sso row.force_sso;
    disable_local_password = or_kept req.disable_local_password row.disable_local_password;
    sso_domains = normalized req.sso_domains row.sso_domains;
  }

  -- `UpdateTenant`.
  unfoldable pub update_tenant : String → UpdateTenantRequest → M TenantView
  unfolding changed_tenant
  update_tenant tenant_id req = do
    found ← or_nil (Tenancy.find_tenant tenant_id)
    row ← require found not_found
    Tenancy.update_tenant (changed_tenant row req)
    n ← or_default 0 (Tenancy.count_apps tenant_id)
    pure (changed_tenant row req, n)

-- `GetTenant`.
unfoldable pub get_tenant : String → M TenantView
get_tenant tenant_id = do
  found ← or_nil (Tenancy.find_tenant tenant_id)
  row ← require found not_found
  n ← or_default 0 (Tenancy.count_apps tenant_id)
  pure (row, n)

-- `EnsureDefaultTenant`.
unfoldable pub ensure_default_tenant : M (Unit {0})
ensure_default_tenant = do
  existing ← Tenancy.find_tenant "default"
  when (not (is_some existing)) (Tenancy.create_tenant default_tenant)
