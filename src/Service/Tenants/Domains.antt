-- ===== src/Service/Tenants/Domains.antt =====
-- `normalizeDomains` and the quota of applications of internal/service/tenant.go.
use unified_account_center.Prelude.{
  ℕ, String, ◌≡◌, refl, subst, Bool, true, false, not, ◌&&◌, ◌||◌, ◌==◌, some, List, [], ◌∷◌,
  is_empty, leb, nat_eq,
}
use unified_account_center.Prelude.Rows.{find_by, count_where}
use unified_account_center.Errors.{ok, forbidden_app}
use unified_account_center.World.{World}
use unified_account_center.Model
use unified_account_center.Model.Tenancy.{Tenant}
use unified_account_center.Exec.{when, guard, ◌>>=◌}
use unified_account_center.Exec.Inversion.{facing, guard_ok, guard_end, query_ok}
use unified_account_center.Repo.Tenancy
use unified_account_center.Service.Apps.{contains}
use unified_account_center.Service.Tenants.{app_room, app_quota, assert_tenant_app_quota}

-- No text twice, none empty, and none of those seen before.
abbrev pub all_new : List String → List String → Bool
all_new seen [] = true
all_new seen (d ∷ ds) =
    let rest = all_new (d ∷ seen) ds in not (is_empty d) && not (contains seen d) && rest

-- The applications of a tenant.
abbrev pub apps_of : String → World → ℕ
apps_of tenant_id w = count_where (λ a. a.tenant_id == tenant_id) w.apps

-- Whether a tenant has room for one more application.
abbrev pub Room : String → World → Tenant → Type 0
Room tenant_id w t =
    ((t.status == Model.Status.active) ≡ true)
    × (nat_eq t.max_apps 0 || not (leb t.max_apps (apps_of tenant_id w)) ≡ true)

app_room-Room :
    (t : Tenant) (tenant_id : String) (w w' : World)
    → app_room t tenant_id w ≡ (ok tt, w')
    → Room tenant_id w t
unfolding app_room when Tenancy.count_apps
app_room-Room t tenant_id w w' h =
    let (active, h1) = guard_ok _ _ _ w h in (active, room (nat_eq t.max_apps 0) h1)
  where
    room :
        (b : Bool)
        → when
            (not b)
            (Tenancy.count_apps tenant_id >>= λ n. guard (not (leb t.max_apps n)) forbidden_app)
            w
          ≡ (ok tt, w')
        → (b || not (leb t.max_apps (apps_of tenant_id w))) ≡ true
    room true e = refl
    room false e = let (fs, e1) = query_ok _ _ w e in let (free, _) = guard_end _ _ _ w' e1 in free

-- A tenant that passes the test of its quota is active and has fewer applications than it may have,
-- where it has a limit.
pub assert_tenant_app_quota-Room :
    (tenant_id : String) (w w' : World) (t : Tenant)
    → find_by (λ u. u.tenant_id == tenant_id) w.tenants ≡ some t
    → assert_tenant_app_quota tenant_id w ≡ (ok tt, w')
    → Room tenant_id w t
unfolding assert_tenant_app_quota Tenancy.find_tenant app_quota
assert_tenant_app_quota-Room tenant_id w w' t found h =
    let (fs, h1) = query_ok _ _ w h in
    let h2 : app_quota (some t) tenant_id (facing w fs) ≡ (ok tt, w') =
      subst (λ o. app_quota o tenant_id (facing w fs) ≡ (ok tt, w')) found h1 in
    app_room-Room t tenant_id (facing w fs) w' h2
