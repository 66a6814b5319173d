-- ===== src/Service/Roles/Capability.antt =====
-- The order of the capabilities that `HasAdminCapability` tests.
use unified_account_center.Prelude.{
  String, ◌≡◌, refl, false, List, [], ◌∷◌, arith, ◌==◌, ◌&&◌, ◌||◌, Bool,
}
use unified_account_center.Text.{trim_space}
use unified_account_center.Model
use unified_account_center.Service.Roles.{has_admin_capability, is_platform_admin, grants}

-- A disjunction that absorbs another does so member by member.
absorb :
    (p x y u v : Bool)
    → (x && y) ≡ x
    → (u && v) ≡ u
    → ((p || x || u) && (p || y || v)) ≡ (p || x || u)
absorb p x y u v h k = ground (arith, h, k)

wider :
    (a b : String)
    → ((r : String) → (grants a r && grants b r) ≡ grants a r)
    → (rs : List String)
    → (has_admin_capability rs a && has_admin_capability rs b) ≡ has_admin_capability rs a
unfolding has_admin_capability
wider a b h [] = refl
wider a b h (r ∷ rs) = absorb _ _ _ _ _ (h (trim_space r)) (wider a b h rs)

write_grants_read : (r : String) → (grants "write" r && grants "read" r) ≡ grants "write" r
write_grants_read r = ground arith

admin_grants_write : (r : String) → (grants "admin" r && grants "write" r) ≡ grants "admin" r
admin_grants_write r = ground arith

platform_grants_all :
    (need : String) (rs : List String)
    → (is_platform_admin rs && has_admin_capability rs need) ≡ is_platform_admin rs
unfolding has_admin_capability is_platform_admin
platform_grants_all need [] = refl
platform_grants_all need (r ∷ rs) =
    part (trim_space r == Model.Role.platform_admin) _ _ (grants need (trim_space r))
      (platform_grants_all need rs)
  where
    part : (p u v x : Bool) → (u && v) ≡ u → ((p || u) && (p || x || v)) ≡ (p || u)
    part p u v x h = ground (arith, h)

-- A set of roles that may write may also read, and one that may administer may also write; a platform
-- administrator may do anything, also what no capability names.
pub capability_order :
    (roles : List String) (need : String)
    → ((has_admin_capability roles "write" && has_admin_capability roles "read")
        ≡ has_admin_capability roles "write")
      × ((has_admin_capability roles "admin" && has_admin_capability roles "write")
          ≡ has_admin_capability roles "admin")
      × ((is_platform_admin roles && has_admin_capability roles need) ≡ is_platform_admin roles)
capability_order roles need = (
  wider "write" "read" write_grants_read roles,
  wider "admin" "write" admin_grants_write roles,
  platform_grants_all need roles,
)

-- A capability that none of the three names is a platform administrator's alone.
pub unknown_capability :
    (roles : List String) (need : String)
    → (need == "read") ≡ false
    → (need == "write") ≡ false
    → (need == "admin") ≡ false
    → has_admin_capability roles need ≡ is_platform_admin roles
unfolding has_admin_capability is_platform_admin
unknown_capability [] need x y z = refl
unknown_capability (r ∷ rs) need x y z = ground (arith, unknown_capability rs need x y z)
