-- ===== src/Service/Users/Active.antt =====
-- Only active users come out of the resolution.
use unified_account_center.Prelude.{
  String, ◌≡◌, Bool, true, false, Option, none, some, ◌==◌, eq_refl, ap, subst, sym,
}
use unified_account_center.Errors.{Code, ok}
use unified_account_center.World.{World, Env}
use unified_account_center.Model
use unified_account_center.Model.Account.{User, Identity}
use unified_account_center.Model.Session.{App}
use unified_account_center.Exec.{raise_error, pure}
use unified_account_center.Exec.Inversion.{
  facing, bind_ok, require_ok, guard_ok, query_ok, or_nil-query_ok, pure_ok,
}
use unified_account_center.Repo.Accounts
use unified_account_center.Auth.Principal.{IdentityPrincipal}
use unified_account_center.Service.Users.{
  active_user, register, join_or_register, by_identity, by_profile, resolve_user, proved_id,
}

abbrev pub IsActive : User → Type 0
IsActive u = (u.status == Model.Status.active) ≡ true

active_user-IsActive :
    (user_id : String) (c : Code) (w w' : World) (u : User)
    → active_user user_id c w ≡ (ok u, w')
    → IsActive u
unfolding active_user Accounts.find_user
active_user-IsActive user_id c w w' u h =
    let (o, fs, _, h1) = or_nil-query_ok _ _ w h in
    let (v, _, h2) = require_ok o _ _ (facing w fs) h1 in
    let (a, h3) = guard_ok _ _ _ (facing w fs) h2 in
    let (same, _) = pure_ok _ _ _ _ h3 in subst IsActive (sym same) a

-- The user of the pair that ends an action.
pair_IsActive :
    (u v : User) (b c : Bool) (w w' : World)
    → pure {A = User × Bool} (v, b) w ≡ (ok (u, c), w')
    → IsActive v
    → IsActive u
pair_IsActive u v b c w w' h a =
    let (same, _) = pure_ok {A = User × Bool} _ _ _ _ h in
    subst IsActive (sym (ap (λ p. p.0) same)) a

module _ (env : Env) (app : App) (p : IdentityPrincipal) where
  register-IsActive : (w w' : World) (u : User) → register env app p w ≡ (ok u, w') → IsActive u
  unfolding register
  register-IsActive w w' u h =
      let (n, v1, _, h1) = bind_ok _ _ w h in
      let (_, v2, _, h2) = bind_ok _ _ v1 h1 in
      let (_, v3, _, h3) = bind_ok _ _ v2 h2 in
      let (_, v4, _, h4) = bind_ok _ _ v3 h3 in
      let (_, v5, _, h5) = bind_ok _ _ v4 h4 in
      let (same, _) = pure_ok _ _ _ _ h5 in subst IsActive (sym same) (eq_refl Model.Status.active)

  join_or_register-IsActive :
      (auto_reg : Bool) (w w' : World) (u : User) (b : Bool)
      → join_or_register env app p auto_reg w ≡ (ok (u, b), w')
      → IsActive u
  unfolding join_or_register raise_error
  join_or_register-IsActive true w w' u b h =
      let (v, v1, r, h1) = bind_ok _ _ w h in
      pair_IsActive u v true b v1 w' h1 (register-IsActive w v1 v r)
  join_or_register-IsActive false w w' u b h = let (_, v1, _, h1) = bind_ok _ _ w h in absurd (cc)

  by_identity-IsActive :
      (auto_reg : Bool) (o : Option Identity) (w w' : World) (u : User) (b : Bool)
      → by_identity env app p auto_reg o w ≡ (ok (u, b), w')
      → IsActive u
  unfolding by_identity
  by_identity-IsActive auto_reg none w w' u b h = join_or_register-IsActive auto_reg w w' u b h
  by_identity-IsActive auto_reg (some i) w w' u b h =
      let (v, v1, r, h1) = bind_ok _ _ w h in
      pair_IsActive u v false b v1 w' h1 (active_user-IsActive _ _ w v1 v r)

  by_profile-IsActive :
      (auto_reg : Bool) (o : Option String) (w w' : World) (u : User) (b : Bool)
      → by_profile env app p auto_reg o w ≡ (ok (u, b), w')
      → IsActive u
  unfolding by_profile Accounts.find_identity
  by_profile-IsActive auto_reg (some uid) w w' u b h =
      let (v, v1, r, h1) = bind_ok _ _ w h in
      pair_IsActive u v false b v1 w' h1 (active_user-IsActive _ _ w v1 v r)
  by_profile-IsActive auto_reg none w w' u b h =
      let (fs, h1) = query_ok _ _ w h in by_identity-IsActive auto_reg _ _ w' u b h1

-- Whether the user was known by its password, by its identity or is newly registered, the resolution of
-- a verified identity yields an active user or none.
pub resolve_user-IsActive :
    (env : Env) (app : App) (p : IdentityPrincipal) (auto_reg : Bool) (w w' : World) (u : User)
    (b : Bool)
    → resolve_user env app p auto_reg w ≡ (ok (u, b), w')
    → IsActive u
unfolding resolve_user
resolve_user-IsActive env app p auto_reg w w' u b h =
    by_profile-IsActive env app p auto_reg (proved_id p.profile.user_id) w w' u b h
