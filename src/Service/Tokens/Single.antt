-- ===== src/Service/Tokens/Single.antt =====
-- A refresh token is good for one rotation, and a revoked one for none.
use unified_account_center.Prelude.{
  String, ◌≡◌, refl, true, false, some, arith, ◌==◌, ltb, ap, sym, ◌∙◌, is_some, subst, eq_refl,
}
use unified_account_center.Prelude.Rows.{find_by, find_by-update_where}
use unified_account_center.Prelude.Growth.{Grows-find_by}
use unified_account_center.Errors.{Result, ok, is_ok, not_ok}
use unified_account_center.World.{World, Env, TokenDto}
use unified_account_center.Model
use unified_account_center.Model.Account.{User}
use unified_account_center.Model.Session.{App, RefreshToken}
use unified_account_center.History.{Advances, TokenStep}
use unified_account_center.History.Rules.{Steady}
use unified_account_center.Exec.{M}
use unified_account_center.Exec.Inversion.{facing, bind_ok, guard_ok}
use unified_account_center.Repo.Tokens.{is_active_jti, replaced}
use unified_account_center.Service.Apps.{RequestMeta}
use unified_account_center.Service.Apps.Known.{Known, require_app-Known}
use unified_account_center.Service.Tokens.{refresh, spend_refresh}
use unified_account_center.Service.Tokens.Rotation.{has_hash, Rotated, spend_refresh-Rotated}
use unified_account_center.Service.Steadiness.{Steady-reissue}

-- The stored row of a token is revoked.
pub record IsSpent (env : Env) (token : String) (w : World) : Type 0 where
  pub row : RefreshToken
  pub found : find_by (has_hash (env.sha256_hex token)) w.refresh_tokens ≡ some row
  pub revoked : is_some row.revoked_at ≡ true

pub IsSpent-Advances :
    (env : Env) (token : String) (w v : World)
    → IsSpent env token w
    → Advances w v
    → IsSpent env token v
IsSpent-Advances env token w v s a =
    let (y, f, r) =
      Grows-find_by TokenStep (has_hash (env.sha256_hex token))
        (λ x z q. ap (λ t. t == env.sha256_hex token) q.token_hash) w.refresh_tokens
        v.refresh_tokens s.row a.tokens s.found in
    record { row = y; found = f; revoked = ground (arith, r.revoked, s.revoked) }

pub Steady-reaches :
    {A : Type 0} {m : M A} {w w' : World} {r : Result A} → Steady m → m w ≡ (r, w') → Advances w w'
Steady-reaches {w = w} s e = subst (λ p. Advances w p.1) e (s.at w)

Rotated-IsSpent :
    (env : Env) (app : App) (token : String) (w : World) (rt : RefreshToken) (user : User)
    (v : World)
    → Rotated env app token w rt user v
    → IsSpent env token v
Rotated-IsSpent env app token w rt user v r =
    let h = env.sha256_hex token in
    let hit : is_active_jti rt.jti rt ≡ true = ground (arith, eq_refl rt.jti, r.live) in
    record {
      row = replaced "" w.now rt;
      found =
          rw
            (
              r.after,
              find_by-update_where (has_hash h) (is_active_jti rt.jti) (replaced "" w.now)
                  w.refresh_tokens rt (λ y. refl) r.found,
              hit,
            )
            refl;
      revoked = refl;
    }

-- What a refresh that succeeds rests on, and what it leaves of the old token.
pub record Refreshed (env : Env) (meta : RequestMeta) (token : String) (w w' : World) : Type 0 where
  pub app : App
  pub row : RefreshToken
  pub user : User
  pub known : find_by (λ a. a.client_id == meta.client_id) w.apps ≡ some app
  pub app_active : (app.status == Model.Status.active) ≡ true
  pub found : find_by (has_hash (env.sha256_hex token)) w.refresh_tokens ≡ some row
  pub of_app : (row.client_id == app.client_id) ≡ true
  pub live : is_some row.revoked_at ≡ false
  pub in_term : ltb row.expire_at w.now ≡ false
  pub owner : find_by (λ u. u.user_id == row.user_id) w.users ≡ some user
  pub active : (user.status == Model.Status.active) ≡ true
  pub spent : IsSpent env token w'

Refreshed-Rotated :
    (env : Env) (meta : RequestMeta) (token : String) (w w1 v w' : World) (app : App)
    (p : RefreshToken × User)
    → Known meta.client_id w app w1
    → spend_refresh env app token w1 ≡ (ok p, v)
    → Advances v w'
    → Refreshed env meta token w w'
Refreshed-Rotated env meta token w w1 v w' app p k s a =
    let e : spend_refresh env app token (facing w k.faults) ≡ (ok p, v) = rw (← k.after) s in
    let r = spend_refresh-Rotated env app token (facing w k.faults) v p.0 p.1 e in
    record {
      app = app;
      row = p.0;
      user = p.1;
      known = k.found;
      app_active = k.active;
      found = r.found;
      of_app = r.of_app;
      live = r.live;
      in_term = r.in_term;
      owner = r.owner;
      active = r.active;
      spent = IsSpent-Advances env token v w' (Rotated-IsSpent _ _ _ _ _ _ v r) a;
    }

-- A refresh that succeeds was given, at an active application, the token of a stored row of that
-- application that is neither revoked nor past its term and whose owner is an active user; it leaves
-- the row of the token revoked.
pub refresh-Refreshed :
    (env : Env) (meta : RequestMeta) (token : String) (w w' : World) (t : TokenDto)
    → refresh env meta token w ≡ (ok t, w')
    → Refreshed env meta token w w'
unfolding refresh
refresh-Refreshed env meta token w w' t h =
    let (app, w1, a, h1) = bind_ok _ _ w h in
    let (_, h2) = guard_ok _ _ _ _ h1 in
    let (p, v, s, h3) = bind_ok _ _ _ h2 in
    Refreshed-Rotated env meta token w w1 v w' app p (require_app-Known _ w app w1 a) s
      (Steady-reaches (Steady-reissue env app p.0 p.1 meta) h3)

-- A token whose row is revoked is refused from then on, at every application, whatever happens in
-- between: rotation, logout, a password change, or the reuse of the token itself.
pub refresh_revoked :
    (env : Env) (meta : RequestMeta) (token : String) (w v : World)
    → IsSpent env token w
    → Advances w v
    → is_ok (refresh env meta token v).0 ≡ false
refresh_revoked env meta token w v s a = not_ok _ λ t e.
    let now = IsSpent-Advances env token w v s a in
    let r =
      refresh-Refreshed env meta token v (refresh env meta token v).1 t
        (λ i. (e i, (refresh env meta token v).1)) in
    let same : some r.row ≡ some now.row = sym r.found ∙ now.found in
    absurd (ground (arith, r.live, now.revoked))

-- A refresh token rotates once: after a refresh that succeeded, whatever the services do and however
-- much time passes, the same token is refused.
pub refresh_once :
    (env : Env) (meta again : RequestMeta) (token : String) (w w' v : World) (t : TokenDto)
    → refresh env meta token w ≡ (ok t, w')
    → Advances w' v
    → is_ok (refresh env again token v).0 ≡ false
refresh_once env meta again token w w' v t h a =
    refresh_revoked env again token w' v (refresh-Refreshed env meta token w w' t h).spent a
