-- ===== src/Service/Tokens/Rotation.antt =====
-- A refresh token is good for one rotation.
use unified_account_center.Prelude.{
  not-true, ℕ, String, ◌≡◌, Bool, true, false, some, none, Option, arith, ◌==◌, ap, sym, ◌∙◌,
  is_some, ltb, inl, inr, ◌⊎◌, subst,
}
use unified_account_center.Prelude.Rows.{find_by, update_where}
use unified_account_center.Errors.{ok}
use unified_account_center.World.{World, Env}
use unified_account_center.Model
use unified_account_center.Model.Account.{User}
use unified_account_center.Model.Session.{App, RefreshToken}
use unified_account_center.Exec.{M, ignore, raise, when, pure, ◌>>=◌}
use unified_account_center.Exec.Inversion.{
  facing, bind_ok, require_ok, guard_ok, query_ok, gets_ok, command_ok, or_nil-query_ok, pure_ok,
}
use unified_account_center.Repo.Tokens
use unified_account_center.Repo.Accounts
use unified_account_center.Repo.Tokens.{is_active_jti, replaced}
use unified_account_center.Service.Tokens.{spend_refresh, consume_row, reject_reuse}

abbrev pub has_hash : String → RefreshToken → Bool
has_hash h t = t.token_hash == h

reject_reuse_ok :
    {B : Type 0} (env : Env) (rt : RefreshToken) (now : ℕ) (k : Unit {0} → M B) (b : B)
    (w w' : World)
    → (reject_reuse env rt now >>= k) w ≡ (ok b, w')
    → (is_some rt.revoked_at ≡ false) × (k tt w ≡ (ok b, w'))
unfolding reject_reuse when ignore raise pure ◌>>=◌
reject_reuse_ok env rt now k b w w' h = ground arith

nil_or_some : {A : Type 0} (o p : Option A) (a : A) → (o ≡ none) ⊎ (o ≡ p) → o ≡ some a → p ≡ some a
nil_or_some o p a (inl e) f = absurd (cc)
nil_or_some o p a (inr e) f = sym e ∙ f

-- The owner of a row that can be consumed.
record Consumed (w : World) (rt : RefreshToken) (now : ℕ) (user : User) (w' : World) : Type 0 where
  pub in_term : ltb rt.expire_at now ≡ false
  pub owner : find_by (λ u. u.user_id == rt.user_id) w.users ≡ some user
  pub active : (user.status == Model.Status.active) ≡ true
  pub after :
      w'.refresh_tokens ≡ update_where (is_active_jti rt.jti) (replaced "" now) w.refresh_tokens

consume_row-Consumed :
    (env : Env) (rt : RefreshToken) (now : ℕ) (w w' : World) (user : User)
    → consume_row env rt now w ≡ (ok user, w')
    → Consumed w rt now user w'
unfolding consume_row Accounts.find_user Tokens.consume_active
consume_row-Consumed env rt now w w' user h =
    let (t, h5) = guard_ok _ _ _ w h in
    let (o, f2, z, h6) = or_nil-query_ok _ _ w h5 in
    let (u, y, h7) = require_ok o _ _ (facing w f2) h6 in
    let (act, h8) = guard_ok _ _ _ (facing w f2) h7 in
    let (f3, h9) = command_ok _ _ (facing w f2) h8 in
    let (n, h10) = guard_ok _ _ _ _ h9 in
    let (same, after) = pure_ok _ _ _ _ h10 in
    record {
      in_term = not-true _ t;
      owner = rw same (nil_or_some _ _ u z y);
      active = rw same act;
      after = ap (λ v. v.refresh_tokens) after;
    }

-- The row of a refresh token that can be rotated at the application, its owner, and what the rotation
-- makes of it.
pub record Rotated (env : Env) (app : App) (token : String) (w : World) (rt : RefreshToken)
    (user : User) (w' : World) : Type 0 where
  pub found : find_by (has_hash (env.sha256_hex token)) w.refresh_tokens ≡ some rt
  pub of_app : (rt.client_id == app.client_id) ≡ true
  pub live : is_some rt.revoked_at ≡ false
  pub in_term : ltb rt.expire_at w.now ≡ false
  pub owner : find_by (λ u. u.user_id == rt.user_id) w.users ≡ some user
  pub active : (user.status == Model.Status.active) ≡ true
  pub after :
      w'.refresh_tokens ≡ update_where (is_active_jti rt.jti) (replaced "" w.now) w.refresh_tokens

Rotated-subst :
    (env : Env) (app : App) (token : String) (w : World) (a b : RefreshToken) (t u : User)
    (v v' : World)
    → ◌≡◌ {A = RefreshToken × User} (b, u) (a, t)
    → v' ≡ v
    → Rotated env app token w a t v
    → Rotated env app token w b u v'
Rotated-subst env app token w a b t u v v' e f r =
    subst (λ z. Rotated env app token w b u z) (sym f)
      (subst (λ (p : RefreshToken × User). Rotated env app token w p.0 p.1 v) (sym e) r)

-- A token that `Refresh` spends is stored, of the application, not revoked and in its term, and its
-- owner is an active user; afterwards the row is revoked.
pub spend_refresh-Rotated :
    (env : Env) (app : App) (token : String) (w w' : World) (rt : RefreshToken) (user : User)
    → spend_refresh env app token w ≡ (ok (rt, user), w')
    → Rotated env app token w rt user w'
unfolding spend_refresh Tokens.find_by_hash
spend_refresh-Rotated env app token w w' rt user h =
    let (f1, h1) = query_ok _ _ w h in
    let (row, f, h2) = require_ok _ _ _ _ h1 in
    let (own, h3) = guard_ok _ _ _ _ h2 in
    let (r, h4) = reject_reuse_ok env row w.now _ _ _ _ (gets_ok _ _ _ h3) in
    let (u, v, c, h5) = bind_ok _ _ _ h4 in
    let (same, after) = pure_ok _ _ _ _ h5 in
    let k = consume_row-Consumed env row w.now _ v u c in
    Rotated-subst env app token w row rt u user v w' same after (record {
      found = f;
      of_app = own;
      live = r;
      in_term = k.in_term;
      owner = k.owner;
      active = k.active;
      after = k.after;
    })
