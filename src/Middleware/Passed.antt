-- ===== src/Middleware/Passed.antt =====
-- What `UserAuth` of internal/middleware/middleware.go lets through.
use Prim.Native.String.{◌++◌}
use unified_account_center.Prelude.{
  ℕ, ◌+◌, ◌<◌, String, ◌≡◌, refl, ◌∙◌, sym, ap, Bool, true, false, not, ◌||◌, ◌==◌, Option, none,
  some, List, eq_refl, ◌⊎◌, inl, inr, not-true, is_empty, arith,
}
use unified_account_center.Cache.{get, exists}
use unified_account_center.Cache
use mathlib.Core.Bool.{true≢false}
use unified_account_center.Cache.Laws.{get-put}
use unified_account_center.Errors.{ok, is_ok, not_ok}
use unified_account_center.World.{World, Env, Claims}
use unified_account_center.Text.{has_prefix}
use unified_account_center.Exec.Inversion.{
  facing, require_ok, guard_ok, gets_ok, pure_ok, modify_end, or_default-query_ok,
}
use unified_account_center.Repo.Redis
use unified_account_center.Service.StepUp.Single.{later}
use unified_account_center.Middleware.{
  Request, bearer, password_change_allowed, claims_good, user_auth,
}

-- The request bears a token whose claims are these, which parse now, were not listed, and fit the
-- application and the route.
pub record Passed (env : Env) (req : Request) (w : World) (c : Claims) : Type 0 where
  pub borne : has_prefix req.authorization "Bearer " ≡ true
  pub parsed : env.parse_access (bearer req.authorization) w.now ≡ some c
  pub unlisted : exists w.now ("uac:bl:at:" ++ c.jti) w.flags ≡ false
  pub of_client : (is_empty req.client_id || c.client_id == req.client_id) ≡ true
  pub of_route : (not c.must_change_password || password_change_allowed req.path) ≡ true

unlisted_read : (a here : Bool) → (a ≡ true) ⊎ (a ≡ here) → not a ≡ true → here ≡ false
unlisted_read a here (inl listed) h = absurd (ground arith)
unlisted_read a here (inr read) h = sym read ∙ not-true a h

-- A request that is let through bears a token that parses, whose entry on the list of revoked tokens
-- was read and is not there, and that fits the application and the route.
pub user_auth-Passed :
    (env : Env) (req : Request) (w w' : World) (c : Claims)
    → user_auth env req w ≡ (ok c, w')
    → Passed env req w c
unfolding user_auth claims_good Redis.is_access_blacklisted Redis.get_flag
    Redis.is_user_access_blacklisted Redis.get_user_version
user_auth-Passed env req w w' c h =
    let (borne, h1) = guard_ok _ _ _ w h in
    let h2 = gets_ok _ _ w h1 in
    let (k, parsed, h3) = require_ok _ _ _ _ h2 in
    let (a, _, read, h4) = or_default-query_ok _ _ _ w h3 in
    let (unlisted, h5) = guard_ok _ _ _ _ h4 in
    let (_, _, _, h6) = or_default-query_ok _ _ _ _ h5 in
    let (_, h7) = guard_ok _ _ _ _ h6 in
    let (_, _, _, h8) = or_default-query_ok _ _ _ _ h7 in
    let (_, h9) = guard_ok _ _ _ _ h8 in
    let (of_client, h10) = guard_ok _ _ _ _ h9 in
    let (of_route, h11) = guard_ok _ _ _ _ h10 in
    let (same, _) = pure_ok k c _ w' h11 in
    record {
      borne = borne;
      parsed = parsed ∙ ap some (sym same);
      unlisted =
          ap (λ x. exists w.now ("uac:bl:at:" ++ x.jti) w.flags) same
          ∙ unlisted_read a _ read unlisted;
      of_client = rw same of_client;
      of_route = rw same of_route;
    }

exists-some :
    (t : ℕ) (key : String) (flags : Cache.Cache Bool)
    → get t key flags ≡ some true
    → exists t key flags ≡ true
unfolding exists
exists-some t key flags h = rw (h, exists) refl

exists-put :
    (now t : ℕ) (key : String) (ttl : ℕ) (flags : Cache.Cache Bool)
    → t < now + ttl
    → exists t key (Cache.put now key true ttl flags) ≡ true
exists-put now t key ttl flags h =
    let own = eq_refl key in
    let at = get-put now t key key true ttl flags in
    exists-some t key (Cache.put now key true ttl flags) (ground arith)

abbrev jti_of : Option Claims → String
jti_of none = ""
jti_of (some c) = c.jti

-- Once a token is on the list of revoked tokens, UserAuth refuses it, whichever route asks, for as long
-- as the entry lives, whatever fails in the meantime.
pub blacklisted_refused :
    (env : Env) (req : Request) (c : Claims) (ttl d : ℕ) (fs : List Bool) (w w' : World)
    → Redis.blacklist_access c.jti ttl w ≡ (ok tt, w')
    → env.parse_access (bearer req.authorization) (w'.now + d) ≡ some c
    → d < ttl
    → is_ok (user_auth env req (facing (later d w') fs)).0 ≡ false
unfolding Redis.blacklist_access Redis.set_flag
blacklisted_refused env req c ttl d fs w w' h parsed alive = not_ok _ λ k e.
    let v = facing (later d w') fs in
    let p = user_auth-Passed env req v _ k (ap (λ r. (r, (user_auth env req v).1)) e) in
    let (_, after) = modify_end _ w w' h in
    let same : some k ≡ some c = sym p.parsed ∙ parsed in
    let listed : exists v.now ("uac:bl:at:" ++ k.jti) v.flags ≡ true =
      ap (λ j. exists v.now ("uac:bl:at:" ++ j) v.flags) (ap jti_of same)
      ∙ ap (λ x. exists (x.now + d) ("uac:bl:at:" ++ c.jti) x.flags) after
      ∙ exists-put w.now (w.now + d) ("uac:bl:at:" ++ c.jti) ttl w.flags (omega arith) in
    absurd (true≢false (sym listed ∙ p.unlisted))
