-- ===== src/Service/Login/Factor.antt =====
-- What a login that succeeds rests on, and the second factor that stands in its way.
use unified_account_center.Prelude.{
  String, ◌≡◌, ◌∙◌, sym, ap, subst, Bool, true, false, some, List, ◌==◌, if◌then◌else◌,
}
use unified_account_center.Prelude.Rows.{find_by}
use unified_account_center.Errors.{ok}
use unified_account_center.World.{World, Env}
use unified_account_center.Model
use unified_account_center.Model.Account.{User}
use unified_account_center.Model.Session.{App}
use unified_account_center.Exec.{raise_error}
use unified_account_center.Exec.Inversion.{bind_ok, guard_ok, pure_ok, on_error_ok}
use unified_account_center.Auth.Principal.{IdentityPrincipal}
use unified_account_center.Auth.Registry
use unified_account_center.Service.Apps.{RequestMeta, method_allowed}
use unified_account_center.Service.Apps.Known.{require_app-Known}
use unified_account_center.Service.Users.Active.{IsActive, resolve_user-IsActive}
use unified_account_center.Exec.Frame.{Kept-Frame, Kept-after}
use unified_account_center.Service.Login.Aside.{
  aside, asked, require_app-aside, assert_not_locked-aside, assert_local_login_allowed-aside,
  may_register-aside, login_provider-aside,
}
use unified_account_center.Service.Users.{resolve_user}
use unified_account_center.Service.Completion.{LoginResult}
use unified_account_center.Service.Login.{
  LoginDto, verify_request, pend_login, issue_login, enter, prove, identify, login, login_failed,
}

-- What a login that succeeds was given, and whom it lets in.
pub record Entered (env : Env) (meta : RequestMeta) (dto : LoginDto) (w : World) (r : LoginResult)
    : Type 0 where
  pub app : App
  pub found : find_by (λ a. a.client_id == meta.client_id) w.apps ≡ some app
  pub is_active : (app.status == Model.Status.active) ≡ true
  pub allowed : method_allowed app dto.method ≡ true
  -- The proof of the identity, in the state that the login begins in.
  pub principal : IdentityPrincipal
  pub before : World
  pub begins : aside before ≡ aside w
  pub after : World
  pub verified :
      Registry.verify env dto.method
        (verify_request meta app dto (asked env meta app dto) Model.Scene.login)
        before
      ≡ (ok principal, after)
  -- The user that has this identity, in the state that the proof leaves.
  pub auto_register : Bool
  pub is_new : Bool
  pub proved : World
  pub goes_on : aside proved ≡ aside after
  pub resolved : World
  pub of_user :
      resolve_user env app principal auto_register proved ≡ (ok (r.user, is_new), resolved)
  pub active_user : IsActive r.user

module _ (env : Env) (meta : RequestMeta) (app : App) (dto : LoginDto) where
  -- The identity was proved by the method's Verify.
  record Proved (p : IdentityPrincipal) (w w' : World) : Type 0 where
    pub before : World
    pub begins : aside before ≡ aside w
    pub verified :
        Registry.verify env dto.method
          (verify_request meta app dto (asked env meta app dto) Model.Scene.login)
          before
        ≡ (ok p, w')

  prove-Proved :
      (w w' : World) (p : IdentityPrincipal) → prove env meta app dto w ≡ (ok p, w') → Proved p w w'
  unfolding prove
  prove-Proved w w' p h =
      let (_, h1) = guard_ok _ _ _ w h in
      let (provider, v, e, h2) = bind_ok _ _ w h1 in
      let (same, named) = login_provider-aside env meta app dto w v provider e in
      record {
        before = v;
        begins = same;
        verified =
            subst
              (λ x.
                Registry.verify env dto.method (verify_request meta app dto x Model.Scene.login) v
                ≡ (ok p, w'))
              named (on_error_ok _ (login_failed env meta app dto) v w' p h2);
      }

  -- The user was found by the identity, or registered with it.
  record Identified (p : IdentityPrincipal) (w w' : World) (user : User) (is_new : Bool)
      : Type 0 where
    pub auto_register : Bool
    pub proved : World
    pub goes_on : aside proved ≡ aside w
    pub of_user : resolve_user env app p auto_register proved ≡ (ok (user, is_new), w')

  identify-Identified :
      (p : IdentityPrincipal) (w w' : World) (user : User) (is_new : Bool)
      → identify env meta app dto p w ≡ (ok (user, is_new), w')
      → Identified p w w' user is_new
  unfolding identify
  identify-Identified p w w' user is_new h =
      let (auto, v, e, h1) = bind_ok _ _ w h in
      record {
        auto_register = auto;
        proved = v;
        goes_on = Kept-after _ (Kept-Frame _ (may_register-aside env meta app dto p)) w v auto e;
        of_user = on_error_ok _ _ v w' _ h1;
      }

  pend_login-none :
      (user : User) (is_new : Bool) (flags : List String) (w w' : World) (r : LoginResult)
      → pend_login env meta app dto user is_new flags w ≡ (ok r, w')
      → ⊥
  unfolding pend_login raise_error
  pend_login-none user is_new flags w w' r h =
      let (_, v1, _, h1) = bind_ok _ _ w h in let (_, v2, _, h2) = bind_ok _ _ v1 h1 in absurd (cc)

  issue_login-user :
      (user : User) (is_new : Bool) (flags : List String) (w w' : World) (r : LoginResult)
      → issue_login env meta app dto user is_new flags w ≡ (ok r, w')
      → r.user ≡ user
  unfolding issue_login
  issue_login-user user is_new flags w w' r h =
      let (_, v1, _, h1) = bind_ok _ _ w h in
      let (_, v2, _, h2) = bind_ok _ _ v1 h1 in
      let (_, v3, _, h3) = bind_ok _ _ v2 h2 in
      let (_, v4, _, h4) = bind_ok _ _ v3 h3 in
      let (_, v5, _, h5) = bind_ok _ _ v4 h4 in
      let (_, v6, _, h6) = bind_ok _ _ v5 h5 in
      let (_, v7, _, h7) = bind_ok _ _ v6 h6 in
      let (same, _) = pure_ok _ _ _ _ h7 in ap (λ x. x.user) same

  enter-user :
      (user : User) (is_new : Bool) (w w' : World) (r : LoginResult)
      → enter env meta app dto user is_new w ≡ (ok r, w')
      → r.user ≡ user
  unfolding enter
  enter-user user is_new w w' r h =
      let (new_device, v1, _, h1) = bind_ok _ _ w h in
      let (need_mfa, v2, _, h2) = bind_ok _ _ v1 h1 in
      let (_, v3, _, h3) = bind_ok _ _ v2 h2 in either need_mfa v3 _ h3
    where
      either :
          (need : Bool) (v : World) (flags : List String)
          → (if need
                then pend_login env meta app dto user is_new flags
                else issue_login env meta app dto user is_new flags)
              v
            ≡ (ok r, w')
          → r.user ≡ user
      either true v flags h = absurd (pend_login-none user is_new flags v w' r h)
      either false v flags h = issue_login-user user is_new flags v w' r h

-- A login that succeeds was given, at an active application that allows the method, what the method's
-- Verify accepts for a login, in the state that the login begins in but for the OAuth state that it
-- uses; and the user that it lets in is the one that the identity so proved resolves to in the state
-- that Verify leaves, and is active.
pub login-Entered :
    (env : Env) (meta : RequestMeta) (dto : LoginDto) (w w' : World) (r : LoginResult)
    → login env meta dto w ≡ (ok r, w')
    → Entered env meta dto w r
unfolding login
login-Entered env meta dto w w' r h =
    let (app, w1, a, h1) = bind_ok _ _ w h in
    let (_, w2, b, h2) = bind_ok _ _ w1 h1 in
    let (allowed, h3) = guard_ok _ _ _ w2 h2 in
    let (_, w3, c, h4) = bind_ok _ _ w2 h3 in
    let (p, w4, e, h5) = bind_ok _ _ w3 h4 in
    let ((user, is_new), w5, f, h6) = bind_ok _ _ w4 h5 in
    let known = require_app-Known _ w app w1 a in
    let proof = prove-Proved env meta app dto w3 w4 p e in
    let who = identify-Identified env meta app dto p w4 w5 user is_new f in
    let same : r.user ≡ user = enter-user env meta app dto user is_new w5 w' r h6 in
    let kept_app = Kept-after _ (Kept-Frame _ (require_app-aside _)) w w1 app a in
    let kept_lock = Kept-after _ (Kept-Frame _ (assert_not_locked-aside _ _)) w1 w2 _ b in
    let kept_tenant =
      Kept-after _ (Kept-Frame _ (assert_local_login_allowed-aside app _)) w2 w3 _ c in
    let resolved =
      subst (λ u. resolve_user env app p who.auto_register who.proved ≡ (ok (u, is_new), w5))
        (sym same) who.of_user in
    record {
      app = app;
      found = known.found;
      is_active = known.active;
      allowed = allowed;
      principal = p;
      before = proof.before;
      begins = proof.begins ∙ kept_tenant ∙ kept_lock ∙ kept_app;
      after = w4;
      verified = proof.verified;
      auto_register = who.auto_register;
      is_new = is_new;
      proved = who.proved;
      goes_on = who.goes_on;
      resolved = w5;
      of_user = resolved;
      active_user =
          resolve_user-IsActive env app p who.auto_register who.proved w5 r.user is_new resolved;
    }
