-- ===== src/Service/AdminSession/Admitted.antt =====
-- Whom the login by password of internal/service/admin_session.go lets in.
use unified_account_center.Prelude.{
  String, refl, ◌≡◌, ◌∙◌, sym, ap, subst, Bool, true, false, not-true, ◌==◌, Option, none, some,
  List, [], ◌⊎◌, inl, inr, if◌then◌else◌,
}
use unified_account_center.Prelude.Rows.{find_by, filter_by}
use unified_account_center.Errors.{ok, bad_request}
use unified_account_center.Exec.{require, pure, raise, ◌>>=◌}
use mathlib.Core.Bool.{true≢false}
use unified_account_center.Text.{trim_space, trim_left, trim_right, is_space_code}
use unified_account_center.Identity.{normalize_phone, normalize_email}
use unified_account_center.World.{World, Env}
use unified_account_center.Model
use unified_account_center.Model.Account.{User, Identity, Credential, RoleBinding}
use unified_account_center.Exec.Inversion.{
  found_there, or_nil-query_ok, or_default-query_ok, require_ok, guard_ok, bind_ok, gets_ok,
  pure_ok,
}
use unified_account_center.Repo.Accounts
use unified_account_center.Repo.Accounts.{same_key}
use unified_account_center.Service.Roles.{roles_of, has_admin_capability}
use unified_account_center.Service.AdminSession.{
  AdminLoginRequest, AdminSession, roles_for_admin_user, or_false, or_text, admin_identity,
  checked_user, open_session, login_by_password,
}

-- The stored user whose identity was given, who is not disabled, and a stored hash of theirs that the
-- password fits.
pub record Checked (env : Env) (tid id_type identifier password : String) (w : World) (user : User)
    : Type 0 where
  pub ident : Identity
  pub listed : find_by (same_key tid id_type "" identifier) w.identities ≡ some ident
  pub found : find_by (λ u. u.user_id == ident.user_id) w.users ≡ some user
  pub enabled : (user.status == Model.Status.disabled) ≡ false
  pub cred : Credential
  pub stored : find_by (λ c. c.user_id == user.user_id) w.credentials ≡ some cred
  pub fits : env.verify_password cred.password_hash password ≡ some true

-- The roles that the bindings of a user give, or those of a user without bindings.
abbrev pub IsRolesOf : User → List RoleBinding → List String → Type 0
IsRolesOf user bindings roles =
    (roles ≡ (roles_of user.tenant_id (filter_by (λ b. b.user_id == user.user_id) bindings)).0)
    ⊎ (roles ≡ (roles_of user.tenant_id []).0)

-- Where the bindings cannot be read, the roles are those of a user without any, which may not read.
no_roles : (tenant_id : String) → has_admin_capability (roles_of tenant_id []).0 "read" ≡ false
unfolding has_admin_capability roles_of trim_space trim_left trim_right is_space_code
no_roles tenant_id = refl

readers_own :
    (user : User) (bindings : List RoleBinding) (roles : List String)
    → IsRolesOf user bindings roles
    → has_admin_capability roles "read" ≡ true
    → roles ≡ (roles_of user.tenant_id (filter_by (λ b. b.user_id == user.user_id) bindings)).0
readers_own user bindings roles (inl e) reads = e
readers_own user bindings roles (inr e) reads =
    absurd
      (true≢false (sym reads ∙ ap (λ r. has_admin_capability r "read") e ∙ no_roles user.tenant_id))

-- Whom a login by password lets in: the user of the identity that was given in its canonical form; the
-- session has the user's roles, which may read.
pub record Admitted (env : Env) (req : AdminLoginRequest) (w : World) (s : AdminSession)
    : Type 0 where
  pub id_type : String
  pub identifier : String
  pub canonical :
      admin_identity env
        (or_text (trim_space req.method) Model.Method.phone_password)
        (trim_space req.identity)
        w
      ≡ (ok (id_type, identifier), w)
  pub user : User
  pub checked :
      Checked env
        (or_text (trim_space req.tenant_id) "default")
        id_type
        identifier
        req.password
        w
        user
  pub own : s.user_id ≡ user.user_id
  pub own_roles :
      s.roles ≡ (roles_of user.tenant_id (filter_by (λ b. b.user_id == user.user_id) w.roles)).0
  pub reads : has_admin_capability s.roles "read" ≡ true

module _ (env : Env) where
  checked_user-Checked :
      (tid id_type identifier password : String) (w w' : World) (user : User)
      → checked_user env tid id_type identifier password w ≡ (ok user, w')
      → Checked env tid id_type identifier password w user
  unfolding checked_user Accounts.find_identity Accounts.find_user Accounts.find_credential
  checked_user-Checked tid id_type identifier password w w' user h =
      let (o, _, c, h1) = or_nil-query_ok _ _ w h in
      let (ident, e, h2) = require_ok _ _ _ _ h1 in
      let (o2, _, c2, h3) = or_nil-query_ok _ _ _ h2 in
      let (u, e2, h4) = require_ok _ _ _ _ h3 in
      let (enabled, h5) = guard_ok _ _ _ _ h4 in
      let (o3, _, c3, h6) = or_nil-query_ok _ _ _ h5 in
      let (cred, e3, h7) = require_ok _ _ _ _ h6 in
      let (_, h8) = guard_ok _ _ _ _ h7 in
      let (fits, h9) = guard_ok _ _ _ _ h8 in
      let (same, _) = pure_ok u user _ w' h9 in
      record {
        ident = ident;
        listed = found_there o _ ident c e;
        found = found_there o2 _ u c2 e2 ∙ ap some (sym same);
        enabled = rw same (not-true _ enabled);
        cred = cred;
        stored =
            ap (λ x. find_by (λ k. k.user_id == x.user_id) w.credentials) same
            ∙ found_there o3 _ cred c3 e3;
        fits = proved (env.verify_password cred.password_hash password) fits;
      }
    where
      proved : (o : Option Bool) → or_false o ≡ true → o ≡ some true
      proved none e = absurd (cc)
      proved (some b) e = ap some e

  identity_same :
      (o : Option String) (id_type : String) (p : String × String) (w w' : World)
      → (do norm ← require o bad_request; pure (id_type, norm)) w ≡ (ok p, w')
      → w' ≡ w
  identity_same o id_type p w w' h =
      let (norm, _, h1) = require_ok _ _ _ _ h in
      let (_, same) = pure_ok (id_type, norm) p w w' h1 in same

  admin_identity_same :
      (method raw : String) (p : String × String) (w w' : World)
      → admin_identity env method raw w ≡ (ok p, w')
      → w' ≡ w
  unfolding admin_identity raise
  admin_identity_same method raw p w w' h =
      by_method (method == Model.Method.phone_password) (method == Model.Method.email_password) h
    where
      by_method :
          (a b : Bool)
          → (if a
                then (do
                  norm ← require (normalize_phone raw) bad_request
                  pure (Model.IdType.phone, norm))
                else if b
                then (do
                  norm ← require (normalize_email env.to_lower raw) bad_request
                  pure (Model.IdType.email, norm))
                else raise bad_request)
              w
            ≡ (ok p, w')
          → w' ≡ w
      by_method true b e = identity_same _ _ p w w' e
      by_method false true e = identity_same _ _ p w w' e
      by_method false false e = absurd (cc)

  roles_read :
      (user : User) (w v : World) (r : List String × List String)
      → roles_for_admin_user user.user_id user.tenant_id w ≡ (ok r, v)
      → IsRolesOf user w.roles r.0
  unfolding roles_for_admin_user Accounts.list_roles
  roles_read user w v r h =
      let (list, fs, read, h1) = or_default-query_ok _ _ _ w h in
      let (same, _) = pure_ok (roles_of user.tenant_id list) r _ v h1 in
      by_read list read (ap (λ x. x.0) same)
    where
      by_read :
          (list : List RoleBinding)
          → (list ≡ []) ⊎ (list ≡ filter_by (λ b. b.user_id == user.user_id) w.roles)
          → r.0 ≡ (roles_of user.tenant_id list).0
          → IsRolesOf user w.roles r.0
      by_read list (inl e) k = inr (k ∙ ap (λ l. (roles_of user.tenant_id l).0) e)
      by_read list (inr e) k = inl (k ∙ ap (λ l. (roles_of user.tenant_id l).0) e)

  open_session-reads :
      (user : User) (w w' : World) (s : AdminSession)
      → open_session env user w ≡ (ok s, w')
      → (s.user_id ≡ user.user_id)
        × IsRolesOf user w.roles s.roles
        × (has_admin_capability s.roles "read" ≡ true)
  unfolding open_session
  open_session-reads user w w' s h =
      let (r, v, given, h1) = bind_ok _ _ w h in
      let (reads, h2) = guard_ok _ _ _ v h1 in
      let (n, v1, _, h3) = bind_ok _ _ v h2 in
      let h4 = gets_ok _ _ v1 h3 in
      let (signed, _, h5) = require_ok _ _ _ _ h4 in
      let (same, _) = pure_ok _ s v1 w' h5 in
      (
        ap (λ x. x.user_id) same,
        subst (IsRolesOf user w.roles) (ap (λ x. x.roles) (sym same)) (roles_read user w v r given),
        ap (λ x. has_admin_capability x.roles "read") same ∙ reads,
      )

  checked_user_bindings :
      (tid id_type identifier password : String) (w w' : World) (user : User)
      → checked_user env tid id_type identifier password w ≡ (ok user, w')
      → w'.roles ≡ w.roles
  unfolding checked_user Accounts.find_identity Accounts.find_user Accounts.find_credential
  checked_user_bindings tid id_type identifier password w w' user h =
      let (o, _, c, h1) = or_nil-query_ok _ _ w h in
      let (ident, e, h2) = require_ok _ _ _ _ h1 in
      let (o2, _, c2, h3) = or_nil-query_ok _ _ _ h2 in
      let (u, e2, h4) = require_ok _ _ _ _ h3 in
      let (_, h5) = guard_ok _ _ _ _ h4 in
      let (o3, _, c3, h6) = or_nil-query_ok _ _ _ h5 in
      let (cred, e3, h7) = require_ok _ _ _ _ h6 in
      let (_, h8) = guard_ok _ _ _ _ h7 in
      let (_, h9) = guard_ok _ _ _ _ h8 in
      let (_, after) = pure_ok u user _ w' h9 in ap (λ x. x.roles) after

  -- A login to the administration by password that succeeds lets in the stored user of the identity that
  -- was given, who is not disabled and whose stored hash the password fits; the session has the roles
  -- that the user's stored bindings give, which may read.
  pub login_by_password-Admitted :
      (req : AdminLoginRequest) (w w' : World) (s : AdminSession)
      → login_by_password env req w ≡ (ok s, w')
      → Admitted env req w s
  unfolding login_by_password
  login_by_password-Admitted req w w' s h =
      let method = or_text (trim_space req.method) Model.Method.phone_password in
      let tid = or_text (trim_space req.tenant_id) "default" in
      let (_, h1) = guard_ok _ _ _ w h in
      let (p, w1, i, h2) = bind_ok _ _ w h1 in
      let (user, w2, c, h3) = bind_ok _ _ w1 h2 in
      let checked = checked_user-Checked tid p.0 p.1 req.password w1 w2 user c in
      let (of_user, roles, reads) = open_session-reads user w2 w' s h3 in
      let same = admin_identity_same method (trim_space req.identity) p w w1 i in
      let bindings =
        checked_user_bindings tid p.0 p.1 req.password w1 w2 user c ∙ ap (λ x. x.roles) same in
      record {
        id_type = p.0;
        identifier = p.1;
        canonical = i ∙ ap (λ v. (ok p, v)) same;
        user = user;
        checked = subst (λ v. Checked env tid p.0 p.1 req.password v user) same checked;
        own = of_user;
        own_roles =
            readers_own user w.roles s.roles (subst (λ l. IsRolesOf user l s.roles) bindings roles)
              reads;
        reads = reads;
      }
