-- ===== src/Service/Users.antt =====
-- internal/service/auth_service.go: the user behind a verified identity, registration by invitation or
-- on the spot, and what a login shows of the user.
pub mod Active
use Prim.Native.String.{◌++◌}
use unified_account_center.Prelude.{
  ℕ, String, Bool, true, false, not, ◌||◌, ◌==◌, Option, none, some, List, map, if◌then◌else◌,
  is_empty, ltb,
}
use unified_account_center.Errors.{
  join_request, invalid_cred, forbidden_app, internal, pending_approval, Code,
}
use unified_account_center.World.{Env}
use unified_account_center.Model
use unified_account_center.Model.Account.{User, Identity}
use unified_account_center.Model.Session.{App}
use unified_account_center.Model.Tenancy.{JoinRequest}
use unified_account_center.Identity.{normalize_phone, mask_phone, mask_email}
use unified_account_center.Exec.{
  M, pure, raise_error, gets, guard, require, when, ignore, draw, or_nil, ◌>>=◌, ◌>>◌,
}
use unified_account_center.Repo.Accounts
use unified_account_center.Repo.Tenancy
use unified_account_center.Auth.Principal.{IdentityPrincipal}

-- `IdentityView`.
pub record IdentityView : Type 0 where
  pub id_type : String
  pub provider : String
  pub value : String
  pub verified : Bool

-- The text that stands for an identity in `identityViews`.
unfoldable pub shown : String → String → String
shown id_type identifier =
    if id_type == Model.IdType.phone
    then mask_phone identifier
    else if id_type == Model.IdType.email
    then mask_email identifier
    else identifier

abbrev pub view_of : Identity → IdentityView
view_of i = record {
  id_type = i.id_type;
  provider = i.provider;
  value = shown i.id_type i.identifier;
  verified = i.verified;
}

-- `identityViews`.
unfoldable pub identity_views : String → M (List IdentityView)
identity_views user_id = do list ← Accounts.list_identities user_id; pure (map view_of list)

-- `defaultDisplay`.
unfoldable pub default_display : IdentityPrincipal → String
default_display p =
    if p.id_type == Model.IdType.phone
    then mask_phone p.identifier
    else if p.id_type == Model.IdType.email
    then mask_email p.identifier
    else if is_empty p.provider
    then p.identifier
    else p.provider ++ ":" ++ p.identifier

-- A user that is there, if the read succeeded, and is active.
unfoldable pub active_user : String → Code → M User
active_user user_id missing = do
  found ← or_nil (Accounts.find_user user_id)
  user ← require found missing
  guard (user.status == Model.Status.active) forbidden_app
  pure user

-- The user id that a password login put in the profile.
abbrev pub proved_id : Option String → Option String
proved_id none = none
proved_id (some uid) = if is_empty uid then none else some uid

abbrev or_blank : Option String → String
or_blank none = ""
or_blank (some s) = s

abbrev display_of : IdentityPrincipal → String
display_of p =
    if is_empty (or_blank p.profile.name) then default_display p else or_blank p.profile.name

module _ (env : Env) where
  join_row : App → IdentityPrincipal → String → JoinRequest
  join_row app p id = record {
    request_id = id;
    tenant_id = app.tenant_id;
    client_id = app.client_id;
    identity = p.identifier;
    provider = p.provider;
    id_type = p.id_type;
    identifier = p.identifier;
    method = "";
    profile_name = or_blank p.profile.name;
    status = Model.Join.pending;
    reviewer = "";
    note = "";
  }

  -- `createJoinRequest`.
  unfoldable pub create_join_request : App → IdentityPrincipal → M String
  unfolding join_row
  create_join_request app p = do
    n ← draw
    Tenancy.create_join (join_row app p (env.random_id "jr" n))
    pure (env.random_id "jr" n)

  new_user : App → IdentityPrincipal → String → User
  new_user app p id = record {
    user_id = id;
    tenant_id = app.tenant_id;
    display_name = display_of p;
    avatar = or_blank p.profile.avatar;
    status = Model.Status.active;
    pref_notify_email = true;
    pref_notify_sms = true;
  }

  -- Registration, the end of `resolveUser`.
  unfoldable pub register : App → IdentityPrincipal → M User
  unfolding new_user
  register app p = do
    n ← draw
    let id = env.random_id "u" n
    Accounts.create_user (new_user app p id)
    Accounts.create_identity (record {
      id = 0;
      tenant_id = app.tenant_id;
      user_id = id;
      id_type = p.id_type;
      provider = p.provider;
      identifier = p.identifier;
      verified = p.verified;
    })
    when (p.id_type == Model.IdType.oauth) (
        ignore (
          Accounts.upsert_oauth
            (record { user_id = id; provider = p.provider; subject = p.identifier })))
    ignore (
        Accounts.upsert_role
          (record { user_id = id; tenant_id = app.tenant_id; role = Model.Role.user }))
    pure (new_user app p id)

  unfoldable pub join_or_register : App → IdentityPrincipal → Bool → M (User × Bool)
  join_or_register app p auto_reg =
      if auto_reg then (do user ← register app p; pure (user, true)) else (do
        id ← create_join_request app p
        raise_error (record { code = pending_approval; details = join_request id }))

  unfoldable pub by_identity : App → IdentityPrincipal → Bool → Option Identity → M (User × Bool)
  by_identity app p auto_reg none = join_or_register app p auto_reg
  by_identity app p auto_reg (some i) = do user ← active_user i.user_id internal; pure (user, false)

  unfoldable pub by_profile : App → IdentityPrincipal → Bool → Option String → M (User × Bool)
  by_profile app p auto_reg (some uid) = do user ← active_user uid invalid_cred; pure (user, false)
  by_profile app p auto_reg none = do
    existing ← Accounts.find_identity app.tenant_id p.id_type p.provider p.identifier
    by_identity app p auto_reg existing

  -- `resolveUser`: the user, and whether it is new.
  unfoldable pub resolve_user : App → IdentityPrincipal → Bool → M (User × Bool)
  unfolding by_profile by_identity
  resolve_user app p auto_reg = by_profile app p auto_reg (proved_id p.profile.user_id)

  abbrev other_phone : IdentityPrincipal → Option String → Bool
  other_phone p none = false
  other_phone p (some norm) = not (norm == p.identifier)

  abbrev past : ℕ → Option ℕ → Bool
  past now none = false
  past now (some t) = ltb t now

  -- `validateInviteForRegister`.
  unfoldable pub validate_invite : App → String → IdentityPrincipal → M (Unit {0})
  validate_invite app code p = do
    found ← Tenancy.find_invite code
    inv ← require found invalid_cred
    now ← gets (λ w. w.now)
    guard (inv.status == Model.Status.active) invalid_cred
    guard (not (past now inv.expire_at)) invalid_cred
    guard (ltb inv.used_count inv.max_uses) invalid_cred
    guard (is_empty inv.tenant_id || inv.tenant_id == app.tenant_id) forbidden_app
    guard (is_empty inv.client_id || inv.client_id == app.client_id) forbidden_app
    guard
        (is_empty inv.email
          || not (p.id_type == Model.IdType.email)
          || env.equal_fold inv.email p.identifier)
        forbidden_app
    guard
        (is_empty inv.phone
          || not (p.id_type == Model.IdType.phone)
          || not (other_phone p (normalize_phone inv.phone)))
        forbidden_app
