-- ===== src/Service/Invites.antt =====
-- internal/service/invite.go: invitations, the users that the administration creates, and the review of
-- the requests to join. The mail that carries an invitation, the link in it and the lists are not
-- modelled.
pub mod Review
pub mod Steadiness
use Prim.Native.String.{◌++◌}
use unified_account_center.Prelude.{
  ℕ, ◌+◌, String, Bool, true, false, not, ◌&&◌, ◌||◌, ◌==◌, Option, none, some, List, [], ◌∷◌,
  if◌then◌else◌, is_empty, is_nil, nat_eq,
}
use unified_account_center.Text.{trim_space}
use unified_account_center.Errors.{bad_request, not_found, internal}
use unified_account_center.World.{Env}
use unified_account_center.Model
use unified_account_center.Model.Account.{User}
use unified_account_center.Model.Tenancy.{Invite, JoinRequest}
use unified_account_center.Identity.{normalize_phone, mask_phone, mask_email}
use unified_account_center.Exec.{
  M, pure, gets, guard, require, when, ignore, draw, or_nil, ◌>>=◌, ◌>>◌,
}
use unified_account_center.Repo.Accounts
use unified_account_center.Repo.Tenancy
use unified_account_center.Repo.Tokens
use unified_account_center.Service.Tenants.{get_tenant}
use unified_account_center.Service.Merge.{plain_log}

-- `CreateInviteRequest`.
pub record CreateInviteRequest : Type 0 where
  pub tenant_id : String
  pub client_id : String
  pub email : String
  pub phone : String
  pub max_uses : ℕ
  pub expire_in : ℕ
  pub note : String
  pub created_by : String

abbrev or_default_tenant : String → String
or_default_tenant tid = if is_empty tid then "default" else tid

abbrev expiry : ℕ → ℕ → Option ℕ
expiry now expire_in = if nat_eq expire_in 0 then none else some (now + expire_in)

-- The tenant has to exist, unless it is the default one.
unfoldable pub tenant_there : String → M (Unit {0})
tenant_there tid =
    if tid == "default" then ignore (get_tenant tid) else (do _ ← get_tenant tid; pure tt)

-- `CreateUserRequest`.
pub record CreateUserRequest : Type 0 where
  pub tenant_id : String
  pub phone : String
  pub email : String
  pub display_name : String
  pub password : String
  pub roles : List String

-- `CreateUserResult`.
pub record CreateUserResult : Type 0 where
  pub user_id : String
  pub tenant_id : String
  pub display_name : String
  pub phone : String
  pub email : String
  pub temp_password : String
  pub roles : List String

abbrev shown_name : String → String → String → String
shown_name given phone email =
    if not (is_empty given)
    then given
    else if is_empty phone
    then mask_email email
    else mask_phone phone

abbrev pub plain_user : String → String → String → User
plain_user user_id tid display = record {
  user_id = user_id;
  tenant_id = tid;
  display_name = display;
  avatar = "";
  status = Model.Status.active;
  pref_notify_email = true;
  pref_notify_sms = true;
}

-- A row of identities that counts as verified.
unfoldable pub add_identity : String → String → String → String → String → M (Unit {0})
add_identity tid user_id id_type provider identifier = Accounts.create_identity (record {
  id = 0;
  tenant_id = tid;
  user_id = user_id;
  id_type = id_type;
  provider = provider;
  identifier = identifier;
  verified = true;
})

-- The phone number as it is stored.
unfoldable pub add_phone : String → String → String → M String
unfolding add_identity
add_phone tid user_id phone = if is_empty phone then pure phone else (do
  norm ← require (normalize_phone phone) bad_request
  add_identity tid user_id Model.IdType.phone "" norm
  pure norm)

unfoldable pub bind_roles : String → String → List String → M (Unit {0})
bind_roles user_id tid [] = pure tt
bind_roles user_id tid (r ∷ rs) = do
  ignore (Accounts.upsert_role (record { user_id = user_id; tenant_id = tid; role = r }))
  bind_roles user_id tid rs

abbrev or_user_role : List String → List String
or_user_role roles = if is_nil roles then Model.Role.user ∷ [] else roles

module _ (env : Env) where
  invite_row : CreateInviteRequest → String → String → ℕ → Invite
  invite_row req tid code now = record {
    code = code;
    tenant_id = tid;
    client_id = trim_space req.client_id;
    email = trim_space req.email;
    phone = trim_space req.phone;
    max_uses = if nat_eq req.max_uses 0 then 1 else req.max_uses;
    used_count = 0;
    expire_at = expiry now req.expire_in;
    created_by = req.created_by;
    status = Model.Status.active;
    note = trim_space req.note;
  }

  -- `CreateInvite`.
  unfoldable pub create_invite : CreateInviteRequest → M Invite
  unfolding tenant_there invite_row
  create_invite req = do
    let tid = or_default_tenant (trim_space req.tenant_id)
    tenant_there tid
    now ← gets (λ w. w.now)
    n ← draw
    m ← draw
    let inv = invite_row req tid (env.random_id "inv" n ++ env.random_hex 4 m) now
    Tenancy.create_invite inv
    pure inv

  -- The password, and the temporary one that is shown where none was given.
  unfoldable pub password_for : String → M (String × String)
  password_for given =
      if is_empty given
      then (do n ← draw; let pwd = "Tmp" ++ env.random_hex 6 n ++ "!"; pure (pwd, pwd))
      else pure (given, "")

  unfoldable pub store_password : String → String → M (Unit {0})
  store_password user_id pwd = do
    n ← draw
    hash ← require (env.hash_password pwd n) internal
    now ← gets (λ w. w.now)
    Accounts.upsert_password user_id hash now

  -- What `AdminCreateUser` does once the request names the user.
  unfoldable pub create_named : CreateUserRequest → String → String → String → M CreateUserResult
  unfolding add_phone add_identity password_for store_password bind_roles
  create_named req tid given_phone email = do
    n ← draw
    let user_id = env.random_id "u" n
    let display = shown_name (trim_space req.display_name) given_phone email
    Accounts.create_user (plain_user user_id tid display)
    phone ← add_phone tid user_id given_phone
    when (not (is_empty email)) (add_identity tid user_id Model.IdType.email "" email)
    (pwd, temp) ← password_for (trim_space req.password)
    store_password user_id pwd
    bind_roles user_id tid (or_user_role req.roles)
    now ← gets (λ w. w.now)
    ignore
        (Tokens.create_audit (plain_log tid user_id "admin_create_user" "admin created user" now))
    pure (record {
      user_id = user_id;
      tenant_id = tid;
      display_name = display;
      phone = phone;
      email = email;
      temp_password = temp;
      roles = or_user_role req.roles;
    })

  -- `AdminCreateUser`.
  unfoldable pub admin_create_user : CreateUserRequest → M CreateUserResult
  unfolding create_named
  admin_create_user req = do
    let phone = trim_space req.phone
    let email = env.to_lower (trim_space req.email)
    guard (not (is_empty phone && is_empty email)) bad_request
    create_named req (or_default_tenant (trim_space req.tenant_id)) phone email

  abbrev pub decided : JoinRequest → String → String → String → JoinRequest
  decided req status reviewer note = record req {
    status = status;
    reviewer = reviewer;
    note = note;
  }

  -- The user that an approval creates.
  unfoldable pub admit : JoinRequest → M (Unit {0})
  unfolding add_identity
  admit req = do
    n ← draw
    let user_id = env.random_id "u" n
    let display = if is_empty req.profile_name then req.identity else req.profile_name
    Accounts.create_user (plain_user user_id req.tenant_id display)
    let id_type = if is_empty req.id_type then Model.IdType.phone else req.id_type
    add_identity req.tenant_id user_id id_type req.provider req.identifier
    ignore (
        Accounts.upsert_role
          (record { user_id = user_id; tenant_id = req.tenant_id; role = Model.Role.user }))

  unfoldable pub decide : JoinRequest → String → String → String → M (Unit {0})
  unfolding admit
  decide req decision reviewer note =
      if decision == "reject"
      then Tenancy.update_join (decided req Model.Join.rejected reviewer note)
      else (do admit req; Tenancy.update_join (decided req Model.Join.approved reviewer note))

  -- `ReviewJoinRequest`.
  unfoldable pub review_join_request : String → String → String → String → M (Unit {0})
  unfolding decide
  review_join_request request_id decision reviewer note = do
    found ← or_nil (Tenancy.find_join request_id)
    req ← require found not_found
    guard (req.status == Model.Join.pending) bad_request
    let choice = env.to_lower (trim_space decision)
    guard (choice == "approve" || choice == "reject") bad_request
    decide req choice reviewer note

-- `RevokeInvite`.
unfoldable pub revoke_invite : String → M (Unit {0})
revoke_invite code = do
  found ← or_nil (Tenancy.find_invite code)
  inv ← require found not_found
  Tenancy.update_invite (record inv { status = Model.Status.revoked })
