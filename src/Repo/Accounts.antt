-- ===== src/Repo/Accounts.antt =====
-- internal/repository/impl.go and p2.go: users, identities, credentials, password histories, known
-- devices, OAuth accounts and role bindings.
use unified_account_center.Prelude.{
  ℕ, zero, suc, String, Bool, false, Option, none, some, List, [], ◌∷◌, ◌++◌, ◌&&◌, ◌==◌, is_empty,
  is_some, is_nil, nat_eq, ◌||◌, if◌then◌else◌,
}
use unified_account_center.Prelude.Rows.{find_by, filter_by, update_where, delete_where}
use unified_account_center.Model.Account.{
  User, Identity, Credential, PasswordHistory, KnownDevice, OauthAccount, RoleBinding,
}
use unified_account_center.Exec.{M, pure, query, modify, insert, ◌>>=◌, ◌>>◌}

unfoldable pub create_user : User → M (Unit {0})
create_user u =
    insert (λ w. is_some (find_by (λ v. v.user_id == u.user_id) w.users))
      (λ w. record w { users = w.users ++ u ∷ [] })

unfoldable pub find_user : String → M (Option User)
find_user user_id = query λ w. find_by (λ u. u.user_id == user_id) w.users

-- `Save`: the row with the primary key of `u`; user_id is unique.
unfoldable pub update_user : User → M (Unit {0})
update_user u =
    modify λ w. record w { users = update_where (λ v. v.user_id == u.user_id) (λ _. u) w.users }

abbrev pub same_key : String → String → String → String → Identity → Bool
same_key tenant_id id_type provider identifier i =
    i.tenant_id == tenant_id
    && i.id_type == id_type
    && i.provider == provider
    && i.identifier == identifier

-- The database gives the primary key, and the unique index refuses a second row with one key.
unfoldable pub create_identity : Identity → M (Unit {0})
create_identity i =
    insert
      (λ w. is_some (find_by (same_key i.tenant_id i.id_type i.provider i.identifier) w.identities))
      (λ w. record w {
        identities = w.identities ++ record i { id = w.next_identity_id } ∷ [];
        next_identity_id = suc w.next_identity_id;
      })

unfoldable pub find_identity : String → String → String → String → M (Option Identity)
find_identity tenant_id id_type provider identifier =
    query λ w. find_by (same_key tenant_id id_type provider identifier) w.identities

unfoldable pub list_identities : String → M (List Identity)
list_identities user_id = query λ w. filter_by (λ i. i.user_id == user_id) w.identities

unfoldable pub delete_identity : ℕ → M (Unit {0})
delete_identity id =
    modify λ w. record w { identities = delete_where (λ i. nat_eq i.id id) w.identities }

unfoldable pub find_credential : String → M (Option Credential)
find_credential user_id = query λ w. find_by (λ c. c.user_id == user_id) w.credentials

-- `Save`, which also sets updated_at.
unfoldable pub save_credential : Credential → M (Unit {0})
save_credential c = modify λ w. record w {
  credentials =
      update_where (λ d. d.user_id == c.user_id) (λ _. record c { updated_at = w.now })
        w.credentials;
}

abbrev pub no_credential : String → ℕ → Credential
no_credential user_id now = record {
  user_id = user_id;
  password_hash = "";
  password_updated_at = none;
  mfa_secret = "";
  mfa_enabled = false;
  mfa_backup_hashes = [];
  updated_at = now;
}

unfoldable pub create_credential : Credential → M (Unit {0})
create_credential c =
    insert (λ w. is_some (find_by (λ d. d.user_id == c.user_id) w.credentials))
      (λ w. record w { credentials = w.credentials ++ c ∷ [] })

unfoldable pub upsert_found : String → String → ℕ → Option Credential → M (Unit {0})
upsert_found user_id hash now none =
    create_credential
      (record (no_credential user_id now) { password_hash = hash; password_updated_at = some now })
upsert_found user_id hash now (some existing) =
    save_credential (record existing { password_hash = hash; password_updated_at = some now })

unfoldable pub upsert_password : String → String → ℕ → M (Unit {0})
unfolding upsert_found
upsert_password user_id hash now = do
  existing ← find_credential user_id
  upsert_found user_id hash now existing

unfoldable pub ensure_found : String → ℕ → Option Credential → M Credential
ensure_found user_id now (some c) = pure c
ensure_found user_id now none = do
  create_credential (no_credential user_id now)
  pure (no_credential user_id now)

unfoldable pub ensure_credential : String → ℕ → M Credential
unfolding ensure_found
ensure_credential user_id now = do c ← find_credential user_id; ensure_found user_id now c

-- The history table is kept in the order "id desc", the newest row first.
unfoldable pub take_of : ℕ → List PasswordHistory → List PasswordHistory
take_of zero hs = []
take_of (suc n) [] = []
take_of (suc n) (h ∷ hs) = h ∷ take_of n hs

unfoldable pub list_recent : String → ℕ → M (List PasswordHistory)
unfolding take_of
list_recent user_id limit =
    query λ w. take_of limit (filter_by (λ h. h.user_id == user_id) w.histories)

unfoldable pub append_history : String → String → M (Unit {0})
append_history user_id hash =
    if is_empty hash
    then pure tt
    else modify λ w. record w {
      histories =
          record { id = w.next_history_id; user_id = user_id; password_hash = hash } ∷ w.histories;
      next_history_id = suc w.next_history_id;
    }

-- OFFSET.
unfoldable pub skip_of : ℕ → List PasswordHistory → List PasswordHistory
skip_of zero hs = hs
skip_of (suc n) [] = []
skip_of (suc n) (h ∷ hs) = skip_of n hs

unfoldable pub has_any : List PasswordHistory → ℕ → Bool
has_any [] id = false
has_any (h ∷ hs) id = let rest = has_any hs id in nat_eq h.id id || rest

unfoldable pub delete_ids : List PasswordHistory → M (Unit {0})
unfolding has_any
delete_ids old =
    if is_nil old
    then pure tt
    else modify λ w. record w { histories = delete_where (λ h. has_any old h.id) w.histories }

-- `Trim`: the ids of the rows past the newest ones, and then their deletion.
unfoldable pub trim_history : String → ℕ → M (Unit {0})
unfolding skip_of delete_ids
trim_history user_id keep =
    if nat_eq keep 0
    then modify (λ w. record w { histories = delete_where (λ h. h.user_id == user_id) w.histories })
    else (do
      old ← query (λ w. skip_of keep (filter_by (λ h. h.user_id == user_id) w.histories))
      delete_ids old)

abbrev pub same_device : String → String → String → KnownDevice → Bool
same_device user_id client_id device_id d =
    d.user_id == user_id && d.client_id == client_id && d.device_id == device_id

unfoldable pub find_device : String → String → String → M (Option KnownDevice)
find_device user_id client_id device_id =
    query λ w. find_by (same_device user_id client_id device_id) w.devices

unfoldable pub upsert_device_found : KnownDevice → Option KnownDevice → M (Unit {0})
upsert_device_found d none = modify λ w. record w { devices = w.devices ++ d ∷ [] }
upsert_device_found d (some old) = modify λ w. record w {
  devices =
      update_where (same_device d.user_id d.client_id d.device_id)
        (λ e. record e { fingerprint = d.fingerprint; ip = d.ip; ua = d.ua }) w.devices;
}

unfoldable pub upsert_device : KnownDevice → M (Unit {0})
unfolding upsert_device_found
upsert_device d = do
  existing ← find_device d.user_id d.client_id d.device_id
  upsert_device_found d existing

abbrev pub same_subject : OauthAccount → OauthAccount → Bool
same_subject a b = b.provider == a.provider && b.subject == a.subject

unfoldable pub upsert_oauth_found : OauthAccount → Option OauthAccount → M (Unit {0})
upsert_oauth_found a none = modify λ w. record w { oauth_accounts = w.oauth_accounts ++ a ∷ [] }
upsert_oauth_found a (some old) =
    modify
      λ w. record w { oauth_accounts = update_where (same_subject a) (λ _. a) w.oauth_accounts }

unfoldable pub upsert_oauth : OauthAccount → M (Unit {0})
unfolding upsert_oauth_found
upsert_oauth a = do
  existing ← query (λ w. find_by (same_subject a) w.oauth_accounts)
  upsert_oauth_found a existing

abbrev pub same_binding : RoleBinding → RoleBinding → Bool
same_binding b c = c.user_id == b.user_id && c.tenant_id == b.tenant_id && c.role == b.role

unfoldable pub upsert_role_found : RoleBinding → Option RoleBinding → M (Unit {0})
upsert_role_found b none = modify λ w. record w { roles = w.roles ++ b ∷ [] }
upsert_role_found b (some old) = pure tt

unfoldable pub upsert_role : RoleBinding → M (Unit {0})
unfolding upsert_role_found
upsert_role b = do
  existing ← query (λ w. find_by (same_binding b) w.roles)
  upsert_role_found b existing

unfoldable pub list_roles : String → M (List RoleBinding)
list_roles user_id = query λ w. filter_by (λ b. b.user_id == user_id) w.roles

-- "UPDATE … SET user_id = ? WHERE user_id = ?" of `mergeUsers`.
unfoldable pub move_identities : String → String → M (Unit {0})
move_identities source target = modify λ w. record w {
  identities =
      update_where (λ i. i.user_id == source) (λ i. record i { user_id = target }) w.identities;
}

unfoldable pub move_oauth : String → String → M (Unit {0})
move_oauth source target = modify λ w. record w {
  oauth_accounts =
      update_where (λ a. a.user_id == source) (λ a. record a { user_id = target }) w.oauth_accounts;
}

unfoldable pub delete_credential : String → M (Unit {0})
delete_credential user_id =
    modify λ w. record w { credentials = delete_where (λ c. c.user_id == user_id) w.credentials }
