-- ===== src/History/Stores/Accounts.antt =====
-- The statements of internal/repository on users and their rows take nothing back.
use unified_account_center.Prelude.{
  ℕ, String, refl, List, nat_eq, is_nil, Option, none, some, is_empty,
}
use unified_account_center.Model.Account.{
  User, Identity, Credential, PasswordHistory, KnownDevice, OauthAccount, RoleBinding,
}
use unified_account_center.History.{Advances-quiet}
use unified_account_center.History.Rules.{
  Steady, Steady-pure, Steady-query, Steady-modify_quiet, Steady-insert, Steady-bind, Steady-if,
}
use unified_account_center.Repo.Accounts

pub Steady-find_user : (user_id : String) → Steady (Accounts.find_user user_id)
unfolding Accounts.find_user
Steady-find_user user_id = Steady-query _

pub Steady-find_identity :
    (tenant_id id_type provider identifier : String)
    → Steady (Accounts.find_identity tenant_id id_type provider identifier)
unfolding Accounts.find_identity
Steady-find_identity tenant_id id_type provider identifier = Steady-query _

pub Steady-list_identities : (user_id : String) → Steady (Accounts.list_identities user_id)
unfolding Accounts.list_identities
Steady-list_identities user_id = Steady-query _

pub Steady-find_credential : (user_id : String) → Steady (Accounts.find_credential user_id)
unfolding Accounts.find_credential
Steady-find_credential user_id = Steady-query _

pub Steady-list_recent :
    (user_id : String) (limit : ℕ) → Steady (Accounts.list_recent user_id limit)
unfolding Accounts.list_recent
Steady-list_recent user_id limit = Steady-query _

pub Steady-find_device :
    (user_id client_id device_id : String)
    → Steady (Accounts.find_device user_id client_id device_id)
unfolding Accounts.find_device
Steady-find_device user_id client_id device_id = Steady-query _

pub Steady-list_roles : (user_id : String) → Steady (Accounts.list_roles user_id)
unfolding Accounts.list_roles
Steady-list_roles user_id = Steady-query _

pub Steady-update_user : (u : User) → Steady (Accounts.update_user u)
unfolding Accounts.update_user
Steady-update_user u = Steady-modify_quiet _ (λ w. refl)

pub Steady-delete_identity : (id : ℕ) → Steady (Accounts.delete_identity id)
unfolding Accounts.delete_identity
Steady-delete_identity id = Steady-modify_quiet _ (λ w. refl)

pub Steady-save_credential : (c : Credential) → Steady (Accounts.save_credential c)
unfolding Accounts.save_credential
Steady-save_credential c = Steady-modify_quiet _ (λ w. refl)

Steady-delete_ids : (old : List PasswordHistory) → Steady (Accounts.delete_ids old)
unfolding Accounts.delete_ids
Steady-delete_ids old =
    Steady-if (is_nil old) _ _ (Steady-pure tt) (Steady-modify_quiet _ (λ w. refl))

pub Steady-trim_history :
    (user_id : String) (keep : ℕ) → Steady (Accounts.trim_history user_id keep)
unfolding Accounts.trim_history
Steady-trim_history user_id keep =
    Steady-if (nat_eq keep 0) _ _ (Steady-modify_quiet _ (λ w. refl))
      (Steady-bind _ _ (Steady-query _) Steady-delete_ids)

pub Steady-create_user : (u : User) → Steady (Accounts.create_user u)
unfolding Accounts.create_user
Steady-create_user u = Steady-insert _ _ (λ w. Advances-quiet _ _ refl)

pub Steady-create_identity : (i : Identity) → Steady (Accounts.create_identity i)
unfolding Accounts.create_identity
Steady-create_identity i = Steady-insert _ _ (λ w. Advances-quiet _ _ refl)

pub Steady-create_credential : (c : Credential) → Steady (Accounts.create_credential c)
unfolding Accounts.create_credential
Steady-create_credential c = Steady-insert _ _ (λ w. Advances-quiet _ _ refl)

pub Steady-append_history : (user_id hash : String) → Steady (Accounts.append_history user_id hash)
unfolding Accounts.append_history
Steady-append_history user_id hash =
    Steady-if (is_empty hash) _ _ (Steady-pure tt) (Steady-modify_quiet _ (λ w. refl))

Steady-upsert_found :
    (user_id hash : String) (now : ℕ) (o : Option Credential)
    → Steady (Accounts.upsert_found user_id hash now o)
unfolding Accounts.upsert_found
Steady-upsert_found user_id hash now none = Steady-create_credential _
Steady-upsert_found user_id hash now (some c) = Steady-save_credential _

pub Steady-upsert_password :
    (user_id hash : String) (now : ℕ) → Steady (Accounts.upsert_password user_id hash now)
unfolding Accounts.upsert_password
Steady-upsert_password user_id hash now =
    Steady-bind _ _ (Steady-find_credential user_id) (Steady-upsert_found user_id hash now)

Steady-ensure_found :
    (user_id : String) (now : ℕ) (o : Option Credential)
    → Steady (Accounts.ensure_found user_id now o)
unfolding Accounts.ensure_found
Steady-ensure_found user_id now none =
    Steady-bind _ _ (Steady-create_credential _) (λ _. Steady-pure _)
Steady-ensure_found user_id now (some c) = Steady-pure c

pub Steady-ensure_credential :
    (user_id : String) (now : ℕ) → Steady (Accounts.ensure_credential user_id now)
unfolding Accounts.ensure_credential
Steady-ensure_credential user_id now =
    Steady-bind _ _ (Steady-find_credential user_id) (Steady-ensure_found user_id now)

Steady-upsert_device_found :
    (d : KnownDevice) (o : Option KnownDevice) → Steady (Accounts.upsert_device_found d o)
unfolding Accounts.upsert_device_found
Steady-upsert_device_found d none = Steady-modify_quiet _ (λ w. refl)
Steady-upsert_device_found d (some e) = Steady-modify_quiet _ (λ w. refl)

pub Steady-upsert_device : (d : KnownDevice) → Steady (Accounts.upsert_device d)
unfolding Accounts.upsert_device
Steady-upsert_device d = Steady-bind _ _ (Steady-find_device _ _ _) (Steady-upsert_device_found d)

Steady-upsert_oauth_found :
    (a : OauthAccount) (o : Option OauthAccount) → Steady (Accounts.upsert_oauth_found a o)
unfolding Accounts.upsert_oauth_found
Steady-upsert_oauth_found a none = Steady-modify_quiet _ (λ w. refl)
Steady-upsert_oauth_found a (some b) = Steady-modify_quiet _ (λ w. refl)

pub Steady-upsert_oauth : (a : OauthAccount) → Steady (Accounts.upsert_oauth a)
unfolding Accounts.upsert_oauth
Steady-upsert_oauth a = Steady-bind _ _ (Steady-query _) (Steady-upsert_oauth_found a)

Steady-upsert_role_found :
    (b : RoleBinding) (o : Option RoleBinding) → Steady (Accounts.upsert_role_found b o)
unfolding Accounts.upsert_role_found
Steady-upsert_role_found b none = Steady-modify_quiet _ (λ w. refl)
Steady-upsert_role_found b (some c) = Steady-pure tt

pub Steady-upsert_role : (b : RoleBinding) → Steady (Accounts.upsert_role b)
unfolding Accounts.upsert_role
Steady-upsert_role b = Steady-bind _ _ (Steady-query _) (Steady-upsert_role_found b)

pub Steady-move_identities :
    (source target : String) → Steady (Accounts.move_identities source target)
unfolding Accounts.move_identities
Steady-move_identities source target = Steady-modify_quiet _ (λ w. refl)

pub Steady-move_oauth : (source target : String) → Steady (Accounts.move_oauth source target)
unfolding Accounts.move_oauth
Steady-move_oauth source target = Steady-modify_quiet _ (λ w. refl)

pub Steady-delete_credential : (user_id : String) → Steady (Accounts.delete_credential user_id)
unfolding Accounts.delete_credential
Steady-delete_credential user_id = Steady-modify_quiet _ (λ w. refl)

pub ruleset accounts_rules = (
  Steady-move_identities, Steady-move_oauth, Steady-delete_credential, Steady-find_user,
  Steady-find_identity, Steady-list_identities, Steady-find_credential, Steady-list_recent,
  Steady-find_device, Steady-list_roles, Steady-update_user, Steady-delete_identity,
  Steady-save_credential, Steady-trim_history, Steady-create_user, Steady-create_identity,
  Steady-create_credential, Steady-append_history, Steady-upsert_password, Steady-ensure_credential,
  Steady-upsert_device, Steady-upsert_oauth, Steady-upsert_role,
)
