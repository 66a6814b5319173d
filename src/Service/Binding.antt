-- ===== src/Service/Binding.antt =====
-- internal/service/auth_service.go: `Bind` and `Unbind`, a user's further identities. The events of the
-- webhook bus change none of the modelled state.
pub mod Last
pub mod Steadiness
use unified_account_center.Prelude.{
  ℕ, String, Bool, true, false, not, ◌&&◌, ◌||◌, ◌==◌, Option, none, some, List, [], ◌∷◌,
  if◌then◌else◌, is_empty, leb, length,
}
use unified_account_center.Prelude.Rows.{find_by}
use Prim.Native.String.{◌++◌}
use unified_account_center.Errors.{
  bad_request, invalid_cred, forbidden_app, not_found, conflict_account, merge_available,
}
use unified_account_center.World.{Env, OauthStatePayload}
use unified_account_center.Model
use unified_account_center.Model.Account.{Identity}
use unified_account_center.Model.Session.{App}
use unified_account_center.Identity.{normalize_phone, normalize_email}
use unified_account_center.Exec.{
  M, pure, raise_error, guard, require, when, ignore, on_error, ◌>>=◌, ◌>>◌,
}
use unified_account_center.Repo.Accounts
use unified_account_center.Auth.Principal.{field, IdentityPrincipal}
use unified_account_center.Auth.Registry
use unified_account_center.Service.Apps.{RequestMeta, require_app, method_allowed, audit}
use unified_account_center.Service.StepUp.{consume_step_up}
use unified_account_center.Service.OauthFlow.{verify_s256, consume_state}
use unified_account_center.Service.Login.{LoginDto, provider_of, verify_request}

module _ (env : Env) (meta : RequestMeta) where
  -- What `Bind` does for OAuth before the verification.
  unfoldable pub bind_state : App → String → LoginDto → M (Unit {0})
  bind_state app user_id dto = do
    payload ←
        on_error
          (consume_state meta.client_id (provider_of dto) (field "state" dto.credential)
            (field "redirect_uri" dto.credential))
          (audit app user_id "bind_fail" false "oauth_state" meta)
    guard
        (is_empty payload.code_challenge
          || verify_s256 env (field "code_verifier" dto.credential) payload.code_challenge)
        invalid_cred
    guard (is_empty payload.bind_user_id || payload.bind_user_id == user_id) forbidden_app

  unfoldable pub bind_provider : App → String → LoginDto → M String
  unfolding bind_state
  bind_provider app user_id dto =
      if dto.method == Model.Method.oauth2
      then (do bind_state app user_id dto; pure (provider_of dto))
      else pure dto.provider

  -- The identity that the request proves.
  unfoldable pub prove_bind : App → String → LoginDto → M IdentityPrincipal
  unfolding bind_provider
  prove_bind app user_id dto = do
    guard (Registry.known_method env dto.method) bad_request
    provider ← bind_provider app user_id dto
    on_error
        (Registry.verify env dto.method (verify_request meta app dto provider Model.Scene.bind))
        (audit app user_id "bind_fail" false dto.method meta)

  -- A new identity of the user.
  unfoldable pub add_identity : App → String → IdentityPrincipal → M (Unit {0})
  add_identity app user_id p = do
    Accounts.create_identity (record {
      id = 0;
      tenant_id = app.tenant_id;
      user_id = user_id;
      id_type = p.id_type;
      provider = p.provider;
      identifier = p.identifier;
      verified = p.verified;
    })
    when (p.id_type == Model.IdType.oauth) (
        ignore (
          Accounts.upsert_oauth
            (record { user_id = user_id; provider = p.provider; subject = p.identifier })))
    audit app user_id "bind_ok" true (p.id_type ++ ":" ++ p.identifier) meta

  -- An identity that is there is the user's own already, or a conflict that a merge may settle.
  unfoldable pub attach : App → String → IdentityPrincipal → Option Identity → M (Unit {0})
  unfolding add_identity
  attach app user_id p none = add_identity app user_id p
  attach app user_id p (some i) =
      if i.user_id == user_id
      then pure tt
      else raise_error (record { code = conflict_account; details = merge_available i.user_id })

  -- `Bind`.
  unfoldable pub bind : String → LoginDto → M (Unit {0})
  unfolding prove_bind attach
  bind user_id dto = do
    app ← require_app meta.client_id
    guard (method_allowed app dto.method) forbidden_app
    p ← prove_bind app user_id dto
    existing ← Accounts.find_identity app.tenant_id p.id_type p.provider p.identifier
    attach app user_id p existing

-- `UnbindDTO`.
pub record UnbindDto : Type 0 where
  pub id_type : String
  pub provider : String
  pub value : String
  pub step_up_token : String

abbrev or_given : Option String → String → String
or_given none s = s
or_given (some n) s = n

-- The value as identities are stored.
unfoldable pub canonical : (String → String) → String → String → String
canonical lower id_type value =
    if id_type == Model.IdType.phone
    then or_given (normalize_phone value) value
    else if id_type == Model.IdType.email
    then or_given (normalize_email lower value) value
    else value

-- Whether the identity is one that `Unbind` was asked to remove.
unfoldable pub is_target : (String → String) → UnbindDto → Identity → Bool
unfolding canonical
is_target lower dto i =
    i.id_type == dto.id_type
    && (not (dto.id_type == Model.IdType.oauth) || i.provider == dto.provider)
    && (is_empty dto.value || i.identifier == canonical lower dto.id_type dto.value)

-- `Unbind`, from the list of the user's identities on.
unfoldable pub remove_one :
    Env → App → RequestMeta → String → UnbindDto → List Identity → M (Unit {0})
unfolding is_target
remove_one env app meta user_id dto list = do
  guard (not (leb (length list) 1)) bad_request
  target ← require (find_by (is_target env.to_lower dto) list) not_found
  Accounts.delete_identity target.id
  audit app user_id "unbind_ok" true (target.id_type ++ ":" ++ target.identifier) meta

-- `Unbind`.
unfoldable pub unbind : Env → RequestMeta → String → UnbindDto → M (Unit {0})
unfolding remove_one
unbind env meta user_id dto = do
  app ← require_app meta.client_id
  consume_step_up user_id app.client_id dto.step_up_token
  guard (dto.id_type == Model.IdType.oauth || not (is_empty dto.value)) bad_request
  guard (not (dto.id_type == Model.IdType.oauth) || not (is_empty dto.provider)) bad_request
  list ← Accounts.list_identities user_id
  remove_one env app meta user_id dto list
