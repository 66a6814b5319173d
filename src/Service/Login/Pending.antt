-- ===== src/Service/Login/Pending.antt =====
-- A user with a second factor gets no tokens from the first one.
use unified_account_center.Prelude.{
  suc, ◌*◌, ◌+◌, String, ◌≡◌, ◌∙◌, refl, Bool, true, false, not, ◌&&◌, some, List, [], ◌∷◌, ◌==◌,
  is_empty, is_nil, is_some, Bool-cases, inl, inr, if◌then◌else◌, eq_refl, arith, ltb,
}
use unified_account_center.Prelude.Rows.{find_by}
use Prim.Native.String.{◌++◌}
use unified_account_center.Errors.{mfa_required, mfa_session, Result, ok, err}
use unified_account_center.World.{World, Env, MfaPendingPayload}
use unified_account_center.Model.Account.{User, Credential}
use unified_account_center.Model.Session.{App}
use unified_account_center.Exec.{
  pure, raise_error, raise, guard, gets, ignore, draw, query, modify, command, or_nil, or_default,
  on_error, ◌>>=◌,
}
use unified_account_center.Cache
use unified_account_center.Cache.{get}
use unified_account_center.Cache.Laws.{get-put}
use unified_account_center.Service.Completion.{LoginResult}
use unified_account_center.Repo.Accounts
use unified_account_center.Repo.Accounts.{same_device}
use unified_account_center.Repo.Redis
use unified_account_center.Repo.Tokens
use unified_account_center.Service.Apps.{RequestMeta, audit}
use unified_account_center.Service.Risk.{is_new_device}
use unified_account_center.Service.Mfa.{mfa_on, user_has_mfa, create_mfa_pending}
use unified_account_center.Service.Login.{LoginDto, pend_login, enter}

is_new_device_run :
    (user_id client_id device_id : String) (w : World)
    → w.faults ≡ []
    → (b : Bool) × (is_new_device user_id client_id device_id w ≡ (ok b, w))
unfolding is_new_device Accounts.find_device or_nil query command pure ◌>>=◌
is_new_device_run user_id client_id device_id w quiet = elim (Bool-cases (is_empty device_id)) [
  | inl e ↦ (true, rw e refl)
  | inr e ↦
      let d = find_by (same_device user_id client_id device_id) w.devices in
      (not (is_some d), rw (e, quiet) refl)
]

user_has_mfa_run :
    (user_id : String) (w : World) (c : Credential)
    → w.faults ≡ []
    → find_by (λ d. d.user_id == user_id) w.credentials ≡ some c
    → user_has_mfa user_id w ≡ (ok (mfa_on c), w)
unfolding user_has_mfa Accounts.find_credential or_nil query command pure ◌>>=◌
user_has_mfa_run user_id w c quiet found = rw (quiet, found) refl

past_gate : (b : Bool) → not (b && not true) ≡ true
past_gate true = refl
past_gate false = refl

module _ (env : Env) (meta : RequestMeta) (app : App) (dto : LoginDto) (user : User)
    (is_new : Bool) where
  abbrev session_token : World → String
  session_token w = env.random_id "mfa" w.drawn ++ env.random_hex 8 (suc w.drawn)

  abbrev pub payload : MfaPendingPayload
  payload = record {
    user_id = user.user_id;
    client_id = app.client_id;
    device_id = dto.client.device_id;
    fingerprint = dto.client.fingerprint;
    is_new = is_new;
  }

  abbrev pub offered : Credential → List String
  offered c = if is_nil c.mfa_backup_hashes then "totp" ∷ [] else "totp" ∷ "backup_code" ∷ []

  -- The answer is a pending session, which is stored for this user, application and device.
  pub record Pends (w : World) (c : Credential) (answer : Result LoginResult × World) : Type 0 where
    pub token : String
    pub flags : List String
    pub answered :
        answer.0
        ≡ err (record { code = mfa_required; details = mfa_session token (offered c) flags })
    pub stored : get answer.1.now token answer.1.mfa_sessions ≡ some payload
    pub no_tokens : answer.1.refresh_tokens ≡ w.refresh_tokens

  module _ (flags : List String) (w : World) (c : Credential) (quiet : w.faults ≡ [])
      (found : find_by (λ d. d.user_id == user.user_id) w.credentials ≡ some c) where
    pend_login-answer :
        (pend_login env meta app dto user is_new flags w).0
        ≡ err (record {
          code = mfa_required;
          details = mfa_session (session_token w) (offered c) flags;
        })
    unfolding pend_login create_mfa_pending Redis.set_mfa_session Accounts.find_credential audit
        Tokens.create_audit gets ignore draw or_default query modify command raise_error pure ◌>>=◌
    pend_login-answer = elim (Bool-cases (is_nil c.mfa_backup_hashes)) [
      | inl e ↦ rw (quiet, found, e) refl
      | inr e ↦ rw (quiet, found, e) refl
    ]

    pend_login-left :
        let v = (pend_login env meta app dto user is_new flags w).1 in
        (v.now ≡ w.now)
        × (v.mfa_sessions ≡ Cache.put w.now (session_token w) payload (5 * 60) w.mfa_sessions)
        × (v.refresh_tokens ≡ w.refresh_tokens)
    unfolding pend_login create_mfa_pending Redis.set_mfa_session Accounts.find_credential audit
        Tokens.create_audit gets ignore draw or_default query modify command raise_error pure ◌>>=◌
    pend_login-left = rw quiet (refl, refl, refl)

    pend_login-Pends : Pends w c (pend_login env meta app dto user is_new flags w)
    pend_login-Pends =
        let alive : ltb w.now (w.now + 5 * 60) ≡ true = ground arith in
        let (clock, sessions, tokens) = pend_login-left in
        record {
          token = session_token w;
          flags = flags;
          answered = pend_login-answer;
          stored =
              rw (clock, sessions)
                (get-put w.now w.now (session_token w) (session_token w) payload (5 * 60)
                    w.mfa_sessions
                  ∙ rw (eq_refl (session_token w), alive) refl);
          no_tokens = tokens;
        }

  -- Where no command fails, a login that has found its user, whose second factor is on, is answered with
  -- a pending session and never with tokens, whatever the application asks for: the session is stored,
  -- for this user, application and device, and no refresh token is written.
  pub enter-Pends :
      (w : World) (c : Credential)
      → w.faults ≡ []
      → find_by (λ d. d.user_id == user.user_id) w.credentials ≡ some c
      → mfa_on c ≡ true
      → Pends w c (enter env meta app dto user is_new w)
  unfolding enter guard pure raise on_error ◌>>=◌
  enter-Pends w c quiet found on =
      let (b, new_device) =
        is_new_device_run user.user_id app.client_id dto.client.device_id w quiet in
      rw (new_device, user_has_mfa_run user.user_id w c quiet found, on, past_gate app.require_mfa)
        (pend_login-Pends _ w c quiet found)
