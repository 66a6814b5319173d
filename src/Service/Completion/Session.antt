-- ===== src/Service/Completion/Session.antt =====
-- What a completed second factor rests on.
use unified_account_center.Prelude.{
  ◌≡◌, refl, ◌⊎◌, ◌∙◌, sym, ap, Bool, true, Option, none, some, ◌==◌, arith, List, Bool-cases, inl,
  inr, subst,
}
use unified_account_center.Prelude.Rows.{find_by}
use unified_account_center.Errors.{ok}
use unified_account_center.World.{World, Env, MfaPendingPayload}
use unified_account_center.Model.Session.{App}
use unified_account_center.Cache.{Cache, get, without}
use unified_account_center.Exec.Inversion.{on_error_ok, bind_ok, require_ok}
use unified_account_center.Repo.Redis
use unified_account_center.Repo.Redis.Taken.{Left, get_del_json-Left}
use unified_account_center.Service.Apps.{RequestMeta}
use unified_account_center.Service.Apps.Known.{Known, require_app-Known}
use unified_account_center.Service.Mfa.{verify_mfa_code}
use unified_account_center.Service.Completion.{
  MfaCompleteDto, LoginResult, pending_at, mfa_failed, mfa_complete,
}

-- The session that a completed login had, and the code that completed it. The session may still be
-- stored then, where the commands that delete it failed.
pub record Completed (env : Env) (meta : RequestMeta) (dto : MfaCompleteDto) (w : World)
    : Type 0 where
  pub app : App
  pub known : find_by (λ a. a.client_id == meta.client_id) w.apps ≡ some app
  pub session : MfaPendingPayload
  pub stored : get w.now dto.mfa_token w.mfa_sessions ≡ some session
  pub of_app : (session.client_id == app.client_id) ≡ true
  pub faults : List Bool
  pub sessions : Cache MfaPendingPayload
  pub after : World
  pub verified :
      verify_mfa_code env session.user_id dto.code
        (record w { faults = faults; mfa_sessions = sessions })
      ≡ (ok tt, after)

pending_at-some :
    (app : App) (o : Option MfaPendingPayload) (p : MfaPendingPayload)
    → pending_at app o ≡ some p
    → (o ≡ some p) × ((p.client_id == app.client_id) ≡ true)
pending_at-some app none p h = absurd (cc)
pending_at-some app (some q) p h = elim (Bool-cases (q.client_id == app.client_id)) [
  | inl e ↦
      let same : q ≡ p = ground arith in
      (ap (λ x. some x) same, subst (λ x. (x.client_id == app.client_id) ≡ true) same e)
  | inr e ↦ ground arith
]

Completed-Known :
    (env : Env) (meta : RequestMeta) (dto : MfaCompleteDto) (w w1 x v : World) (app : App)
    (p : MfaPendingPayload) (o : Option MfaPendingPayload)
    → Known meta.client_id w app w1
    → (o ≡ get w1.now dto.mfa_token w1.mfa_sessions)
      × Left (λ u. u.mfa_sessions) Redis.with_mfa_sessions dto.mfa_token w1 x
    → pending_at app o ≡ some p
    → verify_mfa_code env p.user_id dto.code x ≡ (ok tt, v)
    → Completed env meta dto w
Completed-Known env meta dto w w1 x v app p o k (read, fs_left) s e =
    let (fs, left) = fs_left in
    let (stored, here) = pending_at-some app o p s in
    let (c, same) = as_record left in
    record {
      app = app;
      known = k.found;
      session = p;
      stored = ap (λ u. get u.now dto.mfa_token u.mfa_sessions) (sym k.after) ∙ sym read ∙ stored;
      of_app = here;
      faults = fs;
      sessions = c;
      after = v;
      verified =
          subst
            (λ u.
              verify_mfa_code env p.user_id dto.code (record u { faults = fs; mfa_sessions = c })
              ≡ (ok tt, v))
            k.after (subst (λ u. verify_mfa_code env p.user_id dto.code u ≡ (ok tt, v)) same e);
    }
  where
    as_record :
        {fs : List Bool}
        → (x ≡ record w1 { faults = fs; mfa_sessions = without dto.mfa_token w1.mfa_sessions })
          ⊎ (x ≡ record w1 { faults = fs })
        → (c : Cache MfaPendingPayload) × (x ≡ record w1 { faults = fs; mfa_sessions = c })
    as_record (inl q) = (_, q)
    as_record (inr q) = (w1.mfa_sessions, q)

-- A second factor that completes a login was given the token of a session that was stored for this
-- application and still alive, and a code that verifies for the user of the session.
pub mfa_complete-Completed :
    (env : Env) (meta : RequestMeta) (dto : MfaCompleteDto) (w w' : World) (r : LoginResult)
    → mfa_complete env meta dto w ≡ (ok r, w')
    → Completed env meta dto w
unfolding mfa_complete Redis.take_mfa_session
mfa_complete-Completed env meta dto w w' r h =
    let (app, w1, a, h1) = bind_ok _ _ w h in
    let (o, x, taken, h2) = bind_ok _ _ w1 h1 in
    let (p, s, h3) = require_ok _ _ _ _ h2 in
    let (_, v, e, _) = bind_ok _ _ _ h3 in
    Completed-Known env meta dto w w1 x v app p o (require_app-Known _ w app w1 a)
      (get_del_json-Left (λ u. u.mfa_sessions) Redis.with_mfa_sessions dto.mfa_token w1 x o
        (λ fs. refl) taken)
      s (on_error_ok _ (mfa_failed env meta app p.user_id) _ v tt e)
