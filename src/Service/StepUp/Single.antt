-- ===== src/Service/StepUp/Single.antt =====
-- A step-up token is good for one sensitive operation of the user and application that it was issued
-- for.
use Prim.Native.String.{◌++◌}
use unified_account_center.Prelude.{
  ℕ, suc, ◌+◌, String, ◌≡◌, refl, Bool, true, false, [], ◌==◌, ◌&&◌, arith, is_empty, ltb,
  if◌then◌else◌, eq_refl,
}
use unified_account_center.Errors.{Code, ok, err, app_error, invalid_cred}
use unified_account_center.World.{World, Env}
use unified_account_center.Model.Session.{App}
use unified_account_center.Cache
use unified_account_center.Cache.{get, without}
use unified_account_center.Cache.Laws.{get-put, get-without}
use unified_account_center.Exec.{fall_back, guard, raise, pure, command, modify, draw, ◌>>=◌}
use unified_account_center.Repo.Redis
use unified_account_center.Service.StepUp.{payload_for, consume_step_up, issue_step_up}

-- The same state d seconds later.
abbrev pub later : ℕ → World → World
later d w = record w { now = w.now + d }

guard_run :
    (t : Bool) (c : Code) (w : World) → guard t c w ≡ ((if t then ok tt else err (app_error c)), w)
unfolding guard raise pure
guard_run true c w = refl
guard_run false c w = refl

-- Without faults, a token is consumed whatever comes of it: the operation goes on exactly if the token
-- was stored for this user at this application, and in either case no one can use it again.
pub consume_step_up_run :
    (user_id client_id token : String) (w : World)
    → w.faults ≡ []
    → is_empty token ≡ false
    → consume_step_up user_id client_id token w ≡ (
      if payload_for user_id client_id (get w.now token w.step_ups)
          then ok tt
          else err (app_error invalid_cred),
      record w { step_ups = without token w.step_ups },
    )
unfolding consume_step_up Redis.take_step_up Redis.get_del_json guard raise pure command fall_back
    ◌>>=◌ Cache.get_del
consume_step_up_run user_id client_id token w f e = rw (f, e, guard_run) refl

-- The token that a step-up in this state issues.
abbrev pub token_at : Env → World → String
token_at env w = env.random_id "su" w.drawn ++ env.random_hex 8 (suc w.drawn)

abbrev issued : Env → App → String → World → World
issued env app user_id w = record w {
  drawn = suc (suc w.drawn);
  step_ups =
      Cache.put w.now (token_at env w) (record { user_id = user_id; client_id = app.client_id }) 300
        w.step_ups;
}

issue_step_up_run :
    (env : Env) (app : App) (user_id : String) (w : World)
    → w.faults ≡ []
    → issue_step_up env app user_id w ≡ (ok (token_at env w), issued env app user_id w)
unfolding issue_step_up Redis.set_step_up draw modify command pure ◌>>=◌
issue_step_up_run env app user_id w f = rw f refl

-- A step-up token that was issued without faults serves, within its five minutes, the user and the
-- application that it was issued for, and no other user and no other application.
pub step_up_roundtrip :
    (env : Env) (app : App) (user_id other client_id : String) (d : ℕ) (w : World)
    → w.faults ≡ []
    → is_empty (token_at env w) ≡ false
    → (consume_step_up other client_id
        (token_at env w)
        (later d (issue_step_up env app user_id w).1)).0
      ≡ (if ltb d 300 && user_id == other && app.client_id == client_id
          then ok tt
          else err (app_error invalid_cred))
step_up_roundtrip env app user_id other client_id d w f e =
    rw
      (
        issue_step_up_run env app user_id w f,
        consume_step_up_run other client_id (token_at env w) (later d (issued env app user_id w)) f
            e,
        get-put w.now (w.now + d) (token_at env w) (token_at env w)
            (record { user_id = user_id; client_id = app.client_id }) 300 w.step_ups,
        eq_refl (token_at env w),
      )
      (ground arith)

-- A step-up token is good for one attempt: after any use of it without faults, whoever used it, it is
-- refused to everyone at every later time.
pub step_up_once :
    (user_id client_id other elsewhere token : String) (d : ℕ) (w : World)
    → w.faults ≡ []
    → is_empty token ≡ false
    → (consume_step_up other elsewhere token
        (later d (consume_step_up user_id client_id token w).1)).0
      ≡ err (app_error invalid_cred)
step_up_once user_id client_id other elsewhere token d w f e =
    rw
      (
        consume_step_up_run user_id client_id token w f e,
        consume_step_up_run other elsewhere token
            (later d (record w { step_ups = without token w.step_ups })) f e,
        get-without (w.now + d) token token w.step_ups,
        eq_refl token,
      )
      refl
