-- ===== src/History/Stores/Tokens.antt =====
-- The statements of internal/repository on refresh tokens, challenges and the audit log: what they
-- change is what `Advances` allows.
use unified_account_center.Prelude.{ℕ, String, refl, Bool, List, [], ◌∷◌, arith}
use unified_account_center.Prelude.Rows.{update_where}
use unified_account_center.Prelude.Growth.{Grows, Grows-append, Grows-update_where}
use unified_account_center.Model.Session.{AuthChallenge, RefreshToken, AuditLog}
use unified_account_center.World.{World}
use unified_account_center.History.{
  Advances, Advances-refl, TokenStep, TokenStep-refl, ChallengeStep, ChallengeStep-refl, SameLog,
}
use unified_account_center.History.Rules.{
  Steady, Steady-query, Steady-modify, Steady-command, Steady-insert,
}
use unified_account_center.Repo.Tokens
use unified_account_center.Repo.Challenges

tokens_advance :
    (w : World) (ts : List RefreshToken)
    → Grows TokenStep w.refresh_tokens ts
    → Advances w (record w { refresh_tokens = ts })
tokens_advance w ts g =
    let r = Advances-refl w in
    record {
      clock = r.clock;
      draws = r.draws;
      tokens = g;
      challenges = r.challenges;
      audits = r.audits;
    }

challenges_advance :
    (w : World) (cs : List AuthChallenge)
    → Grows ChallengeStep w.challenges cs
    → Advances w (record w { challenges = cs })
challenges_advance w cs g =
    let r = Advances-refl w in
    record {
      clock = r.clock;
      draws = r.draws;
      tokens = r.tokens;
      challenges = g;
      audits = r.audits;
    }

revoked-TokenStep : (at : ℕ) (t : RefreshToken) → TokenStep t (Tokens.revoked at t)
revoked-TokenStep at t = record {
  token_hash = refl;
  jti = refl;
  user_id = refl;
  client_id = refl;
  expire_at = refl;
  revoked = ground arith;
}

-- An UPDATE that sets revoked_at.
revoking :
    (p : RefreshToken → Bool) (f : RefreshToken → RefreshToken) (w : World)
    → ((t : RefreshToken) → TokenStep t (f t))
    → Advances w (record w { refresh_tokens = update_where p f w.refresh_tokens })
revoking p f w h =
    tokens_advance w _
      (Grows-update_where TokenStep TokenStep-refl p f (λ t _. h t) w.refresh_tokens)

pub Steady-create_token : (t : RefreshToken) → Steady (Tokens.create t)
unfolding Tokens.create
Steady-create_token t =
    Steady-insert _ _
      λ w. tokens_advance w _ (Grows-append TokenStep TokenStep-refl w.refresh_tokens (t ∷ []))

pub Steady-revoke : (jti : String) (at : ℕ) → Steady (Tokens.revoke jti at)
unfolding Tokens.revoke
Steady-revoke jti at = Steady-modify _ (λ w. revoking _ _ w (revoked-TokenStep at))

pub Steady-revoke_all_by_user :
    (user_id client_id : String) (at : ℕ) → Steady (Tokens.revoke_all_by_user user_id client_id at)
unfolding Tokens.revoke_all_by_user
Steady-revoke_all_by_user user_id client_id at =
    Steady-modify _ (λ w. revoking _ _ w (revoked-TokenStep at))

pub Steady-revoke_others :
    (user_id client_id keep_jti : String) (at : ℕ)
    → Steady (Tokens.revoke_others user_id client_id keep_jti at)
unfolding Tokens.revoke_others
Steady-revoke_others user_id client_id keep_jti at =
    Steady-modify _ (λ w. revoking _ _ w (revoked-TokenStep at))

pub Steady-consume_active :
    (jti new_jti : String) (at : ℕ) → Steady (Tokens.consume_active jti new_jti at)
unfolding Tokens.consume_active
Steady-consume_active jti new_jti at = Steady-command _ λ w. revoking _ _ w λ t. record {
  token_hash = refl;
  jti = refl;
  user_id = refl;
  client_id = refl;
  expire_at = refl;
  revoked = ground arith;
}

pub Steady-create_audit : (log : AuditLog) → Steady (Tokens.create_audit log)
unfolding Tokens.create_audit
Steady-create_audit log = Steady-modify _ λ w.
    let r = Advances-refl w in
    record {
      clock = r.clock;
      draws = r.draws;
      tokens = r.tokens;
      challenges = r.challenges;
      audits = Grows-append SameLog (λ a. refl) w.audits (log ∷ []);
    }

pub Steady-create_challenge : (c : AuthChallenge) → Steady (Challenges.create c)
unfolding Challenges.create
Steady-create_challenge c = Steady-insert _ _ λ w.
    challenges_advance w _ (Grows-append ChallengeStep ChallengeStep-refl w.challenges (c ∷ []))

pub Steady-increment_try : (id : String) → Steady (Challenges.increment_try id)
unfolding Challenges.increment_try
Steady-increment_try id = Steady-modify _ λ w. challenges_advance w _ (
    Grows-update_where ChallengeStep ChallengeStep-refl _ _
      (λ c _. record {
        challenge_id = refl;
        identity = refl;
        code_hash = refl;
        expire_at = refl;
        tries = omega arith;
        consumed = ground arith;
      })
      w.challenges)

pub Steady-mark_consumed : (id : String) (at : ℕ) → Steady (Challenges.mark_consumed id at)
unfolding Challenges.mark_consumed
Steady-mark_consumed id at = Steady-modify _ λ w. challenges_advance w _ (
    Grows-update_where ChallengeStep ChallengeStep-refl _ _
      (λ c _. record {
        challenge_id = refl;
        identity = refl;
        code_hash = refl;
        expire_at = refl;
        tries = omega arith;
        consumed = ground arith;
      })
      w.challenges)

pub Steady-find_by_hash : (hash : String) → Steady (Tokens.find_by_hash hash)
unfolding Tokens.find_by_hash
Steady-find_by_hash hash = Steady-query _

pub Steady-find_by_jti : (jti : String) → Steady (Tokens.find_by_jti jti)
unfolding Tokens.find_by_jti
Steady-find_by_jti jti = Steady-query _

pub Steady-list_active_by_user :
    (user_id client_id : String) → Steady (Tokens.list_active_by_user user_id client_id)
unfolding Tokens.list_active_by_user
Steady-list_active_by_user user_id client_id = Steady-query _

pub Steady-find_by_id : (id : String) → Steady (Challenges.find_by_id id)
unfolding Challenges.find_by_id
Steady-find_by_id id = Steady-query _

pub ruleset tokens_rules = (
  Steady-create_token, Steady-revoke, Steady-revoke_all_by_user, Steady-revoke_others,
  Steady-consume_active, Steady-create_audit, Steady-create_challenge, Steady-increment_try,
  Steady-mark_consumed, Steady-find_by_hash, Steady-find_by_jti, Steady-list_active_by_user,
  Steady-find_by_id,
)
