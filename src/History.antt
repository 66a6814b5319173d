-- ===== src/History.antt =====
-- How the shared state may change: what no operation of the services takes back.
pub mod Rules
pub mod Stores
use unified_account_center.Prelude.{
  ℕ, ◌≤◌, ◌≡◌, refl, ◌∙◌, true, false, Bool, not, ◌||◌, List, is_some, arith, ap,
}
use unified_account_center.Prelude.Growth.{Grows, Grows-refl, Grows-trans}
use unified_account_center.Model.Session.{AuthChallenge, RefreshToken, AuditLog}
use unified_account_center.World.{World}

-- A refresh token keeps its identity, its owner and its term, and a revoked one stays revoked.
pub record TokenStep (a b : RefreshToken) : Type 0 where
  pub token_hash : b.token_hash ≡ a.token_hash
  pub jti : b.jti ≡ a.jti
  pub user_id : b.user_id ≡ a.user_id
  pub client_id : b.client_id ≡ a.client_id
  pub expire_at : b.expire_at ≡ a.expire_at
  pub revoked : (not (is_some a.revoked_at) || is_some b.revoked_at) ≡ true

-- A challenge keeps what it was issued for; tries only go up, and a consumed one stays consumed.
pub record ChallengeStep (a b : AuthChallenge) : Type 0 where
  pub challenge_id : b.challenge_id ≡ a.challenge_id
  pub identity : b.identity ≡ a.identity
  pub code_hash : b.code_hash ≡ a.code_hash
  pub expire_at : b.expire_at ≡ a.expire_at
  pub tries : a.try_count ≤ b.try_count
  pub consumed : (not (is_some a.consumed_at) || is_some b.consumed_at) ≡ true

still : (b : Bool) → (not b || b) ≡ true
still true = refl
still false = refl

pub TokenStep-refl : (a : RefreshToken) → TokenStep a a
TokenStep-refl a = record {
  token_hash = refl;
  jti = refl;
  user_id = refl;
  client_id = refl;
  expire_at = refl;
  revoked = still (is_some a.revoked_at);
}

TokenStep-trans : (a b c : RefreshToken) → TokenStep a b → TokenStep b c → TokenStep a c
TokenStep-trans a b c p q = record {
  token_hash = q.token_hash ∙ p.token_hash;
  jti = q.jti ∙ p.jti;
  user_id = q.user_id ∙ p.user_id;
  client_id = q.client_id ∙ p.client_id;
  expire_at = q.expire_at ∙ p.expire_at;
  revoked = ground (arith, p.revoked, q.revoked);
}

pub ChallengeStep-refl : (a : AuthChallenge) → ChallengeStep a a
ChallengeStep-refl a = record {
  challenge_id = refl;
  identity = refl;
  code_hash = refl;
  expire_at = refl;
  tries = omega arith;
  consumed = still (is_some a.consumed_at);
}

ChallengeStep-trans :
    (a b c : AuthChallenge) → ChallengeStep a b → ChallengeStep b c → ChallengeStep a c
ChallengeStep-trans a b c p q = record {
  challenge_id = q.challenge_id ∙ p.challenge_id;
  identity = q.identity ∙ p.identity;
  code_hash = q.code_hash ∙ p.code_hash;
  expire_at = q.expire_at ∙ p.expire_at;
  tries = omega (arith, p.tries, q.tries);
  consumed = ground (arith, p.consumed, q.consumed);
}

abbrev pub SameLog : AuditLog → AuditLog → Type 0
SameLog a b = b ≡ a

-- The clock and the random source go forward, refresh tokens and challenges change in the ways above,
-- and the audit log only grows.
pub record Advances (v w : World) : Type 0 where
  pub clock : v.now ≤ w.now
  pub draws : v.drawn ≤ w.drawn
  pub tokens : Grows TokenStep v.refresh_tokens w.refresh_tokens
  pub challenges : Grows ChallengeStep v.challenges w.challenges
  pub audits : Grows SameLog v.audits w.audits

pub Advances-refl : (w : World) → Advances w w
Advances-refl w = record {
  clock = omega arith;
  draws = omega arith;
  tokens = Grows-refl TokenStep TokenStep-refl w.refresh_tokens;
  challenges = Grows-refl ChallengeStep ChallengeStep-refl w.challenges;
  audits = Grows-refl SameLog (λ a. refl) w.audits;
}

pub Advances-trans : (u v w : World) → Advances u v → Advances v w → Advances u w
Advances-trans u v w p q = record {
  clock = omega (arith, p.clock, q.clock);
  draws = omega (arith, p.draws, q.draws);
  tokens =
      Grows-trans TokenStep TokenStep-trans u.refresh_tokens v.refresh_tokens w.refresh_tokens
        p.tokens q.tokens;
  challenges =
      Grows-trans ChallengeStep ChallengeStep-trans u.challenges v.challenges w.challenges
        p.challenges q.challenges;
  audits = Grows-trans SameLog (λ a b c e f. f ∙ e) u.audits v.audits w.audits p.audits q.audits;
}

-- The part of the state that `Advances` speaks of.
abbrev pub core : World → ℕ × ℕ × List RefreshToken × List AuthChallenge × List AuditLog
core w = (w.now, w.drawn, w.refresh_tokens, w.challenges, w.audits)

-- A change of the other parts is no step back.
pub Advances-quiet : (v w : World) → core w ≡ core v → Advances v w
Advances-quiet v w e =
    let now : w.now ≡ v.now = ap (λ c. c.0) e in
    let drawn : w.drawn ≡ v.drawn = ap (λ c. c.1) e in
    record {
      clock = omega arith;
      draws = omega arith;
      tokens = rw (ap (λ c. c.2) e) (Grows-refl TokenStep TokenStep-refl v.refresh_tokens);
      challenges = rw (ap (λ c. c.3) e) (Grows-refl ChallengeStep ChallengeStep-refl v.challenges);
      audits = rw (ap (λ c. c.4) e) (Grows-refl SameLog (λ a. refl) v.audits);
    }
