-- ===== src/Auth/Otp/Attempts.antt =====
-- A code is good for one use, and a challenge for a bounded number of wrong codes.
use unified_account_center.Prelude.{
  ℕ, ◌≤◌, String, ◌≡◌, refl, true, false, some, arith, ◌==◌, ◌⊎◌, inl, inr, ap, sym, ◌∙◌, is_some,
}
use unified_account_center.Prelude.Rows.{find_by, find_by-update_where, find_by_holds}
use unified_account_center.Prelude.Growth.{Grows-find_by}
use unified_account_center.Errors.{ok, is_ok, not_ok}
use unified_account_center.World.{World, Env}
use unified_account_center.Model.Session.{AuthChallenge}
use unified_account_center.History.{Advances, ChallengeStep}
use unified_account_center.Auth.Principal.{field, IdentityPrincipal, VerifyRequest}
use unified_account_center.Auth.Otp.{OtpKind, acceptable, verify}
use unified_account_center.Auth.Otp.Verify.{has_id, spent, verify-Accepted}

-- A challenge that no code can verify any more.
abbrev pub IsDead : Env → AuthChallenge → Type 0
IsDead env ch = (is_some ch.consumed_at ≡ true) ⊎ (env.cfg.otp_max_tries ≤ ch.try_count)

IsDead-ChallengeStep :
    (env : Env) (a b : AuthChallenge) → ChallengeStep a b → IsDead env a → IsDead env b
IsDead-ChallengeStep env a b s (inl c) = inl (ground (arith, s.consumed, c))
IsDead-ChallengeStep env a b s (inr t) = inr (omega (arith, s.tries))

dead_refused :
    (env : Env) (kind : OtpKind) (ch : AuthChallenge) (req : VerifyRequest) (norm : String)
    (now : ℕ)
    → IsDead env ch
    → acceptable env kind ch req norm now ≡ false
unfolding acceptable
dead_refused env kind ch req norm now d = ground arith

-- A consumed challenge, and one with as many tries as are allowed, refuses every code from then on,
-- under either method, whatever happens in between.
pub verify_dead :
    (env : Env) (kind : OtpKind) (req : VerifyRequest) (w v : World) (ch : AuthChallenge)
    → find_by (has_id (field "challenge_id" req.credential)) w.challenges ≡ some ch
    → IsDead env ch
    → Advances w v
    → is_ok (verify env kind req v).0 ≡ false
verify_dead env kind req w v ch f d adv = not_ok _ λ p e.
    let a =
      verify-Accepted env kind req v p (verify env kind req v).1
        (λ i. (e i, (verify env kind req v).1)) in
    let (y, g, s) =
      Grows-find_by ChallengeStep (has_id (field "challenge_id" req.credential))
        (λ x z r. ap (λ t. t == field "challenge_id" req.credential) r.challenge_id) w.challenges
        v.challenges ch adv.challenges f in
    let same : some a.challenge ≡ some y = sym a.found ∙ g in
    let refused = dead_refused env kind y req a.norm v.now (IsDead-ChallengeStep env ch y s d) in
    ground (arith, a.fits)

-- A code that has verified once never verifies again: after a successful `Verify`, whatever the
-- services do and however much time passes, no request for the same challenge succeeds.
pub verify_once :
    (env : Env) (kind other : OtpKind) (req again : VerifyRequest) (w w' v : World)
    (p : IdentityPrincipal)
    → verify env kind req w ≡ (ok p, w')
    → field "challenge_id" again.credential ≡ field "challenge_id" req.credential
    → Advances w' v
    → is_ok (verify env other again v).0 ≡ false
verify_once env kind other req again w w' v p h same adv =
    let a = verify-Accepted env kind req w p w' h in
    let id = field "challenge_id" req.credential in
    let hit = find_by_holds (has_id id) w.challenges a.challenge a.found in
    let found : find_by (has_id (field "challenge_id" again.credential)) w'.challenges
        ≡ some (spent w.now a.challenge) =
      rw
        (
          same,
          a.after,
          find_by-update_where (has_id id) (has_id id) (spent w.now) w.challenges a.challenge
              (λ y. refl) a.found,
          hit,
        )
        refl in
    verify_dead env other again w' v (spent w.now a.challenge) found (inl refl) adv
