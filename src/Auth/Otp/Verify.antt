-- ===== src/Auth/Otp/Verify.antt =====
-- What a verified code proves, and what a refused one leaves behind.
use unified_account_center.Prelude.{ℕ, String, ◌≡◌, Bool, true, some, arith, ◌==◌}
use unified_account_center.Prelude.Rows.{find_by, update_where}
use unified_account_center.Errors.{ok}
use unified_account_center.World.{World, Env}
use unified_account_center.Model.Session.{AuthChallenge}
use unified_account_center.Exec.{pure, raise, ignore, command, modify, ◌>>=◌}
use unified_account_center.Exec.Inversion.{facing, require_ok, guard_ok, query_ok, gets_ok}
use unified_account_center.Repo.Challenges
use unified_account_center.Auth.Principal.{field, IdentityPrincipal, VerifyRequest}
use unified_account_center.Auth.Otp.{OtpKind, normalize, acceptable, principal_of, settle, verify}

abbrev pub has_id : String → AuthChallenge → Bool
has_id id c = c.challenge_id == id

abbrev pub spent : ℕ → AuthChallenge → AuthChallenge
spent now c = record c { consumed_at = some now }

module _ (env : Env) (kind : OtpKind) (req : VerifyRequest) where
  abbrev pub id_of : String
  id_of = field "challenge_id" req.credential

  -- What a successful `Verify` rests on, and what it leaves.
  pub record Accepted (w : World) (p : IdentityPrincipal) (w' : World) : Type 0 where
    pub norm : String
    pub challenge : AuthChallenge
    pub canonical : normalize env kind req.identity ≡ some norm
    pub found : find_by (has_id id_of) w.challenges ≡ some challenge
    pub fits : acceptable env kind challenge req norm w.now ≡ true
    pub code : (env.sha256_hex (field "otp" req.credential) == challenge.code_hash) ≡ true
    pub principal : p ≡ principal_of env kind norm
    pub after : w'.challenges ≡ update_where (has_id id_of) (spent w.now) w.challenges

  settle_ok :
      (ch : AuthChallenge) (id otp : String) (now : ℕ) (p q : IdentityPrincipal) (w w' : World)
      → (settle env kind ch id otp now >>= λ _. pure q) w ≡ (ok p, w')
      → ((env.sha256_hex otp == ch.code_hash) ≡ true)
        × (p ≡ q)
        × (w'.challenges ≡ update_where (has_id id) (spent now) w.challenges)
  unfolding settle Challenges.mark_consumed modify command ignore raise pure ◌>>=◌
  settle_ok ch id otp now p q w w' h = ground arith

  -- A `Verify` that succeeds was given the identity and the code of a stored challenge that was still
  -- acceptable, and it marks that challenge consumed.
  pub verify-Accepted :
      (w : World) (p : IdentityPrincipal) (w' : World)
      → verify env kind req w ≡ (ok p, w')
      → Accepted w p w'
  unfolding verify Challenges.find_by_id
  verify-Accepted w p w' h =
      let (norm, e, h1) = require_ok _ _ _ w h in
      let (_, h2) = guard_ok _ _ _ w h1 in
      let (fs, h3) = query_ok _ _ w h2 in
      let (ch, f, h4) = require_ok _ _ _ _ h3 in
      let (t, h5) = guard_ok _ _ _ _ (gets_ok _ _ _ h4) in
      let (c, q, a) =
        settle_ok ch id_of (field "otp" req.credential) w.now p _ (facing w fs) w' h5 in
      record {
        norm = norm;
        challenge = ch;
        canonical = e;
        found = f;
        fits = t;
        code = c;
        principal = q;
        after = a;
      }
