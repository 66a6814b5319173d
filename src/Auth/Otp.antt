-- ===== src/Auth/Otp.antt =====
-- internal/authenticator/otp.go: one-time codes by SMS or mail.
pub mod Steadiness
pub mod Verify
pub mod Attempts
use Prim.Native.String.{◌++◌}
use unified_account_center.Prelude.{
  ℕ, ◌+◌, String, Bool, true, not, ◌&&◌, ◌==◌, Option, none, if◌then◌else◌, ltb, nat_eq, is_empty,
  is_some,
}
use mathlib.Core.List
use unified_account_center.Errors.{bad_request, invalid_cred, rate_limited}
use unified_account_center.World.{Env}
use unified_account_center.Model
use unified_account_center.Model.Session.{AuthChallenge}
use unified_account_center.Exec.{
  M, pure, raise, gets, guard, require, when, ignore, draw, modify, ◌>>=◌, ◌>>◌,
}
use unified_account_center.Identity.{normalize_phone, normalize_email, mask_phone, mask_email}
use unified_account_center.Repo.Challenges
use unified_account_center.Repo.Redis
use unified_account_center.Auth.Principal.{
  field, no_profile, IdentityPrincipal, ChallengeRequest, ChallengeResult, VerifyRequest,
}

-- `OTPAuth`: phone_otp or email_otp.
pub data OtpKind : Type 0 where
  phone email : OtpKind

unfoldable pub method_of : OtpKind → String
method_of phone = Model.Method.phone_otp
method_of email = Model.Method.email_otp

unfoldable pub id_type_of : OtpKind → String
id_type_of phone = Model.IdType.phone
id_type_of email = Model.IdType.email

-- `normalize`: the canonical identity; `none` is the error BadRequest.
unfoldable pub normalize : Env → OtpKind → String → Option String
normalize env phone raw = normalize_phone raw
normalize env email raw = normalize_email env.to_lower raw

unfoldable pub masked : OtpKind → String → String
masked phone s = mask_phone s
masked email s = mask_email s

-- A configured limit, or the default where it is not positive.
abbrev pub or_else : ℕ → ℕ → ℕ
or_else n d = if nat_eq n 0 then d else n

-- One call of the limiter, which refuses the request when it does not let it through.
unfoldable pub limit_to : String → ℕ → ℕ → M (Unit {0})
limit_to key limit window = do passed ← Redis.allow key limit window; guard passed rate_limited

module _ (env : Env) (kind : OtpKind) where
  -- The hourly limits by identity and by address.
  unfoldable pub hourly_limits : String → String → M (Unit {0})
  unfolding limit_to
  hourly_limits norm ip = do
    limit_to ("uac:rl:otp:id:" ++ norm) 10 3600
    when (not (is_empty ip)) (limit_to ("uac:rl:otp:ip:" ++ ip) 30 3600)

  -- The daily limits by identity and by address.
  unfoldable pub daily_limits : String → String → M (Unit {0})
  unfolding limit_to
  daily_limits norm ip = do
    day ← gets (λ w. env.day_of w.now)
    limit_to ("uac:rl:otp:day:id:" ++ day ++ ":" ++ norm)
        (or_else env.cfg.otp_daily_limit_per_identity 20) 86400
    when (not (is_empty ip)) (
        limit_to ("uac:rl:otp:day:ip:" ++ day ++ ":" ++ ip)
          (or_else env.cfg.otp_daily_limit_per_ip 50) 86400)

  unfoldable pub resend_limit : String → M (Unit {0})
  resend_limit norm = when (ltb 0 env.cfg.otp_resend_interval) (do
    set ←
        Redis.set_nx ("uac:otp:resend:" ++ method_of kind ++ ":" ++ norm)
          env.cfg.otp_resend_interval
    guard set rate_limited)

  -- The text that reaches the owner of the identity: a command to the SMS or mail gateway.
  unfoldable pub send_otp : String → String → M (Unit {0})
  send_otp norm code = modify λ w. record w { outbox = List.◌∷◌ (norm, code) w.outbox }

  new_challenge : ChallengeRequest → String → String → String → ℕ → AuthChallenge
  new_challenge req norm id code now = record {
    challenge_id = id;
    client_id = req.client_id;
    tenant_id = req.tenant_id;
    method = method_of kind;
    scene = req.scene;
    identity = norm;
    code_hash = env.sha256_hex code;
    try_count = 0;
    expire_at = now + env.cfg.otp_ttl;
    consumed_at = none;
  }

  -- Draw a code, store its hash and send it.
  unfoldable pub issue : ChallengeRequest → String → M ChallengeResult
  unfolding new_challenge
  issue req norm = do
    n ← draw
    let code = env.random_digits env.cfg.otp_length n
    m ← draw
    let id = env.random_id "ch" m
    now ← gets (λ w. w.now)
    Challenges.create (new_challenge req norm id code now)
    send_otp norm code
    pure (record {
      challenge_id = id;
      expire_in = env.cfg.otp_ttl;
      resend_after = env.cfg.otp_resend_interval;
      masked_target = masked kind norm;
    })

  captcha : String → String → M (Unit {0})
  captcha token ip w = (env.captcha_verify token ip, w)

  -- `Challenge`.
  unfoldable pub challenge : ChallengeRequest → M ChallengeResult
  unfolding captcha
  challenge req = do
    norm ← require (normalize env kind req.identity) bad_request
    captcha req.captcha_token req.ip
    hourly_limits norm req.ip
    daily_limits norm req.ip
    resend_limit norm
    issue req norm

  -- The tests of `Verify` on the stored challenge, all of which answer InvalidCred.
  abbrev pub mismatched : String → String → Bool
  mismatched stored given = not (is_empty stored) && not (is_empty given) && not (stored == given)

  unfoldable pub acceptable : AuthChallenge → VerifyRequest → String → ℕ → Bool
  acceptable ch req norm now =
      ch.method == method_of kind
      && ch.identity == norm
      && not (mismatched ch.client_id req.client_id)
      && not (mismatched req.scene ch.scene)
      && not (is_some ch.consumed_at)
      && not (ltb ch.expire_at now)
      && ltb ch.try_count env.cfg.otp_max_tries

  unfoldable pub principal_of : String → IdentityPrincipal
  principal_of norm = record {
    id_type = id_type_of kind;
    provider = "";
    identifier = norm;
    verified = true;
    profile = no_profile;
  }

  -- A wrong code counts as a try, and the error of the count is dropped; a right one consumes the
  -- challenge.
  unfoldable pub settle : AuthChallenge → String → String → ℕ → M (Unit {0})
  settle ch id otp now =
      if env.sha256_hex otp == ch.code_hash
      then Challenges.mark_consumed id now
      else (do ignore (Challenges.increment_try id); raise invalid_cred)

  -- `Verify`.
  unfoldable pub verify : VerifyRequest → M IdentityPrincipal
  unfolding settle
  verify req = do
    norm ← require (normalize env kind req.identity) bad_request
    let id = field "challenge_id" req.credential
    let otp = field "otp" req.credential
    guard (not (is_empty id) && not (is_empty otp)) bad_request
    found ← Challenges.find_by_id id
    ch ← require found invalid_cred
    now ← gets (λ w. w.now)
    guard (acceptable ch req norm now) invalid_cred
    settle ch id otp now
    pure (principal_of norm)
