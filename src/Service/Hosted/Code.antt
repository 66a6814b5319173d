-- ===== src/Service/Hosted/Code.antt =====
-- What an exchanged code was issued for.
use unified_account_center.Prelude.{◌≡◌, ◌∙◌, sym, ap, true, ◌==◌, some, arith}
use unified_account_center.Prelude.Rows.{find_by}
use unified_account_center.Errors.{ok}
use unified_account_center.World.{World, Env, HostedCodePayload}
use unified_account_center.Model.Session.{App}
use unified_account_center.Cache.{get}
use unified_account_center.Exec.Inversion.{bind_ok, require_ok, guard_ok, query_ok, pure_ok}
use unified_account_center.Repo.Redis
use unified_account_center.Service.Apps.{RequestMeta}
use unified_account_center.Service.Apps.Known.{Known, require_app-Known}
use unified_account_center.Service.Hosted.{
  code_key, ExchangeTokenDto, ExchangeTokenResult, pkce_ok, redeemable, exchange_token,
}

-- The code was stored and alive, for this application and redirect address, and what the challenge
-- asks for was shown.
pub record Redeemed (env : Env) (meta : RequestMeta) (dto : ExchangeTokenDto) (w : World)
    (r : ExchangeTokenResult) : Type 0 where
  pub app : App
  pub found : find_by (λ a. a.client_id == meta.client_id) w.apps ≡ some app
  pub payload : HostedCodePayload
  pub stored : get w.now (code_key dto.code) w.hosted_codes ≡ some payload
  pub of_app : (payload.client_id == app.client_id) ≡ true
  pub of_uri : (payload.redirect_uri == dto.redirect_uri) ≡ true
  pub proved : pkce_ok env meta app payload dto.code_verifier ≡ true
  pub user : r.user_id ≡ payload.user_id
  pub token : r.token ≡ record payload.token { device_id = payload.device_id }

Redeemed-Known :
    (env : Env) (meta : RequestMeta) (dto : ExchangeTokenDto) (w w1 : World)
    (r : ExchangeTokenResult) (app : App) (p : HostedCodePayload)
    → Known meta.client_id w app w1
    → get w1.now (code_key dto.code) w1.hosted_codes ≡ some p
    → redeemable env meta app p dto ≡ true
    → r ≡ (record {
      token = record p.token { device_id = p.device_id };
      user_id = p.user_id;
      device_id = p.device_id;
    })
    → Redeemed env meta dto w r
unfolding redeemable
Redeemed-Known env meta dto w w1 r app p k s t e = record {
  app = app;
  found = k.found;
  payload = p;
  stored = ap (λ u. get u.now (code_key dto.code) u.hosted_codes) (sym k.after) ∙ s;
  of_app = ground arith;
  of_uri = ground arith;
  proved = ground arith;
  user = ap (λ x. x.user_id) e;
  token = ap (λ x. x.token) e;
}

-- An exchange that succeeds was given a code that was stored, still alive, for this application and
-- redirect address, with a verifier that fits its challenge, or without a challenge at an application
-- that asks for none; it yields the tokens and the user that the code was stored with.
pub exchange_token-Redeemed :
    (env : Env) (meta : RequestMeta) (dto : ExchangeTokenDto) (w w' : World)
    (r : ExchangeTokenResult)
    → exchange_token env meta dto w ≡ (ok r, w')
    → Redeemed env meta dto w r
unfolding exchange_token Redis.get_hosted_code
exchange_token-Redeemed env meta dto w w' r h =
    let (_, h1) = guard_ok _ _ _ w h in
    let (app, w1, a, h2) = bind_ok _ _ w h1 in
    let (_, h3) = guard_ok _ _ _ w1 h2 in
    let (fs, h4) = query_ok _ _ w1 h3 in
    let (p, s, h5) = require_ok _ _ _ _ h4 in
    let (t, h6) = guard_ok _ _ _ _ h5 in
    let (_, w2, _, h7) = bind_ok _ _ _ h6 in
    let (_, w3, _, h8) = bind_ok _ _ w2 h7 in
    let (e, _) = pure_ok _ _ _ _ h8 in
    Redeemed-Known env meta dto w w1 r app p (require_app-Known _ w app w1 a) s t e
