-- ===== src/Service/OauthFlow/Steadiness.antt =====
-- The OAuth state takes nothing back.
use unified_account_center.Prelude.{String}
use unified_account_center.World.{Env}
use unified_account_center.History.Rules.{Steady}
use unified_account_center.Service.Steadiness.{service_rules}
use unified_account_center.Service.OauthFlow.{oauth_start, consume_state}

pub Steady-oauth_start :
    (env : Env) (client_id provider uri given challenge bind : String)
    → Steady (oauth_start env client_id provider uri given challenge bind)
unfolding oauth_start
Steady-oauth_start env client_id provider uri given challenge bind = search service_rules depth 16

pub Steady-consume_state :
    (client_id provider state uri : String) → Steady (consume_state client_id provider state uri)
unfolding consume_state
Steady-consume_state client_id provider state uri = search service_rules depth 12
