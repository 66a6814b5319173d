-- ===== src/Service/Binding/Steadiness.antt =====
-- Binding and unbinding take nothing back.
use unified_account_center.Prelude.{String, List, Option, none, some}
use unified_account_center.World.{Env}
use unified_account_center.Model.Account.{Identity}
use unified_account_center.Model.Session.{App}
use unified_account_center.History.Rules.{Steady}
use unified_account_center.Auth.Principal.{IdentityPrincipal}
use unified_account_center.Service.Apps.{RequestMeta}
use unified_account_center.Service.Steadiness.{service_rules, Steady-consume_step_up}
use unified_account_center.Service.OauthFlow.Steadiness.{Steady-consume_state}
use unified_account_center.Service.Login.{LoginDto}
use unified_account_center.Service.Binding.{
  bind_state, bind_provider, prove_bind, add_identity, attach, bind, UnbindDto, remove_one, unbind,
}

module _ (env : Env) (meta : RequestMeta) where
  Steady-bind_state :
      (app : App) (user_id : String) (dto : LoginDto) → Steady (bind_state env meta app user_id dto)
  unfolding bind_state
  Steady-bind_state app user_id dto = search (service_rules, Steady-consume_state) depth 10

  Steady-bind_provider :
      (app : App) (user_id : String) (dto : LoginDto)
      → Steady (bind_provider env meta app user_id dto)
  unfolding bind_provider
  Steady-bind_provider app user_id dto = search (service_rules, Steady-bind_state) depth 8

  Steady-prove_bind :
      (app : App) (user_id : String) (dto : LoginDto) → Steady (prove_bind env meta app user_id dto)
  unfolding prove_bind
  Steady-prove_bind app user_id dto = search (service_rules, Steady-bind_provider) depth 10

  Steady-add_identity :
      (app : App) (user_id : String) (p : IdentityPrincipal)
      → Steady (add_identity env meta app user_id p)
  unfolding add_identity
  Steady-add_identity app user_id p = search service_rules depth 10

  Steady-attach :
      (app : App) (user_id : String) (p : IdentityPrincipal) (o : Option Identity)
      → Steady (attach env meta app user_id p o)
  unfolding attach
  Steady-attach app user_id p none = Steady-add_identity app user_id p
  Steady-attach app user_id p (some i) = search service_rules

  pub Steady-bind : (user_id : String) (dto : LoginDto) → Steady (bind env meta user_id dto)
  unfolding bind
  Steady-bind user_id dto = search (service_rules, Steady-prove_bind, Steady-attach) depth 12

  Steady-remove_one :
      (app : App) (user_id : String) (dto : UnbindDto) (list : List Identity)
      → Steady (remove_one env app meta user_id dto list)
  unfolding remove_one
  Steady-remove_one app user_id dto list = search service_rules depth 12

  pub Steady-unbind : (user_id : String) (dto : UnbindDto) → Steady (unbind env meta user_id dto)
  unfolding unbind
  Steady-unbind user_id dto =
      search (service_rules, Steady-consume_step_up, Steady-remove_one) depth 14
