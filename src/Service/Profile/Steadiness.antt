-- ===== src/Service/Profile/Steadiness.antt =====
-- Changing the profile takes nothing back.
use unified_account_center.Prelude.{String}
use unified_account_center.History.Rules.{Steady}
use unified_account_center.Service.Steadiness.{service_rules, Steady-roles_for_user}
use unified_account_center.Service.Profile.{UpdateProfileDto, update_profile}

pub Steady-update_profile :
    (user_id : String) (dto : UpdateProfileDto) → Steady (update_profile user_id dto)
unfolding update_profile
Steady-update_profile user_id dto = search (service_rules, Steady-roles_for_user) depth 16
