-- ===== src/Service/Apps/Known.antt =====
-- What `requireApp` lets through.
use unified_account_center.Prelude.{String, ◌≡◌, refl, Bool, true, some, List, ◌==◌}
use unified_account_center.Prelude.Rows.{find_by}
use unified_account_center.Errors.{ok}
use unified_account_center.World.{World}
use unified_account_center.Model
use unified_account_center.Model.Session.{App, AuditLog}
use unified_account_center.Exec.Inversion.{
  command_either, facing, require_ok, guard_ok, query_ok, pure_ok,
}
use unified_account_center.Exec.{gets, ignore, modify, ◌>>=◌}
use unified_account_center.Repo.Tokens
use unified_account_center.Repo.Tenancy
use unified_account_center.Service.Apps.{RequestMeta, require_app, audit}

pub record Known (client_id : String) (w : World) (app : App) (w' : World) : Type 0 where
  pub found : find_by (λ a. a.client_id == client_id) w.apps ≡ some app
  pub active : (app.status == Model.Status.active) ≡ true
  pub faults : List Bool
  pub after : w' ≡ facing w faults

-- An application that is let through is in the table and active, and nothing changed but the faults.
pub require_app-Known :
    (client_id : String) (w : World) (app : App) (w' : World)
    → require_app client_id w ≡ (ok app, w')
    → Known client_id w app w'
unfolding require_app Tenancy.find_app
require_app-Known client_id w app w' h =
    let (_, h1) = guard_ok _ _ _ w h in
    let (fs, h2) = query_ok _ _ w h1 in
    let (a, f, h3) = require_ok _ _ _ _ h2 in
    let (s, h4) = guard_ok _ _ _ _ h3 in
    let (same, after) = pure_ok _ _ _ _ h4 in
    record { found = rw same f; active = rw same s; faults = fs; after = after }

-- The audit changes its log alone, and takes from the faults ahead.
abbrev pub Audited : World → World → Type 0
Audited w v =
    (fs : List Bool) × (logs : List AuditLog) × (v ≡ record w { faults = fs; audits = logs })

pub audit-Audited :
    (app : App) (user_id action : String) (success : Bool) (detail : String) (meta : RequestMeta)
    (w : World)
    → Audited w (audit app user_id action success detail meta w).1
unfolding audit gets ignore Tokens.create_audit modify ◌>>=◌
audit-Audited app user_id action success detail meta w =
    command_either _ w (Audited w) (λ fs. (fs, w.audits, refl)) (λ fs. (fs, _, refl))
