-- ===== src/Model/Scene.antt =====
-- The constants of internal/model/model.go: the scenes that a challenge is for.
use unified_account_center.Prelude.{String}

abbrev pub login : String
login = "login"

abbrev pub bind : String
bind = "bind"

abbrev pub reset_password : String
reset_password = "reset_password"

abbrev pub step_up : String
step_up = "step_up"

abbrev pub merge : String
merge = "merge"
