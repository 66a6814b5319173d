-- ===== src/Model/Role.antt =====
-- The constants of internal/model/model.go: the roles.
use unified_account_center.Prelude.{String}

abbrev pub platform_admin : String
platform_admin = "platform_admin"

abbrev pub tenant_admin : String
tenant_admin = "tenant_admin"

abbrev pub operator : String
operator = "operator"

abbrev pub viewer : String
viewer = "viewer"

abbrev pub user : String
user = "user"
