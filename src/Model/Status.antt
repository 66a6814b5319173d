-- ===== src/Model/Status.antt =====
-- The constants of internal/model/model.go: the states of users, applications, tenants and invitations.
use unified_account_center.Prelude.{String}

abbrev pub active : String
active = "active"

abbrev pub disabled : String
disabled = "disabled"

abbrev pub revoked : String
revoked = "revoked"
