-- ===== src/Model/IdType.antt =====
-- The constants of internal/model/model.go: the kinds of identities.
use unified_account_center.Prelude.{String}

abbrev pub phone : String
phone = "phone"

abbrev pub email : String
email = "email"

abbrev pub oauth : String
oauth = "oauth"
