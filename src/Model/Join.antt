-- ===== src/Model/Join.antt =====
-- The constants of internal/model/model.go: the states of a join request.
use unified_account_center.Prelude.{String}

abbrev pub pending : String
pending = "pending"

abbrev pub approved : String
approved = "approved"

abbrev pub rejected : String
rejected = "rejected"
