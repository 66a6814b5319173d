-- ===== src/Model/Tenancy.antt =====
-- internal/model/model.go: tenants, invitations and join requests.
use unified_account_center.Prelude.{ℕ, String, Bool, Option, List}

pub record Tenant : Type 0 where
  pub tenant_id : String
  pub name : String
  pub status : String
  pub max_apps : ℕ
  pub daily_otp_limit : ℕ
  pub force_sso : Bool
  pub disable_local_password : Bool
  pub sso_domains : List String

-- `expire_at` is none for NULL: the invitation does not expire.
pub record Invite : Type 0 where
  pub code : String
  pub tenant_id : String
  pub client_id : String
  pub email : String
  pub phone : String
  pub max_uses : ℕ
  pub used_count : ℕ
  pub expire_at : Option ℕ
  pub created_by : String
  pub status : String
  pub note : String

-- `profile_name` is the name in the profile that the row keeps as JSON, empty for none.
pub record JoinRequest : Type 0 where
  pub request_id : String
  pub tenant_id : String
  pub client_id : String
  pub identity : String
  pub provider : String
  pub id_type : String
  pub identifier : String
  pub method : String
  pub profile_name : String
  pub status : String
  pub reviewer : String
  pub note : String
