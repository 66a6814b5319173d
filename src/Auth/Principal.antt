-- ===== src/Auth/Principal.antt =====
-- internal/authenticator/authenticator.go: what the login methods take and give.
use unified_account_center.Prelude.{
  ℕ, String, Bool, Option, none, List, [], ◌∷◌, ◌==◌, if◌then◌else◌,
}

-- `Credential map[string]string`; a missing key reads as "".
abbrev pub Form : Type 0
Form = List (String × String)

unfoldable pub field : String → Form → String
field k [] = ""
field k ((j, v) ∷ f) = if j == k then v else field k f

-- The keys of `Profile map[string]interface{}` that the services read, with their string values.
pub record Profile : Type 0 where
  pub user_id : Option String
  pub name : Option String
  pub avatar : Option String

abbrev pub no_profile : Profile
no_profile = record { user_id = none; name = none; avatar = none }

pub record IdentityPrincipal : Type 0 where
  pub id_type : String
  pub provider : String
  pub identifier : String
  pub verified : Bool
  pub profile : Profile

pub record ChallengeRequest : Type 0 where
  pub client_id : String
  pub tenant_id : String
  pub identity : String
  pub scene : String
  pub captcha_token : String
  pub ip : String

pub record ChallengeResult : Type 0 where
  pub challenge_id : String
  pub expire_in : ℕ
  pub resend_after : ℕ
  pub masked_target : String

pub record VerifyRequest : Type 0 where
  pub client_id : String
  pub tenant_id : String
  pub method : String
  pub identity : String
  pub provider : String
  pub credential : Form
  pub scene : String
  pub ip : String
