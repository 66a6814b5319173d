-- ===== src/Model/Method.antt =====
-- The constants of internal/model/model.go: the login methods.
use unified_account_center.Prelude.{String}

abbrev pub phone_otp : String
phone_otp = "phone_otp"

abbrev pub phone_password : String
phone_password = "phone_password"

abbrev pub email_otp : String
email_otp = "email_otp"

abbrev pub email_password : String
email_password = "email_password"

abbrev pub oauth2 : String
oauth2 = "oauth2"

abbrev pub totp : String
totp = "totp"
