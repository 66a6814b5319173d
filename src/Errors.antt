-- ===== src/Errors.antt =====
-- internal/pkg/errcode/errcode.go, and Go's convention of a value or an error.
-- The texts of the messages are not modelled: an error is its code and the data sent with it.
use unified_account_center.Prelude.{◌≡◌, refl, ℕ, String, Bool, true, false, List}

-- The constants of errcode.go but OK.
pub data Code : Type 0 where
  bad_request : Code
  unauthorized : Code
  invalid_cred : Code
  forbidden_app : Code
  pending_approval : Code
  conflict_account : Code
  mfa_required : Code
  password_change_required : Code
  rate_limited : Code
  not_found : Code
  internal : Code

-- The numbers that clients see.
unfoldable pub code_number : Code → ℕ
code_number bad_request = 40001
code_number unauthorized = 40100
code_number invalid_cred = 40110
code_number forbidden_app = 40310
code_number pending_approval = 40320
code_number conflict_account = 40910
code_number mfa_required = 40120
code_number password_change_required = 40130
code_number rate_limited = 42900
code_number not_found = 40400
code_number internal = 50000

-- What the services put into `Data`: the pending MFA session, the user who holds a conflicting
-- identity, the join request that was filed.
pub data ErrorData : Type 0 where
  no_data : ErrorData
  mfa_session : String → List String → List String → ErrorData
  merge_available : String → ErrorData
  join_request : String → ErrorData

pub record AppError : Type 0 where
  pub code : Code
  pub details : ErrorData

abbrev pub app_error : Code → AppError
app_error c = record { code = c; details = no_data }

pub data Result {ℓ} (A : Type ℓ) : Type ℓ where
  ok : A → Result A
  err : AppError → Result A

abbrev pub is_ok {ℓ} : {A : Type ℓ} → Result A → Bool
is_ok (ok a) = true
is_ok (err e) = false

-- A result that equals no success is an error.
pub not_ok : {A : Type 0} (r : Result A) → ((a : A) → r ≡ ok a → ⊥) → is_ok r ≡ false
not_ok (ok a) h = absurd (h a refl)
not_ok (err e) h = refl
