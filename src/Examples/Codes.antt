-- ===== src/Examples/Codes.antt =====
-- A code that verifies, once.
use unified_account_center.Prelude.{◌+◌, ◌≡◌, refl, false, [], ◌∷◌, inl}
use unified_account_center.Prelude.Rows.{find_by, update_where}
use unified_account_center.Text.{
  trim_space, trim_left, trim_right, is_space_code, remove_char, has_prefix, char_count, byte_len,
  all_chars,
}
use unified_account_center.Identity.{normalize_phone, phone_loose}
use unified_account_center.Errors.{ok, is_ok}
use unified_account_center.World.{World}
use unified_account_center.Exec
use unified_account_center.Exec.{◌>>=◌}
use unified_account_center.Repo.Challenges
use unified_account_center.Auth.Principal.{IdentityPrincipal, field}
use unified_account_center.Auth.Otp.{
  phone, email, verify, normalize, settle, principal_of, acceptable, method_of,
}
use unified_account_center.Auth.Otp.Verify.{Accepted, verify-Accepted, spent}
use unified_account_center.Service.Traffic.{serve, served, verify_call, here, after, waited}
use unified_account_center.Service.Traffic.Once.{dead_refused, verified_once}
use unified_account_center.Examples.Setting.{small_env, small_world, otp_request, small_challenge}

abbrev spent_world : World
spent_world = record small_world { challenges = spent 1000 small_challenge ∷ [] }

abbrev proved : IdentityPrincipal
proved = principal_of small_env phone "+8613800138000"

-- The code "123456" of challenge ch1 verifies.
verifies : verify small_env phone (otp_request "123456") small_world ≡ (ok proved, spent_world)
unfolding verify settle field ◌>>=◌ Exec.guard Exec.require Exec.pure Exec.raise Exec.gets
    Exec.query Exec.command Exec.modify normalize normalize_phone phone_loose trim_space trim_left
    trim_right is_space_code remove_char has_prefix byte_len all_chars find_by update_where
    acceptable method_of Challenges.find_by_id Challenges.mark_consumed char_count
verifies = refl

verify-Accepted_example :
    Accepted small_env phone (otp_request "123456") small_world proved spent_world
verify-Accepted_example =
    verify-Accepted small_env phone (otp_request "123456") small_world proved spent_world verifies

-- A minute passes, and the code is asked for again.
verified_once_example :
    is_ok (verify small_env email (otp_request "123456") (record spent_world { now = 1000 + 60 })).0
    ≡ false
verified_once_example =
    verified_once small_env phone email (otp_request "123456") (otp_request "123456") small_world
      spent_world (record spent_world { now = 1000 + 60 }) proved verifies refl
      (after here (waited 60))

-- Another code is tried, and the right one again.
abbrev tried_world : World
tried_world = (serve small_env (verify_call "phone_otp" (otp_request "000000")) spent_world).1

dead_refused_example : is_ok (verify small_env phone (otp_request "123456") tried_world).0 ≡ false
unfolding find_by field
dead_refused_example =
    dead_refused small_env phone (otp_request "123456") spent_world tried_world
      (spent 1000 small_challenge) refl (inl refl)
      (after here (served (verify_call "phone_otp" (otp_request "000000"))))
