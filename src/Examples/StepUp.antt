-- ===== src/Examples/StepUp.antt =====
-- A step-up token, and a backup code.
use unified_account_center.Prelude.{◌≡◌, refl, true, none, some, [], ◌∷◌, ◌==◌}
use unified_account_center.Prelude.Rows.{find_by}
use unified_account_center.Text.{trim_space, trim_left, trim_right, is_space_code}
use unified_account_center.World.{World}
use unified_account_center.Model.Account.{Credential}
use unified_account_center.Exec
use unified_account_center.Exec.{◌>>=◌}
use unified_account_center.Repo.Accounts
use unified_account_center.Errors.{Result, ok, err, app_error, invalid_cred}
use unified_account_center.Service.StepUp.{consume_step_up, issue_step_up}
use unified_account_center.Service.StepUp.Single.{later, token_at, step_up_roundtrip, step_up_once}
use unified_account_center.Service.Mfa.{use_backup, spend_backup, mfa_on, verify_mfa_code}
use unified_account_center.Service.Mfa.Backup.{Without, verify_mfa_code-Spent}
use unified_account_center.Examples.Setting.{small_env, small_app, small_world}

-- The user that it was issued to, within the five minutes.
step_up_roundtrip_example :
    (consume_step_up "u1" "web"
      (token_at small_env small_world)
      (later 299 (issue_step_up small_env small_app "u1" small_world).1)).0
    ≡ ok tt
step_up_roundtrip_example =
    step_up_roundtrip small_env small_app "u1" "u1" "web" 299 small_world refl refl

step_up_once_example :
    (consume_step_up "u1" "web" "su" (later 5 (consume_step_up "u2" "web" "su" small_world).1)).0
    ≡ err (app_error invalid_cred)
step_up_once_example = step_up_once "u2" "web" "u1" "web" "su" 5 small_world refl refl

abbrev with_codes : Credential
with_codes = record {
  user_id = "u1";
  password_hash = "";
  password_updated_at = none;
  mfa_secret = "totp";
  mfa_enabled = true;
  mfa_backup_hashes = "#a" ∷ "#b" ∷ "#b" ∷ [];
  updated_at = 0;
}

abbrev guarded_user : World
guarded_user = record small_world { credentials = with_codes ∷ [] }

abbrev spent : Result (Unit {0}) × World
spent = verify_mfa_code small_env "u1" " b" guarded_user

spends : spent ≡ (ok tt, spent.1)
unfolding verify_mfa_code spend_backup use_backup mfa_on trim_space trim_left trim_right
    is_space_code Accounts.find_credential Accounts.save_credential Exec.or_nil Exec.query
    Exec.command Exec.modify Exec.ignore Exec.require Exec.pure Exec.raise Exec.gets ◌>>=◌ find_by
spends = refl

verify_mfa_code-Spent_example :
    (c : Credential) × (find_by (λ d. d.user_id == "u1") spent.1.credentials ≡ some c)
    × Without "#b" ("#a" ∷ "#b" ∷ "#b" ∷ []) c.mfa_backup_hashes
unfolding mfa_on trim_space trim_left trim_right is_space_code find_by
verify_mfa_code-Spent_example =
    verify_mfa_code-Spent small_env "u1" " b" guarded_user spent.1 with_codes refl refl refl refl
      spends
