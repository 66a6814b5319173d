-- ===== src/Service/Passwords/Fresh.antt =====
-- Which new passwords are accepted.
use unified_account_center.Prelude.{
  String, ◌≡◌, Bool, true, false, not, ◌&&◌, ◌||◌, ◌==◌, Option, List, [], ◌∷◌, map, leb, ltb,
  if◌then◌else◌, is_empty,
}
use unified_account_center.Prelude.Rows.{find_by, filter_by}
use unified_account_center.Text.{byte_len, any_char}
use unified_account_center.Errors.{Result, ok, err}
use unified_account_center.World.{World, Env}
use unified_account_center.Model.Account.{Credential}
use unified_account_center.Repo.Accounts
use unified_account_center.Repo.Accounts.{take_of}
use unified_account_center.Service.Passwords.{matches_any, row_hash, old_hash}

-- The rules on the text of a password.
abbrev pub is_proper : Env → String → Bool
is_proper env pwd =
    leb env.cfg.password_min_length (byte_len pwd)
    && (not env.cfg.password_require_letter_number
        || any_char env.is_letter pwd && any_char env.is_digit pwd)

-- The hashes that a new password of the user may not match.
abbrev pub recent_hashes : Env → String → String → World → List String
recent_hashes env user_id current w =
    let stored = map row_hash (
      take_of env.cfg.password_history_count (filter_by (λ h. h.user_id == user_id) w.histories)) in
    if is_empty current then stored else current ∷ stored

-- What an accepted password satisfies, where the first command, the read of the credential, did not fail.
pub record Accepted (env : Env) (user_id pwd : String) (w : World) : Type 0 where
  pub proper : is_proper env pwd ≡ true
  pub fresh :
      (not (ltb 0 env.cfg.password_history_count)
        || not (
            matches_any env pwd (
              recent_hashes env user_id
                (old_hash (find_by (λ c. c.user_id == user_id) w.credentials))
                w)))
      ≡ true

-- Whether the next command fails.
abbrev pub first_of : List Bool → Bool
first_of [] = false
first_of (b ∷ fs) = b

abbrev fresh_at : Env → String → String → Result (Option Credential) × World → Bool
fresh_at env user_id pwd (err e, w) = true
fresh_at env user_id pwd (ok o, w) =
    not (ltb 0 env.cfg.password_history_count)
    || not (matches_any env pwd (recent_hashes env user_id (old_hash o) w))
