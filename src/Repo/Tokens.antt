-- ===== src/Repo/Tokens.antt =====
-- internal/repository/impl.go: refreshTokenRepo and auditRepo.
use unified_account_center.Prelude.{
  ℕ, String, Bool, not, Option, none, some, List, [], ◌∷◌, ◌++◌, ◌&&◌, ◌||◌, ◌==◌, is_empty,
  is_some, ltb, nat_eq,
}
use unified_account_center.Prelude.Rows.{find_by, filter_by, update_where, count_where}
use unified_account_center.Model.Session.{RefreshToken, AuditLog}
use unified_account_center.Exec.{M, command, query, modify, insert}

-- `Create`: jti and token_hash are unique.
unfoldable pub create : RefreshToken → M (Unit {0})
create t =
    insert
      (λ w.
        is_some (find_by (λ u. u.jti == t.jti || u.token_hash == t.token_hash) w.refresh_tokens))
      (λ w. record w { refresh_tokens = w.refresh_tokens ++ t ∷ [] })

-- The row that a failed read points to.
abbrev pub no_token : RefreshToken
no_token = record {
  jti = "";
  token_hash = "";
  user_id = "";
  client_id = "";
  device_id = "";
  fingerprint = "";
  ip = "";
  ua = "";
  expire_at = 0;
  revoked_at = none;
  replaced_by_jti = "";
}

unfoldable pub find_by_hash : String → M (Option RefreshToken)
find_by_hash hash = query λ w. find_by (λ t. t.token_hash == hash) w.refresh_tokens

unfoldable pub find_by_jti : String → M (Option RefreshToken)
find_by_jti jti = query λ w. find_by (λ t. t.jti == jti) w.refresh_tokens

-- "user_id = ? AND revoked_at IS NULL", and "client_id = ?" where one is given.
abbrev pub is_active_of : String → String → RefreshToken → Bool
is_active_of user_id client_id t =
    t.user_id == user_id
    && not (is_some t.revoked_at)
    && (is_empty client_id || t.client_id == client_id)

unfoldable pub list_active_by_user : String → String → M (List RefreshToken)
list_active_by_user user_id client_id =
    query λ w.
      filter_by (λ t. is_active_of user_id client_id t && ltb w.now t.expire_at) w.refresh_tokens

abbrev pub revoked : ℕ → RefreshToken → RefreshToken
revoked at t = record t { revoked_at = some at }

unfoldable pub revoke : String → ℕ → M (Unit {0})
revoke jti at = modify λ w. record w {
  refresh_tokens = update_where (λ t. t.jti == jti) (revoked at) w.refresh_tokens;
}

unfoldable pub revoke_all_by_user : String → String → ℕ → M (Unit {0})
revoke_all_by_user user_id client_id at = modify λ w. record w {
  refresh_tokens = update_where (is_active_of user_id client_id) (revoked at) w.refresh_tokens;
}

unfoldable pub revoke_others : String → String → String → ℕ → M (Unit {0})
revoke_others user_id client_id keep_jti at = modify λ w. record w {
  refresh_tokens =
      update_where (λ t. is_active_of user_id client_id t && not (t.jti == keep_jti)) (revoked at)
        w.refresh_tokens;
}

abbrev pub is_active_jti : String → RefreshToken → Bool
is_active_jti jti t = t.jti == jti && not (is_some t.revoked_at)

abbrev pub replaced : String → ℕ → RefreshToken → RefreshToken
replaced new_jti at t = record t { revoked_at = some at; replaced_by_jti = new_jti }

-- `ConsumeActive`: one UPDATE … WHERE revoked_at IS NULL; whether it changed one row.
unfoldable pub consume_active : String → String → ℕ → M Bool
consume_active jti new_jti at = command λ w. (
  nat_eq (count_where (is_active_jti jti) w.refresh_tokens) 1,
  record w {
    refresh_tokens = update_where (is_active_jti jti) (replaced new_jti at) w.refresh_tokens;
  },
)

-- auditRepo.Create.
unfoldable pub create_audit : AuditLog → M (Unit {0})
create_audit log = modify λ w. record w { audits = w.audits ++ log ∷ [] }
