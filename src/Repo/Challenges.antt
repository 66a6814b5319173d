-- ===== src/Repo/Challenges.antt =====
-- internal/repository/impl.go: challengeRepo.
use unified_account_center.Prelude.{ℕ, suc, String, Option, some, [], ◌∷◌, ◌++◌, ◌==◌, is_some}
use unified_account_center.Prelude.Rows.{find_by, update_where}
use unified_account_center.Model.Session.{AuthChallenge}
use unified_account_center.Exec.{M, query, modify, insert}

unfoldable pub create : AuthChallenge → M (Unit {0})
create ch =
    insert (λ w. is_some (find_by (λ c. c.challenge_id == ch.challenge_id) w.challenges))
      (λ w. record w { challenges = w.challenges ++ ch ∷ [] })

unfoldable pub find_by_id : String → M (Option AuthChallenge)
find_by_id id = query λ w. find_by (λ c. c.challenge_id == id) w.challenges

unfoldable pub increment_try : String → M (Unit {0})
increment_try id = modify λ w. record w {
  challenges =
      update_where (λ c. c.challenge_id == id) (λ c. record c { try_count = suc c.try_count })
        w.challenges;
}

unfoldable pub mark_consumed : String → ℕ → M (Unit {0})
mark_consumed id at = modify λ w. record w {
  challenges =
      update_where (λ c. c.challenge_id == id) (λ c. record c { consumed_at = some at })
        w.challenges;
}
