-- ===== src/Service/Mfa/Backup.antt =====
-- A backup code is good for one use.
use text.Mathlib.TextEquality.{eq_iff}
use unified_account_center.Prelude.{
  ℕ, suc, String, ◌≡◌, ◌∙◌, sym, ap, refl, Bool, true, false, Option, none, some, List, [], ◌∷◌,
  ◌==◌, length, arith, if◌then◌else◌, Option-cases, Bool-cases, inl, inr, subst,
}
use unified_account_center.Prelude.Rows.{find_by, find_by_holds, update_where, count_where}
use unified_account_center.Errors.{ok}
use unified_account_center.Text.{trim_space}
use unified_account_center.World.{World, Env}
use unified_account_center.Model.Account.{Credential}
use unified_account_center.Exec.{
  or_nil, query, command, modify, ignore, require, raise, pure, gets, ◌>>=◌,
}
use unified_account_center.Repo.Accounts
use unified_account_center.Service.Mfa.{mfa_on, use_backup, spend_backup, verify_mfa_code}

-- How often a hash is stored.
abbrev pub times : String → List String → ℕ
times h hs = count_where (λ x. x == h) hs

-- The stored hashes that are left when one occurrence of h is taken out.
pub record Without (h : String) (hs left : List String) : Type 0 where
  pub shorter : length hs ≡ suc (length left)
  pub times_left : (g : String) → times g hs ≡ (if h == g then suc (times g left) else times g left)

-- A code that is accepted takes one stored hash away, its own: one occurrence of it goes, and every
-- other hash is stored as often as before.
pub use_backup-Without :
    (h : String) (hs left : List String) → use_backup h hs ≡ some left → Without h hs left
unfolding use_backup count_where
use_backup-Without h [] left e = absurd (cc)
use_backup-Without h (x ∷ xs) left e = elim (Bool-cases (x == h)) [
  | inl q ↦
      let rest : xs ≡ left = ground arith in
      let same : x ≡ h = (eq_iff x h).0 q in
      record { shorter = ground arith; times_left = λ g. rw (same, rest) refl }
  | inr q ↦ elim (Option-cases (use_backup h xs)) [
    | inl r ↦ ground arith
    | inr (l, r) ↦
        let whole : x ∷ l ≡ left = ground arith in
        let ih = use_backup-Without h xs l r in
        subst (Without h (x ∷ xs)) whole (record {
          shorter = ground (arith, ih.shorter);
          times_left = λ g. ground (arith, ih.times_left g);
        })
  ]
]

-- A code that is refused has its hash stored nowhere.
pub use_backup_refused : (h : String) (hs : List String) → use_backup h hs ≡ none → times h hs ≡ 0
unfolding use_backup count_where
use_backup_refused h [] e = refl
use_backup_refused h (x ∷ xs) e = elim (Option-cases (use_backup h xs)) [
  | inl q ↦ ground (arith, use_backup_refused h xs q)
  | inr (l, q) ↦ ground (arith, q)
]

find_by-update_all :
    (p : Credential → Bool) (new c : Credential) (xs : List Credential)
    → p new ≡ true
    → find_by p xs ≡ some c
    → find_by p (update_where p (λ _. new) xs) ≡ some new
unfolding find_by update_where
find_by-update_all p new c [] mine found = absurd (cc)
find_by-update_all p new c (x ∷ xs) mine found = elim (Bool-cases (p x)) [
  | inl e ↦ rw (e, mine) refl
  | inr e ↦
      let rest : find_by p xs ≡ some c = ground (arith, e) in
      rw (e, e) (find_by-update_all p new c xs mine rest)
]

module _ (env : Env) (user_id : String) (w : World) (c : Credential) (quiet : w.faults ≡ [])
    (found : find_by (λ d. d.user_id == user_id) w.credentials ≡ some c) where
  -- The credential as it is saved.
  abbrev saved : List String → Credential
  saved left = record c { mfa_backup_hashes = left; updated_at = w.now }

  abbrev after_save : List String → World
  after_save left = record w {
    credentials = update_where (λ d. d.user_id == c.user_id) (λ _. saved left) w.credentials;
  }

  saved_row :
      (left : List String)
      → find_by (λ d. d.user_id == user_id) (after_save left).credentials ≡ some (saved left)
  saved_row left =
      let mine = find_by_holds (λ d. d.user_id == user_id) w.credentials c found in
      let own : c.user_id ≡ user_id = (eq_iff c.user_id user_id).0 mine in
      ap
        (λ u.
          find_by (λ d. d.user_id == user_id)
            (update_where (λ d. d.user_id == u) (λ _. saved left) w.credentials))
        own
      ∙ find_by-update_all (λ d. d.user_id == user_id) (saved left) c w.credentials mine found

  spend_run : (left : List String) → spend_backup env c (some left) w ≡ (ok tt, after_save left)
  unfolding spend_backup Accounts.save_credential ignore modify command
  spend_run left = rw quiet refl

  verify_run :
      (code : String)
      → mfa_on c ≡ true
      → env.totp_validate (trim_space code) c.mfa_secret w.now ≡ false
      → verify_mfa_code env user_id code w
        ≡ spend_backup env c (use_backup (env.sha256_hex (trim_space code)) c.mfa_backup_hashes) w
  unfolding verify_mfa_code Accounts.find_credential or_nil query command require pure gets ◌>>=◌
  verify_run code on wrong = rw (quiet, found, on, wrong) refl

  spend-Spent :
      (h : String) (o : Option (List String)) (w' : World)
      → use_backup h c.mfa_backup_hashes ≡ o
      → spend_backup env c o w ≡ (ok tt, w')
      → (c' : Credential) × (find_by (λ d. d.user_id == user_id) w'.credentials ≡ some c')
        × Without h c.mfa_backup_hashes c'.mfa_backup_hashes
  unfolding spend_backup raise
  spend-Spent h none w' e k = absurd (cc)
  spend-Spent h (some left) w' e k =
      let after : after_save left ≡ w' = ap (λ r. r.1) (sym (spend_run left) ∙ k) in
      (
        saved left,
        ap (λ v. find_by (λ d. d.user_id == user_id) v.credentials) (sym after) ∙ saved_row left,
        use_backup-Without h c.mfa_backup_hashes left e,
      )

-- Where no command fails, and the authenticator of a user whose second factor is on does not show the
-- code, a code that is accepted is a backup code: the credential that is stored afterwards has one
-- occurrence of its hash less, and every other hash as often as before.
pub verify_mfa_code-Spent :
    (env : Env) (user_id code : String) (w w' : World) (c : Credential)
    → w.faults ≡ []
    → find_by (λ d. d.user_id == user_id) w.credentials ≡ some c
    → mfa_on c ≡ true
    → env.totp_validate (trim_space code) c.mfa_secret w.now ≡ false
    → verify_mfa_code env user_id code w ≡ (ok tt, w')
    → (c' : Credential) × (find_by (λ d. d.user_id == user_id) w'.credentials ≡ some c')
      × Without (env.sha256_hex (trim_space code)) c.mfa_backup_hashes c'.mfa_backup_hashes
verify_mfa_code-Spent env user_id code w w' c quiet found on wrong h =
    spend-Spent env user_id w c quiet found (env.sha256_hex (trim_space code)) _ w' refl
      (sym (verify_run env user_id w c quiet found code on wrong) ∙ h)
