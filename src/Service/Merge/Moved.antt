-- ===== src/Service/Merge/Moved.antt =====
-- `mergeUsers` of internal/service/merge.go moves every identity of the source to the target, or
-- changes no row at all.
use unified_account_center.Prelude.{
  ℕ, suc, ◌+◌, String, ◌≡◌, refl, ◌∙◌, ◌⊎◌, sym, ap, Bool, true, false, ◌==◌, Option, none, some,
  List, [], ◌∷◌, eq_refl, eq_iff, not-true, Bool-cases, inl, inr, if◌then◌else◌, arith,
}
use mathlib.Core.Bool.{true≢false}
use unified_account_center.Prelude.Rows.{find_by_holds, find_by, update_where, count_where}
use unified_account_center.Errors.{AppError, ok, err, is_ok}
use unified_account_center.World.{World}
use unified_account_center.Model.Account.{User, Identity, Credential}
use unified_account_center.Model.Session.{AuditLog}
use unified_account_center.Exec.{M, modify, begin, rollback}
use unified_account_center.Exec.Inversion.{
  query_ok, bind_ok, modify_end, on_error_ok, require_ok, guard_ok, or_nil-query_ok,
}
use unified_account_center.Exec.Frame.{
  Frame, Undone, Blind, frame_rules, Frame-modify, Frame-insert, Undone-bind, Undone-begin,
  Restores, Restores-rollback, Restores-bind, Restores-Sure, Restores-commit, Sure, sure_rules,
  Sure-gets, Sure-ignore, Kept, Kept-bind, Kept-Frame, Kept-on_error, Kept-commit, Frame-gets,
  Frame-ignore,
}
use unified_account_center.Repo.Accounts
use unified_account_center.Repo.Tokens
use unified_account_center.Service.Merge.{
  or_rollback, inherit, drop_credential, merge_credentials, merge_rest, merge_body, merge_users,
}

-- Everything but the faults ahead and the count of draws.
abbrev pub rows : World → World
rows w = record w { faults = []; drawn = 0 }

rows-Blind : Blind rows
rows-Blind w fs n = refl

Frame-find_user : (user_id : String) → Frame rows (Accounts.find_user user_id)
unfolding Accounts.find_user
Frame-find_user user_id = search (frame_rules, rows-Blind)

module _ (old : World) where
  Restores-statement : (m : M (Unit {0})) → Restores rows old (or_rollback old m)
  unfolding or_rollback
  Restores-statement m = Restores-rollback rows-Blind old m

  Sure-inherit : (target : String) (s t : Option Credential) → Sure (inherit target s t)
  unfolding inherit
  Sure-inherit target none t = search sure_rules
  Sure-inherit target (some s) none = search sure_rules
  Sure-inherit target (some s) (some t) = search sure_rules

  Sure-drop : (source : String) (o : Option Credential) → Sure (drop_credential source o)
  unfolding drop_credential
  Sure-drop source none = search sure_rules
  Sure-drop source (some s) = search sure_rules

  Sure-credentials : (target source : String) → Sure (merge_credentials target source)
  unfolding merge_credentials
  Sure-credentials target source = search (sure_rules, Sure-inherit, Sure-drop) depth 10

  -- Every statement of the transaction that can fail it puts back what it wrote.
  Restores-merge_body :
      (tenant_id target : String) (source : User)
      → Restores rows old (merge_body old tenant_id target source)
  unfolding merge_body merge_rest
  Restores-merge_body tenant_id target source =
      search
        (
          Restores-bind, Restores-statement, Restores-Sure, Restores-commit, Sure-gets, Sure-ignore,
          Sure-credentials, rows-Blind,
        )
        depth 20

merge_users-Undone :
    (tenant_id target source : String) → Undone rows (merge_users tenant_id target source)
unfolding merge_users
merge_users-Undone tenant_id target source =
    search
      (frame_rules, Undone-bind, Undone-begin, Restores-merge_body, Frame-find_user, rows-Blind)
      depth 14

-- A merge that fails changes no row, whichever of its statements failed.
pub merge_users_undone :
    (tenant_id target source : String) (w w' : World) (e : AppError)
    → merge_users tenant_id target source w ≡ (err e, w')
    → rows w' ≡ rows w
merge_users_undone tenant_id target source w w' e h =
    ap (λ p. rows p.1) (sym h)
    ∙ (merge_users-Undone tenant_id target source).at w (ap (λ p. is_ok p.0) h)

abbrev identities : World → List Identity
identities w = w.identities

identities-Blind : Blind identities
identities-Blind w fs n = refl

Frame-find_credential : (user_id : String) → Frame identities (Accounts.find_credential user_id)
unfolding Accounts.find_credential
Frame-find_credential user_id = search (frame_rules, identities-Blind)

Frame-create : (c : Credential) → Frame identities (Accounts.create_credential c)
unfolding Accounts.create_credential
Frame-create c = Frame-insert identities-Blind _ _ (λ w. refl)

Frame-save : (c : Credential) → Frame identities (Accounts.save_credential c)
unfolding Accounts.save_credential
Frame-save c = Frame-modify identities-Blind _ (λ w. refl)

Frame-delete : (user_id : String) → Frame identities (Accounts.delete_credential user_id)
unfolding Accounts.delete_credential
Frame-delete user_id = Frame-modify identities-Blind _ (λ w. refl)

Frame-inherit : (target : String) (s t : Option Credential) → Frame identities (inherit target s t)
unfolding inherit
Frame-inherit target none t = search frame_rules
Frame-inherit target (some s) none = search (frame_rules, Frame-create)
Frame-inherit target (some s) (some t) = search (frame_rules, Frame-save)

Frame-drop : (source : String) (o : Option Credential) → Frame identities (drop_credential source o)
unfolding drop_credential
Frame-drop source none = search frame_rules
Frame-drop source (some s) = search (frame_rules, Frame-delete)

Frame-credentials : (target source : String) → Frame identities (merge_credentials target source)
unfolding merge_credentials
Frame-credentials target source =
    search (frame_rules, Frame-find_credential, Frame-inherit, Frame-drop) depth 10

Frame-move_oauth : (source target : String) → Frame identities (Accounts.move_oauth source target)
unfolding Accounts.move_oauth
Frame-move_oauth source target = Frame-modify identities-Blind _ (λ w. refl)

Frame-update_user : (u : User) → Frame identities (Accounts.update_user u)
unfolding Accounts.update_user
Frame-update_user u = Frame-modify identities-Blind _ (λ w. refl)

Frame-revoke_all :
    (user_id client_id : String) (now : ℕ)
    → Frame identities (Tokens.revoke_all_by_user user_id client_id now)
unfolding Tokens.revoke_all_by_user
Frame-revoke_all user_id client_id now = Frame-modify identities-Blind _ (λ w. refl)

Frame-create_audit : (log : AuditLog) → Frame identities (Tokens.create_audit log)
unfolding Tokens.create_audit
Frame-create_audit log = Frame-modify identities-Blind _ (λ w. refl)

Frame-passkeys : Frame identities (modify (λ w. w))
Frame-passkeys = Frame-modify identities-Blind _ (λ w. refl)

Kept-statement :
    (old : World) (m : M (Unit {0})) → Frame identities m → Kept identities (or_rollback old m)
unfolding or_rollback
Kept-statement old m p = Kept-on_error m _ p

Kept-merge_rest :
    (old : World) (tenant_id target : String) (source : User)
    → Kept identities (merge_rest old tenant_id target source)
unfolding merge_rest
Kept-merge_rest old tenant_id target source =
    search
      (
        Kept-bind, Kept-statement, Kept-Frame, Kept-commit, Frame-gets, Frame-ignore,
        Frame-move_oauth, Frame-passkeys, Frame-credentials, Frame-revoke_all, Frame-update_user,
        Frame-create_audit, identities-Blind,
      )
      depth 20

abbrev pub of_user : String → Identity → Bool
of_user user_id i = i.user_id == user_id

abbrev moved : String → String → List Identity → List Identity
moved source target is = update_where (of_user source) (λ i. record i { user_id = target }) is

merge_body_moves :
    (old : World) (tenant_id target : String) (source : User) (w w' : World)
    → merge_body old tenant_id target source w ≡ (ok tt, w')
    → w'.identities ≡ moved source.user_id target w.identities
unfolding merge_body or_rollback Accounts.move_identities
merge_body_moves old tenant_id target source w w' h =
    let (_, v, e, h1) = bind_ok _ _ w h in
    let (fs, after) = modify_end _ w v (on_error_ok _ (rollback old) w v tt e) in
    ap (λ p. p.1.identities) (sym h1)
    ∙ (Kept-merge_rest old tenant_id target source).at v (ap (λ p. is_ok p.0) h1)
    ∙ ap (λ x. x.identities) after

by_source :
    (source target : String) (s : User) (us : List User) (is : List Identity) (w' : World)
    (o : Option User)
    → (o ≡ none) ⊎ (o ≡ find_by (λ u. u.user_id == source) us)
    → o ≡ some s
    → w'.identities ≡ moved s.user_id target is
    → w'.identities ≡ moved source target is
by_source source target s us is w' o (inl e) f body = absurd (cc)
by_source source target s us is w' o (inr e) f body =
    let found : find_by (λ u. u.user_id == source) us ≡ some s = sym e ∙ f in
    let same : s.user_id ≡ source =
      (eq_iff s.user_id source).0 (find_by_holds (λ u. u.user_id == source) us s found) in
    body ∙ ap (λ x. moved x target is) same

-- What a merge that succeeds makes of the table of identities.
pub merge_users_moves :
    (tenant_id target source : String) (w w' : World)
    → merge_users tenant_id target source w ≡ (ok tt, w')
    → ((target == source) ≡ false) × (w'.identities ≡ moved source target w.identities)
unfolding merge_users Accounts.find_user begin
merge_users_moves tenant_id target source w w' h =
    let (differ, h1) = guard_ok _ _ _ w h in
    let (o, fs, _, h2) = or_nil-query_ok _ _ w h1 in
    let (t, _, h3) = require_ok _ _ _ _ h2 in
    let (o2, gs, found, h4) = or_nil-query_ok _ _ _ h3 in
    let (s, same, h5) = require_ok _ _ _ _ h4 in
    let (hs, h6) = query_ok _ _ _ h5 in
    let body = merge_body_moves _ tenant_id target s _ w' h6 in
    (not-true _ differ, by_source source target s w.users w.identities w' o2 found same body)

module _ (source target : String) (differ : (target == source) ≡ false) where
  moved_none : (is : List Identity) → count_where (of_user source) (moved source target is) ≡ 0
  unfolding count_where update_where
  moved_none [] = refl
  moved_none (i ∷ is) = elim (Bool-cases (of_user source i)) [
    | inl e ↦ rw (e, differ) (moved_none is)
    | inr e ↦ rw (e, e) (moved_none is)
  ]

  -- A row of the source is not the target's.
  apart : (i : Identity) → of_user source i ≡ true → of_user target i ≡ false
  apart i e = elim (Bool-cases (of_user target i)) [
    | inl f ↦
        let same : target ≡ source =
          sym ((eq_iff i.user_id target).0 f) ∙ (eq_iff i.user_id source).0 e in
        absurd (true≢false (sym ((eq_iff target source).1 same) ∙ differ))
    | inr f ↦ f
  ]

  moved_all :
      (is : List Identity)
      → count_where (of_user target) (moved source target is)
        ≡ count_where (of_user target) is + count_where (of_user source) is
  unfolding count_where update_where
  moved_all [] = omega arith
  moved_all (i ∷ is) = elim (Bool-cases (of_user source i)) [
    | inl e ↦ let below = moved_all is in rw (e, eq_refl target, apart i e) (omega (arith, below))
    | inr e ↦ let below = moved_all is in rw (e) (grow _ _ _ (of_user target i) below)
  ]
    where
      grow :
          (m n k : ℕ) (b : Bool)
          → m ≡ n + k
          → (if b then suc m else m) ≡ (if b then suc n else n) + k
      grow m n k true h = omega arith
      grow m n k false h = h

-- A merge that succeeds leaves the source no identity, and the target its own and the source's.
pub merge_users-Moved :
    (tenant_id target source : String) (w w' : World)
    → merge_users tenant_id target source w ≡ (ok tt, w')
    → (count_where (of_user source) w'.identities ≡ 0)
      × (count_where (of_user target) w'.identities
          ≡ count_where (of_user target) w.identities + count_where (of_user source) w.identities)
merge_users-Moved tenant_id target source w w' h =
    let (differ, at) = merge_users_moves tenant_id target source w w' h in
    (
      ap (count_where (of_user source)) at ∙ moved_none source target differ w.identities,
      ap (count_where (of_user target)) at ∙ moved_all source target differ w.identities,
    )
