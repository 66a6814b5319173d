-- ===== src/Service/Binding/Last.antt =====
-- `Unbind` of internal/service/auth_service.go leaves the user a way to log in.
use unified_account_center.Prelude.{
  ℕ, suc, ◌≤◌, String, ◌≡◌, refl, ◌∙◌, sym, ap, subst, Bool, true, false, not, ◌&&◌, List, [], ◌∷◌,
  some, ◌==◌, leb, length, nat_eq, Bool-cases, inl, inr, if◌then◌else◌, arith,
}
use unified_account_center.Prelude.Rows.{
  find_by, filter_by, delete_where, count_where, length-filter_by, find_by_holds,
}
use unified_account_center.Errors.{ok}
use unified_account_center.World.{World, Env}
use unified_account_center.Model.Account.{Identity}
use unified_account_center.Model.Session.{App}
use unified_account_center.Exec.Inversion.{
  facing, guard_end, bind_ok, require_ok, guard_ok, query_ok, modify_ok,
}
use unified_account_center.Repo.Accounts
use unified_account_center.Service.Apps.{RequestMeta, audit}
use unified_account_center.Service.Apps.Known.{require_app-Known, audit-Audited}
use unified_account_center.Repo.Redis
use unified_account_center.Repo.Redis.Taken.{Left, get_del_json-Left}
use unified_account_center.Service.StepUp.{consume_step_up}
use unified_account_center.Service.Binding.{UnbindDto, is_target, remove_one, unbind}

abbrev pub of_user : String → Identity → Bool
of_user user_id i = i.user_id == user_id

-- The identity that was removed, out of two or more.
pub record Removed (env : Env) (user_id : String) (dto : UnbindDto) (before after : List Identity)
    : Type 0 where
  pub target : Identity
  pub asked : is_target env.to_lower dto target ≡ true
  pub listed :
      find_by (is_target env.to_lower dto) (filter_by (of_user user_id) before) ≡ some target
  pub enough : 2 ≤ count_where (of_user user_id) before
  pub removed : after ≡ delete_where (λ i. nat_eq i.id target.id) before

audit_identities :
    (app : App) (user_id action detail : String) (success : Bool) (meta : RequestMeta)
    (w w' : World)
    → audit app user_id action success detail meta w ≡ (ok tt, w')
    → w'.identities ≡ w.identities
audit_identities app user_id action detail success meta w w' h =
    let (fs, logs, e) = audit-Audited app user_id action success detail meta w in
    ap (λ p. p.1.identities) (sym h) ∙ ap (λ v. v.identities) e

guarded-enough : (n : ℕ) → not (leb n 1) ≡ true → 2 ≤ n
guarded-enough n h = ground arith

remove_one-Removed :
    (env : Env) (app : App) (meta : RequestMeta) (user_id : String) (dto : UnbindDto) (w w' : World)
    (list : List Identity)
    → list ≡ filter_by (of_user user_id) w.identities
    → remove_one env app meta user_id dto list w ≡ (ok tt, w')
    → Removed env user_id dto w.identities w'.identities
unfolding remove_one Accounts.delete_identity
remove_one-Removed env app meta user_id dto w w' list e h =
    let (enough, h1) = guard_ok _ _ _ w h in
    let (t, f, h2) = require_ok _ _ _ _ h1 in
    let (fs, h3) = modify_ok _ _ _ h2 in
    record {
      target = t;
      asked = find_by_holds (is_target env.to_lower dto) list t f;
      listed = ap (find_by (is_target env.to_lower dto)) (sym e) ∙ f;
      enough =
          subst (λ n. 2 ≤ n) (ap length e ∙ length-filter_by (of_user user_id) w.identities)
            (guarded-enough (length list) enough);
      removed = audit_identities app user_id "unbind_ok" _ true meta _ w' h3;
    }

step_up_identities :
    (user_id client_id token : String) (w w' : World)
    → consume_step_up user_id client_id token w ≡ (ok tt, w')
    → w'.identities ≡ w.identities
unfolding consume_step_up Redis.take_step_up
step_up_identities user_id client_id token w w' h =
    let (_, h1) = guard_ok _ _ _ w h in
    let (o, v, taken, h2) = bind_ok _ _ w h1 in
    let (_, e) = guard_end _ _ v w' h2 in
    ap (λ x. x.identities) e
    ∙ kept v
        (get_del_json-Left (λ u. u.step_ups) Redis.with_step_ups token w v o (λ fs. refl) taken).1
  where
    kept :
        (v : World)
        → Left (λ x. x.step_ups) Redis.with_step_ups token w v
        → v.identities ≡ w.identities
    kept v (fs, inl e) = ap (λ x. x.identities) e
    kept v (fs, inr e) = ap (λ x. x.identities) e

Removed-from :
    (env : Env) (user_id : String) (dto : UnbindDto) (w w1 w2 : World) (after : List Identity)
    → w1.identities ≡ w.identities
    → w2.identities ≡ w1.identities
    → Removed env user_id dto w2.identities after
    → Removed env user_id dto w.identities after
Removed-from env user_id dto w w1 w2 after e f r =
    subst (λ before. Removed env user_id dto before after) (f ∙ e) r

-- An Unbind that succeeds removes one identity that it was asked to remove, of the user's, who had
-- two at least; no other row is removed or changed.
pub unbind-Removed :
    (env : Env) (meta : RequestMeta) (user_id : String) (dto : UnbindDto) (w w' : World)
    → unbind env meta user_id dto w ≡ (ok tt, w')
    → Removed env user_id dto w.identities w'.identities
unfolding unbind Accounts.list_identities
unbind-Removed env meta user_id dto w w' h =
    let (app, w1, a, h1) = bind_ok _ _ w h in
    let (_, w2, c, h2) = bind_ok _ _ w1 h1 in
    let (_, h3) = guard_ok _ _ _ w2 h2 in
    let (_, h4) = guard_ok _ _ _ w2 h3 in
    let (fs, h5) = query_ok _ _ w2 h4 in
    let k = require_app-Known _ w app w1 a in
    Removed-from env user_id dto w w1 w2 w'.identities (ap (λ v. v.identities) k.after)
      (step_up_identities user_id app.client_id dto.step_up_token w1 w2 c)
      (remove_one-Removed env app meta user_id dto (facing w2 fs) w' _ refl h5)

-- The primary keys of the table are different.
abbrev pub fresh_id : ℕ → List Identity → Bool
fresh_id id [] = true
fresh_id id (i ∷ is) = let rest = fresh_id id is in not (nat_eq i.id id) && rest

abbrev pub distinct_ids : List Identity → Bool
distinct_ids [] = true
distinct_ids (i ∷ is) = let rest = distinct_ids is in fresh_id i.id is && rest

delete-fresh :
    (id : ℕ) (is : List Identity)
    → fresh_id id is ≡ true
    → delete_where (λ i. nat_eq i.id id) is ≡ is
unfolding delete_where
delete-fresh id [] h = refl
delete-fresh id (i ∷ is) h = ground (arith, delete-fresh id is)

count_where-delete :
    (p : Identity → Bool) (id : ℕ) (is : List Identity)
    → distinct_ids is ≡ true
    → count_where p is ≤ suc (count_where p (delete_where (λ i. nat_eq i.id id) is))
unfolding count_where delete_where
count_where-delete p id [] h = omega arith
count_where-delete p id (i ∷ is) h = elim (Bool-cases (nat_eq i.id id)) [
  | inl e ↦
      let same : i.id ≡ id = ground arith in
      let fresh : fresh_id i.id is ≡ true = ground arith in
      rw (e, delete-fresh id is (ap (λ k. fresh_id k is) (sym same) ∙ fresh)) (step (p i))
  | inr e ↦ let below = count_where-delete p id is (ground arith) in rw e (grow (p i) below)
]
  where
    step :
        (b : Bool)
        → (if b then suc (count_where p is) else count_where p is) ≤ suc (count_where p is)
    step true = omega arith
    step false = omega arith

    grow :
        {n : ℕ} (b : Bool)
        → count_where p is ≤ suc n
        → (if b then suc (count_where p is) else count_where p is) ≤ suc (if b then suc n else n)
    grow true k = omega arith
    grow false k = k

-- Where the keys of the table are different, an Unbind that succeeds leaves the user an identity.
pub unbind_keeps :
    (env : Env) (meta : RequestMeta) (user_id : String) (dto : UnbindDto) (w w' : World)
    → distinct_ids w.identities ≡ true
    → unbind env meta user_id dto w ≡ (ok tt, w')
    → 1 ≤ count_where (of_user user_id) w'.identities
unbind_keeps env meta user_id dto w w' d h =
    let r = unbind-Removed env meta user_id dto w w' h in
    let left = count_where-delete (of_user user_id) r.target.id w.identities d in
    subst (λ l. 1 ≤ count_where (of_user user_id) l) (sym r.removed) (omega (arith, r.enough, left))
