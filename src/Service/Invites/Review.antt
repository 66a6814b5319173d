-- ===== src/Service/Invites/Review.antt =====
-- `ReviewJoinRequest` of internal/service/invite.go decides a request once.
use unified_account_center.Prelude.{
  ℕ, String, ◌≡◌, refl, ◌∙◌, ap, subst, Bool, true, false, Option, none, some, List, [], ◌∷◌, ◌==◌,
  Bool-cases, inl, inr, if◌then◌else◌, arith, eq_iff,
}
use unified_account_center.Prelude.Rows.{find_by, update_where, find_by_holds}
use unified_account_center.Errors.{ok, is_ok, not_ok}
use unified_account_center.World.{World, Env}
use unified_account_center.Model
use unified_account_center.Model.Tenancy.{JoinRequest}
use unified_account_center.Exec.{◌>>◌}
use unified_account_center.Exec.Inversion.{
  or_nil-query_ok, require_ok, guard_ok, bind_ok, modify_end, found_there,
}
use unified_account_center.Repo.Tenancy
use unified_account_center.Service.StepUp.Single.{later}
use unified_account_center.Service.Invites.{decided, admit, decide, review_join_request}

abbrev of_id : String → JoinRequest → Bool
of_id id r = r.request_id == id

abbrev is_pending : Option JoinRequest → Bool
is_pending none = false
is_pending (some r) = r.status == Model.Join.pending

-- Under this id there is no request that waits.
abbrev pub IsClosed : String → List JoinRequest → Type 0
IsClosed id rows = is_pending (find_by (of_id id) rows) ≡ false

-- An update that writes one row wherever the id is this one.
update_where-IsClosed :
    (id : String) (new : JoinRequest) (rows : List JoinRequest)
    → (new.status == Model.Join.pending) ≡ false
    → IsClosed id (update_where (of_id id) (λ _. new) rows)
unfolding find_by update_where
update_where-IsClosed id new [] closed = refl
update_where-IsClosed id new (s ∷ rows) closed =
    let rest = update_where-IsClosed id new rows closed in
    elim (Bool-cases (of_id id s)) [
      | inl same ↦ rw same (head (of_id id new) _ rest)
      | inr other ↦ rw (other, other) rest
    ]
  where
    head :
        (b : Bool) (o : Option JoinRequest)
        → is_pending o ≡ false
        → is_pending (if b then some new else o) ≡ false
    head true o rest = closed
    head false o rest = rest

update_join-IsClosed :
    (req : JoinRequest) (w w' : World)
    → (req.status == Model.Join.pending) ≡ false
    → Tenancy.update_join req w ≡ (ok tt, w')
    → IsClosed req.request_id w'.joins
unfolding Tenancy.update_join
update_join-IsClosed req w w' closed h =
    let (fs, after) = modify_end _ w w' h in
    ap (λ v. is_pending (find_by (of_id req.request_id) v.joins)) after
    ∙ update_where-IsClosed req.request_id req w.joins closed

decide-IsClosed :
    (env : Env) (req : JoinRequest) (decision reviewer note : String) (w w' : World)
    → decide env req decision reviewer note w ≡ (ok tt, w')
    → IsClosed req.request_id w'.joins
unfolding decide
decide-IsClosed env req decision reviewer note w w' h = by_decision (decision == "reject") h
  where
    by_decision :
        (rejects : Bool)
        → (if rejects
              then Tenancy.update_join (decided env req Model.Join.rejected reviewer note)
              else (do
                admit env req
                Tenancy.update_join (decided env req Model.Join.approved reviewer note)))
            w
          ≡ (ok tt, w')
        → IsClosed req.request_id w'.joins
    by_decision true e =
        update_join-IsClosed (decided env req Model.Join.rejected reviewer note) w w' refl e
    by_decision false e =
        let (_, v, _, e1) = bind_ok _ _ w e in
        update_join-IsClosed (decided env req Model.Join.approved reviewer note) v w' refl e1

-- What a review that succeeds found, and how it leaves the request.
pub record Reviewed (request_id : String) (w w' : World) : Type 0 where
  pub request : JoinRequest
  pub found : find_by (of_id request_id) w.joins ≡ some request
  pub was_pending : (request.status == Model.Join.pending) ≡ true
  pub closed : IsClosed request_id w'.joins

-- A review that succeeds was of a request that was there and pending, and leaves none pending under
-- its id.
pub review_join_request-Reviewed :
    (env : Env) (request_id decision reviewer note : String) (w w' : World)
    → review_join_request env request_id decision reviewer note w ≡ (ok tt, w')
    → Reviewed request_id w w'
unfolding review_join_request Tenancy.find_join
review_join_request-Reviewed env request_id decision reviewer note w w' h =
    let (o, fs, c, h1) = or_nil-query_ok _ _ w h in
    let (req, e, h2) = require_ok _ _ _ _ h1 in
    let (p, h3) = guard_ok _ _ _ _ h2 in
    let (_, h4) = guard_ok _ _ _ _ h3 in
    let found = found_there o _ req c e in
    record {
      request = req;
      found = found;
      was_pending = p;
      closed =
          subst (λ id. IsClosed id w'.joins)
            ((eq_iff req.request_id request_id).0
              (find_by_holds (of_id request_id) w.joins req found))
            (decide-IsClosed env req _ reviewer note _ w' h4);
    }

-- A request to join is decided once: after a review that succeeded, every other review of it is
-- refused, whatever time passes.
pub review_once :
    (env : Env) (request_id decision reviewer note again other why : String) (d : ℕ) (w w' : World)
    → review_join_request env request_id decision reviewer note w ≡ (ok tt, w')
    → is_ok (review_join_request env request_id again other why (later d w')).0 ≡ false
review_once env request_id decision reviewer note again other why d w w' h =
    let first = review_join_request-Reviewed env request_id decision reviewer note w w' h in
    not_ok _ λ t e.
      let second =
        review_join_request-Reviewed env request_id again other why (later d w') _
          (ap (λ r. (r, (review_join_request env request_id again other why (later d w')).1)) e) in
      absurd (ground (arith, second.was_pending, first.closed, second.found))
