-- ===== src/Assignment/Approval.antt =====
-- `decide` of app/modules/internal_role_assignment/service.py: a grant that comes into force.
use regnova.Prelude.{
  ◌≡◌, refl, ℕ, ◌+◌, ◌≤◌, String, Bool, true, false, Option, some, arith, ◌==◌, ◌&&◌,
}
use regnova.Access.{role_number, approved, rejected, is_approved}
use regnova.Assignment.Model.{InternalRoleAssignment, decide_, Db, assignment_not_pending}
use regnova.Assignment.Service.{
  require, has_id, is_active, is_proposed, get_assignment, Request, supersede_prior_approved,
  decided, decide,
}
use regnova.Prelude.Rows.{modify_first, one, count-modify_first, Falling-modify_first}
use regnova.Assignment.Single.{
  Single, IsValid, OnOk, OnOk-bind, Rows, publish_changed-IsValid, get_assignment-ok, require-ok,
  change-IsValid,
}
use regnova.Assignment.Supersession.{Ready, proposed_not_approved, supersede_prior_approved-Ready}

gains :
    (b c d : Bool) (n n' : ℕ)
    → d ≡ false
    → n + one (b && c) ≤ 1
    → n' + one (b && c && d) ≡ n + one (b && c && true)
    → n' ≤ 1
gains b c d n n' h k e = ground arith

approve-Single :
    (q : Request) (next_id id : ℕ) (rationale : Option String) (a : InternalRoleAssignment)
    (rows : Rows)
    → Ready next_id id a rows
    → is_proposed a.status ≡ true
    → Single next_id (modify_first (has_id id) (decided q approved rationale) rows)
approve-Single q next_id id rationale a rows h p = (
  Falling-modify_first (λ x. x.id) next_id (has_id id) (decided q approved rationale) rows
      (λ x. refl) h.0,
  λ user code.
      gains (a.user_id == user) (role_number a.role_code == role_number code) (is_approved a.status)
        _ _ (proposed_not_approved a.status p) (h.2 user code)
        (count-modify_first (is_active user code) (has_id id) (decided q approved rationale) rows a
          h.1),
)

pub decide-IsValid :
    (q : Request) (id : ℕ) (approve : Bool) (rationale : Option String) (db : Db)
    → IsValid db
    → OnOk IsValid (decide q id approve rationale db)
unfolding decide
decide-IsValid q id true rationale db h = OnOk-bind IsValid (get_assignment db id) _ (λ a e.
    OnOk-bind IsValid (require (is_proposed a.status) assignment_not_pending) _ (λ u p.
      let rows = supersede_prior_approved a db.assignments in
      let change = decided q approved rationale in
      let pending = require-ok (is_proposed a.status) assignment_not_pending u p in
      publish_changed-IsValid (record db { assignments = modify_first (has_id id) change rows })
        (change a) decide_ (some a.status) q.actor_user_id rationale q.correlation_id
        (approve-Single q db.next_id id rationale a rows
          (supersede_prior_approved-Ready db.next_id id a db.assignments h
            (get_assignment-ok db id a e) pending)
          pending)))
decide-IsValid q id false rationale db h = OnOk-bind IsValid (get_assignment db id) _ (λ a e.
    OnOk-bind IsValid (require (is_proposed a.status) assignment_not_pending) _ (λ _ _.
      change-IsValid db id (decided q rejected rationale) a (decided q rejected rationale a) decide_
        (some a.status) q.actor_user_id rationale q.correlation_id h e (λ x. refl)
        (λ user code. ground arith)))
