-- ===== src/Assignment/Single.antt =====
-- At most one grant in force for each user and role, over any sequence of the requests of
-- app/modules/internal_role_assignment/service.py.
use mathlib.Core.Path.{subst}
use regnova.Prelude.{
  ◌≡◌, refl, sym, ℕ, ◌≤◌, suc, String, Bool, true, false, Option, none, some, List, ◌∷◌, find,
  arith, Option-cases, inl, inr,
}
use regnova.Access.{InternalRoleCode, AssignmentStatus, is_approved}
use regnova.Assignment.Model.{
  InternalRoleAssignment, Change, propose_, propose_revocation_, decide_revocation_, revoke_, Db,
  Error, invalid_internal_role_code, scope_not_allowed_for_role, assignment_not_active,
  revocation_already_pending, no_revocation_pending, Result, ok, raise, ◌>>=◌,
}
use regnova.Assignment.Service.{
  require, or_raise, role_of, has_id, is_active, get_assignment, require_internal_user,
  publish_changed, Request, new_assignment, propose,
}
use regnova.Assignment.Revocation.{
  revocation_asked, propose_revocation, revoked_by, revocation_decided, decide_revocation, revoke,
}
use regnova.Prelude.Rows.{
  modify_first, count, one, count-modify_first, Falling, Falling-modify_first,
}

abbrev pub OnOk : {A : Type 0} → (A → Type 0) → Result A → Type 0
OnOk P (ok a) = P a
OnOk P (raise e) = Unit

pub OnOk_apply : {A : Type 0} (P : A → Type 0) {m : Result A} {a : A} → m ≡ ok a → OnOk P m → P a
OnOk_apply P e h = subst (OnOk P) e h

pub OnOk-bind :
    {A B : Type 0} (P : B → Type 0) (m : Result A) (f : A → Result B)
    → ((a : A) → m ≡ ok a → OnOk P (f a))
    → OnOk P (m >>= f)
OnOk-bind P (ok a) f h = h a refl
OnOk-bind P (raise e) f h = tt

abbrev pub Rows : Type 0
Rows = List InternalRoleAssignment

-- At most one row for a user and a role is in force, and identifiers fall from below the next one.
abbrev pub Single : ℕ → Rows → Type 0
Single next_id rows =
    Falling (λ a. a.id) next_id rows
    × ((user_id : ℕ) (code : InternalRoleCode) → count (is_active user_id code) rows ≤ 1)

abbrev pub IsValid : Db → Type 0
IsValid db = Single db.next_id db.assignments

pub publish_changed-IsValid :
    (db : Db) (a : InternalRoleAssignment) (action : Change) (from_status : Option AssignmentStatus)
    (actor : ℕ) (rationale correlation_id : Option String)
    → IsValid db
    → OnOk IsValid (publish_changed db a action from_status actor rationale correlation_id)
unfolding publish_changed
publish_changed-IsValid db a action from_status actor rationale correlation_id h =
    OnOk-bind IsValid (or_raise db.tenant_zero _) _ (λ _ _. h)

-- Changing a row that gains no force keeps the invariant.
modify_first-Single :
    (next_id id : ℕ) (change : InternalRoleAssignment → InternalRoleAssignment) (rows : Rows)
    (a : InternalRoleAssignment)
    → Single next_id rows
    → find (has_id id) rows ≡ some a
    → ((x : InternalRoleAssignment) → (change x).id ≡ x.id)
    → ((user_id : ℕ) (code : InternalRoleCode)
        → one (is_active user_id code (change a)) ≤ one (is_active user_id code a))
    → Single next_id (modify_first (has_id id) change rows)
modify_first-Single next_id id change rows a h e k gain = (
  Falling-modify_first (λ x. x.id) next_id (has_id id) change rows k h.0,
  λ user_id code. omega (
    arith,
    h.1 user_id code,
    gain user_id code,
    count-modify_first (is_active user_id code) (has_id id) change rows a e,
  ),
)

cons-Single :
    (next_id : ℕ) (a : InternalRoleAssignment) (rows : Rows)
    → Single next_id rows
    → a.id ≡ next_id
    → is_approved a.status ≡ false
    → Single (suc next_id) (a ∷ rows)
cons-Single next_id a rows h e k = (
  (omega (arith, e), subst (λ n. Falling (λ x. x.id) n rows) (sym e) h.0),
  λ user code. ground (arith, h.1 user code, k),
)

pub propose-IsValid :
    (content_hash : ℕ → InternalRoleCode → Option (List String) → String) (q : Request)
    (user_id : ℕ) (role_code : String) (scope : Option (List String)) (rationale : String) (db : Db)
    → IsValid db
    → OnOk IsValid (propose content_hash q user_id role_code scope rationale db)
unfolding propose new_assignment
propose-IsValid content_hash q user_id role_code scope rationale db h =
    OnOk-bind IsValid (require_internal_user db q.actor_user_id) _ (λ _ _.
      OnOk-bind IsValid (require_internal_user db user_id) _ (λ _ _.
        OnOk-bind IsValid (or_raise (role_of role_code) invalid_internal_role_code) _ (λ code _.
          OnOk-bind IsValid (require _ scope_not_allowed_for_role) _ (λ _ _.
            let a = new_assignment content_hash q user_id code scope rationale db.next_id in
            publish_changed-IsValid
              (record db { assignments = a ∷ db.assignments; next_id = suc db.next_id }) a propose_
              none q.actor_user_id (some rationale) q.correlation_id
              (cons-Single db.next_id a db.assignments h refl refl)))))

pub get_assignment-ok :
    (db : Db) (id : ℕ) (a : InternalRoleAssignment)
    → get_assignment db id ≡ ok a
    → find (has_id id) db.assignments ≡ some a
unfolding get_assignment
get_assignment-ok db id a e = elim (Option-cases (find (has_id id) db.assignments)) [
  | inl k ↦ ground (arith, e, k)
  | inr (b, k) ↦ ground (arith, e, k)
]

pub require-ok : (test : Bool) (e : Error) (u : Unit {0}) → require test e ≡ ok u → test ≡ true
require-ok true e u h = refl
require-ok false e u h = cc

-- The request that changes one row, whatever it checks in between.
pub change-IsValid :
    (db : Db) (id : ℕ) (change : InternalRoleAssignment → InternalRoleAssignment)
    (a b : InternalRoleAssignment) (action : Change) (from_status : Option AssignmentStatus)
    (actor : ℕ) (rationale correlation_id : Option String)
    → IsValid db
    → get_assignment db id ≡ ok a
    → ((x : InternalRoleAssignment) → (change x).id ≡ x.id)
    → ((user_id : ℕ) (code : InternalRoleCode)
        → one (is_active user_id code (change a)) ≤ one (is_active user_id code a))
    → OnOk IsValid (
        publish_changed
          (record db { assignments = modify_first (has_id id) change db.assignments })
          b
          action
          from_status
          actor
          rationale
          correlation_id)
change-IsValid db id change a b action from_status actor rationale correlation_id h e k gain =
    publish_changed-IsValid
      (record db { assignments = modify_first (has_id id) change db.assignments }) b action
      from_status actor rationale correlation_id
      (modify_first-Single db.next_id id change db.assignments a h (get_assignment-ok db id a e) k
        gain)

pub propose_revocation-IsValid :
    (q : Request) (id : ℕ) (rationale : String) (db : Db)
    → IsValid db
    → OnOk IsValid (propose_revocation q id rationale db)
unfolding propose_revocation
propose_revocation-IsValid q id rationale db h = OnOk-bind IsValid (get_assignment db id) _ (λ a e.
    OnOk-bind IsValid (require_internal_user db q.actor_user_id) _ (λ _ _.
      OnOk-bind IsValid (require (is_approved a.status) assignment_not_active) _ (λ _ _.
        OnOk-bind IsValid (require _ revocation_already_pending) _ (λ _ _.
          change-IsValid db id (revocation_asked q rationale) a (revocation_asked q rationale a)
            propose_revocation_ (some a.status) q.actor_user_id (some rationale) q.correlation_id h
            e (λ x. refl) (λ user code. omega arith)))))

pub decide_revocation-IsValid :
    (q : Request) (id : ℕ) (approve : Bool) (rationale : Option String) (db : Db)
    → IsValid db
    → OnOk IsValid (decide_revocation q id approve rationale db)
unfolding decide_revocation
decide_revocation-IsValid q id true rationale db h =
    OnOk-bind IsValid (get_assignment db id) _ (λ a e.
      OnOk-bind IsValid (require _ no_revocation_pending) _ (λ _ _.
        change-IsValid db id (revocation_decided q true rationale) a
          (revocation_decided q true rationale a) decide_revocation_ (some a.status) q.actor_user_id
          rationale q.correlation_id h e (λ x. refl) (λ user code. ground arith)))
decide_revocation-IsValid q id false rationale db h =
    OnOk-bind IsValid (get_assignment db id) _ (λ a e.
      OnOk-bind IsValid (require _ no_revocation_pending) _ (λ _ _.
        change-IsValid db id (revocation_decided q false rationale) a
          (revocation_decided q false rationale a) decide_revocation_ (some a.status)
          q.actor_user_id rationale q.correlation_id h e (λ x. refl) (λ user code. omega arith)))

pub revoke-IsValid :
    (q : Request) (id : ℕ) (reason : String) (db : Db)
    → IsValid db
    → OnOk IsValid (revoke q id reason db)
unfolding revoke
revoke-IsValid q id reason db h = OnOk-bind IsValid (get_assignment db id) _ (λ a e.
    OnOk-bind IsValid (require (is_approved a.status) assignment_not_active) _ (λ _ _.
      change-IsValid db id (revoked_by q (some reason)) a (revoked_by q (some reason) a) revoke_
        (some a.status) q.actor_user_id (some reason) q.correlation_id h e (λ x. refl)
        (λ user code. ground arith)))
