-- ===== src/Assignment/Tests.antt =====
-- A grant that a second one replaces, and the theorem about
-- app/modules/internal_role_assignment/service.py at it.
use regnova.Prelude.{◌≡◌, refl, ◌≤◌, arith, true, false, none, some, [], ◌∷◌}
use regnova.Access.{ra, revoked}
use regnova.Assignment.Model.{Db, Result, ok, raise}
use regnova.Assignment.Service.{
  Request, is_active, require_internal_user, get_assignment, publish_changed, new_assignment,
  propose, supersede_row, supersede_prior_approved, decide,
}
use regnova.Assignment.Revocation.{propose_revocation, decide_revocation, revoke}
use regnova.Prelude.Rows.{modify_first, count}
use regnova.Assignment.Single.{IsValid}
use regnova.Assignment.History.{
  Operation, propose_, decide_, propose_revocation_, decide_revocation_, perform, Reach, here, next,
  Reach-one_active,
}

samples : Unit {0}
unfolding modify_first require_internal_user get_assignment publish_changed new_assignment propose
    supersede_row supersede_prior_approved decide propose_revocation decide_revocation revoke
    perform
samples = tt

abbrev by : Request
by = record { actor_user_id = 1; now = 99; correlation_id = none }

abbrev start : Db
start = record {
  users =
      record { id = 1; organization_id = 0; role_id = 70 }
      ∷ record { id = 2; organization_id = 0; role_id = 71 }
      ∷ [];
  tenant_zero = some 0;
  assignments = [];
  outbox = [];
  next_id = 10;
}

abbrev or_start : Result Db → Db
or_start (ok db) = db
or_start (raise e) = start

abbrev after : Operation → Db → Db
after op db = or_start (perform (λ user code scope. "hash") op by db)

abbrev grant : Operation
grant = propose_ 2 "RA" none "joins the team"

asked : Db
asked = after grant (after grant start)

granted : Db
granted = after (propose_revocation_ 10 "leaves") (after (decide_ 10 true none) asked)

replaced : Db
replaced = after (decide_ 11 true none) granted

reached : Reach (λ user code scope. "hash") start replaced
unfolding asked granted replaced samples
reached =
    next (decide_ 11 true none) by
      (next (propose_revocation_ 10 "leaves") by
        (next (decide_ 10 true none) by (next grant by (next grant by (here start) refl) refl) refl)
        refl)
      refl

start-IsValid : IsValid start
start-IsValid = (tt, λ user code. omega arith)

Reach-one_active_example : count (is_active 2 ra) replaced.assignments ≤ 1
Reach-one_active_example = Reach-one_active (λ user code scope. "hash") reached start-IsValid 2 ra

-- The replaced grant still has its revocation pending, and deciding it revokes the grant.
replaced_is_revoked :
    count
      (λ a. elim a.status [ revoked ↦ true | _ ↦ false ])
      (after (decide_revocation_ 10 true none) replaced).assignments
    ≡ 1
unfolding asked granted replaced samples
replaced_is_revoked = refl
