-- ===== src/Assignment/Supersession.antt =====
-- What `_supersede_prior_approved` of app/modules/internal_role_assignment/service.py leaves.
use mathlib.Core.Path.{subst}
use regnova.Prelude.{
  ◌≡◌, refl, ap, sym, ◌∙◌, ℕ, ◌+◌, ◌≤◌, Bool, true, false, not, none, some, find, find-true, ==_iff,
  if◌then◌else◌, arith, Bool-cases, Option-cases, inl, inr, ◌==◌, ◌&&◌,
}
use regnova.Access.{InternalRoleCode, role_number, AssignmentStatus, superseded, is_approved}
use regnova.Assignment.Model.{InternalRoleAssignment}
use regnova.Assignment.Service.{
  has_id, is_active, is_proposed, supersede_prior_approved, supersede_row,
}
use regnova.Prelude.Rows.{
  modify_first, count, one, count-modify_first, find-modify_first, count-none, count-congr, Falling,
  Falling-unique, Falling-modify_first,
}
use regnova.Assignment.Single.{Single, Rows}

abbrev pub is_about : ℕ → InternalRoleCode → InternalRoleAssignment → Bool
is_about user_id code a = (a.user_id == user_id) && (role_number a.role_code == role_number code)

both_equal : (m n p q : ℕ) → ((m == n) && (p == q)) ≡ true → (m ≡ n) × (p ≡ q)
both_equal m n p q h = ground arith

count-is_about :
    (user_id : ℕ) (code : InternalRoleCode) (a : InternalRoleAssignment) (rows : Rows)
    → is_about user_id code a ≡ true
    → count (is_active user_id code) rows ≡ count (is_active a.user_id a.role_code) rows
count-is_about user_id code a rows h =
    let e : (a.user_id ≡ user_id) × (role_number a.role_code ≡ role_number code) =
      both_equal a.user_id user_id (role_number a.role_code) (role_number code) h in
    count-congr (is_active user_id code) (is_active a.user_id a.role_code) rows (λ x. rw (e.0, e.1))

-- After the supersession the grant can come into force: nothing else is, for its user and role.
abbrev pub Ready : ℕ → ℕ → InternalRoleAssignment → Rows → Type 0
Ready next_id id a rows =
    Falling (λ x. x.id) next_id rows
    × (find (has_id id) rows ≡ some a)
    × ((user_id : ℕ) (code : InternalRoleCode)
        → count (is_active user_id code) rows + one (is_about user_id code a) ≤ 1)

abbrev pub withdrawn : InternalRoleAssignment → InternalRoleAssignment → InternalRoleAssignment
withdrawn a x = record x { status = superseded; superseded_by_id = some a.id }

supersede_found :
    (next_id id : ℕ) (a prior : InternalRoleAssignment) (rows : Rows)
    → Single next_id rows
    → find (has_id id) rows ≡ some a
    → find (is_active a.user_id a.role_code) rows ≡ some prior
    → has_id id prior ≡ false
    → Ready next_id id a (modify_first (is_active a.user_id a.role_code) (withdrawn a) rows)
supersede_found next_id id a prior rows h e k d = (
  Falling-modify_first (λ x. x.id) next_id (is_active a.user_id a.role_code) (withdrawn a) rows
      (λ x. refl) h.0,
  find-modify_first (has_id id) (is_active a.user_id a.role_code) (withdrawn a) rows prior k d d
      ∙ e,
  λ user code. ground (
    arith,
    h.1 user code,
    find-true (is_active a.user_id a.role_code) rows prior k,
    count-modify_first (is_active user code) (is_active a.user_id a.role_code) (withdrawn a) rows
        prior k,
  ),
)

supersede_none :
    (next_id id : ℕ) (a : InternalRoleAssignment) (rows : Rows)
    → Single next_id rows
    → find (has_id id) rows ≡ some a
    → find (is_active a.user_id a.role_code) rows ≡ none
    → Ready next_id id a rows
supersede_none next_id id a rows h e k = (
  h.0,
  e,
  λ user code. ground (
    arith,
    h.1 user code,
    count-none (is_active a.user_id a.role_code) rows k,
    count-is_about user code a rows,
  ),
)

supersede_prior_approved-none :
    (a : InternalRoleAssignment) (rows : Rows)
    → find (is_active a.user_id a.role_code) rows ≡ none
    → supersede_prior_approved a rows ≡ rows
unfolding supersede_prior_approved supersede_row
supersede_prior_approved-none a rows k = ap (supersede_row a rows) k

supersede_prior_approved-some :
    (a prior : InternalRoleAssignment) (rows : Rows)
    → find (is_active a.user_id a.role_code) rows ≡ some prior
    → (prior.id == a.id) ≡ false
    → supersede_prior_approved a rows
      ≡ modify_first (is_active a.user_id a.role_code) (withdrawn a) rows
unfolding supersede_prior_approved supersede_row
supersede_prior_approved-some a prior rows k other =
    ap (supersede_row a rows) k
    ∙ ap
        (λ b.
          if not b then modify_first (is_active a.user_id a.role_code) (withdrawn a) rows else rows)
        other

pub proposed_not_approved : (s : AssignmentStatus) → is_proposed s ≡ true → is_approved s ≡ false
proposed_not_approved s h = ground (arith, h)

and_false : (b c d : Bool) → d ≡ false → (b && c && d) ≡ false
and_false b c d h = ground (arith, h)

proposed_inactive :
    (user_id : ℕ) (code : InternalRoleCode) (a : InternalRoleAssignment)
    → is_proposed a.status ≡ true
    → is_active user_id code a ≡ false
proposed_inactive user_id code a p =
    and_false (a.user_id == user_id) (role_number a.role_code == role_number code)
      (is_approved a.status) (proposed_not_approved a.status p)

absurd : {P : Type 0} (b : Bool) → b ≡ true → b ≡ false → P
absurd true h k = cc
absurd false h k = cc

-- The row in force is another one than the row that is decided.
other_row :
    (next_id id : ℕ) (a prior : InternalRoleAssignment) (rows : Rows)
    → Single next_id rows
    → find (has_id id) rows ≡ some a
    → find (is_active a.user_id a.role_code) rows ≡ some prior
    → is_proposed a.status ≡ true
    → (prior.id == a.id) ≡ false
other_row next_id id a prior rows h e k p =
    let about = is_active a.user_id a.role_code in
    elim (Bool-cases (prior.id == a.id)) [
      | inl d ↦
          let same_id : prior.id ≡ id =
            (==_iff prior.id a.id).0 d ∙ (==_iff a.id id).0 (find-true (has_id id) rows a e) in
          let same : a ≡ prior =
            Falling-unique (λ x. x.id) next_id id about rows a prior h.0 e k same_id in
          let active : about a ≡ true = ap about same ∙ find-true about rows prior k in
          absurd (about a) active (proposed_inactive a.user_id a.role_code a p)
      | inr d ↦ d
    ]

pub supersede_prior_approved-Ready :
    (next_id id : ℕ) (a : InternalRoleAssignment) (rows : Rows)
    → Single next_id rows
    → find (has_id id) rows ≡ some a
    → is_proposed a.status ≡ true
    → Ready next_id id a (supersede_prior_approved a rows)
supersede_prior_approved-Ready next_id id a rows h e p =
    let about = is_active a.user_id a.role_code in
    elim (Option-cases (find about rows)) [
      | inl k ↦
          subst (Ready next_id id a) (sym (supersede_prior_approved-none a rows k))
            (supersede_none next_id id a rows h e k)
      | inr (prior, k) ↦
          let other : (prior.id == a.id) ≡ false = other_row next_id id a prior rows h e k p in
          subst (Ready next_id id a) (sym (supersede_prior_approved-some a prior rows k other)) (
            supersede_found next_id id a prior rows h e k
              (ground (arith, other, find-true (has_id id) rows a e)))
    ]
