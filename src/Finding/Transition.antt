-- ===== src/Finding/Transition.antt =====
-- The seven transitions of app/modules/finding/service.py as one table: from which statuses, by
-- whose authority, to which status.
use regnova.Prelude.{
  ◌≡◌, refl, sym, ap, ◌∙◌, ◌↔◌, String, Bool, true, Option, none, some, List, [], ◌∷◌, arith, ◌||◌,
  Option-cases, inl, inr,
}
use regnova.Access.{User, ra, senior_reviewer, get_user}
use regnova.Finding.Model.{
  FindingStatus, proposed, open_, customer_responded, resolved, accepted_with_rationale,
  not_applicable, rejected, Severity, Finding, FindingRevision, finding_decision_changed,
  OutboxEvent, Db, transition_not_authorized, ok, Action, ◌>>=◌, ◌>>◌, pure, gets, require,
}
use regnova.Finding.Repository.{get_finding, get_latest}
use regnova.Finding.Service.{
  Request, non_terminal_statuses, is_among, get_by_id, latest_or_404, require_status,
  load_actor_or_404, has_role, is_manager, next_revision, append_revision, publish_decision_changed,
  accept, reject, mark_not_applicable, respond, reopen, resolves, resolve, accept_with_rationale,
}

pub data Operation : Type 0 where
  accept_ reject_ mark_not_applicable_ accept_with_rationale_ : Option String → Operation
  respond_ reopen_ : Operation
  resolve_ : Option String → Option String → Operation

-- A call of one of the transitions.
unfoldable pub perform : Operation → Request → Action Finding
perform (accept_ d) q = accept q d
perform (reject_ d) q = reject q d
perform (mark_not_applicable_ d) q = mark_not_applicable q d
perform (accept_with_rationale_ d) q = accept_with_rationale q d
perform respond_ q = respond q
perform reopen_ q = reopen q
perform (resolve_ d r) q = resolve q d r

abbrev pub allowed : Operation → List FindingStatus
allowed (accept_ d) = proposed ∷ []
allowed (reject_ d) = proposed ∷ []
allowed (mark_not_applicable_ d) = proposed ∷ []
allowed (accept_with_rationale_ d) = non_terminal_statuses
allowed respond_ = open_ ∷ []
allowed reopen_ = customer_responded ∷ []
allowed (resolve_ d r) = non_terminal_statuses

abbrev pub target : Operation → FindingStatus
target (accept_ d) = open_
target (reject_ d) = rejected
target (mark_not_applicable_ d) = not_applicable
target (accept_with_rationale_ d) = accepted_with_rationale
target respond_ = customer_responded
target reopen_ = open_
target (resolve_ d r) = resolved

-- Who may: by the finding's severity, and whether the actor is a customer manager, RA or senior.
abbrev pub authority : Operation → Severity → Bool → Bool → Bool → Bool
authority (accept_ d) severity manager is_ra is_senior = manager || is_ra || is_senior
authority (reject_ d) severity manager is_ra is_senior = is_ra || is_senior
authority (mark_not_applicable_ d) severity manager is_ra is_senior = is_ra || is_senior
authority (accept_with_rationale_ d) severity manager is_ra is_senior = is_ra || is_senior
authority respond_ severity manager is_ra is_senior = manager
authority reopen_ severity manager is_ra is_senior = is_ra || is_senior
authority (resolve_ d r) severity manager is_ra is_senior =
    resolves severity manager is_ra is_senior

abbrev pub disposition_of : Operation → Option String
disposition_of (accept_ d) = d
disposition_of (reject_ d) = d
disposition_of (mark_not_applicable_ d) = d
disposition_of (accept_with_rationale_ d) = d
disposition_of respond_ = none
disposition_of reopen_ = none
disposition_of (resolve_ d r) = d

abbrev pub decision_of : Operation → Option String
decision_of (resolve_ d r) = r
decision_of _ = none

abbrev pub is_authorized : Operation → Db → FindingRevision → User → Bool
is_authorized op db latest actor =
    authority op latest.severity (is_manager db actor) (has_role db actor ra)
      (has_role db actor senior_reviewer)

-- The writes at the end of every transition.
abbrev write : Operation → Request → Finding → FindingRevision → Action Finding
write op q finding latest = do
  append_revision q finding latest (target op) (disposition_of op) (decision_of op)
  publish_decision_changed q finding latest.status (target op) (disposition_of op)
  pure finding

abbrev checked : Operation → Request → Finding → FindingRevision → User → Action Finding
checked op q finding latest actor = do
  authorized ← gets (λ db. is_authorized op db latest actor)
  require authorized transition_not_authorized
  write op q finding latest

unfoldable pub transition : Operation → Request → Action Finding
transition op q = do
  finding ← get_by_id q
  latest ← latest_or_404 finding.id
  require_status latest (allowed op)
  actor ← load_actor_or_404 q.actor_user_id
  checked op q finding latest actor

pub perform-transition :
    (op : Operation) (q : Request) (db : Db) → perform op q db ≡ transition op q db
unfolding perform transition accept reject mark_not_applicable respond reopen resolve
    accept_with_rationale
perform-transition (accept_ d) q db = refl
perform-transition (reject_ d) q db = refl
perform-transition (mark_not_applicable_ d) q db = refl
perform-transition (accept_with_rationale_ d) q db = refl
perform-transition respond_ q db = refl
perform-transition reopen_ q db = refl
perform-transition (resolve_ d r) q db = refl

-- The event that a transition publishes.
abbrev pub decision_event : Operation → Request → Finding → FindingRevision → OutboxEvent
decision_event op q finding latest = record {
  organization_id = q.organization_id;
  payload = finding_decision_changed (record {
    finding_id = finding.id;
    product_market_state_id = finding.product_market_state_id;
    dimension = finding.dimension;
    from_status = latest.status;
    to_status = target op;
    rationale = q.rationale;
    disposition = disposition_of op;
  });
  actor_user_id = some q.actor_user_id;
  correlation_id = q.correlation_id;
}

-- One revision and one event more, and nothing else changed.
abbrev pub after : Operation → Request → Finding → FindingRevision → Db → Db
after op q finding latest db = record db {
  revisions =
      next_revision q finding latest (target op) (disposition_of op) (decision_of op)
      ∷ db.revisions;
  outbox = decision_event op q finding latest ∷ db.outbox;
}

-- What a transition asks for, of the rows that it reads.
pub record IsPermitted (op : Operation) (q : Request) (db : Db) (finding : Finding)
    (latest : FindingRevision) (actor : User) : Type 0 where
  pub found : get_finding db q.organization_id q.product_market_state_id q.finding_id ≡ some finding
  pub current : get_latest db finding.id ≡ some latest
  pub legal : is_among latest.status (allowed op) ≡ true
  pub known : get_user db.directory q.actor_user_id ≡ some actor
  pub authorized : is_authorized op db latest actor ≡ true

perform_permitted :
    (op : Operation) (q : Request) (db : Db) {finding : Finding} {latest : FindingRevision}
    {actor : User}
    → IsPermitted op q db finding latest actor
    → perform op q db ≡ ok (finding, after op q finding latest db)
unfolding transition get_by_id latest_or_404 require_status load_actor_or_404 append_revision
    publish_decision_changed
perform_permitted op q db h = rw perform-transition (ground arith)

transition_inversion :
    (op : Operation) (q : Request) (db : Db) {finding : Finding} {db' : Db}
    → transition op q db ≡ ok (finding, db')
    → (latest : FindingRevision) × (actor : User) × IsPermitted op q db finding latest actor
      × (db' ≡ after op q finding latest db)
unfolding transition get_by_id latest_or_404 require_status load_actor_or_404 append_revision
    publish_decision_changed
transition_inversion op q db h =
    elim (Option-cases (get_finding db q.organization_id q.product_market_state_id q.finding_id)) [
      | inl e ↦ absurd (ground arith)
      | inr (f, found) ↦ elim (Option-cases (get_latest db f.id)) [
        | inl e ↦ absurd (ground arith)
        | inr (latest, current) ↦ elim (Option-cases (get_user db.directory q.actor_user_id)) [
          | inl e ↦ absurd (ground arith)
          | inr (actor, known) ↦ (latest, actor, ground arith, ground arith)
        ]
      ]
    ]

-- A transition goes through exactly if the finding is found in the organization's state, its
-- current status is one that the transition takes, the actor is known and the table gives the
-- actor authority; it then appends one revision and publishes one event, and changes nothing else.
pub perform_iff :
    (op : Operation) (q : Request) (db : Db) (finding : Finding) (db' : Db)
    → (perform op q db ≡ ok (finding, db')) ↔ (
        (latest : FindingRevision) × (actor : User) × IsPermitted op q db finding latest actor
        × (db' ≡ after op q finding latest db))
perform_iff op q db finding db' = (
  λ h. transition_inversion op q db (rw perform-transition at h),
  λ (latest, actor, permitted, e).
      perform_permitted op q db permitted ∙ ap (λ d. ok (finding, d)) (sym e),
)
