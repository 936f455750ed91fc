-- ===== src/Finding/Lifecycle.antt =====
-- The lifecycle of a finding under the transitions of app/modules/finding/service.py.
use regnova.Prelude.{
  ◌≡◌, ◌≢◌, refl, sym, ap, ℕ, ◌+◌, String, Bool, true, false, Option, some, ◌∷◌, arith, ◌||◌, ◌&&◌,
}
use mathlib.Core.Path.{subst}
use regnova.Access.{ra, senior_reviewer, has_internal_role}
use regnova.Finding.Model.{
  FindingStatus, proposed, open_, customer_responded, resolved, accepted_with_rationale,
  not_applicable, rejected, Severity, critical, major, is_terminal, Finding, FindingRevision, Db,
  transition_not_allowed, ok, raise,
}
use regnova.Finding.Repository.{get_finding, get_latest, latest_of}
use regnova.Finding.Service.{
  Request, is_among, get_by_id, latest_or_404, require_status, next_revision, resolves,
}
use regnova.Finding.Latest.{latest_of-cons_self, latest_of-cons_ne, get_user-id}
use regnova.Finding.Transition.{
  Operation, accept_, reject_, mark_not_applicable_, accept_with_rationale_, respond_, reopen_,
  resolve_, perform, allowed, target, disposition_of, decision_of, perform_iff, transition,
  perform-transition,
}

terminal_is_refused :
    (op : Operation) (s : FindingStatus) → is_terminal s ≡ true → is_among s (allowed op) ≡ false
terminal_is_refused (accept_ d) s h = ground arith
terminal_is_refused (reject_ d) s h = ground arith
terminal_is_refused (mark_not_applicable_ d) s h = ground arith
terminal_is_refused (accept_with_rationale_ d) s h = ground arith
terminal_is_refused respond_ s h = ground arith
terminal_is_refused reopen_ s h = ground arith
terminal_is_refused (resolve_ d r) s h = ground arith

-- Once a finding's current status is terminal, every transition is refused, whoever asks.
pub perform_terminal :
    (op : Operation) (q : Request) (db : Db) (finding : Finding) (latest : FindingRevision)
    → get_finding db q.organization_id q.product_market_state_id q.finding_id ≡ some finding
    → get_latest db finding.id ≡ some latest
    → is_terminal latest.status ≡ true
    → perform op q db ≡ raise transition_not_allowed
unfolding transition get_by_id latest_or_404 require_status
perform_terminal op q db finding latest found current h =
    rw perform-transition (ground (arith, terminal_is_refused op latest.status))

-- The review workflow as a graph.
pub data Moves : FindingStatus → FindingStatus → Type 0 where
  triage : Moves proposed open_
  discard : Moves proposed rejected
  exempt : Moves proposed not_applicable
  answer : Moves open_ customer_responded
  send_back : Moves customer_responded open_
  settle : {s : FindingStatus} → is_terminal s ≡ false → Moves s resolved
  tolerate : {s : FindingStatus} → is_terminal s ≡ false → Moves s accepted_with_rationale

allowed-Moves :
    (op : Operation) (s : FindingStatus) → is_among s (allowed op) ≡ true → Moves s (target op)
allowed-Moves (accept_ d) proposed h = triage
allowed-Moves (reject_ d) proposed h = discard
allowed-Moves (mark_not_applicable_ d) proposed h = exempt
allowed-Moves respond_ open_ h = answer
allowed-Moves reopen_ customer_responded h = send_back
allowed-Moves (accept_with_rationale_ d) proposed h = tolerate refl
allowed-Moves (accept_with_rationale_ d) open_ h = tolerate refl
allowed-Moves (accept_with_rationale_ d) customer_responded h = tolerate refl
allowed-Moves (resolve_ d r) proposed h = settle refl
allowed-Moves (resolve_ d r) open_ h = settle refl
allowed-Moves (resolve_ d r) customer_responded h = settle refl
allowed-Moves _ _ h = cc

-- A transition that goes through moves the finding's current status along the workflow's graph,
-- to a revision numbered one higher that keeps its severity and records the actor; the current
-- revision of any other finding stays, and no revision is rewritten.
pub perform-Moves :
    (op : Operation) (q : Request) (db : Db) (finding : Finding) (db' : Db) (other : ℕ)
    → perform op q db ≡ ok (finding, db')
    → other ≢ finding.id
    → (old new : FindingRevision) × (get_latest db finding.id ≡ some old)
      × (get_latest db' finding.id ≡ some new)
      × Moves old.status new.status
      × (new.revision_number ≡ old.revision_number + 1)
      × (new.severity ≡ old.severity)
      × (new.decided_by_user_id ≡ some q.actor_user_id)
      × (db'.revisions ≡ new ∷ db.revisions)
      × (get_latest db' other ≡ get_latest db other)
unfolding get_latest next_revision
perform-Moves op q db finding db' other h ne =
    let (old, actor, permitted, e) = (perform_iff op q db finding db').0 h in
    let new = next_revision q finding old (target op) (disposition_of op) (decision_of op) in
    let grown : db'.revisions ≡ new ∷ db.revisions = ap (λ d. d.revisions) e in
    (
      old,
      new,
      permitted.current,
      subst (λ l. latest_of finding.id l ≡ some new) (sym grown)
          (latest_of-cons_self new db.revisions old permitted.current (omega arith)),
      allowed-Moves op old.status permitted.legal,
      refl,
      refl,
      refl,
      grown,
      rw grown (latest_of-cons_ne other new db.revisions (λ p. ne (sym p))),
    )

abbrev pub is_major : Severity → Bool
is_major major = true
is_major _ = false

abbrev pub is_grave : Severity → Bool
is_grave critical = true
is_grave major = true
is_grave _ = false

resolves_grave :
    (s : Severity) (manager is_ra is_senior : Bool)
    → is_grave s ≡ true
    → resolves s manager is_ra is_senior ≡ true
    → (is_senior || (is_major s && is_ra)) ≡ true
resolves_grave s manager is_ra is_senior g h = ground arith

-- A critical finding is resolved only by a senior reviewer, and a major one only by RA or a senior
-- reviewer, each by an assignment that is in force.
pub resolve_authority :
    (d r : Option String) (q : Request) (db : Db) (finding : Finding) (db' : Db)
    (latest : FindingRevision)
    → perform (resolve_ d r) q db ≡ ok (finding, db')
    → get_latest db finding.id ≡ some latest
    → is_grave latest.severity ≡ true
    → (has_internal_role db.directory q.actor_user_id senior_reviewer
        || (is_major latest.severity && has_internal_role db.directory q.actor_user_id ra))
      ≡ true
resolve_authority d r q db finding db' latest h current grave =
    let (old, actor, permitted, e) = (perform_iff (resolve_ d r) q db finding db').0 h in
    let same : old ≡ latest = cc (permitted.current, current) in
    rw (← get_user-id db.directory q.actor_user_id permitted.known, ← same)
      (resolves_grave old.severity _ _ _ (subst (λ l. is_grave l.severity ≡ true) (sym same) grave)
        permitted.authorized)
