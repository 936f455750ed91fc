-- ===== src/Finding/Numbering.antt =====
-- The numbering of a finding's revisions over any history of proposals and transitions
-- (app/modules/finding/service.py).
use mathlib.Core.Path.{subst}
use regnova.Prelude.{
  ◌≡◌, refl, sym, ap, ◌∙◌, ℕ, suc, ◌+◌, Option, none, some, List, [], ◌∷◌, arith, Bool, true, false,
  Option-cases, inl, inr,
}
use regnova.Finding.Model.{FindingStatus, superseded, Finding, FindingRevision, Db, ok}
use regnova.Finding.Repository.{latest_of, get_latest}
use regnova.Finding.Service.{Request, next_revision}
use regnova.Finding.Propose.{Proposal, new_finding, write_proposal, repropose, propose, match_of}
use regnova.Finding.Latest.{count}
use regnova.Finding.Transition.{
  Operation, perform, perform_iff, target, disposition_of, decision_of,
}

-- Each revision is numbered one above the count of its finding's older revisions, and none has
-- the status SUPERSEDED.
abbrev pub is_superseded : FindingStatus → Bool
is_superseded superseded = true
is_superseded _ = false

abbrev pub Numbered : List FindingRevision → Type 0
Numbered [] = Unit
Numbered (r ∷ rs) =
    (r.revision_number ≡ suc (count r.finding_id rs))
    × (is_superseded r.status ≡ false)
    × Numbered rs

pub latest_of-none : (id : ℕ) (rs : List FindingRevision) → latest_of id rs ≡ none → count id rs ≡ 0
unfolding latest_of count
latest_of-none id [] e = refl
latest_of-none id (r ∷ rs) e = ground (arith, latest_of-none id rs)

-- In such a history the current revision's number is the number of revisions.
pub latest_of-number :
    (id : ℕ) (rs : List FindingRevision)
    → Numbered rs
    → (l : FindingRevision) → latest_of id rs ≡ some l
    → l.revision_number ≡ count id rs
unfolding latest_of count
latest_of-number id [] h l e = cc
latest_of-number id (r ∷ rs) h l e = elim (Option-cases (latest_of id rs)) [
  | inl none_left ↦ ground (arith, latest_of-none id rs)
  | inr (s, rest) ↦ ground (arith, latest_of-number id rs h.2 s rest)
]

target-not_superseded : (op : Operation) → is_superseded (target op) ≡ false
target-not_superseded op = ground arith

perform-Numbered :
    (op : Operation) (q : Request) (db : Db) (finding : Finding) (db' : Db)
    → Numbered db.revisions
    → perform op q db ≡ ok (finding, db')
    → Numbered db'.revisions
unfolding next_revision get_latest
perform-Numbered op q db finding db' h e =
    let (old, actor, permitted, after) = (perform_iff op q db finding db').0 e in
    let new = next_revision q finding old (target op) (disposition_of op) (decision_of op) in
    subst Numbered (sym (ap (λ d. d.revisions) after)) (
      ap (λ (n : ℕ). n + 1) (latest_of-number finding.id db.revisions h old permitted.current)
          ∙ omega arith,
      target-not_superseded op,
      h,
    )

write_proposal-Numbered :
    (p : Proposal) (f : Finding) (n : ℕ) (db : Db)
    → n ≡ suc (count f.id db.revisions)
    → Numbered db.revisions
    → Numbered (write_proposal p f n db).1.revisions
unfolding write_proposal
write_proposal-Numbered p f n db e h = (e, refl, h)

repropose-Numbered :
    (p : Proposal) (f : Finding) (latest : Option FindingRevision) (db : Db)
    → get_latest db f.id ≡ latest
    → Numbered db.revisions
    → Numbered (repropose p f latest db).1.revisions
unfolding repropose get_latest
repropose-Numbered p f none db e h =
    write_proposal-Numbered p f 1 db (omega (arith, latest_of-none f.id db.revisions e)) h
repropose-Numbered p f (some latest) db e h =
    let next =
      write_proposal-Numbered p f (latest.revision_number + 1) db
        (omega (arith, latest_of-number f.id db.revisions h latest e)) h in
    ground arith

propose-Numbered :
    (p : Proposal) (db : Db)
    → count p.new_id db.revisions ≡ 0
    → Numbered db.revisions
    → Numbered (propose p db).1.revisions
unfolding propose new_finding
propose-Numbered p db fresh h = elim (Option-cases (match_of p db)) [
  | inl e ↦
      rw (e, propose)
        (write_proposal-Numbered p (new_finding p) 1
          (record db { findings = new_finding p ∷ db.findings }) (omega arith) h)
  | inr (f, e) ↦ rw (e, propose) (repropose-Numbered p f (get_latest db f.id) db refl h)
]

-- One committed request: a transition, or a proposal whose identifier is new.
pub data Step (db : Db) : Db → Type 0 where
  performed :
      {db' : Db} (op : Operation) (q : Request) (finding : Finding)
      → perform op q db ≡ ok (finding, db')
      → Step db db'
  proposed_by : (p : Proposal) → count p.new_id db.revisions ≡ 0 → Step db (propose p db).1

pub data Reach (db : Db) : Db → Type 0 where
  here : Reach db db
  next : {db' db'' : Db} → Reach db db' → Step db' db'' → Reach db db''

Step-Numbered : {db db' : Db} → Step db db' → Numbered db.revisions → Numbered db'.revisions
Step-Numbered {db} (performed {db' = db'} op q finding e) h =
    perform-Numbered op q db finding db' h e
Step-Numbered {db} (proposed_by p fresh) h = propose-Numbered p db fresh h

-- Over any history of transitions and proposals every finding's revisions are numbered 1, 2, 3, …
-- without a gap, and no revision ever has the status SUPERSEDED.
pub Reach-Numbered : {db db' : Db} → Reach db db' → Numbered db.revisions → Numbered db'.revisions
Reach-Numbered here h = h
Reach-Numbered (next r st) h = Step-Numbered st (Reach-Numbered r h)
