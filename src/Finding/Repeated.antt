-- ===== src/Finding/Repeated.antt =====
-- A second proposal of an issue (app/modules/finding/service.py, `propose`).
use mathlib.Core.Path.{subst}
use regnova.Prelude.{◌≡◌, refl, sym, ap, ◌∙◌, ◌+◌, Option, some, ◌∷◌, arith, length}
use regnova.Finding.Model.{proposed, Finding, FindingRevision, Db}
use regnova.Finding.Repository.{get_latest}
use regnova.Finding.Propose.{
  Proposal, proposed_revision, write_proposal, repropose, propose, match_of,
}
use regnova.Finding.Latest.{count, latest_of-cons_self}
use regnova.Finding.Reproposal.{propose_existing, propose-match}

repropose_proposed :
    (p : Proposal) (f : Finding) (r : FindingRevision) (db : Db)
    → r.status ≡ proposed
    → repropose p f (some r) db ≡ write_proposal p f (r.revision_number + 1) db
unfolding repropose
repropose_proposed p f r db s = ground arith

-- What a second proposal leaves: the finding of the first, with one revision more.
abbrev pub Revised : Proposal → Finding → FindingRevision → Db → Option Finding × Db → Type 0
Revised p f r before (found, after) =
    let revision = proposed_revision p f (r.revision_number + 1) in
    (found ≡ some f)
    × (after.findings ≡ before.findings)
    × (after.revisions ≡ revision ∷ before.revisions)
    × (get_latest after f.id ≡ some revision)
    × (length after.outbox ≡ length before.outbox + 1)

rewritten-Revised :
    (p : Proposal) (f : Finding) (r : FindingRevision) (db : Db)
    → get_latest db f.id ≡ some r
    → Revised p f r db (write_proposal p f (r.revision_number + 1) db)
unfolding write_proposal get_latest
rewritten-Revised p f r db l = (
  refl,
  refl,
  refl,
  latest_of-cons_self (proposed_revision p f (r.revision_number + 1)) db.revisions r l
      (omega arith),
  omega arith,
)

-- A proposal that wrote a revision leaves an issue that any proposal of the same issue finds again:
-- a second one creates no finding and appends, to the finding that the first one returned, one
-- revision, which has its own values and the number after the current one and becomes the current
-- one; and it records one event.
pub propose_again :
    (p p' : Proposal) (db : Db) (f : Finding)
    → count p.new_id db.revisions ≡ 0
    → (propose p db).0 ≡ some f
    → p'.product_market_state_id ≡ p.product_market_state_id
    → p'.dimension ≡ p.dimension
    → p'.requirement_version_id ≡ p.requirement_version_id
    → p'.subject_key ≡ p.subject_key
    → (r : FindingRevision) × (get_latest (propose p db).1 f.id ≡ some r)
      × Revised p' f r (propose p db).1 (propose p' (propose p db).1)
propose_again p p' db f fresh e e1 e2 e3 e4 =
    let (m, (r, l, s)) = propose-match p db f fresh e in
    let db' = (propose p db).1 in
    let m' : match_of p' db' ≡ some f = rw (e1, e2, e3, e4) m in
    (
      r,
      l,
      subst (Revised p' f r db')
          (sym (
            propose_existing p' db' f m'
            ∙ ap (λ o. repropose p' f o db') l
            ∙ repropose_proposed p' f r db' s))
          (rewritten-Revised p' f r db' l),
    )
