-- ===== src/Finding/Reproposal.antt =====
-- Repeated proposals of one issue (app/modules/finding/service.py, `propose`).
use mathlib.Core.Path.{subst}
use native.Mathlib.Decide.{ℕ_discrete}
use regnova.Prelude.{
  ◌≡◌, ◌≢◌, refl, sym, ap, ◌∙◌, ℕ, ◌+◌, String, Option, none, some, List, ◌∷◌, arith, Bool, true,
  Option-cases, inl, inr, ◌⊎◌, find, find-congr, find-true, ◌&&◌, ◌<◌,
}
use text.Mathlib.TextPositions.{eq_refl}
use regnova.Finding.Model.{proposed, Finding, FindingRevision, Db}
use regnova.Finding.Repository.{
  same_id, same_key, latest_of, get_latest, matches_key, is_live, find_open_match,
}
use regnova.Finding.Propose.{
  Proposal, proposed_revision, new_finding, write_proposal, repropose, propose, match_of,
}
use regnova.Finding.Latest.{
  count, latest_of-none_of_count, latest_of-cons_self, latest_of-cons_first, latest_of-cons_ne,
}

-- The issue that a proposal is about.
abbrev pub about : Proposal → Finding → Bool
about p = matches_key p.product_market_state_id p.dimension p.requirement_version_id p.subject_key

-- The finding has a current revision, which is a proposal.
abbrev pub IsProposed : Db → ℕ → Type 0
IsProposed db id = (r : FindingRevision) × (get_latest db id ≡ some r) × (r.status ≡ proposed)

IsProposed-is_live : (db : Db) (id : ℕ) → IsProposed db id → is_live db id ≡ true
IsProposed-is_live db id (r, e, p) = ground arith

-- A revision more of a finding that was live changes no issue's match.
same_match :
    (p : Proposal) (db db' : Db) (f : Finding)
    → db'.findings ≡ db.findings
    → ((id : ℕ) → id ≢ f.id → get_latest db' id ≡ get_latest db id)
    → is_live db' f.id ≡ true
    → match_of p db ≡ some f
    → match_of p db' ≡ some f
unfolding find_open_match
same_match p db db' f same others live e =
    ap (find (λ g. about p g && is_live db' g.id)) same ∙ find-congr _ _ db.findings agree ∙ e
  where
    was_live : is_live db f.id ≡ true
    was_live = ground (arith, find-true (λ g. about p g && is_live db g.id) db.findings f e)

    agree : (g : Finding) → (about p g && is_live db' g.id) ≡ (about p g && is_live db g.id)
    agree g = elim (ℕ_discrete g.id f.id) [
      | yes q ↦ rw q (rw (live, was_live))
      | no n ↦ rw (others g.id n, is_live)
    ]

same_id_refl : (o : Option ℕ) → same_id o o ≡ true
same_id_refl none = refl
same_id_refl (some n) = ground arith

same_key_refl : (o : Option String) → same_key o o ≡ true
same_key_refl none = refl
same_key_refl (some s) = eq_refl s

about-new_finding : (p : Proposal) → about p (new_finding p) ≡ true
unfolding new_finding
about-new_finding p =
    ground (
      arith,
      eq_refl p.dimension,
      same_id_refl p.requirement_version_id,
      same_key_refl p.subject_key,
    )

write_proposal-latest :
    (p : Proposal) (f : Finding) (n : ℕ) (db : Db)
    → ((l : FindingRevision) → get_latest db f.id ≡ some l → l.revision_number < n)
    → IsProposed (write_proposal p f n db).1 f.id
unfolding write_proposal get_latest
write_proposal-latest p f n db above = (
  proposed_revision p f n,
  elim (Option-cases (latest_of f.id db.revisions)) [
    | inl e ↦ latest_of-cons_first (proposed_revision p f n) db.revisions e
    | inr (l, e) ↦ latest_of-cons_self (proposed_revision p f n) db.revisions l e (above l e)
  ],
  refl,
)

pub propose_new :
    (p : Proposal) (db : Db)
    → match_of p db ≡ none
    → propose p db
      ≡ write_proposal p (new_finding p) 1 (record db { findings = new_finding p ∷ db.findings })
unfolding propose
propose_new p db e = rw (e, propose)

pub propose_existing :
    (p : Proposal) (db : Db) (g : Finding)
    → match_of p db ≡ some g
    → propose p db ≡ repropose p g (get_latest db g.id) db
unfolding propose
propose_existing p db g e = rw (e, propose)

-- What is to be shown of a proposal's result.
abbrev Found : Proposal → Finding → Option Finding × Db → Type 0
Found p f (r, db) = (match_of p db ≡ some f) × IsProposed db f.id

if_first :
    {A : Type 0} (test : A → Bool) (x : A) (xs : List A)
    → test x ≡ true
    → find test (x ∷ xs) ≡ some x
if_first test x xs h = rw h

write_proposal-Found :
    (p : Proposal) (db : Db) (f : Finding)
    → count p.new_id db.revisions ≡ 0
    → (write_proposal p (new_finding p) 1 (record db { findings = new_finding p ∷ db.findings })).0
      ≡ some f
    → Found p f
        (write_proposal p (new_finding p) 1 (record db { findings = new_finding p ∷ db.findings }))
unfolding write_proposal find_open_match new_finding get_latest
write_proposal-Found p db f fresh e =
    let q : new_finding p ≡ f = cc e in
    subst (λ g. Found p g written) q
      (
        if_first (λ g. about p g && is_live written.1 g.id) (new_finding p) db.findings holds,
        current,
      )
  where
    written : Option Finding × Db
    written =
        write_proposal p (new_finding p) 1 (record db { findings = new_finding p ∷ db.findings })

    current : IsProposed written.1 (new_finding p).id
    current =
        write_proposal-latest p (new_finding p) 1
          (record db { findings = new_finding p ∷ db.findings })
          (λ l h. absurd (cc (latest_of-none_of_count (new_finding p).id db.revisions fresh, h)))

    holds : (about p (new_finding p) && is_live written.1 (new_finding p).id) ≡ true
    holds = rw (about-new_finding p, IsProposed-is_live written.1 (new_finding p).id current)

match_is_live :
    (p : Proposal) (db : Db) (g : Finding) → match_of p db ≡ some g → is_live db g.id ≡ true
unfolding find_open_match
match_is_live p db g m =
    ground (arith, find-true (λ h. about p h && is_live db h.id) db.findings g m)

pub repropose_cases :
    (p : Proposal) (g : Finding) (latest : FindingRevision) (db : Db)
    → (repropose p g (some latest) db ≡ write_proposal p g (latest.revision_number + 1) db)
      ⊎ (repropose p g (some latest) db ≡ (none, db))
unfolding repropose
repropose_cases p g latest db = ground arith

pub write_proposal-some :
    (p : Proposal) (g : Finding) (n : ℕ) (db : Db) → (write_proposal p g n db).0 ≡ some g
unfolding write_proposal
write_proposal-some p g n db = refl

rewritten-Found :
    (p : Proposal) (db : Db) (g : Finding) (latest : FindingRevision)
    → match_of p db ≡ some g
    → get_latest db g.id ≡ some latest
    → Found p g (write_proposal p g (latest.revision_number + 1) db)
unfolding write_proposal get_latest
rewritten-Found p db g latest m l = (
  same_match p db written.1 g refl
      (λ id h.
        latest_of-cons_ne id (proposed_revision p g (latest.revision_number + 1)) db.revisions
          (λ q. h (sym q)))
      (IsProposed-is_live written.1 g.id current) m,
  current,
)
  where
    written : Option Finding × Db
    written = write_proposal p g (latest.revision_number + 1) db

    current : IsProposed written.1 g.id
    current =
        write_proposal-latest p g (latest.revision_number + 1) db
          (λ r h. let q : r ≡ latest = cc (h, l) in rw q (omega arith))

repropose-Found :
    (p : Proposal) (db : Db) (g f : Finding) (latest : Option FindingRevision)
    → match_of p db ≡ some g
    → get_latest db g.id ≡ latest
    → (repropose p g latest db).0 ≡ some f
    → Found p f (repropose p g latest db)
repropose-Found p db g f none m l e = absurd (cc (match_is_live p db g m, l))
repropose-Found p db g f (some latest) m l e = elim (repropose_cases p g latest db) [
  | inl q ↦
      let same : g ≡ f =
        cc (ap (λ r. r.0) q, e, write_proposal-some p g (latest.revision_number + 1) db) in
      subst (Found p f) (sym q) (
        subst (λ h. Found p h (write_proposal p g (latest.revision_number + 1) db)) same
          (rewritten-Found p db g latest m l))
  | inr q ↦ absurd (cc (ap (λ r. r.0) q, e))
]

-- After a proposal that wrote a revision, the issue matches the finding, whose current revision is
-- a proposal.
pub propose-match :
    (p : Proposal) (db : Db) (f : Finding)
    → count p.new_id db.revisions ≡ 0
    → (propose p db).0 ≡ some f
    → (match_of p (propose p db).1 ≡ some f) × IsProposed (propose p db).1 f.id
unfolding propose
propose-match p db f fresh e = elim (Option-cases (match_of p db)) [
  | inl absent ↦
      subst (Found p f) (sym (propose_new p db absent))
        (write_proposal-Found p db f fresh (ap (λ r. r.0) (sym (propose_new p db absent)) ∙ e))
  | inr (g, m) ↦
      let q = propose_existing p db g m in
      subst (Found p f) (sym q)
        (repropose-Found p db g f (get_latest db g.id) m refl (ap (λ r. r.0) (sym q) ∙ e))
]
