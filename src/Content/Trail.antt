-- ===== src/Content/Trail.antt =====
-- The history that app/modules/content_review/service.py keeps of every version, over any sequence
-- of transitions and bulk requests.
use mathlib.Core.Path.{subst}
use regnova.Prelude.{
  ◌≡◌, refl, sym, ap, ◌∙◌, ℕ, String, Bool, true, false, Option, none, some, List, [], ◌∷◌, filter,
  find, find-true, and_true, ◌&&◌, ◌==◌, ==_iff, arith, if◌then◌else◌, Bool-cases, Option-cases,
  inl, inr,
}
use regnova.Prelude.Rows.{modify_first, find-modify_first, find-modify_first_at}
use regnova.Content.Model.{
  ContentType, VersionStatus, draft, in_review, verified, active, Version, ContentVersionTransition,
  Db, same_type, is_version, is_about,
}
use regnova.Content.Workflow.{publish_event, record_transition, write}

-- The steps of the workflow.
abbrev pub edge : VersionStatus → VersionStatus → Bool
edge draft in_review = true
edge in_review verified = true
edge in_review draft = true
edge verified active = true
edge _ _ = false

-- A history, newest first, that leads from the creation as a draft to a status.
abbrev pub Trail : VersionStatus → List ContentVersionTransition → Type 0
Trail status [] = ⊥
Trail status (t ∷ []) = (t.from_status ≡ none) × (t.to_status ≡ draft) × (status ≡ draft)
Trail status (t ∷ u ∷ rest) =
    (t.to_status ≡ status)
    × (t.from_status ≡ some u.to_status)
    × (edge u.to_status status ≡ true)
    × Trail u.to_status (u ∷ rest)

abbrev pub log : ContentType → ℕ → Db → List ContentVersionTransition
log content_type id db = filter (is_about content_type id) db.transitions

abbrev pub ValidOf : Option Version → List ContentVersionTransition → Type 0
ValidOf none ts = ts ≡ []
ValidOf (some v) ts = Trail v.status ts

-- The status of a version is where its history leads; a version that is not there has none.
abbrev pub Valid : ContentType → ℕ → Db → Type 0
Valid content_type id db =
    ValidOf (find (is_version content_type id) db.versions) (log content_type id db)

Trail-head :
    (status : VersionStatus) (t : ContentVersionTransition) (ts : List ContentVersionTransition)
    → Trail status (t ∷ ts)
    → t.to_status ≡ status
Trail-head status t [] h = h.1 ∙ sym h.2
Trail-head status t (u ∷ ts) h = h.0

Trail-cons :
    (status : VersionStatus) (t : ContentVersionTransition) (ts : List ContentVersionTransition)
    → Trail status ts
    → t.from_status ≡ some status
    → edge status t.to_status ≡ true
    → Trail t.to_status (t ∷ ts)
Trail-cons status t [] h e k = absurd h
Trail-cons status t (u ∷ ts) h e k =
    let same = Trail-head status u ts h in
    (
      refl,
      e ∙ ap some (sym same),
      subst (λ s. edge s t.to_status ≡ true) (sym same) k,
      subst (λ s. Trail s (u ∷ ts)) (sym same) h,
    )

pub same_type_eq : (a b : ContentType) → same_type a b ≡ true → a ≡ b
same_type_eq a b h = ground (arith, h)

-- The entry that a transition adds to the history.
abbrev entry :
    Version → Option VersionStatus → VersionStatus → ℕ → Option String → ContentVersionTransition
entry v from_status to_status actor rationale = record {
  content_type = v.content_type;
  content_version_id = v.id;
  from_status = from_status;
  to_status = to_status;
  actor_user_id = some actor;
  rationale = rationale;
}

module _ (v : Version) (change : Version → Version) (actor : ℕ) (rationale : Option String)
    (db : Db) (found : find (is_version v.content_type v.id) db.versions ≡ some v) where
  pub write-versions :
      (write v change actor rationale db).versions
      ≡ modify_first (is_version v.content_type v.id) change db.versions
  unfolding publish_event record_transition
  write-versions = elim (Option-cases db.tenant_zero) [ inl e ↦ rw e | inr (zero, e) ↦ rw e ]

  write-transitions :
      (write v change actor rationale db).transitions
      ≡ entry v (some v.status) (change v).status actor rationale ∷ db.transitions
  unfolding publish_event record_transition
  write-transitions = elim (Option-cases db.tenant_zero) [ inl e ↦ rw e | inr (zero, e) ↦ rw e ]

  -- A transition of a found version along an edge of the workflow.
  write-Valid-same :
      is_version v.content_type v.id (change v) ≡ true
      → edge v.status (change v).status ≡ true
      → Valid v.content_type v.id db
      → Valid v.content_type v.id (write v change actor rationale db)
  write-Valid-same k d h =
      let at = is_version v.content_type v.id in
      let new = entry v (some v.status) (change v).status actor rationale in
      let old = log v.content_type v.id db in
      let row : find at (write v change actor rationale db).versions ≡ some (change v) =
        ap (find at) write-versions ∙ find-modify_first_at at change db.versions v found k in
      let history : log v.content_type v.id (write v change actor rationale db) ≡ new ∷ old =
        ap (filter (is_about v.content_type v.id)) write-transitions
        ∙ ap (λ b. if b then new ∷ old else old) (find-true at db.versions v found) in
      subst (λ o. ValidOf o (log v.content_type v.id (write v change actor rationale db))) (sym row)
        (subst (ValidOf (some (change v))) (sym history)
          (Trail-cons v.status new old (subst (λ o. ValidOf o old) found h) refl d))

  write-Valid-other :
      (t : ContentType) (i : ℕ)
      → is_version t i v ≡ false
      → is_version t i (change v) ≡ false
      → Valid t i db
      → Valid t i (write v change actor rationale db)
  write-Valid-other t i k d h =
      let at = is_version v.content_type v.id in
      let new = entry v (some v.status) (change v).status actor rationale in
      let old = log t i db in
      let row : find (is_version t i) (write v change actor rationale db).versions
          ≡ find (is_version t i) db.versions =
        ap (find (is_version t i)) write-versions
        ∙ find-modify_first (is_version t i) at change db.versions v found k d in
      let history : log t i (write v change actor rationale db) ≡ old =
        ap (filter (is_about t i)) write-transitions ∙ ap (λ b. if b then new ∷ old else old) k in
      subst (λ o. ValidOf o (log t i (write v change actor rationale db))) (sym row)
        (subst (ValidOf (find (is_version t i) db.versions)) (sym history) h)

  pub write-Valid :
      (t : ContentType) (i : ℕ)
      → (change v).id ≡ v.id
      → (change v).content_type ≡ v.content_type
      → edge v.status (change v).status ≡ true
      → Valid t i db
      → Valid t i (write v change actor rationale db)
  write-Valid t i p q d h = elim (Bool-cases (is_version t i v)) [
    | inl k ↦
        let both = and_true (v.id == i) (same_type v.content_type t) k in
        let same_id = (==_iff v.id i).0 both.0 in
        let same = same_type_eq v.content_type t both.1 in
        let next = write v change actor rationale db in
        let kept : is_version v.content_type v.id (change v) ≡ true =
          ap (λ x. (x == v.id) && same_type (change v).content_type v.content_type) p
          ∙ ap (λ x. (v.id == v.id) && same_type x v.content_type) q
          ∙ find-true (is_version v.content_type v.id) db.versions v found in
        subst (λ x. Valid x i next) same
          (subst (λ x. Valid v.content_type x next) same_id
            (write-Valid-same kept d (
              subst (λ x. Valid x v.id db) (sym same) (subst (λ x. Valid t x db) (sym same_id) h))))
    | inr k ↦
        write-Valid-other t i k
          (ap (λ x. (x == i) && same_type (change v).content_type t) p
            ∙ ap (λ x. (v.id == i) && same_type x t) q
            ∙ k)
          h
  ]
