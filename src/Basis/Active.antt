-- ===== src/Basis/Active.antt =====
-- The active releases of one scope in app/modules/regulatory_basis_release/service.py.
use mathlib.Core.Path.{subst}
use regnova.Prelude.{
  ◌≡◌, refl, sym, ap, ◌∙◌, ℕ, ◌+◌, ◌≤◌, ◌<◌, String, Bool, true, false, Option, none, some, List,
  ◌∷◌, find, any, not, ◌&&◌, arith, if◌then◌else◌, Bool-cases, Option-cases, inl, inr, find-true,
  and_true,
}
use regnova.Prelude.Results.{require, OnOk, OnOk-bind}
use regnova.Prelude.Rows.{
  modify_first, count, one, count-modify_first, count-none, Falling, Falling-found, Falling-find,
  Falling-modify_first,
}
use regnova.Prelude.Text.{str_eq, eq_iff}
use regnova.Basis.Model.{
  RegulatoryBasisRelease, Db, release_not_found, already_active, duplicate_content, has_id,
  is_active_of,
}
use regnova.Basis.Service.{
  RegulatoryBasisReleaseCreate, Request, resolve_eligible_source_versions,
  resolve_eligible_requirement_versions, resolve_eligible_rule_versions, get_active,
  publish_activated, status_of, existing_if, may_activate, release_exists, id_of, set_superseded,
  supersede, new_release, store, create,
}

-- At most one release of a scope is active, and identifiers are given in order.
pub record IsSingle (db : Db) : Type 0 where
  pub falling : Falling (λ r. r.id) db.next_id db.releases
  pub single :
      (jurisdiction category : String) → count (is_active_of jurisdiction category) db.releases ≤ 1

-- The releases after the new one is stored.
abbrev pub released :
    Request
    → RegulatoryBasisRelease
    → Option RegulatoryBasisRelease
    → List RegulatoryBasisRelease
    → List RegulatoryBasisRelease
released q release none rs = release ∷ rs
released q release (some existing) rs =
    modify_first (has_id existing.id) (set_superseded release.id q.now) (release ∷ rs)

publish_activated-releases :
    (q : Request) (release : RegulatoryBasisRelease) (previous : Option ℕ) (db : Db)
    → ((publish_activated q release previous db).releases ≡ db.releases)
      × ((publish_activated q release previous db).next_id ≡ db.next_id)
unfolding publish_activated
publish_activated-releases q release previous db = elim (Option-cases db.tenant_zero) [
  | inl e ↦ (rw e, rw e)
  | inr (zero, e) ↦ (rw e, rw e)
]

pub published_if :
    (b : Bool) (q : Request) (release : RegulatoryBasisRelease) (previous : Option ℕ) (db : Db)
    → ((if b then publish_activated q release previous db else db).releases ≡ db.releases)
      × ((if b then publish_activated q release previous db else db).next_id ≡ db.next_id)
published_if true q release previous db = publish_activated-releases q release previous db
published_if false q release previous db = (refl, refl)

supersede-releases :
    (q : Request) (o : Option RegulatoryBasisRelease) (release : RegulatoryBasisRelease) (db : Db)
    → ((supersede q o release.id
          (record db { releases = release ∷ db.releases; next_id = db.next_id + 1 })).releases
        ≡ released q release o db.releases)
      × ((supersede q o release.id
            (record db { releases = release ∷ db.releases; next_id = db.next_id + 1 })).next_id
          ≡ db.next_id + 1)
supersede-releases q none release db = (refl, refl)
supersede-releases q (some c) release db = (refl, refl)

never_one : (b c : Bool) → one (b && c && false) ≡ 0
never_one b c = ground arith

superseded_one :
    (q : Request) (id : ℕ) (c : RegulatoryBasisRelease) (j k : String)
    → one (is_active_of j k (set_superseded id q.now c)) ≡ 0
superseded_one q id c j k = never_one (str_eq c.jurisdiction j) (str_eq c.category k)

scope_of :
    (r : RegulatoryBasisRelease) (j k : String)
    → is_active_of j k r ≡ true
    → (r.jurisdiction ≡ j) × (r.category ≡ k) × (str_eq r.status "ACTIVE" ≡ true)
scope_of r j k h =
    let outer = and_true (str_eq r.jurisdiction j && str_eq r.category k) _ h in
    let inner = and_true (str_eq r.jurisdiction j) (str_eq r.category k) outer.0 in
    ((eq_iff r.jurisdiction j).0 inner.0, (eq_iff r.category k).0 inner.1, outer.1)

-- What holds of the scope of an active release holds of the scope that it is active in.
in_its_scope :
    (P : String → String → Type 0) (r : RegulatoryBasisRelease) (j k : String)
    → is_active_of j k r ≡ true
    → P r.jurisdiction r.category
    → P j k
in_its_scope P r j k h p =
    let s = scope_of r j k h in subst (λ x. P x k) s.0 (subst (P r.jurisdiction) s.1 p)

count_cons :
    (b : Bool) (test : RegulatoryBasisRelease → Bool) (r : RegulatoryBasisRelease)
    (rs : List RegulatoryBasisRelease)
    → test r ≡ b
    → count test (r ∷ rs) ≡ count test rs + one b
count_cons b test r rs h = ground (arith, h)

-- The new release beside the active ones of any scope.
released-count :
    (q : Request) (release : RegulatoryBasisRelease) (n : ℕ) (rs : List RegulatoryBasisRelease)
    (j k : String) (c : RegulatoryBasisRelease)
    → Falling (λ r. r.id) n rs
    → release.id ≡ n
    → find (is_active_of release.jurisdiction release.category) rs ≡ some c
    → count (is_active_of j k) rs ≤ 1
    → count (is_active_of j k) (released q release (some c) rs) ≤ 1
released-count q release n rs j k c f i found h =
    let below =
      Falling-find (λ r. r.id) n (is_active_of release.jurisdiction release.category) rs c f
        found in
    let there =
      Falling-found (λ r. r.id) n (is_active_of release.jurisdiction release.category) rs c f
        found in
    let at : find (has_id c.id) (release ∷ rs) ≡ some c = ground (arith, i, below, there) in
    let changed =
      count-modify_first (is_active_of j k) (has_id c.id) (set_superseded release.id q.now)
        (release ∷ rs) c at in
    let gone = superseded_one q release.id c j k in
    elim (Bool-cases (is_active_of j k release)) [
      | inl e ↦
          let is_same =
            in_its_scope (λ x y. is_active_of x y c ≡ true) release j k e
              (find-true (is_active_of release.jurisdiction release.category) rs c found) in
          omega (
            arith,
            changed,
            gone,
            count_cons true (is_active_of j k) release rs e,
            ap one is_same,
            h,
          )
      | inr e ↦ omega (arith, changed, gone, count_cons false (is_active_of j k) release rs e, h)
    ]

released_alone :
    (release : RegulatoryBasisRelease) (rs : List RegulatoryBasisRelease) (j k : String)
    → (str_eq release.status "ACTIVE" ≡ true
        → find (is_active_of release.jurisdiction release.category) rs ≡ none)
    → count (is_active_of j k) rs ≤ 1
    → count (is_active_of j k) (release ∷ rs) ≤ 1
released_alone release rs j k h l = elim (Bool-cases (is_active_of j k release)) [
  | inl e ↦
      let empty =
        in_its_scope (λ x y. find (is_active_of x y) rs ≡ none) release j k e
          (h (scope_of release j k e).2) in
      omega (
        arith,
        count_cons true (is_active_of j k) release rs e,
        count-none (is_active_of j k) rs empty,
      )
  | inr e ↦ omega (arith, count_cons false (is_active_of j k) release rs e, l)
]

existing_found :
    (b : Bool) (o : Option RegulatoryBasisRelease) (c : RegulatoryBasisRelease)
    → existing_if b o ≡ some c
    → o ≡ some c
existing_found true o c e = e
existing_found false o c e = cc

released-IsSingle :
    (q : Request) (release : RegulatoryBasisRelease) (o : Option RegulatoryBasisRelease) (db : Db)
    → IsSingle db
    → release.id ≡ db.next_id
    → existing_if
        (str_eq release.status "ACTIVE")
        (find (is_active_of release.jurisdiction release.category) db.releases)
      ≡ o
    → (Falling (λ r. r.id) (db.next_id + 1) (released q release o db.releases))
      × ((j k : String) → count (is_active_of j k) (released q release o db.releases) ≤ 1)
released-IsSingle q release none db h i e =
    let below : release.id < db.next_id + 1 = omega (arith, i) in
    (
      (below, subst (λ n. Falling (λ r. r.id) n db.releases) (sym i) h.falling),
      λ j k.
          released_alone release db.releases j k
            (λ a.
              ap
                (λ b.
                  existing_if b
                    (find (is_active_of release.jurisdiction release.category) db.releases))
                (sym a)
              ∙ e)
            (h.single j k),
    )
released-IsSingle q release (some c) db h i e =
    let below : release.id < db.next_id + 1 = omega (arith, i) in
    let found = existing_found (str_eq release.status "ACTIVE") _ c e in
    (
      Falling-modify_first (λ r. r.id) (db.next_id + 1) (has_id c.id)
          (set_superseded release.id q.now) (release ∷ db.releases) (λ r. refl)
          (below, subst (λ n. Falling (λ r. r.id) n db.releases) (sym i) h.falling),
      λ j k. released-count q release db.next_id db.releases j k c h.falling i found (h.single j k),
    )

module _ (content_hash : List ℕ → List ℕ → List ℕ → Option String → String) where
  store-IsSingle :
      (q : Request) (release : RegulatoryBasisRelease) (o : Option RegulatoryBasisRelease) (db : Db)
      → IsSingle db
      → release.id ≡ db.next_id
      → existing_if
          (str_eq release.status "ACTIVE")
          (find (is_active_of release.jurisdiction release.category) db.releases)
        ≡ o
      → IsSingle (store content_hash q release o db)
  store-IsSingle q release o db h i e =
      let rows = supersede-releases q o release db in
      let published = published_if (str_eq release.status "ACTIVE") q release (id_of o) _ in
      let done = released-IsSingle q release o db h i e in
      record {
        falling =
            subst
              (λ n.
                Falling (λ (r : RegulatoryBasisRelease). r.id) n
                  (store content_hash q release o db).releases)
              (sym (published.1 ∙ rows.1))
              (subst (Falling (λ r. r.id) (db.next_id + 1)) (sym (published.0 ∙ rows.0)) done.0);
        single = λ j k.
            subst (λ rs. count (is_active_of j k) rs ≤ 1) (sym (published.0 ∙ rows.0)) (done.1 j k);
      }

  -- A release that is made keeps at most one release of each scope active.
  pub create-IsSingle :
      (q : Request) (payload : RegulatoryBasisReleaseCreate) (db : Db)
      → IsSingle db
      → OnOk (λ r. IsSingle r.1) (create content_hash q payload db)
  unfolding create get_active
  create-IsSingle q payload db h =
      let P : RegulatoryBasisRelease × Db → Type 0 = λ r. IsSingle r.1 in
      let existing =
        existing_if (str_eq (status_of payload.status) "ACTIVE")
          (get_active payload.jurisdiction payload.category db) in
      OnOk-bind P (resolve_eligible_source_versions payload.source_version_ids db) _ (λ s a.
        OnOk-bind P
          (resolve_eligible_requirement_versions payload.requirement_version_ids
            payload.jurisdiction payload.category db)
          _
          (λ t b.
            OnOk-bind P
              (resolve_eligible_rule_versions payload.rule_version_ids payload.jurisdiction
                payload.category db)
              _
              (λ u c.
                OnOk-bind P (require (release_exists payload.supersedes_id db) release_not_found) _
                  (λ d e.
                    OnOk-bind P
                      (require (may_activate payload.supersedes_id existing) already_active) _
                      (λ f g.
                        let release = new_release content_hash payload s t u db in
                        OnOk-bind P
                          (require
                            (not
                              (any (λ r. str_eq r.content_hash release.content_hash) db.releases))
                            duplicate_content)
                          _ (λ i j. store-IsSingle q release existing db h refl refl))))))
