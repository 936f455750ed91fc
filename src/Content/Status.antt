-- ===== src/Content/Status.antt =====
-- The statuses of versions before and after one item of a bulk request in
-- app/modules/content_review/service.py.
use regnova.Prelude.{
  ◌≡◌, refl, ap, ◌∙◌, ℕ, String, Bool, true, false, Option, none, some, find, find-true, ◌&&◌, ◌==◌,
  arith, if◌then◌else◌, Option-cases, inl, inr, is_some,
}
use regnova.Prelude.Rows.{find-modify_first, find-modify_first_at}
use regnova.Access.{get_user}
use regnova.Content.Model.{
  ContentType, VersionStatus, in_review, verified, active, Version, Db, is_version, same_type,
}
use regnova.Content.Workflow.{Request, write, publish_event, record_transition}
use regnova.Content.Bulk.{Item, Action, verify_, activate_, content_type_of}
use regnova.Content.Trail.{write-versions}
use regnova.Content.Perform.{decide_, has_authority, change_of, source_of}

abbrev pub status_in : Option Version → Option VersionStatus
status_in none = none
status_in (some v) = some v.status

abbrev pub status_of : ContentType → ℕ → Db → Option VersionStatus
status_of t i db = status_in (find (is_version t i) db.versions)

-- Whether an item names a version.
abbrev pub names_as : ContentType → ℕ → Item → Option ContentType → Bool
names_as t i item none = false
names_as t i item (some u) = (item.content_id == i) && same_type u t

abbrev pub names : ContentType → ℕ → Item → Bool
names t i item = names_as t i item (content_type_of item.content_type)

pub true_and : (b c : Bool) → b ≡ true → c ≡ true → (b && c) ≡ true
true_and b c h k = ground (arith, h, k)

-- The status that an action starts from, and the one that it leads to.
abbrev pub starts : Action → Option VersionStatus → Bool
starts verify_ (some in_review) = true
starts activate_ (some verified) = true
starts _ _ = false

abbrev pub target : Action → VersionStatus
target verify_ = verified
target activate_ = active

abbrev pub may_act : Action → Request → String → Db → Bool
may_act action q rationale db =
    is_some (get_user db.directory q.actor_user_id) && has_authority (decide_ action rationale) q db

pub write-directory :
    (v : Version) (change : Version → Version) (actor : ℕ) (rationale : Option String) (db : Db)
    → (write v change actor rationale db).directory ≡ db.directory
unfolding publish_event record_transition
write-directory v change actor rationale db = elim (Option-cases db.tenant_zero) [
  | inl e ↦ rw e
  | inr (zero, e) ↦ rw e
]

pub starts_source :
    (action : Action) (rationale : String) (s : VersionStatus)
    → starts action (some s) ≡ true
    → s ≡ source_of (decide_ action rationale)
starts_source verify_ rationale s h = ground (arith, h)
starts_source activate_ rationale s h = ground (arith, h)

pub source_starts :
    (action : Action) (rationale : String) (s : VersionStatus)
    → s ≡ source_of (decide_ action rationale)
    → starts action (some s) ≡ true
source_starts verify_ rationale s h = ground (arith, h)
source_starts activate_ rationale s h = ground (arith, h)

pub change_of-target :
    (action : Action) (q : Request) (rationale : String) (v : Version)
    → (change_of (decide_ action rationale) q v).status ≡ target action
change_of-target verify_ q rationale v = refl
change_of-target activate_ q rationale v = refl

pub hit :
    {A : Type 0} (b c d : Bool) (x y : A)
    → b ≡ true
    → c ≡ true
    → d ≡ true
    → (if b && c && d then x else y) ≡ x
hit b c d x y h k l = ground (arith, h, k, l)

pub miss : {A : Type 0} (b c d : Bool) (x y : A) → b ≡ false → (if b && c && d then x else y) ≡ y
miss b c d x y h = ground (arith, h)

pub three_true : (b c d : Bool) → (b && c && d) ≡ true → (b ≡ true) × (c ≡ true) × (d ≡ true)
three_true b c d h = ground (arith, h)

pub absurd_bool : false ≡ true → ⊥
absurd_bool h = cc

pub starts-none : (action : Action) → false ≡ starts action none
starts-none verify_ = refl
starts-none activate_ = refl

-- The status of the version that was written, and of the others.
pub write_status :
    (v : Version) (change : Version → Version) (actor : ℕ) (rationale : Option String) (db : Db)
    → find (is_version v.content_type v.id) db.versions ≡ some v
    → (change v).id ≡ v.id
    → (change v).content_type ≡ v.content_type
    → (status_of v.content_type v.id (write v change actor rationale db) ≡ some (change v).status)
      × ((t : ContentType) (i : ℕ)
          → is_version t i v ≡ false
          → status_of t i (write v change actor rationale db) ≡ status_of t i db)
write_status v change actor rationale db found p k =
    let at = is_version v.content_type v.id in
    let rows = write-versions v change actor rationale db found in
    let same : (t : ContentType) (i : ℕ) → is_version t i (change v) ≡ is_version t i v = λ t i.
      ap (λ x. (x == i) && same_type (change v).content_type t) p
      ∙ ap (λ x. (v.id == i) && same_type x t) k in
    (
      ap status_in (
          ap (find at) rows
          ∙ find-modify_first_at at change db.versions v found
              (same v.content_type v.id ∙ find-true at db.versions v found)),
      λ t i h. ap status_in (
          ap (find (is_version t i)) rows
          ∙ find-modify_first (is_version t i) at change db.versions v found h (same t i ∙ h)),
    )
