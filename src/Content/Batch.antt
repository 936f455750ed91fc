-- ===== src/Content/Batch.antt =====
-- What `bulk_verify` and `bulk_activate` of app/modules/content_review/service.py do to each
-- version, whatever the order of the items.
use regnova.Prelude.{
  ◌≡◌, refl, ap, ◌∙◌, ℕ, String, Bool, Option, some, List, [], ◌∷◌, any, ◌&&◌, ◌||◌, arith,
  if◌then◌else◌,
}
use regnova.Content.Model.{ContentType, VersionStatus, Db}
use regnova.Content.Workflow.{Request}
use regnova.Content.Bulk.{Item, Action, verify_, activate_, apply_one, settled, apply}
use regnova.Content.Status.{status_of, names, starts, target, may_act}
use regnova.Content.One.{one_status, one_directory}

may_act-directory :
    (action : Action) (q : Request) (rationale : String) (db db' : Db)
    → db'.directory ≡ db.directory
    → may_act action q rationale db' ≡ may_act action q rationale db
may_act-directory verify_ q rationale db db' h =
    ap (λ d. may_act verify_ q rationale (record db { directory = d })) h
may_act-directory activate_ q rationale db db' h =
    ap (λ d. may_act activate_ q rationale (record db { directory = d })) h

-- One item and then the others, as to one version.
join_steps :
    (action : Action) (n m a : Bool) (s s' s'' : Option VersionStatus)
    → s' ≡ (if n && a && starts action s then some (target action) else s)
    → s'' ≡ (if m && a && starts action s' then some (target action) else s')
    → s'' ≡ (if (n || m) && a && starts action s then some (target action) else s)
join_steps verify_ n m a s s' s'' h k = ground (arith, h, k)
join_steps activate_ n m a s s' s'' h k = ground (arith, h, k)

-- A bulk request moves a version exactly if some item names it, the version has the status that the
-- action starts from, and the actor is known and has the role; every other version keeps its
-- status. So neither the order of the items nor the failure of some matters to the others.
pub apply-status :
    (action : Action) (q : Request) (rationale : String) (items : List Item) (db : Db)
    (t : ContentType) (i : ℕ)
    → status_of t i (apply action q rationale items db).0 ≡ (
        if any (names t i) items
          && may_act action q rationale db
          && starts action (status_of t i db)
        then some (target action)
        else status_of t i db)
unfolding apply
apply-status action q rationale [] db t i = refl
apply-status action q rationale (item ∷ items) db t i =
    let next = (settled db (apply_one action q rationale item db)).0 in
    let rest = apply-status action q rationale items next t i in
    join_steps action (names t i item) (any (names t i) items) (may_act action q rationale db)
      (status_of t i db) (status_of t i next) _ (one_status action q rationale item db t i)
      (rest
        ∙ ap
            (λ b.
              if any (names t i) items && b && starts action (status_of t i next)
              then some (target action)
              else status_of t i next)
            (may_act-directory action q rationale db next
              (one_directory action q rationale item db)))
