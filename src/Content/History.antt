-- ===== src/Content/History.antt =====
-- Any sequence of the transitions and bulk requests of app/modules/content_review/service.py.
use mathlib.Core.Path.{subst}
use regnova.Prelude.{
  ◌≡◌, refl, sym, ap, ◌∙◌, ℕ, String, Bool, true, false, Option, none, some, List, [], ◌∷◌, find,
  find-true, and_true, ==_iff, ◌&&◌, ◌==◌, arith, if◌then◌else◌, Option-cases, inl, inr,
}
use regnova.Prelude.Results.{Result, ok, raise, ◌>>=◌, or_raise, OnOk, OnOk-bind, or_raise-ok}
use regnova.Content.Model.{
  ContentType, draft, Version, ContentVersionTransition, Db, Error, unknown_content_type,
  is_version, same_type,
}
use regnova.Content.Workflow.{Request, record_transition, create_draft}
use regnova.Content.Bulk.{
  Item, Action, verify_, activate_, content_type_of, resolve, act, apply_one, settled, apply,
}
use regnova.Content.Trail.{edge, Trail, log, ValidOf, Valid, same_type_eq, write-Valid}
use regnova.Content.Perform.{
  Operation, submit_, decide_, reject_, perform, change_of, rationale_of, source_of,
  perform-Done_iff,
}

-- The tables that transitions of found versions, new drafts and bulk requests lead to.
pub data Reach : Db → Db → Type 0 where
  here : (db : Db) → Reach db db
  drafted :
      {start db : Db} (q : Request) (content_type : ContentType) (id : ℕ)
      → find (is_version content_type id) db.versions ≡ none
      → Reach start db
      → Reach start (create_draft q content_type id db)
  moved :
      {start db db' : Db} (op : Operation) (q : Request) (content_type : ContentType) (id : ℕ)
      (v : Version)
      → find (is_version content_type id) db.versions ≡ some v
      → perform op q v db ≡ ok db'
      → Reach start db
      → Reach start db'
  bulk :
      {start db : Db} (action : Action) (q : Request) (rationale : String) (items : List Item)
      → Reach start db
      → Reach start (apply action q rationale items db).0

change_of-edge :
    (op : Operation) (q : Request) (v : Version)
    → v.status ≡ source_of op
    → edge v.status (change_of op q v).status ≡ true
change_of-edge submit_ q v h = ground (arith, h)
change_of-edge (decide_ verify_ r) q v h = ground (arith, h)
change_of-edge (decide_ activate_ r) q v h = ground (arith, h)
change_of-edge (reject_ r) q v h = ground (arith, h)

pub change_of_key :
    (op : Operation) (q : Request) (v : Version)
    → ((change_of op q v).id ≡ v.id) × ((change_of op q v).content_type ≡ v.content_type)
change_of_key submit_ q v = (refl, refl)
change_of_key (decide_ verify_ r) q v = (refl, refl)
change_of_key (decide_ activate_ r) q v = (refl, refl)
change_of_key (reject_ r) q v = (refl, refl)

-- The row that was found is the first with its own key.
pub found_itself :
    (t : ContentType) (i : ℕ) (v : Version) (versions : List Version)
    → find (is_version t i) versions ≡ some v
    → find (is_version v.content_type v.id) versions ≡ some v
found_itself t i v versions e =
    let both =
      and_true (v.id == i) (same_type v.content_type t) (find-true (is_version t i) versions v e) in
    subst (λ x. find (is_version x v.id) versions ≡ some v)
      (sym (same_type_eq v.content_type t both.1))
      (subst (λ x. find (is_version t x) versions ≡ some v) (sym ((==_iff v.id i).0 both.0)) e)

perform-Valid :
    (op : Operation) (q : Request) (t : ContentType) (i : ℕ) (v : Version) (db db' : Db)
    (content_type : ContentType) (id : ℕ)
    → find (is_version t i) db.versions ≡ some v
    → perform op q v db ≡ ok db'
    → Valid content_type id db
    → Valid content_type id db'
perform-Valid op q t i v db db' content_type id e k h =
    let d = (perform-Done_iff op q v db db').0 k in
    let key = change_of_key op q v in
    subst (Valid content_type id) (sym d.3) (
      write-Valid v (change_of op q) q.actor_user_id (rationale_of op) db
        (found_itself t i v db.versions e) content_type id key.0 key.1 (change_of-edge op q v d.0)
        h)

pub resolve-ok :
    (item : Item) (db : Db) (v : Version)
    → resolve item db ≡ ok v
    → (t : ContentType) × (content_type_of item.content_type ≡ some t)
      × (find (is_version t item.content_id) db.versions ≡ some v)
unfolding resolve
resolve-ok item db v e = elim (Option-cases (content_type_of item.content_type)) [
  | inl k ↦ ground (arith, e, k)
  | inr (t, k) ↦ (
    t,
    k,
    or_raise-ok _ unknown_content_type v (
        ap
          (λ o. or_raise o unknown_content_type >>= λ u.
            or_raise (find (is_version u item.content_id) db.versions) unknown_content_type)
          (sym k)
        ∙ e),
  )
]

pub resolve_known :
    (item : Item) (db : Db) (u : ContentType) (v : Version)
    → content_type_of item.content_type ≡ some u
    → find (is_version u item.content_id) db.versions ≡ some v
    → resolve item db ≡ ok v
unfolding resolve
resolve_known item db u v known found =
    ap
      (λ o. or_raise o unknown_content_type >>= λ t.
        or_raise (find (is_version t item.content_id) db.versions) unknown_content_type)
      known
    ∙ ap (λ o. or_raise o unknown_content_type) found

OnOk-intro :
    {A : Type 0} (P : A → Type 0) (m : Result Error A) → ((a : A) → m ≡ ok a → P a) → OnOk P m
OnOk-intro P (ok a) h = h a refl
OnOk-intro P (raise e) h = tt

apply_one-Valid :
    (action : Action) (q : Request) (rationale : String) (item : Item) (db : Db)
    (content_type : ContentType) (id : ℕ)
    → Valid content_type id db
    → OnOk (Valid content_type id) (apply_one action q rationale item db)
unfolding apply_one perform
apply_one-Valid action q rationale item db content_type id h =
    OnOk-bind (Valid content_type id) (resolve item db) _ (λ v e.
      let (t, known, found) = resolve-ok item db v e in
      OnOk-intro (Valid content_type id) (act action q rationale v db) (λ db' k.
        perform-Valid (decide_ action rationale) q t item.content_id v db db' content_type id found
          k h))

settled_keeps :
    (P : Db → Type 0) (db : Db) (m : Result Error Db) → P db → OnOk P m → P (settled db m).0
settled_keeps P db (ok db') h k = k
settled_keeps P db (raise e) h k = h

apply-Valid :
    (action : Action) (q : Request) (rationale : String) (items : List Item) (db : Db)
    (content_type : ContentType) (id : ℕ)
    → Valid content_type id db
    → Valid content_type id (apply action q rationale items db).0
unfolding apply
apply-Valid action q rationale [] db content_type id h = h
apply-Valid action q rationale (item ∷ items) db content_type id h =
    apply-Valid action q rationale items (settled db (apply_one action q rationale item db)).0
      content_type id
      (settled_keeps (Valid content_type id) db (apply_one action q rationale item db) h
        (apply_one-Valid action q rationale item db content_type id h))

fresh-ValidOf :
    (b : Bool) (v : Version) (t : ContentVersionTransition) (o : Option Version)
    (ts : List ContentVersionTransition)
    → v.status ≡ draft
    → t.from_status ≡ none
    → t.to_status ≡ draft
    → (b ≡ true → ts ≡ [])
    → ValidOf o ts
    → ValidOf (if b then some v else o) (if b then t ∷ ts else ts)
fresh-ValidOf true v t o ts e k d h g = subst (λ x. Trail v.status (t ∷ x)) (sym (h refl)) (k, d, e)
fresh-ValidOf false v t o ts e k d h g = g

create_draft-Valid :
    (q : Request) (t : ContentType) (i : ℕ) (db : Db) (content_type : ContentType) (id : ℕ)
    → find (is_version t i) db.versions ≡ none
    → ((t : ContentType) (i : ℕ) → Valid t i db)
    → Valid content_type id (create_draft q t i db)
unfolding create_draft record_transition
create_draft-Valid q t i db content_type id e h =
    fresh-ValidOf ((i == id) && same_type t content_type) _ _
      (find (is_version content_type id) db.versions) (log content_type id db) refl refl refl
      (λ k.
        let both = and_true (i == id) (same_type t content_type) k in
        subst (λ x. log x id db ≡ []) (same_type_eq t content_type both.1)
          (subst (λ x. log t x db ≡ []) ((==_iff i id).0 both.0)
            (subst (λ o. ValidOf o (log t i db)) e (h t i))))
      (h content_type id)

-- Over any sequence of drafts, transitions and bulk requests, the history of every version leads,
-- along the edges of the workflow, from its creation as a draft to the status that it has; and a
-- version that does not exist has no history. It is so if it was so at the start.
pub Reach-Valid :
    {start db : Db}
    → Reach start db
    → ((t : ContentType) (i : ℕ) → Valid t i start)
    → (content_type : ContentType) (id : ℕ) → Valid content_type id db
Reach-Valid (here db) h content_type id = h content_type id
Reach-Valid (drafted {start} {db} q t i e r) h content_type id =
    create_draft-Valid q t i db content_type id e (Reach-Valid r h)
Reach-Valid (moved {start} {db} {db'} op q t i v e k r) h content_type id =
    perform-Valid op q t i v db db' content_type id e k (Reach-Valid r h content_type id)
Reach-Valid (bulk {start} {db} action q rationale items r) h content_type id =
    apply-Valid action q rationale items db content_type id (Reach-Valid r h content_type id)
