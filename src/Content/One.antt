-- ===== src/Content/One.antt =====
-- One item of a bulk request in app/modules/content_review/service.py.
use mathlib.Core.Path.{subst}
use regnova.Prelude.{
  ◌≡◌, refl, sym, ap, ◌∙◌, ℕ, String, true, some, find, find-true, and_true, ==_iff, ◌&&◌, ◌==◌,
  if◌then◌else◌, Bool-cases, Option-cases, inl, inr, is_some,
}
use regnova.Prelude.Results.{ok, raise, ◌>>=◌, raise_not_ok, Result-cases, bind-ok}
use regnova.Access.{get_user}
use regnova.Content.Model.{ContentType, Version, Db, Error, is_version, same_type}
use regnova.Content.Workflow.{Request, write}
use regnova.Content.Bulk.{Item, Action, content_type_of, resolve, act, apply_one, settled}
use regnova.Content.Trail.{same_type_eq}
use regnova.Content.Perform.{decide_, perform, has_authority, change_of, Done, perform-Done_iff}
use regnova.Content.History.{change_of_key, found_itself, resolve-ok, resolve_known}
use regnova.Content.Status.{
  status_in, status_of, names_as, names, starts, target, may_act, true_and, write-directory,
  starts_source, source_starts, change_of-target, hit, miss, three_true, absurd_bool, starts-none,
  write_status,
}

module _ (action : Action) (q : Request) (rationale : String) (item : Item) (db : Db) where
  -- What an item that goes through has done.
  abbrev Applied : Db → Type 0
  Applied db' =
      (u : ContentType) × (v : Version) × (content_type_of item.content_type ≡ some u)
      × (find (is_version u item.content_id) db.versions ≡ some v)
      × Done (decide_ action rationale) q v db db'

  apply_one-Applied : (db' : Db) → apply_one action q rationale item db ≡ ok db' → Applied db'
  unfolding apply_one perform
  apply_one-Applied db' e = elim (Result-cases (resolve item db)) [
    | inl (v, k) ↦
        let (u, known, found) = resolve-ok item db v k in
        (
          u,
          v,
          known,
          found,
          (perform-Done_iff (decide_ action rationale) q v db db').0
              (ap (λ m. m >>= λ w. act action q rationale w db) (sym k) ∙ e),
        )
    | inr (error, k) ↦
        absurd
          (raise_not_ok error db' (ap (λ m. m >>= λ w. act action q rationale w db) (sym k) ∙ e))
  ]

  goes_through :
      (u : ContentType) (v : Version)
      → content_type_of item.content_type ≡ some u
      → find (is_version u item.content_id) db.versions ≡ some v
      → starts action (some v.status) ≡ true
      → may_act action q rationale db ≡ true
      → apply_one action q rationale item db
        ≡ ok (write v (change_of (decide_ action rationale) q) q.actor_user_id (some rationale) db)
  unfolding apply_one perform
  goes_through u v known found s m =
      let who =
        and_true (is_some (get_user db.directory q.actor_user_id))
          (has_authority (decide_ action rationale) q db) m in
      bind-ok (resolve item db) v (λ w. act action q rationale w db)
        (resolve_known item db u v known found)
      ∙ (perform-Done_iff (decide_ action rationale) q v db _).1
          (starts_source action rationale v.status s, who.0, who.1, refl)

  Applied-status :
      (t : ContentType) (i : ℕ) (db' : Db)
      → Applied db'
      → status_of t i db' ≡ (
          if names t i item && may_act action q rationale db && starts action (status_of t i db)
          then some (target action)
          else status_of t i db)
  Applied-status t i db' (u, v, known, found, d) =
      let named : names t i item ≡ ((item.content_id == i) && same_type u t) =
        ap (names_as t i item) known in
      let allowed = true_and _ _ d.1 d.2 in
      let key =
        and_true (v.id == item.content_id) (same_type v.content_type u)
          (find-true (is_version u item.content_id) db.versions v found) in
      let same_id = (==_iff v.id item.content_id).0 key.0 in
      let same = same_type_eq v.content_type u key.1 in
      let moved = change_of_key (decide_ action rationale) q v in
      let written =
        write_status v (change_of (decide_ action rationale) q) q.actor_user_id (some rationale) db
          (found_itself u item.content_id v db.versions found) moved.0 moved.1 in
      let named_itself : is_version t i v ≡ names t i item =
        ap (λ x. (x == i) && same_type v.content_type t) same_id
        ∙ ap (λ x. (item.content_id == i) && same_type x t) same
        ∙ sym named in
      elim (Bool-cases (is_version t i v)) [
        | inl k ↦
            let mine = and_true (v.id == i) (same_type v.content_type t) k in
            let moves : ContentType → ℕ → Type 0 = λ t i.
              (status_of t i db' ≡ some (target action))
              × (starts action (status_of t i db) ≡ true) in
            let here : moves v.content_type v.id = (
              ap (status_of v.content_type v.id) d.3
                  ∙ written.0
                  ∙ ap some (change_of-target action q rationale v),
              ap (λ o. starts action (status_in o))
                    (found_itself u item.content_id v db.versions found)
                  ∙ source_starts action rationale v.status d.0,
            ) in
            let there : moves t i =
              subst (λ x. moves x i) (same_type_eq v.content_type t mine.1)
                (subst (moves v.content_type) ((==_iff v.id i).0 mine.0) here) in
            there.0 ∙ sym (hit (names t i item) _ _ _ _ (sym named_itself ∙ k) allowed there.1)
        | inr k ↦
            ap (status_of t i) d.3
            ∙ written.1 t i k
            ∙ sym (miss (names t i item) _ _ _ _ (sym named_itself ∙ k))
      ]

  -- An item that names a version in the right status does not fail for an actor who may act.
  no_failure :
      (t : ContentType) (i : ℕ) (e : Error)
      → names t i item ≡ true
      → may_act action q rationale db ≡ true
      → starts action (status_of t i db) ≡ true
      → apply_one action q rationale item db ≡ raise e
      → ⊥
  no_failure t i e n m s k = elim (Option-cases (content_type_of item.content_type)) [
    | inl known ↦ absurd_bool (sym (ap (names_as t i item) known) ∙ n)
    | inr (u, known) ↦ elim (Option-cases (find (is_version t i) db.versions)) [
      | inl found ↦
          absurd_bool (starts-none action ∙ sym (ap (λ o. starts action (status_in o)) found) ∙ s)
      | inr (v, found) ↦
          let key =
            and_true (item.content_id == i) (same_type u t)
              (sym (ap (names_as t i item) known) ∙ n) in
          let mine : find (is_version u item.content_id) db.versions ≡ some v =
            subst (λ x. find (is_version x item.content_id) db.versions ≡ some v)
              (sym (same_type_eq u t key.1))
              (subst (λ x. find (is_version t x) db.versions ≡ some v)
                (sym ((==_iff item.content_id i).0 key.0)) found) in
          raise_not_ok e _ (
            sym k
            ∙ goes_through u v known mine (sym (ap (λ o. starts action (status_in o)) found) ∙ s) m)
    ]
  ]

  failed_status :
      (t : ContentType) (i : ℕ) (e : Error)
      → apply_one action q rationale item db ≡ raise e
      → status_of t i db ≡ (
          if names t i item && may_act action q rationale db && starts action (status_of t i db)
          then some (target action)
          else status_of t i db)
  failed_status t i e k =
      elim (Bool-cases
        (names t i item && may_act action q rationale db && starts action (status_of t i db))) [
          | inl h ↦
              let all =
                three_true (names t i item) (may_act action q rationale db)
                  (starts action (status_of t i db)) h in
              absurd (no_failure t i e all.0 all.1 all.2 k)
          | inr h ↦ ap (λ b. if b then some (target action) else status_of t i db) (sym h)
        ]

  pub one_status :
      (t : ContentType) (i : ℕ)
      → status_of t i (settled db (apply_one action q rationale item db)).0 ≡ (
          if names t i item && may_act action q rationale db && starts action (status_of t i db)
          then some (target action)
          else status_of t i db)
  one_status t i = elim (Result-cases (apply_one action q rationale item db)) [
    | inl (db', e) ↦
        ap (λ m. status_of t i (settled db m).0) e
        ∙ Applied-status t i db' (apply_one-Applied db' e)
    | inr (error, e) ↦ ap (λ m. status_of t i (settled db m).0) e ∙ failed_status t i error e
  ]

  pub one_directory : (settled db (apply_one action q rationale item db)).0.directory ≡ db.directory
  one_directory = elim (Result-cases (apply_one action q rationale item db)) [
    | inl (db', e) ↦
        let (u, v, known, found, d) = apply_one-Applied db' e in
        ap (λ m. (settled db m).0.directory) e
        ∙ ap (λ x. x.directory) d.3
        ∙ write-directory v _ q.actor_user_id (some rationale) db
    | inr (error, e) ↦ ap (λ m. (settled db m).0.directory) e
  ]
