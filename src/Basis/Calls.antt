-- ===== src/Basis/Calls.antt =====
-- Any sequence of releases and updates in app/modules/regulatory_basis_release/service.py.
use mathlib.Core.Path.{subst}
use regnova.Prelude.{
  ◌≡◌, refl, sym, ℕ, ◌≤◌, String, Bool, false, Option, none, some, List, [], ◌∷◌, find, not, ◌&&◌,
  arith, if◌then◌else◌, All,
}
use regnova.Prelude.Results.{Result, ok, raise, or_raise, OnOk, OnOk-bind, or_raise-ok}
use regnova.Prelude.Rows.{
  modify_first, count, one, count-modify_first, Falling, Falling-modify_first,
}
use regnova.Prelude.Text.{str_eq}
use regnova.Basis.Model.{RegulatoryBasisRelease, Db, Error, release_not_found, has_id, is_active_of}
use regnova.Basis.Service.{
  publish_activated, RegulatoryBasisReleaseCreate, RegulatoryBasisReleaseUpdate, Request,
  get_active, create, sent, updated, other_id, update,
}
use regnova.Basis.Active.{IsSingle, published_if, create-IsSingle}

pub data Call : Type 0 where
  create_ : Request → RegulatoryBasisReleaseCreate → Call
  update_ : Request → ℕ → RegulatoryBasisReleaseUpdate → Call

-- Whether a call sets the status of a release that exists to ACTIVE.
abbrev pub sets_active : Option String → Bool
sets_active none = false
sets_active (some s) = str_eq s "ACTIVE"

abbrev pub activates : Call → Bool
activates (create_ q payload) = false
activates (update_ q id payload) = sets_active payload.status

abbrev pub tables : Result Error (RegulatoryBasisRelease × Db) → Db → Db
tables (ok r) db = r.1
tables (raise e) db = db

module _ (content_hash : List ℕ → List ℕ → List ℕ → Option String → String) where
  unfoldable pub perform : Call → Db → Db
  unfolding create update
  perform (create_ q payload) db = tables (create content_hash q payload db) db
  perform (update_ q id payload) db = tables (update q id payload db) db

  unfoldable pub run : List Call → Db → Db
  unfolding perform
  run [] db = db
  run (call ∷ calls) db = run calls (perform call db)

tables_keep :
    (P : Db → Type 0) (m : Result Error (RegulatoryBasisRelease × Db)) (db : Db)
    → P db
    → OnOk (λ r. P r.1) m
    → P (tables m db)
tables_keep P (ok r) db h k = k
tables_keep P (raise e) db h k = h

still_active :
    (o : Option String) (s : String) (b c : Bool)
    → sets_active o ≡ false
    → one (b && c && str_eq (sent o s) "ACTIVE") ≤ one (b && c && str_eq s "ACTIVE")
still_active none s b c h = omega arith
still_active (some t) s b c h = ground (arith, h)

updated-IsSingle :
    (q : Request) (id : ℕ) (payload : RegulatoryBasisReleaseUpdate) (db : Db)
    → sets_active payload.status ≡ false
    → IsSingle db
    → OnOk (λ r. IsSingle r.1) (update q id payload db)
unfolding update
updated-IsSingle q id payload db h k =
    let P : RegulatoryBasisRelease × Db → Type 0 = λ r. IsSingle r.1 in
    OnOk-bind P (or_raise (find (has_id id) db.releases) release_not_found) _ (λ release e.
      let found : find (has_id id) db.releases ≡ some release =
        or_raise-ok _ release_not_found release e in
      let changed : RegulatoryBasisRelease = updated payload release in
      let previous = get_active changed.jurisdiction changed.category db in
      let rows = modify_first (has_id id) (updated payload) db.releases in
      let db' : Db = record db { releases = rows } in
      let same =
        published_if (not (str_eq release.status "ACTIVE") && str_eq changed.status "ACTIVE") q
          changed (other_id changed.id previous) db' in
      record {
        falling =
            subst
              (λ n.
                Falling (λ (r : RegulatoryBasisRelease). r.id) n
                  (if not (str_eq release.status "ACTIVE") && str_eq changed.status "ACTIVE"
                    then publish_activated q changed (other_id changed.id previous) db'
                    else db').releases)
              (sym same.1)
              (subst (Falling (λ r. r.id) db.next_id) (sym same.0) (
                Falling-modify_first (λ r. r.id) db.next_id (has_id id) (updated payload)
                  db.releases (λ r. refl) k.falling));
        single = λ j c.
            subst (λ rs. count (is_active_of j c) rs ≤ 1) (sym same.0)
              (omega (
                arith,
                count-modify_first (is_active_of j c) (has_id id) (updated payload) db.releases
                    release found,
                still_active payload.status release.status (str_eq release.jurisdiction j)
                    (str_eq release.category c) h,
                k.single j c,
              ));
      })

perform-IsSingle :
    (content_hash : List ℕ → List ℕ → List ℕ → Option String → String) (call : Call) (db : Db)
    → activates call ≡ false
    → IsSingle db
    → IsSingle (perform content_hash call db)
unfolding perform
perform-IsSingle content_hash (create_ q payload) db h k =
    tables_keep IsSingle (create content_hash q payload db) db k
      (create-IsSingle content_hash q payload db k)
perform-IsSingle content_hash (update_ q id payload) db h k =
    tables_keep IsSingle (update q id payload db) db k (updated-IsSingle q id payload db h k)

-- After any sequence of releases and of updates that do not set the status ACTIVE, at most one
-- release is active for each jurisdiction and category, if it was so before.
pub run-IsSingle :
    (content_hash : List ℕ → List ℕ → List ℕ → Option String → String) (calls : List Call) (db : Db)
    → All (λ call. activates call ≡ false) calls
    → IsSingle db
    → IsSingle (run content_hash calls db)
unfolding run
run-IsSingle content_hash [] db h k = k
run-IsSingle content_hash (call ∷ calls) db h k =
    run-IsSingle content_hash calls (perform content_hash call db) h.1
      (perform-IsSingle content_hash call db h.0 k)
