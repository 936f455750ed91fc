-- ===== src/Finding/Latest.antt =====
-- What the current revision of a finding is after one more revision was written.
use regnova.Prelude.{
  ◌≡◌, ◌≢◌, refl, ℕ, suc, none, some, List, [], ◌∷◌, arith, ◌==◌, if◌then◌else◌, find, Bool-cases,
  inl, inr, ◌<◌,
}
use regnova.Access.{User, Directory, get_user}
use regnova.Finding.Model.{FindingRevision}
use regnova.Finding.Repository.{latest_of}

-- A revision that is numbered above the current one becomes the current one.
pub latest_of-cons_self :
    (r : FindingRevision) (rs : List FindingRevision) (l : FindingRevision)
    → latest_of r.finding_id rs ≡ some l
    → l.revision_number < r.revision_number
    → latest_of r.finding_id (r ∷ rs) ≡ some r
unfolding latest_of
latest_of-cons_self r rs l e h = ground arith

pub latest_of-cons_first :
    (r : FindingRevision) (rs : List FindingRevision)
    → latest_of r.finding_id rs ≡ none
    → latest_of r.finding_id (r ∷ rs) ≡ some r
unfolding latest_of
latest_of-cons_first r rs e = ground arith

-- Another finding's current revision stays.
pub latest_of-cons_ne :
    (id : ℕ) (r : FindingRevision) (rs : List FindingRevision)
    → r.finding_id ≢ id
    → latest_of id (r ∷ rs) ≡ latest_of id rs
unfolding latest_of
latest_of-cons_ne id r rs h = ground arith

-- How many revisions a finding has.
unfoldable pub count : ℕ → List FindingRevision → ℕ
count id [] = 0
count id (r ∷ rs) = let rest = count id rs in if r.finding_id == id then suc rest else rest

pub latest_of-none_of_count :
    (id : ℕ) (rs : List FindingRevision) → count id rs ≡ 0 → latest_of id rs ≡ none
unfolding latest_of count
latest_of-none_of_count id [] h = refl
latest_of-none_of_count id (r ∷ rs) h = ground (arith, latest_of-none_of_count id rs)

-- The actor that is loaded is the one that was asked for.
pub get_user-id : (d : Directory) (id : ℕ) {u : User} → get_user d id ≡ some u → u.id ≡ id
unfolding get_user
get_user-id d id {u} h = go d.users h
  where
    go : (us : List User) → find (λ v. v.id == id) us ≡ some u → u.id ≡ id
    go [] e = cc
    go (v ∷ us) e = elim (Bool-cases (v.id == id)) [
      | inl same ↦ ground arith
      | inr other ↦ go us (rw other at e)
    ]
