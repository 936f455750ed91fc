-- ===== src/Document/Valid.antt =====
-- What holds of the tables of app/modules/document_version and evidence at all times, and that a
-- change of one version in place keeps it.
use mathlib.Core.Path.{subst}
use regnova.Prelude.{
  ◌≡◌, ◌≢◌, ◌⊎◌, refl, sym, ap, ◌∙◌, ℕ, String, Bool, true, Option, none, some, List, find, filter,
  All, arith, ◌==◌, Bool-cases, inl, inr, find-true, ==_iff,
}
use regnova.Prelude.Rows.{
  modify_first, find-modify_first, find-modify_first_at, Falling, Falling-found, Falling-unique,
  All-find,
}
use regnova.Prelude.Text.{str_eq, eq_iff}
use regnova.Document.Model.{
  DocumentVersionStatus, Bytes, verified, DocumentVersion, Db, Services, has_id,
}
use regnova.Document.Repository.{is_of, get_stored, bytes_of}
use regnova.Document.Edit.{is_past_scan}
use regnova.Document.Chain.{Chain}

-- A version that exists is verified.
abbrev pub IsVerified : List DocumentVersion → ℕ → Type 0
IsVerified vs id = (v : DocumentVersion) × (find (has_id id) vs ≡ some v) × (v.status ≡ verified)

module _ (services : Services) (safe : Bytes → Bool) where
  -- No bytes with the checksum are malware.
  abbrev pub Safe : String → Type 0
  Safe checksum = (content : Bytes) → services.sha256 content ≡ checksum → safe content ≡ true

  abbrev pub IsCleanAt : String → DocumentVersionStatus → Type 0
  IsCleanAt checksum status = is_past_scan status ≡ true → Safe checksum

  abbrev pub IsClean : DocumentVersion → Type 0
  IsClean v = IsCleanAt v.checksum v.status

  pub record IsValid (db : Db) : Type 0 where
    pub falling : Falling (λ v. v.id) db.next_id db.versions
    pub chain : (document_id : ℕ) → Chain none (filter (is_of document_id) db.versions)
    pub clean : All IsClean db.versions
    pub addressed : All (λ entry. services.sha256 entry.1 ≡ entry.0) db.storage
    pub linked : All (λ e. IsVerified db.versions e.document_version_id) db.evidence

  -- What is stored under a checksum has it.
  pub get_stored-sha256 :
      (checksum : String) (content : Bytes) (db : Db)
      → IsValid db
      → get_stored checksum db ≡ some content
      → services.sha256 content ≡ checksum
  unfolding get_stored
  get_stored-sha256 checksum content db h e =
      stored_entry (find (λ entry. str_eq entry.0 checksum) db.storage) refl e
    where
      stored_entry :
          (o : Option (String × Bytes))
          → find (λ entry. str_eq entry.0 checksum) db.storage ≡ o
          → bytes_of o ≡ some content
          → services.sha256 content ≡ checksum
      stored_entry none k d = cc
      stored_entry (some entry) k d =
          let same : entry.1 ≡ content = ground (arith, d) in
          ap services.sha256 (sym same)
          ∙ All-find (λ x. services.sha256 x.1 ≡ x.0) _ db.storage entry k h.addressed
          ∙ (eq_iff entry.0 checksum).0 (find-true (λ x. str_eq x.0 checksum) db.storage entry k)

  -- A version that a query found is clean.
  pub found-IsClean :
      (test : DocumentVersion → Bool) (v : DocumentVersion) (db : Db)
      → IsValid db
      → find test db.versions ≡ some v
      → IsClean v
  found-IsClean test v db h e = All-find IsClean test db.versions v e h.clean

pub IsVerified-modify_first :
    (id n : ℕ) (change : DocumentVersion → DocumentVersion) (test : DocumentVersion → Bool)
    (vs : List DocumentVersion) (v : DocumentVersion)
    → Falling (λ x. x.id) n vs
    → find test vs ≡ some v
    → (change v).id ≡ v.id
    → v.status ≢ verified ⊎ ((change v).status ≡ v.status)
    → IsVerified vs id
    → IsVerified (modify_first (has_id v.id) change vs) id
IsVerified-modify_first id n change test vs v f e k s (w, found, h) =
    elim (Bool-cases (v.id == id)) [
      | inl p ↦
          let i = (==_iff v.id id).0 p in
          let d : w ≡ v = Falling-unique (λ x. x.id) n id test vs w v f found e i in
          let at = Falling-found (λ x. x.id) n test vs v f e in
          elim s [
            | inl differs ↦ elim (differs (ap (λ x. x.status) (sym d) ∙ h)) [ ]
            | inr same ↦ (
              change v,
              subst (λ j. find (has_id j) (modify_first (has_id v.id) change vs) ≡ some (change v))
                  i
                  (find-modify_first_at (has_id v.id) change vs v at
                    (ap (λ j. j == v.id) k ∙ find-true (has_id v.id) vs v at)),
              same ∙ ap (λ x. x.status) (sym d) ∙ h,
            )
          ]
      | inr p ↦ (
        w,
        find-modify_first (has_id id) (has_id v.id) change vs v
              (Falling-found (λ x. x.id) n test vs v f e) p (ap (λ j. j == id) k ∙ p)
            ∙ found,
        h,
      )
    ]
