-- ===== src/Document/Stored.antt =====
-- The table of versions after an upload in app/modules/document_version/service.py.
use mathlib.Core.Path.{subst}
use regnova.Prelude.{
  ◌≡◌, refl, sym, ap, ◌∙◌, ℕ, ◌+◌, ◌<◌, String, true, false, Option, none, some, List, [], ◌∷◌,
  find, filter, length, arith, if◌then◌else◌, ◌==◌, ==_iff, Bool-cases, find-true, and_true,
  is_some, map, inl, inr,
}
use regnova.Prelude.Rows.{
  modify_first, count-modify_first, filter-modify_first, Falling, Falling-found,
}
use regnova.Document.Model.{Bytes, DocumentVersion, Evidence, Db, Services, Request, has_id}
use regnova.Document.Repository.{
  is_of, is_current_of, get_current, get_latest_version_number, get_stored, put,
  mark_stale_for_document_version, stale_if,
}
use regnova.Document.Upload.{File, id_of, set_superseded_by, new_version, supersede, insert, store}
use regnova.Document.Chain.{head, Chain, Chain-current, Chain-greatest, Chain-superseded}

abbrev pub superseded : Option DocumentVersion → ℕ → List DocumentVersion → List DocumentVersion
superseded none id vs = vs
superseded (some current) id vs = modify_first (has_id current.id) (set_superseded_by id) vs

no_head : (vs : List DocumentVersion) → head vs ≡ none → vs ≡ []
no_head [] e = refl
no_head (v ∷ vs) e = cc

head-superseded :
    (document_id n i : ℕ) (vs : List DocumentVersion)
    → id_of (head (filter (is_of document_id) (modify_first (has_id i) (set_superseded_by n) vs)))
      ≡ id_of (head (filter (is_of document_id) vs))
unfolding modify_first
head-superseded document_id n i [] = refl
head-superseded document_id n i (v ∷ vs) = ground (arith, head-superseded document_id n i vs)

-- Of the document itself.
Chain-uploaded :
    (n : ℕ) (o : Option DocumentVersion) (v : DocumentVersion) (vs : List DocumentVersion)
    → Falling (λ v. v.id) n vs
    → find (is_current_of v.document_id) vs ≡ o
    → v.version_number ≡ length (filter (is_of v.document_id) vs) + 1
    → v.supersedes_id ≡ id_of o
    → v.superseded_by_id ≡ none
    → Chain none (filter (is_of v.document_id) vs)
    → Chain none (v ∷ filter (is_of v.document_id) (superseded o v.id vs))
Chain-uploaded n none v vs f e number s a h =
    let empty : filter (is_of v.document_id) vs ≡ [] =
      no_head _ (sym (Chain-current v.document_id vs h) ∙ e) in
    (a, number, s ∙ ap (λ x. id_of (head x)) (sym empty), subst (Chain (some v.id)) (sym empty) tt)
Chain-uploaded n (some c) v vs f e number s a h =
    let same =
      count-modify_first (is_of v.document_id) (has_id c.id) (set_superseded_by v.id) vs c
        (Falling-found (λ x. x.id) n (is_current_of v.document_id) vs c f e) in
    (
      a,
      omega (arith, number, same),
      s
          ∙ ap id_of (sym (sym (Chain-current v.document_id vs h) ∙ e))
          ∙ sym (head-superseded v.document_id v.id c.id vs),
      Chain-superseded v.document_id n v.id vs c f e h,
    )

-- Of any other document.
filter-superseded :
    (document_id other n id : ℕ) (o : Option DocumentVersion) (vs : List DocumentVersion)
    → Falling (λ v. v.id) n vs
    → find (is_current_of document_id) vs ≡ o
    → (document_id == other) ≡ false
    → filter (is_of other) (superseded o id vs) ≡ filter (is_of other) vs
filter-superseded document_id other n id none vs f e h = refl
filter-superseded document_id other n id (some c) vs f e h =
    let of_document : (c.document_id == document_id) ≡ true =
      (and_true _ _ (find-true (is_current_of document_id) vs c e)).0 in
    let d : (c.document_id == other) ≡ false = ground (arith, of_document, h) in
    filter-modify_first (is_of other) (has_id c.id) (set_superseded_by id) vs c
      (Falling-found (λ x. x.id) n (is_current_of document_id) vs c f e) d d

pub Chain-inserted :
    (n document_id : ℕ) (o : Option DocumentVersion) (v : DocumentVersion)
    (vs : List DocumentVersion)
    → Falling (λ v. v.id) n vs
    → find (is_current_of v.document_id) vs ≡ o
    → v.version_number ≡ length (filter (is_of v.document_id) vs) + 1
    → v.supersedes_id ≡ id_of o
    → v.superseded_by_id ≡ none
    → ((i : ℕ) → Chain none (filter (is_of i) vs))
    → Chain none (filter (is_of document_id) (v ∷ superseded o v.id vs))
Chain-inserted n document_id o v vs f e number s a h =
    let rest = filter (is_of document_id) (superseded o v.id vs) in
    elim (Bool-cases (v.document_id == document_id)) [
      | inl p ↦
          subst (λ b. Chain none (if b then v ∷ rest else rest)) (sym p)
            (subst (λ i. Chain none (v ∷ filter (is_of i) (superseded o v.id vs)))
              ((==_iff v.document_id document_id).0 p)
              (Chain-uploaded n o v vs f e number s a (h v.document_id)))
      | inr p ↦
          subst (λ b. Chain none (if b then v ∷ rest else rest)) (sym p)
            (subst (Chain none)
              (sym (filter-superseded v.document_id document_id n v.id o vs f e p)) (h document_id))
    ]

put_keeps :
    (checksum : String) (content : Bytes) (db : Db)
    → ((put checksum content db).versions ≡ db.versions)
      × ((put checksum content db).evidence ≡ db.evidence)
      × ((put checksum content db).next_id ≡ db.next_id)
      × ((put checksum content db).documents ≡ db.documents)
unfolding put
put_keeps checksum content db = elim (Bool-cases (is_some (get_stored checksum db))) [
  | inl e ↦ (rw e, rw e, rw e, rw e)
  | inr e ↦ (rw e, rw e, rw e, rw e)
]

supersede_pushes :
    (o : Option DocumentVersion) (v : DocumentVersion) (vs : List DocumentVersion)
    → ((c : DocumentVersion) → o ≡ some c → c.id < v.id)
    → superseded o v.id (v ∷ vs) ≡ v ∷ superseded o v.id vs
unfolding modify_first
supersede_pushes none v vs h = refl
supersede_pushes (some c) v vs h = ground (arith, h c refl)

supersede-versions :
    (o : Option DocumentVersion) (id : ℕ) (db : Db)
    → (supersede o id db).versions ≡ superseded o id db.versions
unfolding mark_stale_for_document_version
supersede-versions none id db = refl
supersede-versions (some c) id db = refl

-- The evidence for the version that was superseded goes stale.
abbrev pub staled : Option DocumentVersion → List Evidence → List Evidence
staled none es = es
staled (some c) es = map (stale_if c.id "DOCUMENT_VERSION_SUPERSEDED") es

supersede_keeps :
    (o : Option DocumentVersion) (id : ℕ) (db : Db)
    → ((supersede o id db).evidence ≡ staled o db.evidence)
      × ((supersede o id db).storage ≡ db.storage)
      × ((supersede o id db).next_id ≡ db.next_id)
      × ((supersede o id db).documents ≡ db.documents)
unfolding mark_stale_for_document_version
supersede_keeps none id db = (refl, refl, refl, refl)
supersede_keeps (some c) id db = (refl, refl, refl, refl)

module _ (services : Services) where
  pub store-versions :
      (q : Request) (file : File) (content_type : String) (o : Option DocumentVersion) (db : Db)
      → ((c : DocumentVersion) → o ≡ some c → c.id < db.next_id)
      → (store services q file content_type o db).1.versions
        ≡ new_version services q file content_type o db ∷ superseded o db.next_id db.versions
  unfolding store
  store-versions q file content_type o db h =
      let v : DocumentVersion = new_version services q file content_type o db in
      let stored = put v.checksum file.content db in
      supersede-versions o v.id (insert v stored)
      ∙ ap (λ vs. superseded o v.id (v ∷ vs)) (put_keeps v.checksum file.content db).0
      ∙ supersede_pushes o v db.versions h

  pub store_keeps :
      (q : Request) (file : File) (content_type : String) (o : Option DocumentVersion) (db : Db)
      → let db' = (store services q file content_type o db).1 in
        (db'.evidence ≡ staled o db.evidence)
        × (db'.storage ≡ (put (services.sha256 file.content) file.content db).storage)
        × (db'.next_id ≡ db.next_id + 1)
        × (db'.documents ≡ db.documents)
  unfolding store
  store_keeps q file content_type o db =
      let v : DocumentVersion = new_version services q file content_type o db in
      let stored = put v.checksum file.content db in
      let k = supersede_keeps o v.id (insert v stored) in
      let p = put_keeps v.checksum file.content db in
      (k.0 ∙ ap (staled o) p.1, k.1, k.2 ∙ ap (λ n. n + 1) p.2, k.3 ∙ p.3)

  -- An upload keeps the versions of every document in order.
  pub store-Chain :
      (q : Request) (file : File) (content_type : String) (db : Db) (document_id : ℕ)
      → Falling (λ v. v.id) db.next_id db.versions
      → ((i : ℕ) → Chain none (filter (is_of i) db.versions))
      → Chain none (
          filter (is_of document_id) (
            new_version services q file content_type (get_current q.document_id db) db
            ∷ superseded (get_current q.document_id db) db.next_id db.versions))
  unfolding get_current get_latest_version_number
  store-Chain q file content_type db document_id f h =
      let o = get_current q.document_id db in
      Chain-inserted db.next_id document_id o (new_version services q file content_type o db)
        db.versions f refl
        (ap (λ n. n + 1)
          (Chain-greatest none (filter (is_of q.document_id) db.versions) (h q.document_id)))
        refl refl h
