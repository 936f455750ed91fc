-- ===== src/Document/Preserve.antt =====
-- The changes that the calls of app/modules/document_version and evidence make keep the tables valid.
use mathlib.Core.Path.{subst}
use regnova.Prelude.{
  ◌≡◌, ◌≢◌, refl, sym, ap, ◌∙◌, ℕ, ◌<◌, String, Bool, true, false, Option, none, some, List, ◌∷◌,
  find, filter, All, arith, if◌then◌else◌, ◌==◌, ==_iff, ◌&&◌, find-true, Bool-cases, inl, inr,
  is_some,
}
use regnova.Prelude.Rows.{
  modify_first, Falling, Falling-find, Falling-found, Falling-modify_first, All-modify_first,
  All-find, All-map, All_weaken,
}
use regnova.Document.Model.{
  Bytes, verified, DocumentVersion, Evidence, Db, Services, Request, has_id,
}
use regnova.Document.Repository.{is_of, is_current_of, get_current, get_stored, put, stale_if}
use regnova.Document.Upload.{File, new_version, set_superseded_by, store}
use regnova.Document.Edit.{Edit, Frame}
use regnova.Document.Rows.{modify_first-Same, filter-Same, Falling-Same, higher_Falling}
use regnova.Document.Chain.{Chain, Chain-Same}
use regnova.Document.Stored.{superseded, staled, store-versions, store_keeps, store-Chain}
use regnova.Document.Valid.{IsVerified, Safe, IsCleanAt, IsClean, IsValid, IsVerified-modify_first}

absurd_bool : false ≡ true → ⊥
absurd_bool h = cc

module _ (services : Services) (safe : Bytes → Bool) where
  -- A version that was not verified is changed in place.
  pub Edit-IsValid :
      (test : DocumentVersion → Bool) (v : DocumentVersion) (db db' : Db)
      → IsValid services safe db
      → find test db.versions ≡ some v
      → v.status ≢ verified
      → Edit (IsCleanAt services safe v.checksum) v.id db db'
      → IsValid services safe db'
  Edit-IsValid test v db db' h found differs edit =
      let at = Falling-found (λ x. x.id) db.next_id test db.versions v h.falling found in
      let same = modify_first-Same (has_id v.id) edit.change db.versions edit.keeps in
      let changed = modify_first (has_id v.id) edit.change db.versions in
      let clean : All (IsClean services safe) changed =
        All-modify_first (IsClean services safe) (has_id v.id) edit.change db.versions v at
          (λ past. subst (Safe services safe) (sym (edit.keeps v).3) (edit.settled v past))
          h.clean in
      record {
        falling = subst (Falling (λ x. x.id) db'.next_id) (sym edit.versions) (
            higher_Falling (λ x. x.id) db.next_id db'.next_id changed
              (λ i l. omega (arith, l, edit.next_id))
              (Falling-Same db.next_id db.versions changed same h.falling));
        chain = λ d.
            subst (λ vs. Chain none (filter (is_of d) vs)) (sym edit.versions)
              (Chain-Same none _ _ (filter-Same d db.versions changed same) (h.chain d));
        clean = subst (All (IsClean services safe)) (sym edit.versions) clean;
        addressed = subst (All _) (sym edit.storage) h.addressed;
        linked = subst (All _) (sym edit.evidence) (
            All_weaken _ _ db.evidence
              (λ e k.
                subst (λ vs. IsVerified vs e.document_version_id) (sym edit.versions)
                  (IsVerified-modify_first e.document_version_id db.next_id edit.change test
                    db.versions v h.falling found (edit.keeps v).0 (inl differs) k))
              h.linked);
      }

  pub Frame-IsValid :
      (db db' : Db) → IsValid services safe db → Frame db db' → IsValid services safe db'
  Frame-IsValid db db' h frame = record {
    falling = subst (Falling (λ x. x.id) db'.next_id) (sym frame.versions) (
        higher_Falling (λ x. x.id) db.next_id db'.next_id db.versions
          (λ i l. omega (arith, l, frame.next_id)) h.falling);
    chain = λ d. subst (λ vs. Chain none (filter (is_of d) vs)) (sym frame.versions) (h.chain d);
    clean = subst (All (IsClean services safe)) (sym frame.versions) h.clean;
    addressed = subst (All _) (sym frame.storage) h.addressed;
    linked = subst (All _) (sym frame.evidence) (
        subst (λ vs. All (λ e. IsVerified vs e.document_version_id) db.evidence)
          (sym frame.versions) h.linked);
  }

  put-addressed :
      (content : Bytes) (db : Db)
      → All (λ entry. services.sha256 entry.1 ≡ entry.0) db.storage
      → All
          (λ entry. services.sha256 entry.1 ≡ entry.0)
          (put (services.sha256 content) content db).storage
  unfolding put
  put-addressed content db h =
      elim (Bool-cases (is_some (get_stored (services.sha256 content) db))) [
        | inl e ↦
            subst
              (λ b.
                All (λ entry. services.sha256 entry.1 ≡ entry.0)
                  (if b then db else record db {
                    storage = (services.sha256 content, content) ∷ db.storage;
                  }).storage)
              (sym e) h
        | inr e ↦
            subst
              (λ b.
                All (λ entry. services.sha256 entry.1 ≡ entry.0)
                  (if b then db else record db {
                    storage = (services.sha256 content, content) ∷ db.storage;
                  }).storage)
              (sym e) (refl, h)
      ]

  superseded-IsClean :
      (o : Option DocumentVersion) (n : ℕ) (test : DocumentVersion → Bool) (db : Db)
      → IsValid services safe db
      → find test db.versions ≡ o
      → All (IsClean services safe) (superseded o n db.versions)
  superseded-IsClean none n test db h e = h.clean
  superseded-IsClean (some c) n test db h e =
      All-modify_first (IsClean services safe) (has_id c.id) (set_superseded_by n) db.versions c
        (Falling-found (λ x. x.id) db.next_id test db.versions c h.falling e)
        (All-find (IsClean services safe) test db.versions c e h.clean) h.clean

  superseded-Falling :
      (o : Option DocumentVersion) (n : ℕ) (db : Db)
      → IsValid services safe db
      → Falling (λ x. x.id) db.next_id (superseded o n db.versions)
  superseded-Falling none n db h = h.falling
  superseded-Falling (some c) n db h =
      Falling-modify_first (λ x. x.id) db.next_id (has_id c.id) (set_superseded_by n) db.versions
        (λ x. refl) h.falling

  superseded-IsVerified :
      (o : Option DocumentVersion) (n id : ℕ) (test : DocumentVersion → Bool) (db : Db)
      → IsValid services safe db
      → find test db.versions ≡ o
      → IsVerified db.versions id
      → IsVerified (superseded o n db.versions) id
  superseded-IsVerified none n id test db h e k = k
  superseded-IsVerified (some c) n id test db h e k =
      IsVerified-modify_first id db.next_id (set_superseded_by n) test db.versions c h.falling e
        refl (inr refl) k

  staled-linked :
      (o : Option DocumentVersion) (P : ℕ → Type 0) (es : List Evidence)
      → All (λ e. P e.document_version_id) es
      → All (λ e. P e.document_version_id) (staled o es)
  staled-linked none P es h = h
  staled-linked (some c) P es h =
      All-map (λ e. P e.document_version_id) (λ e. P e.document_version_id)
        (stale_if c.id "DOCUMENT_VERSION_SUPERSEDED") es
        (λ e k. stale_step (e.document_version_id == c.id && e.is_current) P e k) h
    where
      stale_step :
          (b : Bool) (P : ℕ → Type 0) (e : Evidence)
          → P e.document_version_id
          → P
              (if b
                then record e {
                  is_current = false;
                  stale_reason = some "DOCUMENT_VERSION_SUPERSEDED";
                }
                else e).document_version_id
      stale_step true P e k = k
      stale_step false P e k = k

  behind_new :
      (id : ℕ) (v : DocumentVersion) (n : ℕ) (vs vs' : List DocumentVersion)
      → v.id ≡ n
      → Falling (λ x. x.id) n vs
      → (IsVerified vs id → IsVerified vs' id)
      → IsVerified vs id
      → IsVerified (v ∷ vs') id
  behind_new id v n vs vs' i f h k =
      let (w, found, s) = h k in
      let l = Falling-find (λ x. x.id) n (has_id id) vs k.0 f k.1 in
      let same = (==_iff k.0.id id).0 (find-true (has_id id) vs k.0 k.1) in
      let d : (v.id == id) ≡ false = ground (arith, i, l, same) in
      (w, ap (λ b. if b then some v else find (has_id id) vs') d ∙ found, s)

  -- The first half of an upload.
  pub store-IsValid :
      (q : Request) (file : File) (content_type : String) (db : Db)
      → IsValid services safe db
      → IsValid services safe
          (store services q file content_type (get_current q.document_id db) db).1
  unfolding get_current
  store-IsValid q file content_type db h =
      let o = get_current q.document_id db in
      let v : DocumentVersion = new_version services q file content_type o db in
      let test = is_current_of q.document_id in
      let vs' = superseded o db.next_id db.versions in
      let db' = (store services q file content_type o db).1 in
      let rows : db'.versions ≡ v ∷ vs' =
        store-versions services q file content_type o db
          (λ c e. Falling-find (λ x. x.id) db.next_id test db.versions c h.falling e) in
      let keeps = store_keeps services q file content_type o db in
      record {
        falling = subst (Falling (λ x. x.id) db'.next_id) (sym rows) (
          subst (λ n. db.next_id < n) (sym keeps.2) (omega arith),
          superseded-Falling o db.next_id db h,
        );
        chain = λ d.
            subst (λ vs. Chain none (filter (is_of d) vs)) (sym rows)
              (store-Chain services q file content_type db d h.falling h.chain);
        clean =
            subst (All (IsClean services safe)) (sym rows)
              (λ past. elim (absurd_bool past) [ ], superseded-IsClean o db.next_id test db h refl);
        addressed = subst (All _) (sym keeps.1) (put-addressed file.content db h.addressed);
        linked = subst (All _) (sym keeps.0) (
            staled-linked o (λ i. IsVerified db'.versions i) db.evidence
              (All_weaken _ _ db.evidence
                (λ e k.
                  subst (λ vs. IsVerified vs e.document_version_id) (sym rows)
                    (behind_new e.document_version_id v db.next_id db.versions vs' refl h.falling
                      (superseded-IsVerified o db.next_id e.document_version_id test db h refl) k))
                h.linked));
      }
