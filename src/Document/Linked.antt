-- ===== src/Document/Linked.antt =====
-- Linking evidence in app/modules/evidence/service.py keeps the tables valid.
use mathlib.Core.Path.{subst}
use regnova.Prelude.{
  ◌≡◌, ℕ, ◌+◌, Bool, some, ◌∷◌, arith, ◌==◌, ◌&&◌, not, is_some, find-true, and_true, ==_iff,
}
use regnova.Prelude.Rows.{Falling-found, All-filter}
use regnova.Prelude.Results.{require, or_raise, OnOk, OnOk-bind, or_raise-ok, require-ok}
use regnova.Document.Model.{
  Bytes, verified, DocumentVersion, Db, document_version_not_found, evidence_not_found,
  product_not_found, requirement_version_not_found, evidence_already_linked,
  evidence_document_version_not_verified, evidence_linked, Services, Request, same_status,
}
use regnova.Document.Repository.{get_evidence, get_by_id_for_org, find_existing_link}
use regnova.Document.Fields.{append}
use regnova.Document.Evidence.{
  EvidenceCreate, new_evidence, has_product, has_requirement_version, violates_unique, link, unlink,
}
use regnova.Document.Rows.{higher_Falling}
use regnova.Document.Valid.{IsVerified, IsValid}
use regnova.Document.Guards.{same_status_eq}

module _ (services : Services) (safe : Bytes → Bool) (q : Request) where
  abbrev Valid : Db → Type 0
  Valid db = IsValid services safe db

  linked-IsValid :
      (payload : EvidenceCreate) (db : Db) (v : DocumentVersion)
      → Valid db
      → get_by_id_for_org q.organization_id payload.document_version_id db ≡ some v
      → v.status ≡ verified
      → Valid (
          append q (evidence_linked (new_evidence q payload db)) q.actor_user_id (record db {
            evidence = new_evidence q payload db ∷ db.evidence;
            next_id = db.next_id + 1;
          }))
  unfolding get_by_id_for_org
  linked-IsValid payload db v h found s =
      let test : DocumentVersion → Bool =
        λ x. x.id == payload.document_version_id && x.organization_id == q.organization_id in
      let same =
        (==_iff v.id payload.document_version_id).0
          (and_true _ _ (find-true test db.versions v found)).0 in
      record {
        falling =
            higher_Falling (λ x. x.id) db.next_id (db.next_id + 1) db.versions
              (λ i l. omega (arith, l)) h.falling;
        chain = h.chain;
        clean = h.clean;
        addressed = h.addressed;
        linked = (
          subst (IsVerified db.versions) same
              (v, Falling-found (λ x. x.id) db.next_id test db.versions v h.falling found, s),
          h.linked,
        );
      }

  pub link-IsValid :
      (payload : EvidenceCreate) (db : Db) → Valid db → OnOk (λ r. Valid r.1) (link q payload db)
  unfolding link
  link-IsValid payload db h =
      OnOk-bind (λ r. Valid r.1)
        (require (has_product q.organization_id payload.product_id db) product_not_found) _
        (λ a b.
          OnOk-bind (λ r. Valid r.1)
            (or_raise (get_by_id_for_org q.organization_id payload.document_version_id db)
              document_version_not_found)
            _
            (λ v e.
              OnOk-bind (λ r. Valid r.1)
                (require (same_status v.status verified) evidence_document_version_not_verified) _
                (λ c d.
                  OnOk-bind (λ r. Valid r.1)
                    (require (has_requirement_version payload.requirement_version_id db)
                      requirement_version_not_found)
                    _
                    (λ f g.
                      OnOk-bind (λ r. Valid r.1)
                        (require
                          (not (
                            is_some (
                              find_existing_link q.organization_id payload.document_version_id
                                payload.product_id payload.requirement_version_id db)))
                          evidence_already_linked)
                        _
                        (λ i j.
                          OnOk-bind (λ r. Valid r.1)
                            (require
                              (not (violates_unique payload payload.requirement_version_id db))
                              evidence_already_linked)
                            _
                            (λ k l.
                              linked-IsValid payload db v h
                                (or_raise-ok _ document_version_not_found v e)
                                (same_status_eq v.status verified
                                  (require-ok _ evidence_document_version_not_verified c d))))))))

  pub unlink-IsValid : (evidence_id : ℕ) (db : Db) → Valid db → OnOk Valid (unlink q evidence_id db)
  unfolding unlink
  unlink-IsValid evidence_id db h =
      OnOk-bind Valid (or_raise (get_evidence q.organization_id evidence_id db) evidence_not_found)
        _
        (λ e k. record {
          falling = h.falling;
          chain = h.chain;
          clean = h.clean;
          addressed = h.addressed;
          linked =
              All-filter (λ x. IsVerified db.versions x.document_version_id)
                (λ x. not (x.id == e.id)) db.evidence h.linked;
        })
