-- ===== src/Document/Evidence.antt =====
-- `EvidenceService` of app/modules/evidence/service.py.
use regnova.Prelude.{
  ℕ, String, Bool, true, false, Option, none, some, ◌∷◌, filter, any, not, ◌+◌, ◌==◌, ◌&&◌, is_some,
}
use regnova.Prelude.Results.{Result, ok, ◌>>=◌, ◌>>◌, require, or_raise}
use regnova.Document.Model.{
  verified, Evidence, evidence_linked, evidence_unlinked, Db, Error, document_version_not_found,
  product_not_found, evidence_document_version_not_verified, requirement_version_not_found,
  evidence_already_linked, evidence_not_found, Request, same_status,
}
use regnova.Document.Repository.{get_by_id_for_org, get_evidence, find_existing_link}
use regnova.Document.Fields.{append}

-- EvidenceCreate.
pub record EvidenceCreate : Type 0 where
  pub document_version_id : ℕ
  pub product_id : ℕ
  pub requirement_version_id : Option ℕ
  pub notes : Option String

abbrev pub new_evidence : Request → EvidenceCreate → Db → Evidence
new_evidence q payload db = record {
  id = db.next_id;
  organization_id = q.organization_id;
  document_version_id = payload.document_version_id;
  product_id = payload.product_id;
  requirement_version_id = payload.requirement_version_id;
  notes = payload.notes;
  created_by_user_id = q.actor_user_id;
  is_current = true;
  stale_reason = none;
}

abbrev pub has_product : ℕ → ℕ → Db → Bool
has_product organization_id product_id db =
    any (λ p. p.0 == organization_id && p.1 == product_id) db.products

abbrev pub has_requirement_version : Option ℕ → Db → Bool
has_requirement_version none db = true
has_requirement_version (some id) db = any (λ r. r == id) db.requirement_versions

-- The constraint of the table: no second row with the same version, product and requirement
-- version, where that is not null, whatever the organization.
abbrev pub same_link : EvidenceCreate → ℕ → Evidence → Bool
same_link payload id e =
    e.document_version_id == payload.document_version_id
    && e.product_id == payload.product_id
    && (elim e.requirement_version_id [ none ↦ false | some i ↦ i == id ])

abbrev pub violates_unique : EvidenceCreate → Option ℕ → Db → Bool
violates_unique payload none db = false
violates_unique payload (some id) db = any (same_link payload id) db.evidence

unfoldable pub link : Request → EvidenceCreate → Db → Result Error (ℕ × Db)
unfolding get_by_id_for_org find_existing_link
link q payload db = do
  require (has_product q.organization_id payload.product_id db) product_not_found
  v ←
      or_raise (get_by_id_for_org q.organization_id payload.document_version_id db)
        document_version_not_found
  require (same_status v.status verified) evidence_document_version_not_verified
  require (has_requirement_version payload.requirement_version_id db) requirement_version_not_found
  require
      (not (
        is_some (
          find_existing_link q.organization_id payload.document_version_id payload.product_id
            payload.requirement_version_id db)))
      evidence_already_linked
  require (not (violates_unique payload payload.requirement_version_id db)) evidence_already_linked
  ok (
    db.next_id,
    append q (evidence_linked (new_evidence q payload db)) q.actor_user_id (record db {
      evidence = new_evidence q payload db ∷ db.evidence;
      next_id = db.next_id + 1;
    }),
  )

-- `delete`: the row leaves after the event is recorded.
unfoldable pub unlink : Request → ℕ → Db → Result Error Db
unfolding get_evidence
unlink q evidence_id db = do
  e ← or_raise (get_evidence q.organization_id evidence_id db) evidence_not_found
  ok (
      append q (evidence_unlinked e) q.actor_user_id
        (record db { evidence = filter (λ x. not (x.id == e.id)) db.evidence }))
