-- ===== src/Document/Guards.antt =====
-- What the guards of app/modules/document_version/service.py establish.
use regnova.Prelude.{
  ◌≡◌, ◌≢◌, sym, ap, ◌∙◌, ℕ, Bool, true, false, some, [], ◌∷◌, any, find, arith, ◌==◌, ◌&&◌,
  Bool-cases, inl, inr, is_some,
}
use regnova.Prelude.Results.{Result, ok, raise, ◌>>◌, require, or_raise, OnOk, or_raise-ok}
use regnova.Document.Model.{
  DocumentVersionStatus, processing, review_required, verified, DocumentVersion, Db, Error,
  document_not_found, document_version_not_found, Request, same_status,
}
use regnova.Document.Repository.{get_document, get_version}
use regnova.Document.Fields.{get_version_or_404}
use regnova.Document.Edit.{is_past_scan}
use regnova.Document.Perform.{tables}

-- A version that a request names is in the table.
pub version_found :
    (q : Request) (version_id : ℕ) (db : Db) (v : DocumentVersion)
    → get_version_or_404 q version_id db ≡ ok v
    → find
        (λ x.
          x.id == version_id
          && x.document_id == q.document_id
          && x.organization_id == q.organization_id)
        db.versions
      ≡ some v
unfolding get_version_or_404 get_version
version_found q version_id db v e =
    elim (Bool-cases (is_some (get_document q.organization_id q.document_id db))) [
      | inl h ↦ or_raise-ok _ document_version_not_found v (
          ap
            (λ b.
              require b document_not_found
              >> or_raise (get_version q.organization_id q.document_id version_id db)
                  document_version_not_found)
            (sym h)
          ∙ e)
      | inr h ↦ ground (arith, e, h)
    ]

pub same_status_eq : (s t : DocumentVersionStatus) → same_status s t ≡ true → s ≡ t
same_status_eq s t h = ground (arith, h)

absurd_bool : false ≡ true → ⊥
absurd_bool h = cc

-- A version of a status that a guard lets pass and `verified` does not is not verified.
pub guard_passed :
    (guard : DocumentVersionStatus → Bool) (s : DocumentVersionStatus)
    → guard verified ≡ false
    → guard s ≡ true
    → s ≢ verified
guard_passed guard s d h e = absurd_bool (sym d ∙ ap guard (sym e) ∙ h)

pub extractable_past :
    (s : DocumentVersionStatus)
    → any (same_status s) (review_required ∷ processing ∷ []) ≡ true
    → is_past_scan s ≡ true
extractable_past s h = ground (arith, h)

pub OnOk-tables :
    (P : Db → Type 0) (m : Result Error (ℕ × Db)) → OnOk (λ r. P r.1) m → OnOk P (tables m)
OnOk-tables P (ok r) h = h
OnOk-tables P (raise e) h = tt
