-- ===== src/Document/Reviewed.antt =====
-- Reviews and entries of fields in app/modules/document_version/service.py keep the tables valid.
use regnova.Prelude.{◌≡◌, refl, ap, ℕ, String, Bool, Option, some, arith}
use regnova.Prelude.Results.{ok, require, OnOk, OnOk-bind, require-ok}
use regnova.Document.Model.{
  Bytes, DocumentVersionStatus, review_required, verified, rejected, quarantined, DocumentVersion,
  Db, document_version_not_editable, document_version_transition_not_allowed, Payload, Services,
  Request, same_status,
}
use regnova.Document.Repository.{get_by_key}
use regnova.Document.Fields.{append, get_version_or_404, field_for, set_field}
use regnova.Document.Scan.{update}
use regnova.Document.Upload.{require_reviewable, reviewed, verify, reject, quarantine}
use regnova.Document.Edit.{is_past_scan, Edit-Frame, update-Edit, append-Frame, written-Frame, kept}
use regnova.Document.Valid.{IsValid, found-IsClean}
use regnova.Document.Preserve.{Edit-IsValid, Frame-IsValid}
use regnova.Document.Guards.{version_found, same_status_eq, guard_passed}

module _ (services : Services) (safe : Bytes → Bool) (q : Request) where
  abbrev Valid : Db → Type 0
  Valid db = IsValid services safe db

  -- What a reviewer decides on.
  reviewed-IsValid :
      (version_id : ℕ) (status : DocumentVersionStatus) (note : Option String) (db : Db)
      (v : DocumentVersion) (u : Unit {0}) (payload : Payload)
      → Valid db
      → get_version_or_404 q version_id db ≡ ok v
      → require_reviewable v ≡ ok u
      → Valid (append q payload q.actor_user_id (update v.id (reviewed q status note) db))
  unfolding require_reviewable
  reviewed-IsValid version_id status note db v u payload h e k =
      let found = version_found q version_id db v e in
      let allowed = require-ok _ document_version_transition_not_allowed u k in
      let clean =
        found-IsClean services safe _ v db h found
          (ap is_past_scan (same_status_eq v.status review_required allowed)) in
      Edit-IsValid services safe _ v db _ h found
        (guard_passed (λ s. same_status s review_required) v.status refl allowed)
        (Edit-Frame _ v.id db (update v.id (reviewed q status note) db) _
          (update-Edit _ v.id (reviewed q status note) db kept (λ x past. clean))
          (append-Frame q payload q.actor_user_id (update v.id (reviewed q status note) db)))

  pub verify-IsValid :
      (version_id : ℕ) (note : Option String) (db : Db)
      → Valid db
      → OnOk (λ r. Valid r.1) (verify q version_id note db)
  unfolding verify
  verify-IsValid version_id note db h =
      OnOk-bind (λ r. Valid r.1) (get_version_or_404 q version_id db) _
        (λ v e.
          OnOk-bind (λ r. Valid r.1) (require_reviewable v) _
            (λ u k. reviewed-IsValid version_id verified note db v u _ h e k))

  pub reject-IsValid :
      (version_id : ℕ) (note : String) (db : Db)
      → Valid db
      → OnOk (λ r. Valid r.1) (reject q version_id note db)
  unfolding reject
  reject-IsValid version_id note db h =
      OnOk-bind (λ r. Valid r.1) (get_version_or_404 q version_id db) _
        (λ v e.
          OnOk-bind (λ r. Valid r.1) (require_reviewable v) _
            (λ u k. reviewed-IsValid version_id rejected (some note) db v u _ h e k))

  pub quarantine-IsValid :
      (version_id : ℕ) (note : String) (db : Db)
      → Valid db
      → OnOk (λ r. Valid r.1) (quarantine q version_id note db)
  unfolding quarantine
  quarantine-IsValid version_id note db h =
      OnOk-bind (λ r. Valid r.1) (get_version_or_404 q version_id db) _
        (λ v e.
          OnOk-bind (λ r. Valid r.1) (require_reviewable v) _
            (λ u k. reviewed-IsValid version_id quarantined (some note) db v u _ h e k))

  pub set_field-IsValid :
      (version_id : ℕ) (field_key value : String) (confidence location : Option String) (db : Db)
      → Valid db
      → OnOk Valid (set_field services q version_id field_key value confidence location db)
  unfolding set_field field_for
  set_field-IsValid version_id field_key value confidence location db h =
      OnOk-bind Valid (get_version_or_404 q version_id db) _ (λ v e.
        OnOk-bind Valid
          (require (same_status v.status review_required) document_version_not_editable) _
          (λ u k. Frame-IsValid services safe db _ h (
            written-Frame (get_by_key version_id field_key db) version_id field_key db _ (record {
              versions = refl;
              documents = refl;
              evidence = refl;
              storage = refl;
              next_id = omega arith;
            }))))
