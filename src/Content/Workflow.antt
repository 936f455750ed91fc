-- ===== src/Content/Workflow.antt =====
-- `ContentReviewWorkflow` of app/modules/content_review/service.py. A method gets the row that its
-- caller has loaded and returns the tables, or raises; the caller commits.
use regnova.Prelude.{
  ℕ, String, Bool, true, false, Option, none, some, List, [], ◌∷◌, ◌||◌, if◌then◌else◌, any,
  is_some,
}
use regnova.Prelude.Results.{Result, ok, ◌>>◌, require}
use regnova.Prelude.Rows.{modify_first}
use regnova.Access.{
  get_user, has_internal_role, regulatory_content_advisor, regulatory_knowledge_lead,
}
use regnova.Content.Model.{
  ContentType, source_version, VersionStatus, draft, in_review, verified, active, superseded,
  archived, Version, Db, Error, transition_not_allowed, transition_not_authorized, user_not_found,
  is_version,
}

-- Who acts and when.
pub record Request : Type 0 where
  pub actor_user_id : ℕ
  pub now : ℕ

abbrev pub same_status : VersionStatus → VersionStatus → Bool
same_status draft draft = true
same_status in_review in_review = true
same_status verified verified = true
same_status active active = true
same_status superseded superseded = true
same_status archived archived = true
same_status _ _ = false

-- `_require_status`.
unfoldable pub require_status : Version → List VersionStatus → Result Error (Unit {0})
require_status v allowed = require (any (same_status v.status) allowed) transition_not_allowed

-- `_load_actor_or_404`.
unfoldable pub load_actor_or_404 : Db → ℕ → Result Error (Unit {0})
load_actor_or_404 db actor_user_id =
    require (is_some (get_user db.directory actor_user_id)) user_not_found

-- `_require_author`.
unfoldable pub require_author : Db → ℕ → Result Error (Unit {0})
unfolding load_actor_or_404
require_author db actor_user_id = do
  load_actor_or_404 db actor_user_id
  require
      (has_internal_role db.directory actor_user_id regulatory_content_advisor
        || has_internal_role db.directory actor_user_id regulatory_knowledge_lead)
      transition_not_authorized

-- `_require_verifier`.
unfoldable pub require_verifier : Db → ℕ → Result Error (Unit {0})
unfolding load_actor_or_404
require_verifier db actor_user_id = do
  load_actor_or_404 db actor_user_id
  require (has_internal_role db.directory actor_user_id regulatory_knowledge_lead)
      transition_not_authorized

-- `_record_transition`.
unfoldable pub record_transition :
    Version → Option VersionStatus → VersionStatus → ℕ → Option String → Db → Db
record_transition v from_status to_status actor_user_id rationale db = record db {
  transitions =
      record {
        content_type = v.content_type;
        content_version_id = v.id;
        from_status = from_status;
        to_status = to_status;
        actor_user_id = some actor_user_id;
        rationale = rationale;
      }
      ∷ db.transitions;
}

-- `_publish_event`: without a tenant zero the event is left out.
unfoldable pub publish_event :
    Version → Option VersionStatus → VersionStatus → ℕ → Option String → Db → Db
publish_event v from_status to_status actor_user_id rationale db = elim db.tenant_zero [
  | none ↦ db
  | some organization_id ↦ record db {
    outbox =
        record {
          organization_id = organization_id;
          content_type = v.content_type;
          content_version_id = v.id;
          from_status = from_status;
          to_status = to_status;
          rationale = rationale;
          actor_user_id = some actor_user_id;
        }
        ∷ db.outbox;
  }
]

-- The loaded row is changed in place, and the transition recorded and published.
abbrev pub write : Version → (Version → Version) → ℕ → Option String → Db → Db
write v change actor_user_id rationale db =
    let to_status = (change v).status in
    publish_event v (some v.status) to_status actor_user_id rationale (
      record_transition v (some v.status) to_status actor_user_id rationale
        (record db { versions = modify_first (is_version v.content_type v.id) change db.versions }))

-- `require_editable`.
unfoldable pub require_editable : Version → Result Error (Unit {0})
unfolding require_status
require_editable v = require_status v (draft ∷ [])

-- The row and the first transition of a new version: `create` of the three version services, by
-- what concerns the workflow, with `draft`.
unfoldable pub create_draft : Request → ContentType → ℕ → Db → Db
unfolding record_transition
create_draft q content_type id db =
    let v : Version = record {
      content_type = content_type;
      id = id;
      status = draft;
      reviewer_user_id = none;
      verified_at = none;
      activated_at = none;
    } in
    record_transition v none draft q.actor_user_id none (record db { versions = v ∷ db.versions })

unfoldable pub submit_for_review : Request → Version → Db → Result Error Db
unfolding require_status require_author publish_event record_transition modify_first
submit_for_review q v db = do
  require_status v (draft ∷ [])
  require_author db q.actor_user_id
  ok (write v (λ x. record x { status = in_review }) q.actor_user_id none db)

unfoldable pub verify : Request → Version → String → Db → Result Error Db
unfolding require_status require_verifier publish_event record_transition modify_first
verify q v rationale db = do
  require_status v (in_review ∷ [])
  require_verifier db q.actor_user_id
  ok (
      write v
        (λ x. record x {
          status = verified;
          verified_at = some q.now;
          reviewer_user_id = some q.actor_user_id;
        })
        q.actor_user_id (some rationale) db)

abbrev pub has_activated_at : ContentType → Bool
has_activated_at source_version = true
has_activated_at _ = false

unfoldable pub activate : Request → Version → String → Db → Result Error Db
unfolding require_status require_verifier publish_event record_transition modify_first
activate q v rationale db = do
  require_status v (verified ∷ [])
  require_verifier db q.actor_user_id
  ok (
      write v
        (λ x. record x {
          status = active;
          activated_at = if has_activated_at x.content_type then some q.now else x.activated_at;
        })
        q.actor_user_id (some rationale) db)

unfoldable pub reject : Request → Version → String → Db → Result Error Db
unfolding require_status require_verifier publish_event record_transition modify_first
reject q v rationale db = do
  require_status v (in_review ∷ [])
  require_verifier db q.actor_user_id
  ok (write v (λ x. record x { status = draft }) q.actor_user_id (some rationale) db)
