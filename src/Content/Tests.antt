-- ===== src/Content/Tests.antt =====
-- A requirement and a rule from draft to active, and the theorems about
-- app/modules/content_review/service.py at them.
use regnova.Prelude.{◌≡◌, ◌↔◌, refl, ℕ, String, none, some, List, [], ◌∷◌, any, ◌&&◌, if◌then◌else◌}
use regnova.Prelude.Results.{Result, ok, raise}
use regnova.Prelude.Rows.{modify_first}
use regnova.Access.{
  Directory, regulatory_knowledge_lead, regulatory_content_advisor, approved, get_user,
  get_active_for_user_role, has_internal_role,
}
use regnova.Content.Model.{
  ContentType, requirement_version, rule_version, draft, verified, Version, Db, Error,
}
use regnova.Content.Workflow.{
  Request, require_status, load_actor_or_404, require_author, require_verifier, record_transition,
  publish_event, create_draft, submit_for_review, verify, activate, reject,
}
use regnova.Content.Bulk.{
  Item, verify_, content_type_of, resolve, act, apply_one, apply, bulk_verify, bulk_activate,
}
use regnova.Content.Trail.{Valid}
use regnova.Content.Perform.{submit_, perform, Done, perform-Done_iff}
use regnova.Content.History.{Reach, here, drafted, moved, bulk, Reach-Valid}
use regnova.Content.Status.{status_of, names, starts, target, may_act}
use regnova.Content.Batch.{apply-status}

samples : Unit {0}
unfolding modify_first get_user get_active_for_user_role has_internal_role require_status
    load_actor_or_404 require_author require_verifier record_transition publish_event create_draft
    submit_for_review verify activate reject content_type_of resolve act apply_one apply bulk_verify
    bulk_activate perform
samples = tt

-- User 2 is an advisor and user 3 the knowledge lead.
abbrev staff : Directory
staff = record {
  upper = λ s. s;
  users =
      record { id = 2; organization_id = 0; role_id = 70 }
      ∷ record { id = 3; organization_id = 0; role_id = 70 }
      ∷ [];
  roles = [];
  grants =
      record { user_id = 2; role_code = regulatory_content_advisor; status = approved }
      ∷ record { user_id = 3; role_code = regulatory_knowledge_lead; status = approved }
      ∷ [];
}

abbrev start : Db
start = record {
  directory = staff;
  tenant_zero = some 0;
  versions = [];
  transitions = [];
  outbox = [];
}

abbrev by : ℕ → Request
by actor = record { actor_user_id = actor; now = 99 }

abbrev item : String → ℕ → Item
item content_type id = record { content_type = content_type; content_id = id }

abbrev requested : List Item
requested = item "rule_version" 12 ∷ item "requirement_version" 11 ∷ item "law" 13 ∷ []

drafts : Db
drafts = create_draft (by 2) rule_version 12 (create_draft (by 2) requirement_version 11 start)

abbrev requirement : Version
requirement = record {
  content_type = requirement_version;
  id = 11;
  status = draft;
  reviewer_user_id = none;
  verified_at = none;
  activated_at = none;
}

abbrev or_start : Result Error Db → Db
or_start (ok db) = db
or_start (raise e) = start

submitted : Db
submitted = or_start (perform submit_ (by 2) requirement drafts)

submitted_is : perform submit_ (by 2) requirement drafts ≡ ok submitted
unfolding samples drafts submitted
submitted_is = refl

perform-Done_iff_example :
    (perform submit_ (by 2) requirement drafts ≡ ok submitted)
    ↔ Done submit_ (by 2) requirement drafts submitted
perform-Done_iff_example = perform-Done_iff submit_ (by 2) requirement drafts submitted

checked : Db
checked = (apply verify_ (by 3) "checked" requested submitted).0

-- The draft and the unknown type fail alone.
checked_statuses :
    (status_of requirement_version 11 checked ≡ some verified)
    × (status_of rule_version 12 checked ≡ some draft)
unfolding samples drafts submitted checked
checked_statuses = (refl, refl)

apply-status_example :
    status_of requirement_version 11 (apply verify_ (by 3) "checked" requested submitted).0 ≡ (
      if any (names requirement_version 11) requested
        && may_act verify_ (by 3) "checked" submitted
        && starts verify_ (status_of requirement_version 11 submitted)
      then some (target verify_)
      else status_of requirement_version 11 submitted)
apply-status_example =
    apply-status verify_ (by 3) "checked" requested submitted requirement_version 11

reached : Reach start checked
unfolding samples drafts submitted checked
reached = bulk verify_ (by 3) "checked" requested (
    moved submit_ (by 2) requirement_version 11 requirement refl submitted_is (
      drafted (by 2) rule_version 12 refl
        (drafted (by 2) requirement_version 11 refl (here start))))

start-Valid : (t : ContentType) (i : ℕ) → Valid t i start
start-Valid t i = refl

Reach-Valid_example : Valid requirement_version 11 checked
Reach-Valid_example = Reach-Valid reached start-Valid requirement_version 11
