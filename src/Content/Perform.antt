-- ===== src/Content/Perform.antt =====
-- One transition of app/modules/content_review/service.py, by its kind.
use regnova.Prelude.{
  ◌≡◌, refl, String, Bool, true, Option, none, some, [], ◌∷◌, ◌↔◌, any, ◌||◌, arith, if◌then◌else◌,
  is_some,
}
use regnova.Prelude.Results.{Result, ok, OnOk, OnOk_apply, OnOk-bind, require-ok, requires-ok}
use regnova.Access.{
  has_internal_role, regulatory_content_advisor, regulatory_knowledge_lead, get_user,
}
use regnova.Content.Model.{
  VersionStatus, draft, in_review, verified, active, Version, Db, Error, transition_not_allowed,
  transition_not_authorized, user_not_found,
}
use regnova.Content.Workflow.{
  Request, require_status, load_actor_or_404, require_author, require_verifier, write,
  submit_for_review, verify, activate, reject, has_activated_at, same_status,
}
use regnova.Content.Bulk.{Action, verify_, activate_, act}

pub data Operation : Type 0 where
  submit_ : Operation
  decide_ : Action → String → Operation
  reject_ : String → Operation

unfoldable pub perform : Operation → Request → Version → Db → Result Error Db
unfolding submit_for_review act reject
perform submit_ q v db = submit_for_review q v db
perform (decide_ action rationale) q v db = act action q rationale v db
perform (reject_ rationale) q v db = reject q v rationale db

-- The role that a transition asks of its actor.
abbrev pub has_authority : Operation → Request → Db → Bool
has_authority submit_ q db =
    has_internal_role db.directory q.actor_user_id regulatory_content_advisor
    || has_internal_role db.directory q.actor_user_id regulatory_knowledge_lead
has_authority _ q db = has_internal_role db.directory q.actor_user_id regulatory_knowledge_lead

-- What a transition does to its row, and the rationale that it records.
abbrev pub change_of : Operation → Request → Version → Version
change_of submit_ q v = record v { status = in_review }
change_of (decide_ verify_ rationale) q v = record v {
  status = verified;
  verified_at = some q.now;
  reviewer_user_id = some q.actor_user_id;
}
change_of (decide_ activate_ rationale) q v = record v {
  status = active;
  activated_at = if has_activated_at v.content_type then some q.now else v.activated_at;
}
change_of (reject_ rationale) q v = record v { status = draft }

abbrev pub rationale_of : Operation → Option String
rationale_of submit_ = none
rationale_of (decide_ action rationale) = some rationale
rationale_of (reject_ rationale) = some rationale

-- The status that a transition starts from.
abbrev pub source_of : Operation → VersionStatus
source_of submit_ = draft
source_of (decide_ verify_ rationale) = in_review
source_of (decide_ activate_ rationale) = verified
source_of (reject_ rationale) = in_review

-- What holds when a transition has gone through.
abbrev pub Done : Operation → Request → Version → Db → Db → Type 0
Done op q v db db' =
    (v.status ≡ source_of op)
    × (is_some (get_user db.directory q.actor_user_id) ≡ true)
    × (has_authority op q db ≡ true)
    × (db' ≡ write v (change_of op q) q.actor_user_id (rationale_of op) db)

one_status : (s t : VersionStatus) → any (same_status s) (t ∷ []) ≡ true → s ≡ t
one_status s t h = ground (arith, h)

verifier_done :
    (q : Request) (db : Db) (u : Unit {0})
    → require_verifier db q.actor_user_id ≡ ok u
    → (is_some (get_user db.directory q.actor_user_id) ≡ true)
      × (has_internal_role db.directory q.actor_user_id regulatory_knowledge_lead ≡ true)
unfolding require_verifier load_actor_or_404
verifier_done q db u e = requires-ok _ _ user_not_found transition_not_authorized u e

author_done :
    (q : Request) (db : Db) (u : Unit {0})
    → require_author db q.actor_user_id ≡ ok u
    → (is_some (get_user db.directory q.actor_user_id) ≡ true) × (has_authority submit_ q db ≡ true)
unfolding require_author load_actor_or_404
author_done q db u e = requires-ok _ _ user_not_found transition_not_authorized u e

status_done :
    (v : Version) (s : VersionStatus) (u : Unit {0})
    → require_status v (s ∷ []) ≡ ok u
    → v.status ≡ s
unfolding require_status
status_done v s u e = one_status v.status s (require-ok _ transition_not_allowed u e)

-- A transition that goes through starts from the status of its kind, by an actor with the role that it
-- asks for; it then changes the row, records the transition and publishes it.
perform-Done :
    (op : Operation) (q : Request) (v : Version) (db : Db)
    → OnOk (Done op q v db) (perform op q v db)
unfolding perform submit_for_review verify activate reject act
perform-Done submit_ q v db =
    OnOk-bind (Done submit_ q v db) (require_status v (draft ∷ [])) _ (λ u e.
      OnOk-bind (Done submit_ q v db) (require_author db q.actor_user_id) _
        (λ w k. let who = author_done q db w k in (status_done v draft u e, who.0, who.1, refl)))
perform-Done (decide_ verify_ rationale) q v db =
    OnOk-bind (Done (decide_ verify_ rationale) q v db) (require_status v (in_review ∷ [])) _
      (λ u e.
        OnOk-bind (Done (decide_ verify_ rationale) q v db) (require_verifier db q.actor_user_id) _
          (λ w k.
            let who = verifier_done q db w k in (status_done v in_review u e, who.0, who.1, refl)))
perform-Done (decide_ activate_ rationale) q v db =
    OnOk-bind (Done (decide_ activate_ rationale) q v db) (require_status v (verified ∷ [])) _
      (λ u e.
        OnOk-bind (Done (decide_ activate_ rationale) q v db) (require_verifier db q.actor_user_id)
          _
          (λ w k.
            let who = verifier_done q db w k in (status_done v verified u e, who.0, who.1, refl)))
perform-Done (reject_ rationale) q v db =
    OnOk-bind (Done (reject_ rationale) q v db) (require_status v (in_review ∷ [])) _ (λ u e.
      OnOk-bind (Done (reject_ rationale) q v db) (require_verifier db q.actor_user_id) _ (λ w k.
        let who = verifier_done q db w k in (status_done v in_review u e, who.0, who.1, refl)))

Done-performs :
    (op : Operation) (q : Request) (v : Version) (db db' : Db)
    → Done op q v db db'
    → perform op q v db ≡ ok db'
unfolding perform submit_for_review verify activate reject act require_status require_author
    require_verifier load_actor_or_404
Done-performs submit_ q v db db' h = ground (arith, h)
Done-performs (decide_ verify_ rationale) q v db db' h = ground (arith, h)
Done-performs (decide_ activate_ rationale) q v db db' h = ground (arith, h)
Done-performs (reject_ rationale) q v db db' h = ground (arith, h)

-- A transition goes through exactly if the version has the status that it starts from, the actor is
-- known and has the role that it asks for; it then changes the version's row, records one transition
-- and publishes it where there is a tenant zero, and changes nothing else.
pub perform-Done_iff :
    (op : Operation) (q : Request) (v : Version) (db db' : Db)
    → (perform op q v db ≡ ok db') ↔ Done op q v db db'
perform-Done_iff op q v db db' =
    (λ e. OnOk_apply (Done op q v db) e (perform-Done op q v db), Done-performs op q v db db')
