-- ===== src/Content/Bulk.antt =====
-- `BulkContentReviewService` of app/modules/content_review/service.py.
use regnova.Prelude.{ℕ, String, Option, List, [], ◌∷◌, find}
use regnova.Prelude.Results.{Result, ok, raise, ◌>>=◌, or_raise}
use regnova.Prelude.Text.{str_eq}
use regnova.Content.Model.{
  ContentType, requirement_version, rule_version, source_version, Version, Db, Error,
  unknown_content_type, is_version,
}
use regnova.Content.Workflow.{Request, verify, activate}

pub record Item : Type 0 where
  pub content_type : String
  pub content_id : ℕ

-- The status of a result with its error: the past tense of the action, or "failed".
pub data ItemStatus : Type 0 where
  done : ItemStatus
  failed : Error → ItemStatus

pub record ItemResult : Type 0 where
  pub content_type : String
  pub content_id : ℕ
  pub status : ItemStatus

pub data Action : Type 0 where
  verify_ activate_ : Action

abbrev pub type_text : ContentType → String
type_text requirement_version = "requirement_version"
type_text rule_version = "rule_version"
type_text source_version = "source_version"

-- `_content_type_registry().get(content_type)`.
unfoldable pub content_type_of : String → Option ContentType
content_type_of text =
    find (λ t. str_eq (type_text t) text) (requirement_version ∷ rule_version ∷ source_version ∷ [])

-- `_resolve`.
unfoldable pub resolve : Item → Db → Result Error Version
unfolding content_type_of
resolve item db = do
  content_type ← or_raise (content_type_of item.content_type) unknown_content_type
  or_raise (find (is_version content_type item.content_id) db.versions) unknown_content_type

-- `getattr(workflow, action)`.
unfoldable pub act : Action → Request → String → Version → Db → Result Error Db
unfolding verify activate
act verify_ q rationale v db = verify q v rationale db
act activate_ q rationale v db = activate q v rationale db

-- The work on one item, up to its commit.
unfoldable pub apply_one : Action → Request → String → Item → Db → Result Error Db
unfolding resolve act
apply_one action q rationale item db = do v ← resolve item db; act action q rationale v db

-- What the loop goes on with: after a failure the session is rolled back.
abbrev pub settled : Db → Result Error Db → Db × ItemStatus
settled db (ok db') = (db', done)
settled db (raise e) = (db, failed e)

-- `_apply`.
unfoldable pub apply : Action → Request → String → List Item → Db → Db × List ItemResult
unfolding apply_one
apply action q rationale [] db = (db, [])
apply action q rationale (item ∷ items) db =
    let (next, status) = settled db (apply_one action q rationale item db) in
    let (last, results) = apply action q rationale items next in
    (
      last,
      record { content_type = item.content_type; content_id = item.content_id; status = status }
          ∷ results,
    )

unfoldable pub bulk_verify : Request → String → List Item → Db → Db × List ItemResult
unfolding apply
bulk_verify q rationale items db = apply verify_ q rationale items db

unfoldable pub bulk_activate : Request → String → List Item → Db → Db × List ItemResult
unfolding apply
bulk_activate q rationale items db = apply activate_ q rationale items db
