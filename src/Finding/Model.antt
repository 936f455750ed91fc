-- ===== src/Finding/Model.antt =====
-- The rows of app/modules/finding/models.py and of the outbox (app/modules/audit/models.py).
-- Identifiers and times are numbers; a location is the text of its JSON.
use regnova.Prelude.{ℕ, String, Bool, true, false, Option, List}
use regnova.Access.{Directory}

pub data FindingStatus : Type 0 where
  proposed open_ customer_responded resolved accepted_with_rationale : FindingStatus
  not_applicable rejected superseded : FindingStatus

pub data Severity : Type 0 where
  critical major moderate minor informational : Severity

-- TERMINAL_FINDING_STATUSES.
abbrev pub is_terminal : FindingStatus → Bool
is_terminal resolved = true
is_terminal accepted_with_rationale = true
is_terminal not_applicable = true
is_terminal rejected = true
is_terminal superseded = true
is_terminal _ = false

-- NON_TERMINAL_FINDING_STATUSES.
abbrev pub is_non_terminal : FindingStatus → Bool
is_non_terminal proposed = true
is_non_terminal open_ = true
is_non_terminal customer_responded = true
is_non_terminal _ = false

pub record Finding : Type 0 where
  pub id : ℕ
  pub organization_id : ℕ
  pub product_market_state_id : ℕ
  pub dimension : String
  pub requirement_version_id : Option ℕ
  pub rule_version_id : Option ℕ
  pub subject_key : Option String

pub record FindingRevision : Type 0 where
  pub finding_id : ℕ
  pub revision_number : ℕ
  pub assessment_run_id : ℕ
  pub issue_type : String
  pub observed_value : String
  pub normalized_value : Option String
  pub observed_location : Option String
  pub severity : Severity
  pub status : FindingStatus
  pub disposition : Option String
  pub hard_gate_effect : Bool
  pub rationale : String
  pub analysis_method : Option String
  pub ai_model_identifier : Option String
  pub ai_prompt_version : Option String
  pub decided_by_user_id : Option ℕ
  pub resolution_decision : Option String
  pub resolved_at : Option ℕ
  pub source_locations : List ℕ

pub record ProposedPayload : Type 0 where
  pub finding_id : ℕ
  pub product_market_state_id : ℕ
  pub dimension : String
  pub subject_key : Option String
  pub assessment_run_id : ℕ
  pub requirement_version_id : Option ℕ
  pub rule_version_id : Option ℕ
  pub severity : Severity
  pub hard_gate_effect : Bool
  pub issue_type : String
  pub observed_value : String
  pub observed_location : Option String
  pub rationale : String
  pub analysis_method : Option String
  pub ai_model_identifier : Option String
  pub ai_prompt_version : Option String

pub record DecisionPayload : Type 0 where
  pub finding_id : ℕ
  pub product_market_state_id : ℕ
  pub dimension : String
  pub from_status : FindingStatus
  pub to_status : FindingStatus
  pub rationale : String
  pub disposition : Option String

-- The event types that this module publishes, with their payloads.
pub data Payload : Type 0 where
  finding_proposed : ProposedPayload → Payload
  finding_decision_changed : DecisionPayload → Payload

pub record OutboxEvent : Type 0 where
  pub organization_id : ℕ
  pub payload : Payload
  pub actor_user_id : Option ℕ
  pub correlation_id : Option String

-- The tables, newest rows first.
pub record Db : Type 0 where
  pub directory : Directory
  pub findings : List Finding
  pub revisions : List FindingRevision
  pub outbox : List OutboxEvent

pub data Error : Type 0 where
  finding_not_found user_not_found transition_not_allowed transition_not_authorized : Error

pub data Result (A : Type 0) : Type 0 where
  ok : A → Result A
  raise : Error → Result A

-- A request's transaction: what was written is kept only if nothing is raised.
abbrev pub Action : Type 0 → Type 0
Action A = Db → Result (A × Db)

infixl 5 ◌>>=◌ ◌>>◌
abbrev pub ◌>>=◌ : {A B : Type 0} → Action A → (A → Action B) → Action B
◌>>=◌ m f db = elim (m db) [ raise e ↦ raise e | ok (a, db') ↦ f a db' ]

abbrev pub ◌>>◌ : {A B : Type 0} → Action A → Action B → Action B
m >> k = m >>= λ _. k

abbrev pub pure : {A : Type 0} → A → Action A
pure a db = ok (a, db)

abbrev pub gets : {A : Type 0} → (Db → A) → Action A
gets f db = ok (f db, db)

abbrev pub or_raise : {A : Type 0} → Error → Option A → Action A
or_raise e Option.none db = raise e
or_raise e (Option.some a) db = ok (a, db)

abbrev pub require : Bool → Error → Action (Unit {0})
require true e db = ok (tt, db)
require false e db = raise e

abbrev pub modify : (Db → Db) → Action (Unit {0})
modify f db = ok (tt, f db)
