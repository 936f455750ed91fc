-- ===== src/Audit/Model.antt =====
-- The rows of app/modules/audit/models.py and app/modules/notification/models.py. A payload is the
-- list of its keys and values.
use regnova.Prelude.{ℕ, String, Bool, true, false, Option, none, some, List, find}
use regnova.Prelude.Text.{str_eq, is_empty}
use regnova.Access.{Directory}

pub data AuditVisibilityTier : Type 0 where
  customer_visible internal_regulatory technical_security : AuditVisibilityTier

-- A value of JSON: null, a text, or another value by its text and whether Python takes it for true.
pub data Value : Type 0 where
  null : Value
  text : String → Value
  other : String → Bool → Value

abbrev pub Payload : Type 0
Payload = List (String × Value)

-- A row of the outbox.
pub record OutboxEvent : Type 0 where
  pub id : ℕ
  pub organization_id : ℕ
  pub event_type : String
  pub schema_version : ℕ
  pub payload : Payload
  pub created_at : ℕ
  pub actor_user_id : Option ℕ
  pub correlation_id : Option String
  pub published_at : Option ℕ
  pub attempts : ℕ
  pub last_error : Option String

pub record AuditEvent : Type 0 where
  pub organization_id : ℕ
  pub source_event_id : Option ℕ
  pub event_type : String
  pub schema_version : ℕ
  pub occurred_at : ℕ
  pub actor_user_id : Option ℕ
  pub correlation_id : Option String
  pub product_id : Option ℕ
  pub product_market_state_id : Option ℕ
  pub visibility_tier : AuditVisibilityTier
  pub payload : Payload
  pub internal_payload : Option Payload

pub record Notification : Type 0 where
  pub recipient_user_id : ℕ
  pub event_type : String
  pub payload : Payload
  pub source_event_id : ℕ
  pub read_at : Option ℕ

-- The product of a market state, by organization.
pub record ProductMarketState : Type 0 where
  pub id : ℕ
  pub organization_id : ℕ
  pub product_id : ℕ

-- The outbox stands in the order of created_at; the other tables have their newest rows first.
pub record Db : Type 0 where
  pub directory : Directory
  pub states : List ProductMarketState
  pub outbox : List OutboxEvent
  pub audit_events : List AuditEvent
  pub notifications : List Notification

-- ValueError of `UUID(...)` with its text, and AuditReaderNotAuthorized.
pub data Error : Type 0 where
  bad_uuid : String → Error
  audit_reader_not_authorized : Error

abbrev pub value_of : Option (String × Value) → Value
value_of none = null
value_of (some entry) = entry.1

-- `payload.get(key)`.
abbrev pub get : String → Payload → Value
get key payload = value_of (find (λ entry. str_eq entry.0 key) payload)

abbrev pub is_truthy : Value → Bool
is_truthy null = false
is_truthy (text s) = elim (is_empty s) [ true ↦ false | false ↦ true ]
is_truthy (other s truthy) = truthy
