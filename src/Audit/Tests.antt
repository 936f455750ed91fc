-- ===== src/Audit/Tests.antt =====
-- Runs of app/modules/audit on small tables.
use regnova.Prelude.{
  ◌≡◌, refl, ℕ, String, true, false, Option, none, some, List, [], ◌∷◌, ◌||◌, map, arith,
}
use regnova.Prelude.Results.{ok, is_ok, OnOk}
use regnova.Prelude.Text.{str_eq}
use regnova.Access.{regulatory_knowledge_lead, platform_admin, approved}
use regnova.Audit.Model.{
  AuditVisibilityTier, customer_visible, technical_security, text, Payload, OutboxEvent, Db, Error,
}
use regnova.Audit.Log.{exists_for_source_event, record_for_event}
use regnova.Audit.Worker.{dispatch_pending_events}
use regnova.Audit.Reading.{Filters, Query, get_customer_visible, get_internal}
use regnova.Audit.Once.{IsAudited, dispatch_pending_events-IsAudited}
use regnova.Audit.Clearance.{
  is_cleared, Answered, record_for_event-unregistered, get_internal-IsShown, get_internal-is_ok,
}

abbrev uuid : String → Option ℕ
uuid s = elim (str_eq s "state") [ true ↦ some 30 | false ↦ none ]

abbrev message_of : Error → String
message_of e = "badly formed"

abbrev event_of : ℕ → String → Payload → OutboxEvent
event_of id event_type payload = record {
  id = id;
  organization_id = 1;
  event_type = event_type;
  schema_version = 1;
  payload = payload;
  created_at = id;
  actor_user_id = none;
  correlation_id = none;
  published_at = none;
  attempts = 0;
  last_error = none;
}

abbrev in_review : OutboxEvent
in_review = event_of 1 "ContentVersionTransitioned" (("to_status", text "IN_REVIEW") ∷ [])

abbrev malformed : OutboxEvent
malformed = event_of 2 "AssessmentCompleted" (("product_market_state_id", text "?") ∷ [])

abbrev completed : OutboxEvent
completed = event_of 3 "AssessmentCompleted" (("product_market_state_id", text "state") ∷ [])

-- User 7 is a knowledge lead, 8 a platform administrator.
abbrev start : Db
start = record {
  directory = record {
    upper = λ s. s;
    users = [];
    roles = [];
    grants =
        record { user_id = 7; role_code = regulatory_knowledge_lead; status = approved }
        ∷ record { user_id = 8; role_code = platform_admin; status = approved }
        ∷ [];
  };
  states = record { id = 30; organization_id = 1; product_id = 20 } ∷ [];
  outbox = in_review ∷ malformed ∷ completed ∷ [];
  audit_events = [];
  notifications = [];
}

abbrev after : Db
unfolding dispatch_pending_events
after = (dispatch_pending_events uuid message_of 50 10 start).0

-- Two of the three events are dispatched, and one knowledge lead is notified.
dispatched : (dispatch_pending_events uuid message_of 50 10 start).1 ≡ 2
unfolding dispatch_pending_events
dispatched = refl

notified : map (λ n. n.recipient_user_id) after.notifications ≡ 7 ∷ []
unfolding after
notified = refl

-- A second dispatch tries the failed event again and records nothing twice.
again :
    map
      (λ a. a.source_event_id)
      (dispatch_pending_events uuid message_of 51 10 after).0.audit_events
    ≡ some 3 ∷ some 1 ∷ []
unfolding after dispatch_pending_events
again = refl

start-IsAudited : IsAudited start
start-IsAudited = record {
  once = λ id. omega arith;
  complete = (λ e. cc, (λ e. cc, (λ e. cc, tt)));
}

dispatch_pending_events-IsAudited_example :
    IsAudited (dispatch_pending_events uuid message_of 50 10 start).0
dispatch_pending_events-IsAudited_example =
    dispatch_pending_events-IsAudited uuid message_of 50 10 start start-IsAudited

record_for_event-unregistered_example :
    (db' : Db) × (record_for_event uuid in_review start ≡ ok db')
    × (exists_for_source_event 1 db' ≡ true)
    × ((organization_id : ℕ) (filters : Filters)
        → get_customer_visible organization_id filters db'
          ≡ get_customer_visible organization_id filters start)
record_for_event-unregistered_example = record_for_event-unregistered uuid in_review start refl

abbrev no_filters : Filters
no_filters = record {
  product_id = none;
  product_market_state_id = none;
  actor_user_id = none;
  event_type = none;
  occurred_from = none;
  occurred_to = none;
}

abbrev query : Query
query = record {
  caller_user_id = 7;
  organization_id = 1;
  correlation_id = none;
  requested_tiers = some (customer_visible ∷ technical_security ∷ []);
  filters = no_filters;
  now = 60;
}

abbrev payload_of : Query → List AuditVisibilityTier → ℕ → Payload
payload_of q tiers n = []

get_internal-IsShown_example :
    OnOk (Answered payload_of query after) (get_internal payload_of query after)
get_internal-IsShown_example = get_internal-IsShown payload_of query after

get_internal-is_ok_example :
    is_ok (get_internal payload_of query after)
    ≡ (is_cleared after 7 customer_visible || is_cleared after 7 technical_security)
get_internal-is_ok_example = get_internal-is_ok payload_of query after
