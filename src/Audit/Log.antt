-- ===== src/Audit/Log.antt =====
-- `record_for_event` of app/modules/audit/service.py and app/modules/notification/service.py.
use regnova.Prelude.{
  ℕ, String, Bool, false, Option, none, some, List, [], ◌∷◌, any, filter, map, ◌==◌, ◌&&◌,
  if◌then◌else◌,
}
use regnova.Prelude.Results.{Result, ok, ◌>>=◌}
use regnova.Prelude.Text.{str_eq}
use regnova.Access.{Directory, regulatory_knowledge_lead, role_number, is_approved}
use regnova.Audit.Model.{
  Value, null, text, other, Payload, OutboxEvent, AuditEvent, Notification, Db, Error, get,
}
use regnova.Audit.Builders.{AuditEventDraft, builder_of}

abbrev pub is_id : Option ℕ → ℕ → Bool
is_id none id = false
is_id (some i) id = i == id

abbrev pub is_source : ℕ → AuditEvent → Bool
is_source event_id a = is_id a.source_event_id event_id

-- `exists_for_source_event`.
unfoldable pub exists_for_source_event : ℕ → Db → Bool
exists_for_source_event event_id db = any (is_source event_id) db.audit_events

abbrev pub audit_event_of : OutboxEvent → AuditEventDraft → AuditEvent
audit_event_of event draft = record {
  organization_id = event.organization_id;
  source_event_id = some event.id;
  event_type = event.event_type;
  schema_version = event.schema_version;
  occurred_at = event.created_at;
  actor_user_id = event.actor_user_id;
  correlation_id = event.correlation_id;
  product_id = draft.product_id;
  product_market_state_id = draft.product_market_state_id;
  visibility_tier = draft.visibility_tier;
  payload = draft.payload;
  internal_payload = draft.internal_payload;
}

-- `create_from_event`.
abbrev pub add_audit_event : AuditEvent → Db → Db
add_audit_event a db = record db { audit_events = a ∷ db.audit_events }

module _ (uuid : String → Option ℕ) where
  abbrev pub built : OutboxEvent → Db → Result Error AuditEventDraft → Result Error Db
  built event db m = m >>= λ draft. ok (add_audit_event (audit_event_of event draft) db)

  -- `AuditService.record_for_event`.
  unfoldable pub record_for_event : OutboxEvent → Db → Result Error Db
  unfolding exists_for_source_event builder_of
  record_for_event event db =
      if exists_for_source_event event.id db
      then ok db
      else built event db (builder_of uuid event.event_type db event)

abbrev pub is_in_review : Value → Bool
is_in_review null = false
is_in_review (text s) = str_eq s "IN_REVIEW"
is_in_review (other s truthy) = false

-- `get_active_holders`.
unfoldable pub get_active_holders : Directory → List ℕ
get_active_holders d =
    map (λ g. g.user_id)
      (filter
        (λ g.
          role_number g.role_code == role_number regulatory_knowledge_lead && is_approved g.status)
        d.grants)

-- `_resolve_content_version_transitioned_recipients`.
unfoldable pub resolve_content_version_transitioned_recipients : Db → Payload → List ℕ
unfolding get_active_holders
resolve_content_version_transitioned_recipients db payload =
    if is_in_review (get "to_status" payload) then get_active_holders db.directory else []

-- `exists_for_event_and_recipient`.
abbrev pub is_for : ℕ → ℕ → Notification → Bool
is_for event_id user_id n = (n.source_event_id == event_id) && (n.recipient_user_id == user_id)

-- `create_for_event`.
abbrev pub add_notification : OutboxEvent → ℕ → Db → Db
add_notification event user_id db = record db {
  notifications =
      record {
        recipient_user_id = user_id;
        event_type = event.event_type;
        payload = event.payload;
        source_event_id = event.id;
        read_at = none;
      }
      ∷ db.notifications;
}

unfoldable pub notify_all : OutboxEvent → List ℕ → Db → Db
notify_all event [] db = db
notify_all event (user_id ∷ user_ids) db = notify_all event user_ids (
    if any (is_for event.id user_id) db.notifications
    then db
    else add_notification event user_id db)

-- RESOLVERS and `NotificationService.record_for_event`.
unfoldable pub notify : OutboxEvent → Db → Db
unfolding notify_all resolve_content_version_transitioned_recipients
notify event db =
    if str_eq event.event_type "ContentVersionTransitioned"
    then notify_all event (resolve_content_version_transitioned_recipients db event.payload) db
    else db
