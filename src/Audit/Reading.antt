-- ===== src/Audit/Reading.antt =====
-- The queries of `AuditService` in app/modules/audit/service.py and the record that they leave.
use regnova.Prelude.{
  ℕ, String, Bool, true, false, Option, none, some, List, [], ◌∷◌, ◌++◌, any, filter, length, ◌==◌,
  ◌&&◌, leb, if◌then◌else◌,
}
use regnova.Prelude.Results.{Result, ok, ◌>>◌, require}
use regnova.Prelude.Text.{str_eq}
use regnova.Access.{
  has_internal_role, ra, senior_reviewer, platform_admin, regulatory_knowledge_lead,
  regulatory_content_advisor, auditor,
}
use regnova.Audit.Model.{
  AuditVisibilityTier, customer_visible, internal_regulatory, technical_security, Payload,
  AuditEvent, Db, Error, audit_reader_not_authorized,
}

abbrev pub same_tier : AuditVisibilityTier → AuditVisibilityTier → Bool
same_tier customer_visible customer_visible = true
same_tier internal_regulatory internal_regulatory = true
same_tier technical_security technical_security = true
same_tier _ _ = false

abbrev pub has_tier : List AuditVisibilityTier → AuditVisibilityTier → Bool
has_tier tiers tier = any (same_tier tier) tiers

-- The filters of a query; one that is none does not filter.
pub record Filters : Type 0 where
  pub product_id : Option ℕ
  pub product_market_state_id : Option ℕ
  pub actor_user_id : Option ℕ
  pub event_type : Option String
  pub occurred_from : Option ℕ
  pub occurred_to : Option ℕ

-- A condition on a column that a filter may set.
abbrev pub if_set : {A : Type 0} → Option A → (A → Bool) → Bool
if_set none test = true
if_set (some a) test = test a

abbrev pub equals : Option ℕ → ℕ → Bool
equals none id = false
equals (some i) id = i == id

abbrev pub passes : Filters → AuditEvent → Bool
passes filters e =
    if_set filters.product_id (equals e.product_id)
    && if_set filters.product_market_state_id (equals e.product_market_state_id)
    && if_set filters.actor_user_id (equals e.actor_user_id)
    && if_set filters.event_type (str_eq e.event_type)
    && if_set filters.occurred_from (λ t. leb t e.occurred_at)
    && if_set filters.occurred_to (leb e.occurred_at)

abbrev pub visible : ℕ → List AuditVisibilityTier → AuditEvent → Bool
visible organization_id tiers e =
    (e.organization_id == organization_id) && has_tier tiers e.visibility_tier

-- `order_by(occurred_at.desc())`.
abbrev pub insert_event : AuditEvent → List AuditEvent → List AuditEvent
insert_event e [] = e ∷ []
insert_event e (x ∷ xs) =
    let rest = insert_event e xs in if leb x.occurred_at e.occurred_at then e ∷ x ∷ xs else x ∷ rest

abbrev pub newest_first : List AuditEvent → List AuditEvent
newest_first [] = []
newest_first (e ∷ es) = insert_event e (newest_first es)

-- `AuditEventRepository.get_all`.
unfoldable pub get_all : ℕ → List AuditVisibilityTier → Filters → Db → List AuditEvent
get_all organization_id tiers filters db =
    newest_first (filter (λ e. visible organization_id tiers e && passes filters e) db.audit_events)

unfoldable pub get_customer_visible : ℕ → Filters → Db → List AuditEvent
unfolding get_all
get_customer_visible organization_id filters db =
    get_all organization_id (customer_visible ∷ []) filters db

-- `_INTERNAL_REGULATORY_ROLE_CODES`.
abbrev pub is_regulatory : Db → ℕ → Bool
is_regulatory db user_id =
    any (has_internal_role db.directory user_id)
      (ra ∷ senior_reviewer ∷ regulatory_knowledge_lead ∷ regulatory_content_advisor ∷ [])

abbrev pub grants_of : Bool → Bool → Bool → List AuditVisibilityTier
grants_of auditor_ regulatory admin =
    if auditor_
    then customer_visible ∷ internal_regulatory ∷ technical_security ∷ []
    else (if regulatory then customer_visible ∷ internal_regulatory ∷ [] else [])
      ++ (if admin then technical_security ∷ [] else [])

unfoldable pub resolve_internal_tier_grants : ℕ → Db → List AuditVisibilityTier
resolve_internal_tier_grants caller_user_id db =
    grants_of (has_internal_role db.directory caller_user_id auditor)
      (is_regulatory db caller_user_id)
      (has_internal_role db.directory caller_user_id platform_admin)

abbrev pub requested_of :
    List AuditVisibilityTier → Option (List AuditVisibilityTier) → List AuditVisibilityTier
requested_of granted none = granted
requested_of granted (some requested) = filter (has_tier requested) granted

-- A query across organizations: who asks, about which organization, and when.
pub record Query : Type 0 where
  pub caller_user_id : ℕ
  pub organization_id : ℕ
  pub correlation_id : Option String
  pub requested_tiers : Option (List AuditVisibilityTier)
  pub filters : Filters
  pub now : ℕ

-- `record_cross_org_access`.
unfoldable pub record_cross_org_access : Query → String → Payload → Db → Db
record_cross_org_access q event_type payload db = record db {
  audit_events =
      record {
        organization_id = q.organization_id;
        source_event_id = none;
        event_type = event_type;
        schema_version = 1;
        occurred_at = q.now;
        actor_user_id = some q.caller_user_id;
        correlation_id = q.correlation_id;
        product_id = none;
        product_market_state_id = none;
        visibility_tier = technical_security;
        payload = payload;
        internal_payload = none;
      }
      ∷ db.audit_events;
}

-- `payload_of` writes the tiers, the filters and the number of the results as JSON.
module _ (payload_of : Query → List AuditVisibilityTier → ℕ → Payload) where
  -- `_record_cross_org_query`.
  unfoldable pub record_cross_org_query : Query → List AuditVisibilityTier → ℕ → Db → Db
  unfolding record_cross_org_access
  record_cross_org_query q tiers result_count db =
      record_cross_org_access q "AuditLogQueried" (payload_of q tiers result_count) db

  unfoldable pub get_internal : Query → Db → Result Error (List AuditEvent × Db)
  unfolding resolve_internal_tier_grants get_all record_cross_org_query
  get_internal q db = do
    let granted = resolve_internal_tier_grants q.caller_user_id db
    require (leb 1 (length granted)) audit_reader_not_authorized
    let tiers = requested_of granted q.requested_tiers
    let results = get_all q.organization_id tiers q.filters db
    ok (results, record_cross_org_query q tiers (length results) db)
