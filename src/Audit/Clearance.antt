-- ===== src/Audit/Clearance.antt =====
-- Who sees what of the audit log of app/modules/audit/service.py.
use mathlib.Core.Path.{subst}
use regnova.Prelude.{
  ◌≡◌, refl, sym, ap, ◌∙◌, ℕ, String, Bool, true, false, Option, none, some, List, [], ◌∷◌, any,
  filter, length, All, find-none, ◌==◌, ◌&&◌, ◌||◌, leb, arith, if◌then◌else◌, Bool-cases, inl, inr,
  and_true, ==_iff,
}
use regnova.Prelude.Results.{ok, is_ok, OnOk, OnOk-bind, require}
use regnova.Prelude.Text.{str_eq}
use regnova.Access.{has_internal_role, auditor, platform_admin}
use regnova.Audit.Model.{
  AuditVisibilityTier, customer_visible, internal_regulatory, technical_security, Payload,
  OutboxEvent, AuditEvent, Db, audit_reader_not_authorized,
}
use regnova.Audit.Builders.{audit_builders, or_default, builder_of, build_unscoped, unscoped}
use regnova.Audit.Once.{self_source}
use regnova.Audit.Log.{
  is_source, add_audit_event, exists_for_source_event, audit_event_of, built, record_for_event,
}
use regnova.Audit.Reading.{
  same_tier, has_tier, Filters, passes, visible, insert_event, newest_first, get_all,
  get_customer_visible, is_regulatory, grants_of, resolve_internal_tier_grants, requested_of, Query,
  record_cross_org_query, get_internal,
}

-- Which internal roles may see a tier.
abbrev pub is_cleared : Db → ℕ → AuditVisibilityTier → Bool
is_cleared db user_id technical_security =
    has_internal_role db.directory user_id auditor
    || has_internal_role db.directory user_id platform_admin
is_cleared db user_id _ = has_internal_role db.directory user_id auditor || is_regulatory db user_id

-- A row is of the organization that was asked about, and of a tier that the caller may see.
abbrev pub IsShown : Query → Db → AuditEvent → Type 0
IsShown q db e =
    (e.organization_id ≡ q.organization_id)
    × (is_cleared db q.caller_user_id e.visibility_tier ≡ true)

grants_cleared :
    (a r p : Bool) (tier : AuditVisibilityTier)
    → has_tier (grants_of a r p) tier ≡ true
    → (elim tier [ technical_security ↦ a || p | _ ↦ a || r ]) ≡ true
grants_cleared a r p customer_visible h = ground (arith, h)
grants_cleared a r p internal_regulatory h = ground (arith, h)
grants_cleared a r p technical_security h = ground (arith, h)

requested_granted :
    (granted : List AuditVisibilityTier) (o : Option (List AuditVisibilityTier))
    (tier : AuditVisibilityTier)
    → has_tier (requested_of granted o) tier ≡ true
    → has_tier granted tier ≡ true
requested_granted granted none tier h = h
requested_granted [] (some requested) tier h = h
requested_granted (g ∷ granted) (some requested) tier h =
    ground (arith, h, requested_granted granted (some requested) tier)

insert-All :
    (P : AuditEvent → Type 0) (e : AuditEvent) (es : List AuditEvent)
    → P e
    → All P es
    → All P (insert_event e es)
insert-All P e [] h k = (h, tt)
insert-All P e (x ∷ xs) h k =
    insert_step (leb x.occurred_at e.occurred_at) P e x xs (insert_event e xs) h k
      (insert-All P e xs h k.1)
  where
    insert_step :
        (b : Bool) (P : AuditEvent → Type 0) (e x : AuditEvent) (xs rest : List AuditEvent)
        → P e
        → All P (x ∷ xs)
        → All P rest
        → All P (if b then e ∷ x ∷ xs else x ∷ rest)
    insert_step true P e x xs rest h k l = (h, k)
    insert_step false P e x xs rest h k l = (k.0, l)

newest_first-All :
    (P : AuditEvent → Type 0) (es : List AuditEvent) → All P es → All P (newest_first es)
newest_first-All P [] h = tt
newest_first-All P (e ∷ es) h = insert-All P e (newest_first es) h.0 (newest_first-All P es h.1)

filter-All :
    (P : AuditEvent → Type 0) (test : AuditEvent → Bool) (es : List AuditEvent)
    → ((e : AuditEvent) → test e ≡ true → P e)
    → All P (filter test es)
filter-All P test [] h = tt
filter-All P test (e ∷ es) h = elim (Bool-cases (test e)) [
  | inl b ↦
      subst (λ c. All P (if c then e ∷ filter test es else filter test es)) (sym b)
        (h e b, filter-All P test es h)
  | inr b ↦
      subst (λ c. All P (if c then e ∷ filter test es else filter test es)) (sym b)
        (filter-All P test es h)
]

never : (b c : Bool) → (b && (false || false) && c) ≡ false
never b c = ground arith

-- Adding a row that customers do not see changes nothing that they see.
hidden_row :
    (organization_id : ℕ) (filters : Filters) (e : AuditEvent) (db : Db)
    → same_tier e.visibility_tier customer_visible ≡ false
    → get_customer_visible organization_id filters
        (record db { audit_events = e ∷ db.audit_events })
      ≡ get_customer_visible organization_id filters db
unfolding get_customer_visible get_all
hidden_row organization_id filters e db h =
    let rest =
      filter (λ x. visible organization_id (customer_visible ∷ []) x && passes filters x)
        db.audit_events in
    ap (λ b. newest_first (if b then e ∷ rest else rest))
      (ap (λ b. (e.organization_id == organization_id) && (b || false) && passes filters e) h
        ∙ never (e.organization_id == organization_id) (passes filters e))

unregistered-builder_of :
    (uuid : String → Option ℕ) (event_type : String)
    → any (λ entry. str_eq entry.0 event_type) (audit_builders uuid) ≡ false
    → builder_of uuid event_type ≡ build_unscoped uuid internal_regulatory
unfolding builder_of
unregistered-builder_of uuid event_type h =
    ap (or_default uuid) (find-none (λ entry. str_eq entry.0 event_type) (audit_builders uuid) h)

-- An event whose type has no builder is recorded, and no customer of any organization sees
-- anything of it, whatever the filters.
pub record_for_event-unregistered :
    (uuid : String → Option ℕ) (event : OutboxEvent) (db : Db)
    → any (λ entry. str_eq entry.0 event.event_type) (audit_builders uuid) ≡ false
    → (db' : Db) × (record_for_event uuid event db ≡ ok db')
      × (exists_for_source_event event.id db' ≡ true)
      × ((organization_id : ℕ) (filters : Filters)
          → get_customer_visible organization_id filters db'
            ≡ get_customer_visible organization_id filters db)
unfolding record_for_event exists_for_source_event
record_for_event-unregistered uuid event db h =
    let builder = unregistered-builder_of uuid event.event_type h in
    let built_ok = ap (λ b. built uuid event db (b db event)) builder in
    elim (Bool-cases (any (is_source event.id) db.audit_events)) [
      | inl e ↦ (
        db,
        ap
            (λ b.
              if b then ok db else built uuid event db (builder_of uuid event.event_type db event))
            e,
        e,
        λ organization_id filters. refl,
      )
      | inr e ↦ (
        add_audit_event (audit_event_of event (unscoped internal_regulatory event)) db,
        ap
              (λ b.
                if b
                then ok db
                else built uuid event db (builder_of uuid event.event_type db event))
              e
            ∙ built_ok,
        self_source event (unscoped internal_regulatory event) db.audit_events,
        λ organization_id filters.
            hidden_row organization_id filters
              (audit_event_of event (unscoped internal_regulatory event)) db refl,
      )
    ]

module _ (payload_of : Query → List AuditVisibilityTier → ℕ → Payload) where
  -- The rows and the tables that a query across organizations returns.
  abbrev pub Answered : Query → Db → List AuditEvent × Db → Type 0
  Answered q db r =
      All (IsShown q db) r.0
      × (r.1
          ≡ record_cross_org_query payload_of q
              (requested_of (resolve_internal_tier_grants q.caller_user_id db) q.requested_tiers)
              (length r.0) db)

  get_all-IsShown :
      (q : Query) (db : Db)
      → All (IsShown q db) (
          get_all q.organization_id
            (requested_of (resolve_internal_tier_grants q.caller_user_id db) q.requested_tiers)
            q.filters
            db)
  unfolding get_all resolve_internal_tier_grants
  get_all-IsShown q db =
      let granted = resolve_internal_tier_grants q.caller_user_id db in
      let tiers = requested_of granted q.requested_tiers in
      newest_first-All (IsShown q db) _ (
        filter-All (IsShown q db) (λ e. visible q.organization_id tiers e && passes q.filters e)
          db.audit_events
          (λ e h.
            let seen =
              and_true (e.organization_id == q.organization_id) (has_tier tiers e.visibility_tier)
                (and_true (visible q.organization_id tiers e) (passes q.filters e) h).0 in
            (
              (==_iff e.organization_id q.organization_id).0 seen.0,
              grants_cleared (has_internal_role db.directory q.caller_user_id auditor)
                  (is_regulatory db q.caller_user_id)
                  (has_internal_role db.directory q.caller_user_id platform_admin) e.visibility_tier
                  (requested_granted granted q.requested_tiers e.visibility_tier seen.1),
            )))

  -- A query across organizations shows only rows of the organization that it asks about, of the tiers
  -- that the roles of its caller allow whatever tiers it asks for, and records itself.
  pub get_internal-IsShown :
      (q : Query) (db : Db) → OnOk (Answered q db) (get_internal payload_of q db)
  unfolding get_internal
  get_internal-IsShown q db =
      let granted = resolve_internal_tier_grants q.caller_user_id db in
      OnOk-bind (Answered q db) (require (leb 1 (length granted)) audit_reader_not_authorized) _
        (λ u e. (get_all-IsShown q db, refl))

  -- A query across organizations is refused exactly if its caller has none of the roles that see a
  -- tier.
  pub get_internal-is_ok :
      (q : Query) (db : Db)
      → is_ok (get_internal payload_of q db) ≡ (
          is_cleared db q.caller_user_id customer_visible
          || is_cleared db q.caller_user_id technical_security)
  unfolding get_internal resolve_internal_tier_grants
  get_internal-is_ok q db = ground arith
