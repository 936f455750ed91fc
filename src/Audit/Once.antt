-- ===== src/Audit/Once.antt =====
-- What the dispatch loop of app/modules/audit/worker.py leaves in the audit log.
use mathlib.Core.Path.{subst}
use regnova.Prelude.{
  ◌≡◌, refl, sym, ◌∙◌, ℕ, ◌+◌, ◌≤◌, String, true, false, Option, some, List, [], ◌∷◌, any, All,
  is_some, ◌==◌, arith, if◌then◌else◌, Bool-cases, inl, inr, ==_iff,
}
use regnova.Prelude.Results.{Result, ok, raise, OnOk, OnOk_apply, OnOk-bind}
use regnova.Prelude.Text.{str_eq}
use regnova.Prelude.Rows.{modify_first, count, All_weaken}
use regnova.Audit.Model.{OutboxEvent, AuditEvent, Db, Error}
use regnova.Audit.Builders.{AuditEventDraft, builder_of}
use regnova.Audit.Log.{
  is_source, exists_for_source_event, audit_event_of, built, record_for_event, is_for,
  add_notification, notify_all, resolve_content_version_transitioned_recipients, notify,
}
use regnova.Audit.Worker.{
  is_event, get_unpublished, mark_published, mark_failed, publish, settled, dispatch_all,
  dispatch_pending_events,
}

-- A source event has at most one row in the log, and an event that is published has one.
pub record IsAudited (db : Db) : Type 0 where
  pub once : (id : ℕ) → count (is_source id) db.audit_events ≤ 1
  pub complete :
      All
        (λ e. is_some e.published_at ≡ true → any (is_source e.id) db.audit_events ≡ true)
        db.outbox

none_counted :
    (id : ℕ) (rows : List AuditEvent)
    → any (is_source id) rows ≡ false
    → count (is_source id) rows ≡ 0
none_counted id [] h = refl
none_counted id (a ∷ rows) h = ground (arith, h, none_counted id rows)

notify_all-audit_events :
    (event : OutboxEvent) (ids : List ℕ) (db : Db)
    → ((notify_all event ids db).audit_events ≡ db.audit_events)
      × ((notify_all event ids db).outbox ≡ db.outbox)
unfolding notify_all
notify_all-audit_events event [] db = (refl, refl)
notify_all-audit_events event (i ∷ ids) db =
    elim (Bool-cases (any (is_for event.id i) db.notifications)) [
      | inl e ↦
          subst
            (λ b.
              let db' = notify_all event ids (if b then db else add_notification event i db) in
              (db'.audit_events ≡ db.audit_events) × (db'.outbox ≡ db.outbox))
            (sym e) (notify_all-audit_events event ids db)
      | inr e ↦
          subst
            (λ b.
              let db' = notify_all event ids (if b then db else add_notification event i db) in
              (db'.audit_events ≡ db.audit_events) × (db'.outbox ≡ db.outbox))
            (sym e) (notify_all-audit_events event ids (add_notification event i db))
    ]

notify-audit_events :
    (event : OutboxEvent) (db : Db)
    → ((notify event db).audit_events ≡ db.audit_events) × ((notify event db).outbox ≡ db.outbox)
unfolding notify
notify-audit_events event db =
    let ids = resolve_content_version_transitioned_recipients db event.payload in
    elim (Bool-cases (str_eq event.event_type "ContentVersionTransitioned")) [
      | inl e ↦
          subst
            (λ b.
              let db' = if b then notify_all event ids db else db in
              (db'.audit_events ≡ db.audit_events) × (db'.outbox ≡ db.outbox))
            (sym e) (notify_all-audit_events event ids db)
      | inr e ↦
          subst
            (λ b.
              let db' = if b then notify_all event ids db else db in
              (db'.audit_events ≡ db.audit_events) × (db'.outbox ≡ db.outbox))
            (sym e) (refl, refl)
    ]

-- What a publication that goes through leaves of the log.
abbrev Logged : OutboxEvent → Db → Db → Type 0
Logged event db db' =
    (db'.outbox ≡ db.outbox)
    × (any (is_source event.id) db'.audit_events ≡ true)
    × ((id : ℕ)
        → any (is_source id) db.audit_events ≡ true
        → any (is_source id) db'.audit_events ≡ true)
    × (((id : ℕ) → count (is_source id) db.audit_events ≤ 1)
        → (id : ℕ) → count (is_source id) db'.audit_events ≤ 1)

pub self_source :
    (event : OutboxEvent) (draft : AuditEventDraft) (rows : List AuditEvent)
    → any (is_source event.id) (audit_event_of event draft ∷ rows) ≡ true
self_source event draft rows = ground (arith, (==_iff event.id event.id).1 refl)

added_grows :
    (event : OutboxEvent) (draft : AuditEventDraft) (rows : List AuditEvent) (id : ℕ)
    → any (is_source id) rows ≡ true
    → any (is_source id) (audit_event_of event draft ∷ rows) ≡ true
added_grows event draft rows id h = ground (arith, h)

added_once :
    (event : OutboxEvent) (draft : AuditEventDraft) (rows : List AuditEvent) (id : ℕ)
    → any (is_source event.id) rows ≡ false
    → count (is_source id) rows ≤ 1
    → count (is_source id) (audit_event_of event draft ∷ rows) ≤ 1
added_once event draft rows id h k = elim (Bool-cases (event.id == id)) [
  | inl e ↦
      let same = (==_iff event.id id).0 e in
      let zero = subst (λ i. count (is_source i) rows ≡ 0) same (none_counted event.id rows h) in
      ground (arith, e, zero)
  | inr e ↦ ground (arith, e, k)
]

module _ (uuid : String → Option ℕ) where
  built-Logged :
      (event : OutboxEvent) (db : Db) (m : Result Error AuditEventDraft)
      → any (is_source event.id) db.audit_events ≡ false
      → OnOk (Logged event db) (built uuid event db m)
  built-Logged event db (raise e) h = tt
  built-Logged event db (ok draft) h = (
    refl,
    self_source event draft db.audit_events,
    added_grows event draft db.audit_events,
    λ once id. added_once event draft db.audit_events id h (once id),
  )

  record_for_event-Logged :
      (event : OutboxEvent) (db : Db) → OnOk (Logged event db) (record_for_event uuid event db)
  unfolding record_for_event exists_for_source_event
  record_for_event-Logged event db =
      let fresh = built uuid event db (builder_of uuid event.event_type db event) in
      elim (Bool-cases (any (is_source event.id) db.audit_events)) [
        | inl e ↦
            subst (λ b. OnOk (Logged event db) (if b then ok db else fresh)) (sym e)
              (refl, e, λ id h. h, λ h. h)
        | inr e ↦
            subst (λ b. OnOk (Logged event db) (if b then ok db else fresh)) (sym e)
              (built-Logged event db (builder_of uuid event.event_type db event) e)
      ]

  publish-Logged : (event : OutboxEvent) (db : Db) → OnOk (Logged event db) (publish uuid event db)
  unfolding publish
  publish-Logged event db = OnOk-bind (Logged event db) (record_for_event uuid event db) _ (λ db' e.
      let logged = OnOk_apply (Logged event db) e (record_for_event-Logged event db) in
      let same = notify-audit_events event db' in
      (
        same.1 ∙ logged.0,
        subst (λ rows. any (is_source event.id) rows ≡ true) (sym same.0) logged.1,
        λ id h. subst (λ rows. any (is_source id) rows ≡ true) (sym same.0) (logged.2 id h),
        λ once id. subst (λ rows. count (is_source id) rows ≤ 1) (sym same.0) (logged.3 once id),
      ))

published_All :
    (P : ℕ → Type 0) (id now : ℕ) (es : List OutboxEvent)
    → P id
    → All (λ e. is_some e.published_at ≡ true → P e.id) es
    → All
        (λ e. is_some e.published_at ≡ true → P e.id)
        (modify_first (is_event id) (λ e. record e { published_at = some now }) es)
unfolding modify_first
published_All P id now [] h k = tt
published_All P id now (e ∷ es) h k =
    let change : OutboxEvent → OutboxEvent = λ x. record x { published_at = some now } in
    elim (Bool-cases (e.id == id)) [
      | inl b ↦
          subst
            (λ c.
              All (λ x. is_some x.published_at ≡ true → P x.id)
                (if c then change e ∷ es else e ∷ modify_first (is_event id) change es))
            (sym b) (λ p. subst P (sym ((==_iff e.id id).0 b)) h, k.1)
      | inr b ↦
          subst
            (λ c.
              All (λ x. is_some x.published_at ≡ true → P x.id)
                (if c then change e ∷ es else e ∷ modify_first (is_event id) change es))
            (sym b) (k.0, published_All P id now es h k.1)
    ]

failed_All :
    (P : ℕ → Type 0) (id : ℕ) (message : String) (es : List OutboxEvent)
    → All (λ e. is_some e.published_at ≡ true → P e.id) es
    → All
        (λ e. is_some e.published_at ≡ true → P e.id)
        (modify_first
          (is_event id)
          (λ e. record e { attempts = e.attempts + 1; last_error = some message })
          es)
unfolding modify_first
failed_All P id message [] k = tt
failed_All P id message (e ∷ es) k =
    let change : OutboxEvent → OutboxEvent =
      λ x. record x { attempts = x.attempts + 1; last_error = some message } in
    elim (Bool-cases (e.id == id)) [
      | inl b ↦
          subst
            (λ c.
              All (λ x. is_some x.published_at ≡ true → P x.id)
                (if c then change e ∷ es else e ∷ modify_first (is_event id) change es))
            (sym b) (k.0, k.1)
      | inr b ↦
          subst
            (λ c.
              All (λ x. is_some x.published_at ≡ true → P x.id)
                (if c then change e ∷ es else e ∷ modify_first (is_event id) change es))
            (sym b) (k.0, failed_All P id message es k.1)
    ]

module _ (uuid : String → Option ℕ) (message_of : Error → String) (now : ℕ) where
  settled-IsAudited :
      (event : OutboxEvent) (db : Db) (m : Result Error Db)
      → OnOk (Logged event db) m
      → IsAudited db
      → IsAudited (settled uuid message_of now event db m).0
  unfolding mark_published mark_failed
  settled-IsAudited event db (ok db') logged h = record {
    once = logged.3 h.once;
    complete =
        published_All (λ id. any (is_source id) db'.audit_events ≡ true) event.id now db'.outbox
          logged.1
          (subst
            (All
              (λ e. is_some e.published_at ≡ true → any (is_source e.id) db'.audit_events ≡ true))
            (sym logged.0) (All_weaken _ _ db.outbox (λ e k p. logged.2 e.id (k p)) h.complete));
  }
  settled-IsAudited event db (raise e) logged h = record {
    once = h.once;
    complete =
        failed_All (λ id. any (is_source id) db.audit_events ≡ true) event.id (message_of e)
          db.outbox h.complete;
  }

  dispatch_all-IsAudited :
      (events : List OutboxEvent) (db : Db)
      → IsAudited db
      → IsAudited (dispatch_all uuid message_of now events db).0
  unfolding dispatch_all
  dispatch_all-IsAudited [] db h = h
  dispatch_all-IsAudited (event ∷ events) db h =
      dispatch_all-IsAudited events (settled uuid message_of now event db (publish uuid event db)).0
        (settled-IsAudited event db (publish uuid event db) (publish-Logged uuid event db) h)

-- A dispatch, whichever of its events fail and whichever were tried before, leaves at most one row of
-- the audit log for each source event, and one for each event that is published, if it was so before.
pub dispatch_pending_events-IsAudited :
    (uuid : String → Option ℕ) (message_of : Error → String) (now limit : ℕ) (db : Db)
    → IsAudited db
    → IsAudited (dispatch_pending_events uuid message_of now limit db).0
unfolding dispatch_pending_events
dispatch_pending_events-IsAudited uuid message_of now limit db h =
    dispatch_all-IsAudited uuid message_of now (get_unpublished limit db) db h
