-- ===== src/Readiness/Update.antt =====
-- `update` of app/modules/product_market_state/service.py: the checks, the pins, the snapshot that
-- goes stale and the refusals of the database.
use regnova.Prelude.{
  ℕ, String, Bool, true, false, not, Option, none, some, List, ◌∷◌, map, find, any, ◌==◌, ◌&&◌,
  ◌||◌, is_some, if◌then◌else◌,
}
use regnova.Prelude.Text.{str_eq}
use regnova.Prelude.Rows.{modify_first}
use regnova.Basis.Model.{has_id}
use regnova.Readiness.Model.{Floats, MarketState, StateSnapshot, state_current_changed, Db}
use regnova.Readiness.Snapshot.{is_current_for, get_current}
use regnova.Readiness.Market.{
  Catalog, ProductMarketStateUpdate, UpdateRequest, MarketError, state_not_found, product_not_found,
  release_not_found, already_active, integrity_error, Answer, ok, raise, has_product,
  validate_product_version, is_of, is_active_in,
}

-- The check of a release that is sent.
unfoldable pub release_refused : Catalog → Option (Option ℕ) → Option MarketError
release_refused catalog (some (some id)) =
    if any (has_id id) catalog.releases then none else some release_not_found
release_refused catalog _ = none

-- The checks of `update`, of the pins that are sent.
unfoldable pub refused : Catalog → UpdateRequest → Option MarketError
unfolding validate_product_version release_refused
refused catalog q = elim q.payload.product_version_id [
  | some (some id) ↦ elim (validate_product_version catalog q.organization_id q.product_id id) [
    | ok version ↦ release_refused catalog q.payload.regulatory_basis_release_id
    | raise e ↦ some e
  ]
  | _ ↦ release_refused catalog q.payload.regulatory_basis_release_id
]

-- A pin that is sent, is not null and is another one than the column's.
abbrev pub differs : Option (Option ℕ) → Option ℕ → Bool
differs (some (some id)) (some pinned) = not (id == pinned)
differs (some (some id)) none = true
differs _ pinned = false

unfoldable pub pin_changed : ProductMarketStateUpdate → MarketState → Bool
pin_changed payload state =
    differs payload.product_version_id state.product_version_id
    || differs payload.regulatory_basis_release_id state.regulatory_basis_release_id

abbrev pub sent {ℓ} : {A : Type ℓ} → Option A → A → A
sent none value = value
sent (some a) value = a

-- A text column, which cannot hold the null that is refused below.
abbrev pub sent_text : Option (Option String) → String → String
sent_text (some (some s)) value = s
sent_text _ value = value

-- `setattr` of every field that was sent.
abbrev pub changed_by : ProductMarketStateUpdate → MarketState → MarketState
changed_by payload s = record s {
  product_version_id = sent payload.product_version_id s.product_version_id;
  regulatory_basis_release_id =
      sent payload.regulatory_basis_release_id s.regulatory_basis_release_id;
  gate = sent_text payload.gate s.gate;
  status = sent_text payload.status s.status;
}

abbrev pub is_null : Option (Option String) → Bool
is_null (some none) = true
is_null _ = false

-- The columns that are not null, and the partial unique index over the active rows.
unfoldable pub violates : ProductMarketStateUpdate → MarketState → List MarketState → Bool
violates payload state states =
    let new = changed_by payload state in
    is_null payload.gate
    || is_null payload.status
    || (str_eq new.status "ACTIVE"
        && any
            (λ (s : MarketState).
              not (s.id == new.id)
              && is_active_in new.organization_id new.product_id new.jurisdiction s)
            states)

abbrev pub set_state : ℕ → ProductMarketStateUpdate → List MarketState → List MarketState
set_state id payload states = map (λ s. if s.id == id then changed_by payload s else s) states

module _ {F : Type 0} where
  abbrev pub made_stale : StateSnapshot F → StateSnapshot F
  made_stale s = record s {
    is_current = false;
    stale_reason = some "PRODUCT_MARKET_STATE_PIN_CHANGED";
  }

module _ {N F : Type 0} (fl : Floats F) where
  -- The current snapshot of the state goes stale, with its event.
  unfoldable pub stale : UpdateRequest → MarketState → Option (StateSnapshot F) → Db N F → Db N F
  unfolding modify_first
  stale q state none db = db
  stale q state (some current) db = record db {
    snapshots = modify_first (is_current_for fl state.id) made_stale db.snapshots;
    outbox =
        record {
          organization_id = q.organization_id;
          payload =
              state_current_changed state.id none (some current.id)
                (some "PRODUCT_MARKET_STATE_PIN_CHANGED") none;
          actor_user_id = q.actor_user_id;
          correlation_id = q.correlation_id;
        }
        ∷ db.outbox;
  }

  -- The end of `update`. With a snapshot to mark, the state is flushed with it, before the `try`.
  unfoldable pub write_update : UpdateRequest → MarketState → Db N F → Answer (MarketState × Db N F)
  write_update q state db =
      let current =
        if pin_changed q.payload state then get_current fl db.snapshots state.id else none in
      let db' = stale q state current db in
      if violates q.payload state db.states
      then raise (if is_some current then integrity_error else already_active)
      else ok (
        changed_by q.payload state,
        record db' { states = set_state state.id q.payload db'.states },
      )

  unfoldable pub update : Catalog → UpdateRequest → Db N F → Answer (MarketState × Db N F)
  update catalog q db =
      if has_product catalog q.organization_id q.product_id
      then elim (find (λ s. (s.id == q.state_id) && is_of q.organization_id q.product_id s)
          db.states) [
            | none ↦ raise state_not_found
            | some state ↦ elim (refused catalog q) [
              | some e ↦ raise e
              | none ↦ write_update q state db
            ]
          ]
      else raise product_not_found
