-- ===== src/Readiness/Writers.antt =====
-- The calls that write market states and their snapshots: `_build_snapshot` in
-- app/modules/market_readiness/service.py, `create` and `update` in
-- app/modules/product_market_state/service.py.
use regnova.Prelude.{
  ◌≡◌, refl, ℕ, String, Bool, true, Option, none, ◌∷◌, ◌==◌, ◌&&◌, arith, find, ◌⊎◌, inl, inr,
  Option-cases, Bool-cases,
}
use regnova.Prelude.Rows.{modify_first}
use regnova.Assessment.Model.{AssessmentRun}
use regnova.Readiness.Model.{Floats, Summary, MarketState, Db}
use regnova.Readiness.Snapshot.{is_current_for, get_current, build_snapshot}
use regnova.Readiness.Market.{
  Catalog, ProductMarketStateUpdate, CreateRequest, UpdateRequest, ok, raise, MarketError, Answer,
  has_product, is_of, get_active_for_product_jurisdiction, validate_product_version, create,
}
use regnova.Readiness.Update.{
  refused, pin_changed, set_state, violates, made_stale, stale, write_update, update,
}

Answer-cases :
    {A : Type 0} (a : Answer A) → ((x : A) × (a ≡ ok x)) ⊎ ((e : MarketError) × (a ≡ raise e))
Answer-cases (ok x) = inl (x, refl)
Answer-cases (raise e) = inr (e, refl)

module _ {N F : Type 0} (fl : Floats F) where
  -- The tables that a sequence of calls leads to; the updates are those that `allows` lets through.
  -- A created state has an identifier that no snapshot has.
  pub data Reach (allows : ProductMarketStateUpdate → Bool) : Db N F → Db N F → Type 0 where
    here : (db : Db N F) → Reach allows db db
    built :
        {start db : Db N F} (engine_build : String) (state : MarketState) (run : AssessmentRun)
        (requested_by_user_id : Option ℕ) (summary : Summary F) (correlation_id : Option String)
        (new_id : ℕ)
        → Reach allows start db
        → Reach allows start
            (build_snapshot fl engine_build state run requested_by_user_id summary correlation_id
              new_id db).1
    created :
        {start db : Db N F} (catalog : Catalog) (q : CreateRequest) (new_id : ℕ)
        (state : MarketState) (db' : Db N F)
        → Reach allows start db
        → get_current fl db.snapshots new_id ≡ none
        → create fl catalog q new_id db ≡ ok (state, db')
        → Reach allows start db'
    updated :
        {start db : Db N F} (catalog : Catalog) (q : UpdateRequest) (state : MarketState)
        (db' : Db N F)
        → Reach allows start db
        → allows q.payload ≡ true
        → update fl catalog q db ≡ ok (state, db')
        → Reach allows start db'

  -- What `update` writes, where it goes through.
  abbrev pub Updated : UpdateRequest → Db N F → Db N F → Type 0
  Updated q db db' =
      (state : MarketState) × (db'.states ≡ set_state state.id q.payload db.states)
      × ((db'.snapshots ≡ db.snapshots)
          ⊎ (db'.snapshots ≡ modify_first (is_current_for fl state.id) made_stale db.snapshots))

  write_update-Updated :
      (q : UpdateRequest) (state answer : MarketState) (db db' : Db N F)
      → write_update fl q state db ≡ ok (answer, db')
      → Updated q db db'
  unfolding write_update stale
  write_update-Updated q state answer db db' e =
      elim (Bool-cases (violates q.payload state db.states)) [
        | inl v ↦ absurd (ground arith)
        | inr v ↦ elim (Bool-cases (pin_changed q.payload state)) [
          | inl c ↦ elim (Option-cases (get_current fl db.snapshots state.id)) [
            | inl n ↦ (state, ground arith, inl (ground arith))
            | inr (s, n) ↦ (state, ground arith, inr (ground arith))
          ]
          | inr c ↦ (state, ground arith, inl (ground arith))
        ]
      ]

  pub update-Updated :
      (catalog : Catalog) (q : UpdateRequest) (answer : MarketState) (db db' : Db N F)
      → update fl catalog q db ≡ ok (answer, db')
      → Updated q db db'
  unfolding update
  update-Updated catalog q answer db db' e =
      elim (Bool-cases (has_product catalog q.organization_id q.product_id)) [
        | inr h ↦ absurd (ground arith)
        | inl h ↦
            elim (Option-cases (
              find (λ s. (s.id == q.state_id) && is_of q.organization_id q.product_id s)
                db.states)) [
                  | inl n ↦ absurd (ground arith)
                  | inr (state, n) ↦ elim (Option-cases (refused catalog q)) [
                    | inr (x, r) ↦ absurd (ground arith)
                    | inl r ↦ write_update-Updated q state answer db db' (ground arith)
                  ]
                ]
      ]

  -- What `create` writes, where it goes through.
  abbrev pub Created : ℕ → Db N F → Db N F → Type 0
  Created new_id db db' =
      (db'.snapshots ≡ db.snapshots)
      × ((db'.states ≡ db.states)
          ⊎ ((state : MarketState) × (state.id ≡ new_id) × (db'.states ≡ state ∷ db.states)))

  pub create-Created :
      (catalog : Catalog) (q : CreateRequest) (new_id : ℕ) (answer : MarketState) (db db' : Db N F)
      → create fl catalog q new_id db ≡ ok (answer, db')
      → Created new_id db db'
  unfolding create
  create-Created catalog q new_id answer db db' e =
      elim (Bool-cases (has_product catalog q.organization_id q.product_id)) [
        | inr h ↦ absurd (ground arith)
        | inl h ↦
            elim (Option-cases (
              get_active_for_product_jurisdiction db.states q.organization_id q.product_id
                q.jurisdiction)) [
                  | inr (x, n) ↦ (ground arith, inl (ground arith))
                  | inl n ↦
                      elim (Answer-cases (
                        validate_product_version catalog q.organization_id q.product_id
                          q.product_version_id)) [
                            | inr (x, v) ↦ absurd (ground arith)
                            | inl (version, v) ↦
                                (ground arith, inr (answer, ground arith, ground arith))
                          ]
                ]
      ]
