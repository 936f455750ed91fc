-- ===== src/Readiness/Carried.antt =====
-- The gate that a market state carries: app/modules/market_readiness/service.py and
-- app/modules/product_market_state/service.py.
use mathlib.Core.Path.{subst}
use native.Mathlib.Decide.{ℕ_discrete}
use regnova.Prelude.{
  ◌≡◌, refl, sym, ap, ◌∙◌, ℕ, String, Bool, true, false, Option, none, some, List, [], ◌∷◌, ◌==◌,
  map, if◌then◌else◌, arith, All, find, inl, inr,
}
use regnova.Prelude.Rows.{modify_first}
use regnova.Readiness.Model.{gate_text, Floats, MarketState, StateSnapshot, Db}
use regnova.Readiness.Snapshot.{
  is_current_for, get_current, superseded, supersede_current, snapshot_of, build_snapshot,
}
use regnova.Readiness.Market.{ProductMarketStateUpdate, UpdateRequest}
use regnova.Readiness.Update.{changed_by, made_stale}
use regnova.Readiness.Links.{Chain}
use regnova.Readiness.Relinks.{find-modified, find-other}
use regnova.Readiness.Writers.{
  Reach, here, built, created, updated, Updated, update-Updated, create-Created, Created,
}
use regnova.Readiness.Currency.{Chains, Reach-Chains, superseded-Keeps, made_stale-Keeps}

module _ {F : Type 0} (fl : Floats F) where
  abbrev pub IsGateOf : Option (StateSnapshot F) → String → Type 0
  IsGateOf none gate = Unit
  IsGateOf (some snapshot) gate = gate ≡ gate_text snapshot.overall_gate

  -- A state carries the gate of its current snapshot.
  abbrev pub HasGate : List (StateSnapshot F) → MarketState → Type 0
  HasGate snapshots state = IsGateOf (get_current fl snapshots state.id) state.gate

  HasGate-none :
      (snapshots : List (StateSnapshot F)) (state : MarketState)
      → get_current fl snapshots state.id ≡ none
      → HasGate snapshots state
  HasGate-none snapshots state e = subst (λ o. IsGateOf o state.gate) (sym e) tt

  -- The same row found, and the same gate.
  HasGate-same :
      (snapshots snapshots' : List (StateSnapshot F)) (state state' : MarketState)
      → state'.id ≡ state.id
      → state'.gate ≡ state.gate
      → get_current fl snapshots' state.id ≡ get_current fl snapshots state.id
      → HasGate snapshots state
      → HasGate snapshots' state'
  HasGate-same snapshots snapshots' state state' i g c h =
      subst (λ o. IsGateOf o state'.gate) (sym c ∙ ap (get_current fl snapshots') (sym i))
        (subst (IsGateOf (get_current fl snapshots state.id)) (sym g) h)

  map-HasGate :
      (snapshots snapshots' : List (StateSnapshot F)) (change : MarketState → MarketState)
      (states : List MarketState)
      → ((state : MarketState) → HasGate snapshots state → HasGate snapshots' (change state))
      → All (HasGate snapshots) states
      → All (HasGate snapshots') (map change states)
  map-HasGate snapshots snapshots' change [] keeps h = tt
  map-HasGate snapshots snapshots' change (s ∷ states) keeps h =
      (keeps s h.0, map-HasGate snapshots snapshots' change states keeps h.1)

  -- A new current snapshot and its gate, written to the state.
  built-HasGate :
      (s : StateSnapshot F) (new_id : ℕ) (snapshots : List (StateSnapshot F)) (state : MarketState)
      → s.is_current ≡ true
      → HasGate snapshots state
      → HasGate (s ∷ supersede_current fl s.product_market_state_id new_id snapshots) (
          if state.id == s.product_market_state_id
          then record state { gate = gate_text s.overall_gate }
          else state)
  unfolding get_current supersede_current
  built-HasGate s new_id snapshots state c h = ground (
    arith,
    c,
    find-other fl s.product_market_state_id state.id (superseded fl new_id) snapshots
        (superseded-Keeps fl new_id),
  )

  abbrev pub sends_no_gate : ProductMarketStateUpdate → Bool
  sends_no_gate payload = elim payload.gate [ none ↦ true | some g ↦ false ]

  set_state-gate :
      (id : ℕ) (payload : ProductMarketStateUpdate) (state : MarketState)
      → sends_no_gate payload ≡ true
      → ((if state.id == id then changed_by payload state else state).id ≡ state.id)
        × ((if state.id == id then changed_by payload state else state).gate ≡ state.gate)
  set_state-gate id payload state e = ground arith

  -- A change of a state's row that sends no gate.
  sent-HasGate :
      (id : ℕ) (payload : ProductMarketStateUpdate) (snapshots : List (StateSnapshot F))
      (state : MarketState)
      → sends_no_gate payload ≡ true
      → HasGate snapshots state
      → HasGate snapshots (if state.id == id then changed_by payload state else state)
  sent-HasGate id payload snapshots state e h =
      let (i, g) = set_state-gate id payload state e in
      HasGate-same snapshots snapshots state
        (if state.id == id then changed_by payload state else state) i g refl h

  -- The same, with the current snapshot going stale.
  stale-HasGate :
      (id : ℕ) (payload : ProductMarketStateUpdate) (snapshots : List (StateSnapshot F))
      (state : MarketState)
      → sends_no_gate payload ≡ true
      → Chains fl snapshots
      → HasGate snapshots state
      → HasGate
          (modify_first (is_current_for fl id) made_stale snapshots)
          (if state.id == id then changed_by payload state else state)
  unfolding get_current
  stale-HasGate id payload snapshots state e chains h =
      let (i, g) = set_state-gate id payload state e in
      let after = modify_first (is_current_for fl id) made_stale snapshots in
      let new = if state.id == id then changed_by payload state else state in
      elim (ℕ_discrete id state.id) [
        | yes p ↦ HasGate-none after new (
            subst (λ k. find (is_current_for fl k) after ≡ none) (p ∙ sym i)
              (find-modified fl id made_stale snapshots (λ s. refl) (chains id)))
        | no n ↦
            HasGate-same snapshots after state new i g
              (find-other fl id state.id made_stale snapshots (made_stale-Keeps fl) n) h
      ]

module _ {N F : Type 0} (fl : Floats F) where
  Updated-HasGate :
      (q : UpdateRequest) (db db' : Db N F)
      → Updated fl q db db'
      → sends_no_gate fl q.payload ≡ true
      → Chains fl db.snapshots
      → All (HasGate fl db.snapshots) db.states
      → All (HasGate fl db'.snapshots) db'.states
  Updated-HasGate q db db' (state, e, inl same) g chains h =
      rw (e, same)
        (map-HasGate fl db.snapshots db.snapshots _ db.states
          (λ s. sent-HasGate fl state.id q.payload db.snapshots s g) h)
  Updated-HasGate q db db' (state, e, inr marked) g chains h =
      rw (e, marked)
        (map-HasGate fl db.snapshots _ _ db.states
          (λ s. stale-HasGate fl state.id q.payload db.snapshots s g chains) h)

  Created-HasGate :
      (new_id : ℕ) (db db' : Db N F)
      → Created fl new_id db db'
      → get_current fl db.snapshots new_id ≡ none
      → All (HasGate fl db.snapshots) db.states
      → All (HasGate fl db'.snapshots) db'.states
  Created-HasGate new_id db db' (same, inl e) fresh h =
      subst (λ ss. All (HasGate fl ss) db'.states) (sym same)
        (subst (All (HasGate fl db.snapshots)) (sym e) h)
  Created-HasGate new_id db db' (same, inr (state, i, e)) fresh h =
      subst (λ ss. All (HasGate fl ss) db'.states) (sym same)
        (subst (All (HasGate fl db.snapshots)) (sym e)
          (HasGate-none fl db.snapshots state (rw i fresh), h))

  -- In any history of snapshots and of creations and updates of market states whose updates send no
  -- gate, every state that has a current snapshot carries the gate of that snapshot, if that was so
  -- at the start and the snapshots of every state were linked then.
  pub Reach-HasGate :
      {start db : Db N F}
      → Reach fl (sends_no_gate fl) start db
      → ((id : ℕ) → Chain id none start.snapshots)
      → All (HasGate fl start.snapshots) start.states
      → All (HasGate fl db.snapshots) db.states
  unfolding build_snapshot snapshot_of
  Reach-HasGate (here db) k h = h
  Reach-HasGate (built {start} {db} engine_build state run user summary correlation_id new_id r) k
        h =
      map-HasGate fl db.snapshots _ _ db.states
        (λ s.
          built-HasGate fl
            (build_snapshot fl engine_build state run user summary correlation_id new_id db).0
            new_id db.snapshots s refl)
        (Reach-HasGate r k h)
  Reach-HasGate (created {start} {db} catalog q new_id state db' r fresh e) k h =
      Created-HasGate new_id db db' (create-Created fl catalog q new_id state db db' e) fresh
        (Reach-HasGate r k h)
  Reach-HasGate (updated {start} {db} catalog q state db' r a e) k h =
      Updated-HasGate q db db' (update-Updated fl catalog q state db db' e) a (Reach-Chains fl r k)
        (Reach-HasGate r k h)
