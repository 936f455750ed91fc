-- ===== src/Readiness/Currency.antt =====
-- Which snapshots are current, over any sequence of calls of `_build_snapshot` in
-- app/modules/market_readiness/service.py and of `create` and `update` in
-- app/modules/product_market_state/service.py.
use mathlib.Core.Path.{subst}
use native.Mathlib.Decide.{ℕ_discrete}
use regnova.Prelude.{◌≡◌, refl, sym, ℕ, Bool, true, none, some, List, ◌∷◌, inl, inr}
use regnova.Prelude.Rows.{modify_first}
use regnova.Readiness.Model.{Floats, StateSnapshot, Db}
use regnova.Readiness.Snapshot.{
  is_current_for, superseded, supersede_current, snapshot_of, build_snapshot,
}
use regnova.Readiness.Market.{ProductMarketStateUpdate, UpdateRequest}
use regnova.Readiness.Update.{made_stale}
use regnova.Readiness.Links.{Chain, Chain-cons, Chain-skip}
use regnova.Readiness.Relinks.{
  Keeps, Chain-change, Chain-other, superseded-Relinks, made_stale-Relinks,
}
use regnova.Readiness.Writers.{
  Reach, here, built, created, updated, Updated, update-Updated, create-Created,
}

module _ {F : Type 0} (fl : Floats F) where
  pub superseded-Keeps : (new_id : ℕ) → Keeps fl (superseded fl new_id)
  superseded-Keeps new_id s = (refl, refl)

  pub made_stale-Keeps : Keeps fl made_stale
  made_stale-Keeps s = (refl, refl)

  abbrev pub Chains : List (StateSnapshot F) → Type 0
  Chains snapshots = (id : ℕ) → Chain id none snapshots

  -- A change of one state's current snapshot that leaves its chain a chain leaves every chain one.
  stale-Chains :
      (state_id : ℕ) (snapshots : List (StateSnapshot F))
      → Chains snapshots
      → Chains (modify_first (is_current_for fl state_id) made_stale snapshots)
  stale-Chains state_id snapshots h id = elim (ℕ_discrete state_id id) [
    | yes e ↦
        subst (λ i. Chain id none (modify_first (is_current_for fl i) made_stale snapshots)) (sym e)
          (Chain-change fl id none made_stale snapshots (made_stale-Relinks fl) made_stale-Keeps
            (h id))
    | no n ↦ Chain-other fl state_id id none made_stale snapshots made_stale-Keeps n (h id)
  ]

  build_snapshot-Chains :
      (s : StateSnapshot F) (snapshots : List (StateSnapshot F))
      → s.is_current ≡ true
      → s.superseded_by_snapshot_id ≡ none
      → Chains snapshots
      → Chains (s ∷ supersede_current fl s.product_market_state_id s.id snapshots)
  unfolding supersede_current
  build_snapshot-Chains s snapshots e k h id =
      let state_id = s.product_market_state_id in
      elim (ℕ_discrete state_id id) [
        | yes p ↦
            Chain-cons id none s
              (modify_first (is_current_for fl state_id) (superseded fl s.id) snapshots) s.id p refl
              (inl (e, refl, k))
              (subst
                (λ i.
                  Chain id (some s.id)
                    (modify_first (is_current_for fl i) (superseded fl s.id) snapshots))
                (sym p)
                (Chain-change fl id (some s.id) (superseded fl s.id) snapshots
                  (superseded-Relinks fl s.id) (superseded-Keeps s.id) (h id)))
        | no n ↦
            Chain-skip id none s
              (modify_first (is_current_for fl state_id) (superseded fl s.id) snapshots) n
              (Chain-other fl state_id id none (superseded fl s.id) snapshots
                (superseded-Keeps s.id) n (h id))
      ]

module _ {N F : Type 0} (fl : Floats F) where
  Updated-Chains :
      (q : UpdateRequest) (db db' : Db N F)
      → Updated fl q db db'
      → Chains fl db.snapshots
      → Chains fl db'.snapshots
  Updated-Chains q db db' (state, e, inl same) h = subst (Chains fl) (sym same) h
  Updated-Chains q db db' (state, e, inr marked) h =
      subst (Chains fl) (sym marked) (stale-Chains fl state.id db.snapshots h)

  pub Reach-Chains :
      {allows : ProductMarketStateUpdate → Bool} {start db : Db N F}
      → Reach fl allows start db
      → Chains fl start.snapshots
      → Chains fl db.snapshots
  unfolding build_snapshot snapshot_of
  Reach-Chains (here db) h = h
  Reach-Chains (built {start} {db} engine_build state run user summary correlation_id new_id r) h =
      build_snapshot-Chains fl
        (build_snapshot fl engine_build state run user summary correlation_id new_id db).0
        db.snapshots refl refl (Reach-Chains r h)
  Reach-Chains (created {start} {db} catalog q new_id state db' r fresh e) h =
      subst (Chains fl) (sym (create-Created fl catalog q new_id state db db' e).0)
        (Reach-Chains r h)
  Reach-Chains (updated {start} {db} catalog q state db' r a e) h =
      Updated-Chains q db db' (update-Updated fl catalog q state db db' e) (Reach-Chains r h)

  -- In any history of snapshots and of creations and updates of market states, whatever the updates
  -- send: of the snapshots of one state, newest first, only the newest can be current; each of the
  -- others either names the next newer one as what superseded it, or went stale by a change of a
  -- pin and names none; and the newest went stale in that way if it is not current. All this if it
  -- was so at the start.
  pub Reach-Chain :
      {allows : ProductMarketStateUpdate → Bool} {start db : Db N F}
      → Reach fl allows start db
      → ((id : ℕ) → Chain id none start.snapshots)
      → (state_id : ℕ) → Chain state_id none db.snapshots
  Reach-Chain r h state_id = Reach-Chains r h state_id
