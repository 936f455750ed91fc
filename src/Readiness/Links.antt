-- ===== src/Readiness/Links.antt =====
-- The chain of a state's snapshots, and what a change of the current one makes of it:
-- app/modules/market_readiness/service.py and app/modules/product_market_state/service.py.
use regnova.Prelude.{
  ◌≡◌, ◌≢◌, refl, ℕ, Bool, true, false, Option, none, some, List, [], ◌∷◌, ◌==◌, find,
  if◌then◌else◌, arith, is_some, ◌⊎◌, inl, inr, Bool-cases,
}
use regnova.Prelude.Rows.{modify_first}
use regnova.Readiness.Model.{Floats, StateSnapshot}
use regnova.Readiness.Snapshot.{is_current_for}

module _ {F : Type 0} where
  -- A current snapshot: nothing of its state is newer.
  abbrev pub IsNewest : Option ℕ → StateSnapshot F → Type 0
  IsNewest newer s = (s.is_current ≡ true) × (newer ≡ none) × (s.superseded_by_snapshot_id ≡ none)

  -- One that the next newer snapshot of its state has replaced.
  abbrev pub IsReplaced : Option ℕ → StateSnapshot F → Type 0
  IsReplaced newer s =
      (s.is_current ≡ false)
      × (is_some newer ≡ true)
      × (s.superseded_by_snapshot_id ≡ newer)
      × (s.stale_reason ≡ some "SUPERSEDED_BY_NEW_SNAPSHOT")

  -- One that went stale by a change of a pin, before anything replaced it.
  abbrev pub IsUnpinned : StateSnapshot F → Type 0
  IsUnpinned s =
      (s.is_current ≡ false)
      × (s.superseded_by_snapshot_id ≡ none)
      × (s.stale_reason ≡ some "PRODUCT_MARKET_STATE_PIN_CHANGED")

  abbrev pub Linked : Option ℕ → StateSnapshot F → Type 0
  Linked newer s = IsNewest newer s ⊎ (IsReplaced newer s ⊎ IsUnpinned s)

  -- Of the snapshots of one state, newest first, each is linked with the next newer one.
  abbrev pub Chain : ℕ → Option ℕ → List (StateSnapshot F) → Type 0
  Chain state_id newer [] = Unit
  Chain state_id newer (s ∷ snapshots) =
      if s.product_market_state_id == state_id
      then Linked newer s × Chain state_id (some s.id) snapshots
      else Chain state_id newer snapshots

  Linked-not_current : (k : ℕ) (s : StateSnapshot F) → Linked (some k) s → s.is_current ≡ false
  Linked-not_current k s h = ground arith

  pub modify_first-none :
      (test : StateSnapshot F → Bool) (change : StateSnapshot F → StateSnapshot F)
      (snapshots : List (StateSnapshot F))
      → find test snapshots ≡ none
      → modify_first test change snapshots ≡ snapshots
  unfolding modify_first
  modify_first-none test change [] e = refl
  modify_first-none test change (s ∷ snapshots) e =
      ground (arith, modify_first-none test change snapshots)

  pub modify_first-hit :
      (test : StateSnapshot F → Bool) (change : StateSnapshot F → StateSnapshot F)
      (s : StateSnapshot F) (snapshots : List (StateSnapshot F))
      → test s ≡ true
      → modify_first test change (s ∷ snapshots) ≡ change s ∷ snapshots
  unfolding modify_first
  modify_first-hit test change s snapshots e = ground arith

  pub modify_first-miss :
      (test : StateSnapshot F → Bool) (change : StateSnapshot F → StateSnapshot F)
      (s : StateSnapshot F) (snapshots : List (StateSnapshot F))
      → test s ≡ false
      → modify_first test change (s ∷ snapshots) ≡ s ∷ modify_first test change snapshots
  unfolding modify_first
  modify_first-miss test change s snapshots e = ground arith

  pub Chain-cons :
      (state_id : ℕ) (newer : Option ℕ) (s : StateSnapshot F) (snapshots : List (StateSnapshot F))
      (id : ℕ)
      → s.product_market_state_id ≡ state_id
      → s.id ≡ id
      → Linked newer s
      → Chain state_id (some id) snapshots
      → Chain state_id newer (s ∷ snapshots)
  Chain-cons state_id newer s snapshots id e d linked rest =
      let at : (s.product_market_state_id == state_id) ≡ true = ground arith in
      let rest' : Chain state_id (some s.id) snapshots = rw d rest in rw at (linked, rest')

  pub Chain-skip :
      (state_id : ℕ) (newer : Option ℕ) (s : StateSnapshot F) (snapshots : List (StateSnapshot F))
      → s.product_market_state_id ≢ state_id
      → Chain state_id newer snapshots
      → Chain state_id newer (s ∷ snapshots)
  Chain-skip state_id newer s snapshots ne rest =
      let away : (s.product_market_state_id == state_id) ≡ false = ground arith in rw away rest

module _ {F : Type 0} (fl : Floats F) where
  -- Below a newer snapshot none is current, so that a change of the current one changes nothing.
  pub Chain-none_current :
      (state_id k : ℕ) (snapshots : List (StateSnapshot F))
      → Chain state_id (some k) snapshots
      → find (is_current_for fl state_id) snapshots ≡ none
  Chain-none_current state_id k [] h = refl
  Chain-none_current state_id k (s ∷ snapshots) h =
      elim (Bool-cases (s.product_market_state_id == state_id)) [
        | inl e ↦
            let (linked, rest) : Linked (some k) s × Chain state_id (some s.id) snapshots =
              rw e at h in
            rw (Linked-not_current k s linked, e) (Chain-none_current state_id s.id snapshots rest)
        | inr e ↦
            let rest : Chain state_id (some k) snapshots = rw e at h in
            rw e (Chain-none_current state_id k snapshots rest)
      ]
