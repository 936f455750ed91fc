-- ===== src/Readiness/Relinks.antt =====
-- What a change of the current snapshot makes of the chains of the states' snapshots:
-- app/modules/market_readiness/service.py and app/modules/product_market_state/service.py.
use mathlib.Core.Path.{subst}
use native.Mathlib.Decide.{ℕ_discrete}
use regnova.Prelude.{
  sym, ap, ◌∙◌, ◌≡◌, ◌≢◌, refl, ℕ, true, false, Option, none, some, List, [], ◌∷◌, ◌==◌, find,
  arith, inl, inr, Bool-cases,
}
use regnova.Prelude.Rows.{modify_first}
use regnova.Readiness.Model.{Floats, StateSnapshot}
use regnova.Readiness.Snapshot.{is_current_for, superseded}
use regnova.Readiness.Update.{made_stale}
use regnova.Readiness.Links.{
  Linked, Chain, Chain-none_current, modify_first-none, modify_first-hit, modify_first-miss,
  Chain-cons, Chain-skip,
}

module _ {F : Type 0} (fl : Floats F) where
  -- A change of the current snapshot that links what it was given to a newer one, or to none.
  abbrev pub Relinks : (StateSnapshot F → StateSnapshot F) → Option ℕ → Type 0
  Relinks change newer =
      (s : StateSnapshot F)
      → Linked none s
      → (s.is_current ≡ true → Linked newer (change s)) × (s.is_current ≡ false → Linked newer s)

  abbrev pub Keeps : (StateSnapshot F → StateSnapshot F) → Type 0
  Keeps change =
      (s : StateSnapshot F)
      → ((change s).id ≡ s.id) × ((change s).product_market_state_id ≡ s.product_market_state_id)

  pub Chain-change :
      (state_id : ℕ) (newer : Option ℕ) (change : StateSnapshot F → StateSnapshot F)
      (snapshots : List (StateSnapshot F))
      → Relinks change newer
      → Keeps change
      → Chain state_id none snapshots
      → Chain state_id newer (modify_first (is_current_for fl state_id) change snapshots)
  unfolding modify_first
  Chain-change state_id newer change [] relinks keeps h = tt
  Chain-change state_id newer change (s ∷ snapshots) relinks keeps h =
      let test = is_current_for fl state_id in
      elim (ℕ_discrete s.product_market_state_id state_id) [
        | yes p ↦
            let e : (s.product_market_state_id == state_id) ≡ true = ground arith in
            let (linked, rest) : Linked none s × Chain state_id (some s.id) snapshots = rw e at h in
            let same =
              modify_first-none test change snapshots
                (Chain-none_current fl state_id s.id snapshots rest) in
            let new = relinks s linked in
            elim (Bool-cases s.is_current) [
              | inl c ↦
                  subst (Chain state_id newer)
                    (sym (modify_first-hit test change s snapshots (ground arith)))
                    (Chain-cons state_id newer (change s) snapshots s.id ((keeps s).1 ∙ p)
                      (keeps s).0 (new.0 c) rest)
              | inr c ↦
                  subst (Chain state_id newer)
                    (sym (
                      modify_first-miss test change s snapshots (ground arith)
                      ∙ ap (λ t. s ∷ t) same))
                    (Chain-cons state_id newer s snapshots s.id p refl (new.1 c) rest)
            ]
        | no n ↦
            let e : (s.product_market_state_id == state_id) ≡ false = ground (arith, n) in
            let rest : Chain state_id none snapshots = rw e at h in
            subst (Chain state_id newer)
              (sym (modify_first-miss test change s snapshots (ground (arith, n))))
              (Chain-skip state_id newer s (modify_first test change snapshots) n
                (Chain-change state_id newer change snapshots relinks keeps rest))
      ]

  -- The chains and the current snapshots of other states stay.
  pub Chain-other :
      (state_id other : ℕ) (newer : Option ℕ) (change : StateSnapshot F → StateSnapshot F)
      (snapshots : List (StateSnapshot F))
      → Keeps change
      → state_id ≢ other
      → Chain other newer snapshots
      → Chain other newer (modify_first (is_current_for fl state_id) change snapshots)
  unfolding modify_first
  Chain-other state_id other newer change [] keeps d h = tt
  Chain-other state_id other newer change (s ∷ snapshots) keeps d h =
      let test = is_current_for fl state_id in
      elim (ℕ_discrete s.product_market_state_id other) [
        | yes p ↦
            let e : (s.product_market_state_id == other) ≡ true = ground arith in
            let (linked, rest) : Linked newer s × Chain other (some s.id) snapshots = rw e at h in
            subst (Chain other newer)
              (sym (modify_first-miss test change s snapshots (ground (arith, d))))
              (Chain-cons other newer s (modify_first test change snapshots) s.id p refl linked
                (Chain-other state_id other (some s.id) change snapshots keeps d rest))
        | no n ↦
            let e : (s.product_market_state_id == other) ≡ false = ground (arith, n) in
            let rest : Chain other newer snapshots = rw e at h in
            elim (Bool-cases (test s)) [
              | inl c ↦
                  subst (Chain other newer) (sym (modify_first-hit test change s snapshots c)) (
                    Chain-skip other newer (change s) snapshots (λ q. n (sym (keeps s).1 ∙ q)) rest)
              | inr c ↦
                  subst (Chain other newer) (sym (modify_first-miss test change s snapshots c)) (
                    Chain-skip other newer s (modify_first test change snapshots) n
                      (Chain-other state_id other newer change snapshots keeps d rest))
            ]
      ]

  pub superseded-Relinks : (new_id : ℕ) → Relinks (superseded fl new_id) (some new_id)
  superseded-Relinks new_id s h = (λ c. inr (inl (refl, refl, refl, refl)), λ c. ground arith)

  pub made_stale-Relinks : Relinks made_stale none
  made_stale-Relinks s h = (λ c. ground arith, λ c. h)

  -- Once the current snapshot of a chain is made not current, there is none.
  pub find-modified :
      (state_id : ℕ) (change : StateSnapshot F → StateSnapshot F)
      (snapshots : List (StateSnapshot F))
      → ((s : StateSnapshot F) → (change s).is_current ≡ false)
      → Chain state_id none snapshots
      → find
          (is_current_for fl state_id)
          (modify_first (is_current_for fl state_id) change snapshots)
        ≡ none
  unfolding modify_first
  find-modified state_id change [] ends h = refl
  find-modified state_id change (s ∷ snapshots) ends h =
      elim (Bool-cases (s.product_market_state_id == state_id)) [
        | inl e ↦
            let (linked, rest) : Linked none s × Chain state_id (some s.id) snapshots = rw e at h in
            let absent = Chain-none_current fl state_id s.id snapshots rest in
            ground (
              arith,
              ends s,
              absent,
              modify_first-none (is_current_for fl state_id) change snapshots absent,
            )
        | inr e ↦
            let rest : Chain state_id none snapshots = rw e at h in
            ground (arith, find-modified state_id change snapshots ends rest)
      ]

  pub find-other :
      (state_id other : ℕ) (change : StateSnapshot F → StateSnapshot F)
      (snapshots : List (StateSnapshot F))
      → Keeps change
      → state_id ≢ other
      → find (is_current_for fl other) (modify_first (is_current_for fl state_id) change snapshots)
        ≡ find (is_current_for fl other) snapshots
  unfolding modify_first
  find-other state_id other change [] keeps d = refl
  find-other state_id other change (s ∷ snapshots) keeps d =
      ground (arith, d, (keeps s).1, find-other state_id other change snapshots keeps d)
