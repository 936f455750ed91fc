-- ===== src/Engine/Lineage.antt =====
-- What an evaluation of app/engine/condition_evaluator.py leaves behind: one trace entry for each
-- leaf, and a reason that the trace backs.
use mathlib.Core.Path.{subst}
use regnova.Prelude.{
  ◌≡◌, refl, sym, ap, ◌∙◌, ℕ, ◌+◌, Bool, Option, none, some, List, [], ◌∷◌, ◌++◌, arith, is_some,
  true, false, not, any, any-append, append_assoc, append-nil, length, length-append, All,
  Bool-cases, Option-cases, inl, inr,
}
use regnova.Engine.Value.{Python, Value, Fields}
use regnova.Engine.Compare.{
  match, no_match, unknown, ok, OnOk, OnOk->>=, OnOk_apply, OnOk-Unit, Comparison, equals,
  not_equals, in_, not_in, ordered, apply_comparison, value_eq, is_in, is_ordered, outcome_of,
}
use regnova.Engine.Node.{
  Combinator, all_of, any_of, LeafOp, exists, not_exists, comparison, Leaf, Node, combinator, leaf,
  unrecognized, Nodes, nil, cons, Reason, missing, low_confidence, Entry, Log, Evaluation,
  empty_log, Verdict,
}
use regnova.Engine.Combine.{combine, merge, first, reasons, is_unknown, is_low_confidence}
use regnova.Engine.Leaf.{
  walk_leaf, walk_present, walk_absent, judge, judge_value, is_too_low, record_leaf, entry,
  normalize, unwrap, or_null, confidence_of, read,
}
use regnova.Engine.Walk.{walk, walk_all, sorted_set, evaluate_condition}

abbrev pub same_reason : Reason → Option Reason → Bool
same_reason low_confidence (some low_confidence) = true
same_reason missing (some missing) = true
same_reason _ _ = false

-- A verdict is unknown exactly where it has a reason, and the entries have one with that reason.
abbrev pub Backed : {N : Type 0} → List (Entry N) → Verdict → Type 0
Backed entries (match, none) = Unit
Backed entries (no_match, none) = Unit
Backed entries (unknown, some r) = any (λ e. same_reason r e.reason) entries ≡ true
Backed entries _ = ⊥

module _ {N : Type 0} where
  Backed-append_left : (xs ys : List (Entry N)) (v : Verdict) → Backed xs v → Backed (xs ++ ys) v
  Backed-append_left xs ys (match, none) h = tt
  Backed-append_left xs ys (no_match, none) h = tt
  Backed-append_left xs ys (unknown, some r) h =
      ground (arith, any-append (λ e. same_reason r e.reason) xs ys)
  Backed-append_left xs ys (match, some r) h = h
  Backed-append_left xs ys (no_match, some r) h = h
  Backed-append_left xs ys (unknown, none) h = h

  Backed-append_right : (xs ys : List (Entry N)) (v : Verdict) → Backed ys v → Backed (xs ++ ys) v
  Backed-append_right xs ys (match, none) h = tt
  Backed-append_right xs ys (no_match, none) h = tt
  Backed-append_right xs ys (unknown, some r) h =
      ground (arith, any-append (λ e. same_reason r e.reason) xs ys)
  Backed-append_right xs ys (match, some r) h = h
  Backed-append_right xs ys (no_match, some r) h = h
  Backed-append_right xs ys (unknown, none) h = h

  All-Backed-append_right :
      (xs ys : List (Entry N)) (rs : List Verdict) → All (Backed ys) rs → All (Backed (xs ++ ys)) rs
  All-Backed-append_right xs ys [] h = tt
  All-Backed-append_right xs ys (r ∷ rs) h =
      (Backed-append_right xs ys r h.0, All-Backed-append_right xs ys rs h.1)

  low-Backed :
      (xs : List (Entry N)) (rs : List Verdict)
      → All (Backed xs) rs
      → any is_low_confidence (reasons rs) ≡ true
      → Backed xs (unknown, some low_confidence)
  low-Backed xs [] h e = cc
  low-Backed xs ((o, none) ∷ rs) h e = low-Backed xs rs h.1 e
  low-Backed xs ((unknown, some low_confidence) ∷ rs) h e = h.0
  low-Backed xs ((unknown, some missing) ∷ rs) h e = low-Backed xs rs h.1 e
  low-Backed xs ((match, some r) ∷ rs) h e = absurd h.0
  low-Backed xs ((no_match, some r) ∷ rs) h e = absurd h.0

  first-Backed :
      (xs : List (Entry N)) (rs : List Verdict)
      → All (Backed xs) rs
      → any (λ r. is_unknown r.0) rs ≡ true
      → Backed xs (unknown, first (reasons rs))
  first-Backed xs [] h e = cc
  first-Backed xs ((unknown, some r) ∷ rs) h e = h.0
  first-Backed xs ((unknown, none) ∷ rs) h e = absurd h.0
  first-Backed xs ((match, none) ∷ rs) h e = first-Backed xs rs h.1 e
  first-Backed xs ((no_match, none) ∷ rs) h e = first-Backed xs rs h.1 e
  first-Backed xs ((match, some r) ∷ rs) h e = absurd h.0
  first-Backed xs ((no_match, some r) ∷ rs) h e = absurd h.0

  -- If a child is unknown, the merge finds a reason that is backed.
  merge-Backed :
      (xs : List (Entry N)) (rs : List Verdict)
      → All (Backed xs) rs
      → any (λ r. is_unknown r.0) rs ≡ true
      → Backed xs (unknown, merge (reasons rs))
  unfolding merge
  merge-Backed xs rs h e = elim (Bool-cases (any is_low_confidence (reasons rs))) [
    | inl low ↦ rw low (low-Backed xs rs h low)
    | inr absent ↦ rw absent (first-Backed xs rs h e)
  ]

  combine-Backed :
      (op : Combinator) (xs : List (Entry N)) (rs : List Verdict)
      → All (Backed xs) rs
      → Backed xs (combine op rs)
  unfolding combine
  combine-Backed all_of xs rs h = ground (arith, merge-Backed xs rs h)
  combine-Backed any_of xs rs h = ground (arith, merge-Backed xs rs h)

-- A leaf's own entry backs its verdict.
coherent-Backed :
    {N : Type 0} (v : Verdict) (e : Entry N)
    → e.reason ≡ v.1
    → is_some v.1 ≡ is_unknown v.0
    → Backed (e ∷ []) v
coherent-Backed (match, none) e p h = tt
coherent-Backed (no_match, none) e p h = tt
coherent-Backed (unknown, some low_confidence) e p h = rw p
coherent-Backed (unknown, some missing) e p h = rw p
coherent-Backed (match, some r) e p h = cc
coherent-Backed (no_match, some r) e p h = cc
coherent-Backed (unknown, none) e p h = cc

unfoldable mutual
  pub leaves : {N : Type 0} → Node N → ℕ
  leaves (combinator op children) = leaves_all children
  leaves (leaf op body) = 1
  leaves unrecognized = 0

  pub leaves_all : {N : Type 0} → Nodes N → ℕ
  leaves_all nil = 0
  leaves_all (cons node rest) = leaves node + leaves_all rest

outcome_of-known : (b : Bool) → is_unknown (outcome_of b) ≡ false
outcome_of-known true = refl
outcome_of-known false = refl

module _ {N : Type 0} (py : Python N) where
  -- The log has grown by `n` entries, which back what `P` says.
  abbrev Grown : Log N → ℕ → (List (Entry N) → Type 0) → Log N → Type 0
  Grown log n P log' =
      (more : List (Entry N)) × (log'.trace ≡ log.trace ++ more) × (length more ≡ n) × P more

  apply_comparison-known :
      (op : Comparison) (v e : Value N)
      → OnOk (λ o. is_unknown o ≡ false) (apply_comparison py op v e)
  unfolding apply_comparison
  apply_comparison-known equals v e = outcome_of-known (value_eq py v e)
  apply_comparison-known not_equals v e = outcome_of-known (not (value_eq py v e))
  apply_comparison-known in_ v e =
      OnOk->>= (λ _. Unit) _ (is_in py v e) _ (OnOk-Unit _) (λ b _. outcome_of-known b)
  apply_comparison-known not_in v e =
      OnOk->>= (λ _. Unit) _ (is_in py v e) _ (OnOk-Unit _) (λ b _. outcome_of-known (not b))
  apply_comparison-known (ordered o) v e =
      OnOk->>= (λ _. Unit) _ (is_ordered py o v e) _ (OnOk-Unit _) (λ b _. outcome_of-known b)

  -- A comparison that is judged unknown has a reason, and any other has none.
  judge_value-coherent :
      (op : Comparison) (body : Leaf N) (raw : Value N) (low : Bool)
      → OnOk (λ p. is_some p.0.1 ≡ is_unknown p.0.0) (judge_value py op body raw low)
  judge_value-coherent op body raw true = refl
  judge_value-coherent op body raw false =
      OnOk->>= (λ _. Unit) _ (normalize py body.normalize (unwrap raw)) _ (OnOk-Unit _)
        (λ v _.
          OnOk->>= (λ o. is_unknown o ≡ false) _ (apply_comparison py op v (or_null body.expected))
            _ (apply_comparison-known op v (or_null body.expected)) (λ o h. sym h))

  judge-coherent :
      (op : Comparison) (body : Leaf N) (raw : Value N)
      → OnOk (λ p. is_some p.0.1 ≡ is_unknown p.0.0) (judge py op body raw)
  unfolding judge
  judge-coherent op body raw =
      OnOk->>= (λ _. Unit) _ (is_too_low py body (confidence_of py raw)) _ (OnOk-Unit _)
        (λ low _. judge_value-coherent op body raw low)

  record_leaf-Grown :
      (op : LeafOp) (body : Leaf N) (c : Option (Value N)) (v : Verdict) (actual : Value N)
      (log : Log N)
      → is_some v.1 ≡ is_unknown v.0
      → OnOk
          (λ p. Grown log 1 (λ more. Backed more p.0) p.1)
          (record_leaf py op body c v actual log)
  record_leaf-Grown op body c v actual log h =
      let e = entry py op body c v actual in (e ∷ [], refl, refl, coherent-Backed v e refl h)

  walk_absent-Grown :
      (op : LeafOp) (body : Leaf N) (log : Log N)
      → OnOk (λ p. Grown log 1 (λ more. Backed more p.0) p.1) (walk_absent py op body log)
  unfolding walk_absent
  walk_absent-Grown exists body log = record_leaf-Grown exists body _ _ _ log refl
  walk_absent-Grown not_exists body log = record_leaf-Grown not_exists body _ _ _ log refl
  walk_absent-Grown (comparison op) body log = record_leaf-Grown (comparison op) body _ _ _ log refl

  walk_present-Grown :
      (op : LeafOp) (body : Leaf N) (raw : Value N) (log : Log N)
      → OnOk (λ p. Grown log 1 (λ more. Backed more p.0) p.1) (walk_present py op body raw log)
  unfolding walk_present
  walk_present-Grown exists body raw log = record_leaf-Grown exists body _ _ _ log refl
  walk_present-Grown not_exists body raw log = record_leaf-Grown not_exists body _ _ _ log refl
  walk_present-Grown (comparison op) body raw log =
      OnOk->>= (λ p. is_some p.0.1 ≡ is_unknown p.0.0) _ (judge py op body raw) _
        (judge-coherent op body raw)
        (λ p h. record_leaf-Grown (comparison op) body (confidence_of py raw) p.0 p.1 log h)

  walk_leaf-Grown :
      (op : LeafOp) (body : Leaf N) (facts : Fields N) (log : Log N)
      → OnOk (λ p. Grown log 1 (λ more. Backed more p.0) p.1) (walk_leaf py op body facts log)
  unfolding walk_leaf
  walk_leaf-Grown op body facts log = elim (Option-cases (read facts body.path)) [
    | inl e ↦ rw (e, walk_leaf, OnOk) (walk_absent-Grown op body log)
    | inr (raw, e) ↦ rw (e, walk_leaf, OnOk) (walk_present-Grown op body raw log)
  ]

  mutual
    unfolding walk leaves

    walk-Grown :
        (c : Node N) (facts : Fields N) (log : Log N)
        → OnOk (λ p. Grown log (leaves c) (λ more. Backed more p.0) p.1) (walk py c facts log)
    walk-Grown (combinator op children) facts log =
        OnOk->>= (λ p. Grown log (leaves_all children) (λ more. All (Backed more) p.0) p.1) _
          (walk_all py children facts log) _ (walk_all-Grown children facts log)
          (λ p (more, grown, n, backed). (more, grown, n, combine-Backed op more p.0 backed))
    walk-Grown (leaf op body) facts log = walk_leaf-Grown op body facts log
    walk-Grown unrecognized facts log = tt

    walk_all-Grown :
        (cs : Nodes N) (facts : Fields N) (log : Log N)
        → OnOk
            (λ p. Grown log (leaves_all cs) (λ more. All (Backed more) p.0) p.1)
            (walk_all py cs facts log)
    walk_all-Grown nil facts log = ([], sym (append-nil log.trace), refl, tt)
    walk_all-Grown (cons c cs) facts log =
        OnOk->>= (λ p. Grown log (leaves c) (λ more. Backed more p.0) p.1) _ (walk py c facts log) _
          (walk-Grown c facts log)
          (λ p (xs, grown, n, backed).
            OnOk->>= (λ q. Grown p.1 (leaves_all cs) (λ more. All (Backed more) q.0) q.1) _
              (walk_all py cs facts p.1) _ (walk_all-Grown cs facts p.1)
              (λ q (ys, grown', n', backed'). (
                xs ++ ys,
                grown' ∙ ap (λ l. l ++ ys) grown ∙ append_assoc log.trace xs ys,
                omega (arith, length-append {0} xs ys),
                (Backed-append_left xs ys p.0 backed, All-Backed-append_right xs ys q.0 backed'),
              )))

-- A condition that evaluates leaves one trace entry for each of its leaves, whatever its outcome;
-- and it is unknown exactly if it has a reason, which is then the reason of one of the entries.
pub evaluate_condition-Backed :
    {N : Type 0} (py : Python N) (c : Node N) (facts : Fields N) {r : Evaluation N}
    → evaluate_condition py c facts ≡ ok r
    → (length r.trace ≡ leaves c) × Backed r.trace (r.outcome, r.unknown_reason)
unfolding evaluate_condition
evaluate_condition-Backed py c facts e =
    OnOk_apply (λ r. (length r.trace ≡ leaves c) × Backed r.trace (r.outcome, r.unknown_reason))
      (OnOk->>= (λ p. Grown py empty_log (leaves c) (λ more. Backed more p.0) p.1) _
        (walk py c facts empty_log) _ (walk-Grown py c facts empty_log)
        (λ p (more, grown, n, backed).
          OnOk->>= (λ _. Unit) _ (sorted_set py p.1.missing) _ (OnOk-Unit _)
            (λ _ _. (ap length grown ∙ n, subst (λ l. Backed l p.0) (sym grown) backed))))
      e
