-- ===== src/Engine/Kleene.antt =====
-- The meaning of a condition tree in Kleene's strong three-valued logic, against
-- app/engine/condition_evaluator.py.
use regnova.Prelude.{◌≡◌, refl, ◌∙◌, List, [], ◌∷◌, arith}
use regnova.Engine.Value.{Python, Fields}
use regnova.Engine.Compare.{
  Outcome, match, no_match, unknown, Result, ok, raise, OnOk, OnOk->>=, OnOk_apply, OnOk-Unit,
}
use regnova.Engine.Node.{
  Combinator, all_of, any_of, LeafOp, exists, not_exists, comparison, Leaf, Node, combinator, leaf,
  unrecognized, Nodes, nil, cons, Log, Evaluation, empty_log, Verdict,
}
use regnova.Engine.Combine.{combine}
use regnova.Engine.Leaf.{walk_leaf, walk_present, walk_absent}
use regnova.Engine.Walk.{walk, walk_all, sorted_set, evaluate_condition}

-- The minimum and the maximum of no_match < unknown < match.
abbrev pub kleene : Combinator → Outcome → Outcome → Outcome
kleene all_of no_match b = no_match
kleene all_of match b = b
kleene all_of unknown no_match = no_match
kleene all_of unknown b = unknown
kleene any_of match b = match
kleene any_of no_match b = b
kleene any_of unknown match = match
kleene any_of unknown b = unknown

abbrev pub neutral : Combinator → Outcome
neutral all_of = match
neutral any_of = no_match

abbrev pub fold : Combinator → List Verdict → Outcome
fold op [] = neutral op
fold op (r ∷ rs) = kleene op r.0 (fold op rs)

pub combine-fold : (op : Combinator) (rs : List Verdict) → (combine op rs).0 ≡ fold op rs
unfolding combine
combine-fold all_of [] = refl
combine-fold any_of [] = refl
combine-fold all_of ((match, r) ∷ rs) = ground (arith, combine-fold all_of rs)
combine-fold all_of ((no_match, r) ∷ rs) = ground (arith, combine-fold all_of rs)
combine-fold all_of ((unknown, r) ∷ rs) = ground (arith, combine-fold all_of rs)
combine-fold any_of ((match, r) ∷ rs) = ground (arith, combine-fold any_of rs)
combine-fold any_of ((no_match, r) ∷ rs) = ground (arith, combine-fold any_of rs)
combine-fold any_of ((unknown, r) ∷ rs) = ground (arith, combine-fold any_of rs)

module _ {N : Type 0} (py : Python N) where
  abbrev pub outcome_or_unknown : Result (Verdict × Log N) → Outcome
  outcome_or_unknown (ok (v, log)) = v.0
  outcome_or_unknown (raise e) = unknown

  -- What a leaf says on its own.
  unfoldable pub leaf_truth : LeafOp → Leaf N → Fields N → Outcome
  leaf_truth op body facts = outcome_or_unknown (walk_leaf py op body facts empty_log)

  unfoldable mutual
    pub truth : Node N → Fields N → Outcome
    truth (combinator op children) facts = truth_all op children facts
    truth (leaf op body) facts = leaf_truth op body facts
    truth unrecognized facts = unknown

    pub truth_all : Combinator → Nodes N → Fields N → Outcome
    truth_all op nil facts = neutral op
    truth_all op (cons node rest) facts = kleene op (truth node facts) (truth_all op rest facts)

  -- The verdict of a leaf does not depend on what was logged before.
  walk_leaf-truth :
      (op : LeafOp) (body : Leaf N) (facts : Fields N) (log : Log N)
      → OnOk (λ p. p.0.0 ≡ leaf_truth op body facts) (walk_leaf py op body facts log)
  unfolding leaf_truth walk_leaf walk_present walk_absent
  walk_leaf-truth exists body facts log = ground arith
  walk_leaf-truth not_exists body facts log = ground arith
  walk_leaf-truth (comparison op) body facts log = ground arith

  mutual
    unfolding walk truth

    walk-truth :
        (c : Node N) (facts : Fields N) (log : Log N)
        → OnOk (λ p. p.0.0 ≡ truth c facts) (walk py c facts log)
    walk-truth (combinator op children) facts log =
        OnOk->>= (λ p. fold op p.0 ≡ truth_all op children facts) _ (walk_all py children facts log)
          _ (walk_all-truth op children facts log) (λ p h. combine-fold op p.0 ∙ h)
    walk-truth (leaf op body) facts log = walk_leaf-truth op body facts log
    walk-truth unrecognized facts log = tt

    walk_all-truth :
        (op : Combinator) (cs : Nodes N) (facts : Fields N) (log : Log N)
        → OnOk (λ p. fold op p.0 ≡ truth_all op cs facts) (walk_all py cs facts log)
    walk_all-truth op nil facts log = refl
    walk_all-truth op (cons c cs) facts log =
        OnOk->>= (λ p. p.0.0 ≡ truth c facts) _ (walk py c facts log) _ (walk-truth c facts log)
          (λ p h.
            OnOk->>= (λ q. fold op q.0 ≡ truth_all op cs facts) _ (walk_all py cs facts p.1) _
              (walk_all-truth op cs facts p.1) (λ q k. cc))

-- A condition that evaluates comes out as Kleene's strong three-valued logic says: `all` as the
-- minimum and `any` as the maximum of its children under no_match < unknown < match.
pub evaluate_condition-truth :
    {N : Type 0} (py : Python N) (c : Node N) (facts : Fields N) {r : Evaluation N}
    → evaluate_condition py c facts ≡ ok r
    → r.outcome ≡ truth py c facts
unfolding evaluate_condition
evaluate_condition-truth py c facts e =
    OnOk_apply (λ r. r.outcome ≡ truth py c facts)
      (OnOk->>= (λ p. p.0.0 ≡ truth py c facts) _ (walk py c facts empty_log) _
        (walk-truth py c facts empty_log)
        (λ p h. OnOk->>= (λ _. Unit) _ (sorted_set py p.1.missing) _ (OnOk-Unit _) (λ _ _. h)))
      e
