-- ===== src/Engine/Walk.antt =====
-- `evaluate_condition` of app/engine/condition_evaluator.py and the walk that it makes.
use regnova.Prelude.{
  String, Bool, true, false, not, Option, none, some, List, [], ◌∷◌, map, if◌then◌else◌, is_some,
  any,
}
use mathlib.Core.List.{foldr, filter_map}
use regnova.Prelude.Text.{str_eq, str_lt}
use regnova.Engine.Value.{Python, Fields}
use regnova.Engine.Compare.{unrecognized_condition_operator, type_error, Result, ok, raise, ◌>>=◌}
use regnova.Engine.Node.{
  Node, combinator, leaf, unrecognized, Nodes, nil, cons, Evaluation, empty_log, Verdict, Walk,
}
use regnova.Engine.Combine.{combine}
use regnova.Engine.Leaf.{walk_leaf}

-- Insertion into a sorted list without duplicates.
unfoldable pub insert_text : String → List String → List String
insert_text s [] = s ∷ []
insert_text s (t ∷ ts) =
    if str_eq s t then t ∷ ts else if str_lt s t then s ∷ t ∷ ts else t ∷ insert_text s ts

abbrev pub is_nil : List String → Bool
is_nil [] = true
is_nil (s ∷ ss) = false

module _ {N : Type 0} (py : Python N) where
  -- `_walk` and `_walk_combinator`: every child is walked, in order.
  unfoldable mutual
    pub walk : Node N → Fields N → Walk N Verdict
    walk (combinator op children) facts log = do
      (results, log') ← walk_all children facts log
      ok (combine op results, log')
    walk (leaf op body) facts log = walk_leaf py op body facts log
    walk unrecognized facts log = raise unrecognized_condition_operator

    pub walk_all : Nodes N → Fields N → Walk N (List Verdict)
    walk_all nil facts log = ok ([], log)
    walk_all (cons node rest) facts log = do
      (result, log') ← walk node facts log
      (results, log'') ← walk_all rest facts log'
      ok (result ∷ results, log'')

  -- `sorted(set(missing))`: a set with `None` and a text in it cannot be sorted.
  unfoldable pub sorted_set : List (Option String) → Result (List (Option String))
  sorted_set paths =
      let texts = foldr insert_text [] (filter_map (λ p. p) paths) in
      if any (λ p. not (is_some p)) paths
      then (if is_nil texts then ok (none ∷ []) else raise type_error)
      else ok (map some texts)

  -- `evaluate_condition`.
  unfoldable pub evaluate_condition : Node N → Fields N → Result (Evaluation N)
  evaluate_condition condition facts = do
    ((outcome, reason), log) ← walk condition facts empty_log
    fields ← sorted_set log.missing
    ok (record {
      outcome = outcome;
      trace = log.trace;
      missing_fields = fields;
      unknown_reason = reason;
    })
