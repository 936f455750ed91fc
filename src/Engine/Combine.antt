-- ===== src/Engine/Combine.antt =====
-- The end of `_walk_combinator` of app/engine/condition_evaluator.py: Kleene's connectives and the
-- merge of the reasons.
use regnova.Prelude.{Bool, true, false, Option, none, some, List, [], ◌∷◌, if◌then◌else◌, any}
use regnova.Engine.Compare.{Outcome, match, no_match, unknown}
use regnova.Engine.Node.{Combinator, all_of, any_of, Reason, missing, low_confidence, Verdict}

abbrev pub is_match : Outcome → Bool
is_match match = true
is_match _ = false

abbrev pub is_no_match : Outcome → Bool
is_no_match no_match = true
is_no_match _ = false

abbrev pub is_unknown : Outcome → Bool
is_unknown unknown = true
is_unknown _ = false

abbrev pub is_low_confidence : Reason → Bool
is_low_confidence low_confidence = true
is_low_confidence missing = false

-- `[reason for _, reason in child_results if reason is not None]`.
abbrev pub reasons : List Verdict → List Reason
reasons [] = []
reasons ((_, none) ∷ rs) = reasons rs
reasons ((_, some r) ∷ rs) = r ∷ reasons rs

abbrev pub first : List Reason → Option Reason
first [] = none
first (r ∷ rs) = some r

-- `merged_reason`.
unfoldable pub merge : List Reason → Option Reason
merge rs = if any is_low_confidence rs then some low_confidence else first rs

-- The end of `_walk_combinator`, on the children's results.
unfoldable pub combine : Combinator → List Verdict → Verdict
unfolding merge
combine all_of rs =
    if any (λ r. is_no_match r.0) rs
    then (no_match, none)
    else if any (λ r. is_unknown r.0) rs
    then (unknown, merge (reasons rs))
    else (match, none)
combine any_of rs =
    if any (λ r. is_match r.0) rs
    then (match, none)
    else if any (λ r. is_unknown r.0) rs
    then (unknown, merge (reasons rs))
    else (no_match, none)
