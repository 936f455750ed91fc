-- ===== src/Engine/Tests.antt =====
-- Evaluations of small conditions, and the theorems about app/engine/condition_evaluator.py at
-- them.
use regnova.Prelude.{◌≡◌, refl, ℕ, String, none, some, [], ◌∷◌, ltb, leb, ◌==◌, length}
use mathlib.Core.List.{filter_map}
use regnova.Prelude.Text
use regnova.Prelude.Text.{eq_iff}
use regnova.Engine.Value.{
  Python, Value, null, num, str, obj, Fields, end, field, get, get_segment, resolve_path,
  resolve_field, is_confidence_wrapped, member,
}
use regnova.Engine.Compare.{
  unknown, equals, ordered, gt, Result, ok, raise, type_error, value_eq, is_in, is_ordered,
  apply_comparison,
}
use regnova.Engine.Node.{
  all_of, any_of, comparison, Leaf, Node, combinator, leaf, nil, cons, low_confidence, Evaluation,
}
use regnova.Engine.Combine.{combine}
use regnova.Engine.Leaf.{
  read, unwrap, confidence_of, normalize, is_too_low, judge, walk_leaf, walk_present, walk_absent,
}
use regnova.Engine.Walk.{walk, insert_text, sorted_set, evaluate_condition}
use regnova.Engine.Kleene.{truth, evaluate_condition-truth}
use regnova.Engine.Lineage.{leaves, Backed, evaluate_condition-Backed}
use regnova.Engine.Monotone.{append_fields}

-- Numbers in thousandths.
abbrev pub thousandths : Python ℕ
thousandths = record {
  num_eq = λ a b. a == b;
  num_lt = ltb;
  num_le = leb;
  zero = 0;
  one = 1000;
  half = 500;
  lower = λ s. s;
}

unfoldable pub program : Unit {0}
unfolding get get_segment resolve_path resolve_field is_confidence_wrapped member value_eq is_in
    is_ordered apply_comparison combine read unwrap confidence_of normalize is_too_low judge
    walk_leaf walk_present walk_absent walk insert_text sorted_set evaluate_condition filter_map
program = tt

abbrev asks : String → Value ℕ → Leaf ℕ
asks path v = record {
  path = some path;
  expected = some v;
  min_confidence = none;
  normalize = none;
}

-- The wording says "cures", or the confident strength is above 2.
abbrev pub rule : Node ℕ
rule = combinator any_of (
    cons (leaf (comparison equals) (asks "wording" (str "cures")))
      (cons (leaf (comparison (ordered gt)) (asks "extracted" (num 2000))) nil))

abbrev wrapped : ℕ → ℕ → Value ℕ
wrapped v c = obj (field "value" (num v) (field "confidence" (num c) end))

abbrev pub blurred : Fields ℕ
blurred = field "wording" (str "soothes") (field "extracted" (wrapped 3000 400) end)

abbrev pub sharp : Fields ℕ
sharp = field "extracted" (wrapped 3000 900) end

abbrev pub worded : Fields ℕ
worded = field "wording" (str "soothes") end

abbrev or_nothing : Result (Evaluation ℕ) → Evaluation ℕ
or_nothing (ok r) = r
or_nothing (raise e) = record {
  outcome = unknown;
  trace = [];
  missing_fields = [];
  unknown_reason = none;
}

blurred_run : Evaluation ℕ
blurred_run = or_nothing (evaluate_condition thousandths rule blurred)

sharp_run : Evaluation ℕ
sharp_run = or_nothing (evaluate_condition thousandths rule sharp)

worded_run : Evaluation ℕ
worded_run = or_nothing (evaluate_condition thousandths rule (append_fields sharp worded))

blurred_runs : evaluate_condition thousandths rule blurred ≡ ok blurred_run
unfolding blurred_run program
blurred_runs = refl

blurred_is_unknown : blurred_run.unknown_reason ≡ some low_confidence
unfolding blurred_run program
blurred_is_unknown = refl

evaluate_condition-truth_example : blurred_run.outcome ≡ truth thousandths rule blurred
evaluate_condition-truth_example = evaluate_condition-truth thousandths rule blurred blurred_runs

evaluate_condition-Backed_example :
    (length blurred_run.trace ≡ leaves rule)
    × Backed blurred_run.trace (blurred_run.outcome, blurred_run.unknown_reason)
evaluate_condition-Backed_example = evaluate_condition-Backed thousandths rule blurred blurred_runs

-- A leaf without a "field" beside one whose field is missing: `None` and a text are not sorted.
abbrev no_field : Node ℕ
no_field = combinator all_of (
    cons
      (leaf (comparison equals)
        (record { path = none; expected = none; min_confidence = none; normalize = none }))
      (cons (leaf (comparison equals) (asks "wording" null)) nil))

no_field_raises : evaluate_condition thousandths no_field end ≡ raise type_error
unfolding program
no_field_raises = refl

split_dots_example : Text.split_dots "a.bc..d" ≡ "a" ∷ "bc" ∷ "" ∷ "d" ∷ []
unfolding Text.split_dots
split_dots_example = refl

collapse_whitespace_example : Text.collapse_whitespace "  ab  c d " ≡ "ab c d"
unfolding Text.collapse_whitespace
collapse_whitespace_example = refl

strip_example : Text.strip "  ab  c d " ≡ "ab  c d"
unfolding Text.strip
strip_example = refl
