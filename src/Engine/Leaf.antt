-- ===== src/Engine/Leaf.antt =====
-- `_walk_leaf` of app/engine/condition_evaluator.py.
use regnova.Prelude.{
  String, Bool, true, false, Option, none, some, [], ◌∷◌, ◌++◌, if◌then◌else◌, is_some,
}
use regnova.Prelude.Text.{str_eq, is_empty, strip, collapse_whitespace}
use regnova.Engine.Value.{
  Python, Value, null, num, str, Fields, resolve_field, is_confidence_wrapped, member,
}
use regnova.Engine.Compare.{
  Comparison, match, no_match, unknown, lt, unknown_normalize_function, Result, ok, raise,
  is_ordered, apply_comparison, ◌>>=◌,
}
use regnova.Engine.Node.{
  LeafOp, exists, not_exists, comparison, Leaf, missing, low_confidence, Entry, Verdict, Walk,
}

module _ {N : Type 0} where
  abbrev pub or_null : Option (Value N) → Value N
  or_null none = null
  or_null (some v) = v

  -- `_resolve_field(facts, field_path) if field_path else _MISSING`.
  unfoldable pub read : Fields N → Option String → Option (Value N)
  read facts none = none
  read facts (some path) = if is_empty path then none else resolve_field facts path

  -- The value that a leaf compares, without its confidence wrapper.
  unfoldable pub unwrap : Value N → Value N
  unfolding is_confidence_wrapped member
  unwrap raw = if is_confidence_wrapped raw then member "value" raw else raw

module _ {N : Type 0} (py : Python N) where
  -- The `confidence` of `_walk_leaf`: a wrapper's null is read as 0.0.
  unfoldable pub confidence_of : Value N → Option (Value N)
  unfolding is_confidence_wrapped member
  confidence_of raw =
      if is_confidence_wrapped raw
      then some (elim (member "confidence" raw) [ null ↦ num py.zero | c ↦ c ])
      else none

  -- `_NORMALIZERS`: a value that is no text is left alone.
  abbrev pub normalizer : String → Option (String → String)
  normalizer name =
      if str_eq name "lowercase"
      then some py.lower
      else if str_eq name "strip"
      then some strip
      else if str_eq name "collapse_whitespace"
      then some collapse_whitespace
      else none

  abbrev pub on_text : (String → String) → Value N → Value N
  on_text f (str s) = str (f s)
  on_text f v = v

  -- `_normalize`.
  unfoldable pub normalize : Option String → Value N → Result (Value N)
  unfolding strip collapse_whitespace
  normalize none v = ok v
  normalize (some name) v = elim (normalizer name) [
    | none ↦ raise (unknown_normalize_function name)
    | some f ↦ ok (on_text f v)
  ]

  -- `confidence < node.get("min_confidence", DEFAULT_MIN_CONFIDENCE)`, where there is one.
  unfoldable pub is_too_low : Leaf N → Option (Value N) → Result Bool
  is_too_low body none = ok false
  is_too_low body (some c) =
      is_ordered py lt c (elim body.min_confidence [ none ↦ num py.half | some m ↦ m ])

  abbrev pub judge_value : Comparison → Leaf N → Value N → Bool → Result (Verdict × Value N)
  judge_value op body raw true = ok ((unknown, some low_confidence), unwrap raw)
  judge_value op body raw false = do
    v ← normalize body.normalize (unwrap raw)
    o ← apply_comparison py op v (or_null body.expected)
    ok ((o, none), v)

  -- What the branches of `_walk_leaf` on a value that is present come to: outcome, reason and the
  -- value as it stands afterwards.
  unfoldable pub judge : Comparison → Leaf N → Value N → Result (Verdict × Value N)
  judge op body raw = is_too_low body (confidence_of raw) >>= λ low. judge_value op body raw low

  -- `trace_entry`.
  abbrev pub entry : LeafOp → Leaf N → Option (Value N) → Verdict → Value N → Entry N
  entry op body confidence (outcome, reason) actual = record {
    op = op;
    path = body.path;
    expected = or_null body.expected;
    actual = actual;
    outcome = outcome;
    reason = reason;
    confidence = confidence;
  }

  -- The end of `_walk_leaf`: `missing` and `trace` grow, and the verdict is returned.
  abbrev pub record_leaf : LeafOp → Leaf N → Option (Value N) → Verdict → Value N → Walk N Verdict
  record_leaf op body confidence verdict actual log = ok (
    verdict,
    record {
      trace = log.trace ++ entry op body confidence verdict actual ∷ [];
      missing = if is_some verdict.1 then log.missing ++ body.path ∷ [] else log.missing;
    },
  )

  unfoldable pub walk_present : LeafOp → Leaf N → Value N → Walk N Verdict
  walk_present exists body raw log =
      record_leaf exists body (confidence_of raw) (match, none) (unwrap raw) log
  walk_present not_exists body raw log =
      record_leaf not_exists body (confidence_of raw) (no_match, none) (unwrap raw) log
  walk_present (comparison op) body raw log = do
    (verdict, v) ← judge op body raw
    record_leaf (comparison op) body (confidence_of raw) verdict v log

  unfoldable pub walk_absent : LeafOp → Leaf N → Walk N Verdict
  walk_absent exists body = record_leaf exists body none (no_match, none) null
  walk_absent not_exists body = record_leaf not_exists body none (match, none) null
  walk_absent (comparison op) body =
      record_leaf (comparison op) body none (unknown, some missing) null

  -- `_walk_leaf`.
  unfoldable pub walk_leaf : LeafOp → Leaf N → Fields N → Walk N Verdict
  walk_leaf op body facts log = elim (read facts body.path) [
    | none ↦ walk_absent op body log
    | some raw ↦ walk_present op body raw log
  ]
