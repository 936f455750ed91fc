-- ===== src/Assessment/Text.antt =====
-- The rationales that app/modules/assessment_run/service.py writes.
use Prim.Native.String.{◌++◌}
use regnova.Prelude.{String, Option, none, some, List, [], ◌∷◌, map, filter, Bool, true, false}
use regnova.Engine.Compare.{
  Outcome, match, no_match, unknown, equals, not_equals, in_, not_in, ordered, gt, gte, lt, lte,
}
use regnova.Engine.Node.{LeafOp, exists, not_exists, comparison, low_confidence, Entry}
use regnova.Assessment.Model.{UnknownBehavior, fail_closed, request_input, human_review, Services}

abbrev pub op_text : LeafOp → String
op_text exists = "exists"
op_text not_exists = "not_exists"
op_text (comparison equals) = "equals"
op_text (comparison not_equals) = "not_equals"
op_text (comparison in_) = "in"
op_text (comparison not_in) = "not_in"
op_text (comparison (ordered gt)) = "gt"
op_text (comparison (ordered gte)) = "gte"
op_text (comparison (ordered lt)) = "lt"
op_text (comparison (ordered lte)) = "lte"

abbrev pub outcome_text : Outcome → String
outcome_text match = "MATCH"
outcome_text no_match = "NO_MATCH"
outcome_text unknown = "UNKNOWN"

abbrev pub behavior_text : UnknownBehavior → String
behavior_text fail_closed = "FAIL_CLOSED"
behavior_text request_input = "REQUEST_INPUT"
behavior_text human_review = "HUMAN_REVIEW"

abbrev pub field_text : Option String → String
field_text none = "None"
field_text (some path) = path

-- `"; ".join(parts)`.
unfoldable pub join : List String → String
join [] = ""
join (part ∷ []) = part
join (part ∷ next ∷ rest) = part ++ "; " ++ join (next ∷ rest)

module _ {N : Type 0} (services : Services N) where
  -- `_trace_summary`.
  unfoldable pub trace_summary : List (Entry N) → String
  unfolding join
  trace_summary trace =
      join (
        map (λ e. op_text e.op ++ "(" ++ field_text e.path ++ ")=" ++ outcome_text e.outcome) trace)

  abbrev pub is_low : Entry N → Bool
  is_low e = elim e.reason [ some low_confidence ↦ true | _ ↦ false ]

  -- `_low_confidence_summary`.
  unfoldable pub low_confidence_summary : List (Entry N) → String
  unfolding join
  low_confidence_summary trace = elim (filter is_low trace) [
    | [] ↦ "Extraction confidence below required threshold"
    | entry ∷ entries ↦ join (
        map
          (λ e.
            field_text e.path
            ++ " confidence "
            ++ services.two_digits e.confidence
            ++ " below required threshold")
          (entry ∷ entries))
  ]

  abbrev pub low_confidence_rationale : List (Entry N) → UnknownBehavior → String
  low_confidence_rationale trace behavior =
      low_confidence_summary trace
      ++ " - routed to human review per AC-FR-06-02 (low-confidence OCR must never silently pass a "
      ++ "mandatory check), overriding this rule's own unknown_behavior ("
      ++ behavior_text behavior
      ++ ")."
