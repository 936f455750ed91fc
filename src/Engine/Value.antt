-- ===== src/Engine/Value.antt =====
-- The JSON values that conditions and facts hold, and the lookups of
-- app/engine/condition_evaluator.py in them.
use regnova.Prelude.{
  String, Bool, false, Option, none, some, List, [], ◌∷◌, if◌then◌else◌, is_some, ◌&&◌,
}
use regnova.Prelude.Text.{str_eq, split_dots}

-- What Python itself gives: the numbers (`int` and `float` with their comparisons, `False`, `True`
-- and the literal 0.5 among them), and the case mapping of Unicode.
pub record Python (N : Type 0) : Type 0 where
  pub num_eq : N → N → Bool
  pub num_lt : N → N → Bool
  pub num_le : N → N → Bool
  pub zero : N
  pub one : N
  pub half : N
  pub lower : String → String

mutual
  pub data Value (N : Type 0) : Type 0 where
    null : Value N
    bool : Bool → Value N
    num : N → Value N
    str : String → Value N
    arr : Items N → Value N
    obj : Fields N → Value N

  pub data Items (N : Type 0) : Type 0 where
    nil : Items N
    cons : Value N → Items N → Items N

  pub data Fields (N : Type 0) : Type 0 where
    end : Fields N
    field : String → Value N → Fields N → Fields N

module _ {N : Type 0} where
  -- `fields.get(key)`, with `none` for a key that is absent.
  unfoldable pub get : String → Fields N → Option (Value N)
  get key end = none
  get key (field k v fs) = if str_eq k key then some v else get key fs

  unfoldable pub get_segment : String → Value N → Option (Value N)
  unfolding get
  get_segment segment (obj fs) = get segment fs
  get_segment segment _ = none

  -- The loop of `_resolve_field`, with `none` for `_MISSING`.
  unfoldable pub resolve_path : List String → Value N → Option (Value N)
  unfolding get_segment
  resolve_path [] current = some current
  resolve_path (segment ∷ path) current = elim (get_segment segment current) [
    | none ↦ none
    | some next ↦ resolve_path path next
  ]

  -- `_resolve_field`.
  unfoldable pub resolve_field : Fields N → String → Option (Value N)
  unfolding resolve_path split_dots
  resolve_field facts path = resolve_path (split_dots path) (obj facts)

  -- `_is_confidence_wrapped`.
  unfoldable pub is_confidence_wrapped : Value N → Bool
  unfolding get
  is_confidence_wrapped (obj fs) = is_some (get "value" fs) && is_some (get "confidence" fs)
  is_confidence_wrapped _ = false

  -- `raw.get(key)` on a wrapper.
  unfoldable pub member : String → Value N → Value N
  unfolding get
  member key (obj fs) = elim (get key fs) [ none ↦ null | some v ↦ v ]
  member key _ = null
