-- ===== src/Engine/Compare.antt =====
-- `_apply_comparison` of app/engine/condition_evaluator.py with the operators of Python that it
-- uses: `==`, `in` and the orders on JSON values, which raise TypeError between most types.
use mathlib.Core.Path.{subst}
use regnova.Prelude.{
  ◌≡◌, ℕ, suc, String, Bool, true, false, not, Option, none, some, if◌then◌else◌, is_some, ◌==◌,
  ltb, leb, ◌&&◌, ◌||◌,
}
use regnova.Prelude.Text.{str_eq, str_lt, str_le, is_substring}
use regnova.Engine.Value.{
  Python, Value, null, bool, num, str, arr, obj, Items, nil, cons, Fields, end, field, get,
}

pub data Error : Type 0 where
  unknown_normalize_function : String → Error
  unrecognized_condition_operator : Error
  type_error : Error

pub data Result (A : Type 0) : Type 0 where
  ok : A → Result A
  raise : Error → Result A

infixl 5 ◌>>=◌ ◌>>◌
abbrev pub ◌>>=◌ : {A B : Type 0} → Result A → (A → Result B) → Result B
ok a >>= f = f a
raise e >>= f = raise e

abbrev pub ◌>>◌ : {A B : Type 0} → Result A → Result B → Result B
m >> k = m >>= λ _. k

-- What holds of a result if nothing was raised, and the rule for a sequence.
abbrev pub OnOk : {A : Type 0} → (A → Type 0) → Result A → Type 0
OnOk P (ok a) = P a
OnOk P (raise e) = Unit

pub OnOk->>= :
    {A B : Type 0} (P : A → Type 0) (Q : B → Type 0) (m : Result A) (f : A → Result B)
    → OnOk P m
    → ((a : A) → P a → OnOk Q (f a))
    → OnOk Q (m >>= f)
OnOk->>= P Q (ok a) f h k = k a h
OnOk->>= P Q (raise e) f h k = tt

pub OnOk-Unit : {A : Type 0} (m : Result A) → OnOk (λ _. Unit) m
OnOk-Unit (ok a) = tt
OnOk-Unit (raise e) = tt

pub OnOk_apply : {A : Type 0} (P : A → Type 0) {m : Result A} {a : A} → OnOk P m → m ≡ ok a → P a
OnOk_apply P h e = subst (OnOk P) e h

pub data Outcome : Type 0 where
  match no_match unknown : Outcome

pub data Order : Type 0 where
  gt gte lt lte : Order

-- The operators of LEAF_OPS that `_apply_comparison` handles.
pub data Comparison : Type 0 where
  equals not_equals in_ not_in : Comparison
  ordered : Order → Comparison

abbrev pub outcome_of : Bool → Outcome
outcome_of b = if b then match else no_match

module _ {N : Type 0} where
  abbrev pub count_items : Items N → ℕ
  count_items nil = 0
  count_items (cons x xs) = suc (count_items xs)

  abbrev pub count_fields : Fields N → ℕ
  count_fields end = 0
  count_fields (field k v fs) = suc (count_fields fs)

module _ {N : Type 0} (py : Python N) where
  -- `bool` is a number in Python.
  abbrev pub as_number : Value N → Option N
  as_number (bool b) = some (if b then py.one else py.zero)
  as_number (num n) = some n
  as_number _ = none

  abbrev pub number_eq : N → Option N → Bool
  number_eq a none = false
  number_eq a (some b) = py.num_eq a b

  -- `a == b`. Objects are equal whatever the order of their keys.
  unfoldable mutual
    pub value_eq : Value N → Value N → Bool
    value_eq null null = true
    value_eq null _ = false
    value_eq (bool a) w = number_eq (if a then py.one else py.zero) (as_number w)
    value_eq (num a) w = number_eq a (as_number w)
    value_eq (str s) (str t) = str_eq s t
    value_eq (str s) _ = false
    value_eq (arr xs) (arr ys) = items_eq xs ys
    value_eq (arr xs) _ = false
    value_eq (obj fs) (obj gs) = (count_fields fs == count_fields gs) && fields_within fs gs
    value_eq (obj fs) _ = false

    pub items_eq : Items N → Items N → Bool
    items_eq nil nil = true
    items_eq nil (cons y ys) = false
    items_eq (cons x xs) nil = false
    items_eq (cons x xs) (cons y ys) = value_eq x y && items_eq xs ys

    pub fields_within : Fields N → Fields N → Bool
    fields_within end gs = true
    fields_within (field k v fs) gs = elim (get k gs) [
      | none ↦ false
      | some w ↦ value_eq v w && fields_within fs gs
    ]

  unfoldable pub contains : Value N → Items N → Bool
  unfolding value_eq
  contains v nil = false
  contains v (cons x xs) = value_eq v x || contains v xs

  -- `value in expected`.
  unfoldable pub is_in : Value N → Value N → Result Bool
  unfolding contains get
  is_in v (arr xs) = ok (contains v xs)
  is_in (str s) (str t) = ok (is_substring s t)
  is_in (str s) (obj fs) = ok (is_some (get s fs))
  is_in (arr xs) (obj fs) = raise type_error
  is_in (obj gs) (obj fs) = raise type_error
  is_in v (obj fs) = ok false
  is_in v _ = raise type_error

  abbrev pub order_numbers : Order → N → N → Bool
  order_numbers gt a b = py.num_lt b a
  order_numbers gte a b = py.num_le b a
  order_numbers lt a b = py.num_lt a b
  order_numbers lte a b = py.num_le a b

  abbrev pub order_texts : Order → String → String → Bool
  order_texts gt s t = str_lt t s
  order_texts gte s t = str_le t s
  order_texts lt s t = str_lt s t
  order_texts lte s t = str_le s t

  abbrev pub order_counts : Order → ℕ → ℕ → Bool
  order_counts gt a b = ltb b a
  order_counts gte a b = leb b a
  order_counts lt a b = ltb a b
  order_counts lte a b = leb a b

  abbrev pub order_optional : Order → N → Option N → Result Bool
  order_optional op a none = raise type_error
  order_optional op a (some b) = ok (order_numbers op a b)

  -- `a > b` and its like. Lists are ordered at the first place where they differ.
  unfoldable mutual
    pub is_ordered : Order → Value N → Value N → Result Bool
    is_ordered op (bool a) w = order_optional op (if a then py.one else py.zero) (as_number w)
    is_ordered op (num a) w = order_optional op a (as_number w)
    is_ordered op (str s) (str t) = ok (order_texts op s t)
    is_ordered op (arr xs) (arr ys) = items_ordered op xs ys
    is_ordered op _ _ = raise type_error

    pub items_ordered : Order → Items N → Items N → Result Bool
    items_ordered op nil ys = ok (order_counts op 0 (count_items ys))
    items_ordered op (cons x xs) nil = ok (order_counts op (suc (count_items xs)) 0)
    items_ordered op (cons x xs) (cons y ys) = elim (value_eq x y) [
      | true ↦ items_ordered op xs ys
      | false ↦ is_ordered op x y
    ]

  -- `_apply_comparison`.
  unfoldable pub apply_comparison : Comparison → Value N → Value N → Result Outcome
  apply_comparison equals v e = ok (outcome_of (value_eq v e))
  apply_comparison not_equals v e = ok (outcome_of (not (value_eq v e)))
  apply_comparison in_ v e = do b ← is_in v e; ok (outcome_of b)
  apply_comparison not_in v e = do b ← is_in v e; ok (outcome_of (not b))
  apply_comparison (ordered op) v e = do b ← is_ordered op v e; ok (outcome_of b)
