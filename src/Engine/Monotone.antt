-- ===== src/Engine/Monotone.antt =====
-- More facts never overturn a definite outcome of app/engine/condition_evaluator.py, as long as
-- the condition does not ask for presence itself.
use mathlib.Core.Path.{subst}
use regnova.Prelude.{
  ◌≡◌, ◌≢◌, refl, sym, ap, ◌∙◌, String, Bool, true, false, Option, none, some, arith, ◌&&◌,
  Option-cases, Bool-cases, ℕ, List, [], ◌∷◌, inl, inr,
}
use regnova.Prelude.Text.{str_eq, split_from, split_dots}
use Prim.Native.String.{◌++◌}
use regnova.Engine.Value.{
  Python, Value, obj, Fields, end, field, get, get_segment, resolve_path, resolve_field,
}
use regnova.Engine.Compare.{Outcome, match, no_match, unknown, Comparison}
use regnova.Engine.Node.{
  Combinator, all_of, any_of, LeafOp, exists, not_exists, comparison, Leaf, Node, combinator, leaf,
  unrecognized, Nodes, nil, cons, empty_log,
}
use regnova.Engine.Leaf.{read, walk_leaf, walk_absent, walk_present}
use regnova.Engine.Kleene.{outcome_or_unknown, kleene, neutral, leaf_truth, truth, truth_all}

-- `b` says at least as much as `a`.
abbrev pub Refines : Outcome → Outcome → Type 0
Refines unknown b = Unit
Refines match b = b ≡ match
Refines no_match b = b ≡ no_match

Refines-refl : (a : Outcome) → Refines a a
Refines-refl match = refl
Refines-refl no_match = refl
Refines-refl unknown = tt

kleene-Refines :
    (op : Combinator) (a a' b b' : Outcome)
    → Refines a a'
    → Refines b b'
    → Refines (kleene op a b) (kleene op a' b')
kleene-Refines all_of a a' b b' h k = ground arith
kleene-Refines any_of a a' b b' h k = ground arith

-- No leaf of the tree is `exists` or `not_exists`.
unfoldable mutual
  pub is_comparative : {N : Type 0} → Node N → Bool
  is_comparative (combinator op children) = are_comparative children
  is_comparative (leaf (comparison op) body) = true
  is_comparative (leaf exists body) = false
  is_comparative (leaf not_exists body) = false
  is_comparative unrecognized = true

  pub are_comparative : {N : Type 0} → Nodes N → Bool
  are_comparative nil = true
  are_comparative (cons node rest) = is_comparative node && are_comparative rest

-- Every path that the first facts resolve, the second resolve to the same value.
abbrev pub Extends : {N : Type 0} → Fields N → Fields N → Type 0
Extends {N} facts facts' =
    (path : String) (v : Value N)
    → resolve_field facts path ≡ some v
    → resolve_field facts' path ≡ some v

-- `{**facts, **more}` for objects that share no key.
abbrev pub append_fields : {N : Type 0} → Fields N → Fields N → Fields N
append_fields end gs = gs
append_fields (field k v fs) gs = field k v (append_fields fs gs)

get-append_fields :
    {N : Type 0} (key : String) (fs gs : Fields N) (v : Value N)
    → get key fs ≡ some v
    → get key (append_fields fs gs) ≡ some v
unfolding get
get-append_fields key end gs v h = cc
get-append_fields key (field k w fs) gs v h = elim (Bool-cases (str_eq k key)) [
  | inl same ↦ rw same (rw same at h)
  | inr other ↦ rw other (get-append_fields key fs gs v (rw other at h))
]

-- A segment of a path is looked up in an object, so the path never names the facts as a whole.
split_from-ne-nil : (mark : ℕ) (segment s : String) → split_from mark segment s ≢ []
unfolding split_from
split_from-ne-nil mark segment String.[] = cc
split_from-ne-nil mark segment (String.◌∷◌ c s) =
    ground (arith, split_from-ne-nil mark (segment ++ String.◌∷◌ c "") s)

resolve_path-append_fields :
    {N : Type 0} (path : List String) (fs gs : Fields N) (v : Value N)
    → path ≢ []
    → resolve_path path (obj fs) ≡ some v
    → resolve_path path (obj (append_fields fs gs)) ≡ some v
unfolding resolve_path get_segment
resolve_path-append_fields [] fs gs v ne h = absurd (ne refl)
resolve_path-append_fields (k ∷ path) fs gs v ne h = elim (Option-cases (get k fs)) [
  | inl e ↦ absurd (cc e)
  | inr (w, e) ↦
      rw (get-append_fields k fs gs w e, resolve_path, get_segment)
        (rw (e, resolve_path, get_segment) at h)
]

pub Extends-append_fields : {N : Type 0} (fs gs : Fields N) → Extends fs (append_fields fs gs)
unfolding resolve_field split_dots
Extends-append_fields fs gs path v h =
    resolve_path-append_fields (split_from b'.' "" path) fs gs v (split_from-ne-nil b'.' "" path) h

module _ {N : Type 0} (py : Python N) where
  -- A leaf's truth depends on the facts only through the value that it reads.
  abbrev truth_at : LeafOp → Leaf N → Option (Value N) → Outcome
  truth_at op body none = outcome_or_unknown py (walk_absent py op body empty_log)
  truth_at op body (some raw) = outcome_or_unknown py (walk_present py op body raw empty_log)

  leaf_truth-truth_at :
      (op : LeafOp) (body : Leaf N) (facts : Fields N)
      → leaf_truth py op body facts ≡ truth_at op body (read facts body.path)
  unfolding leaf_truth walk_leaf
  leaf_truth-truth_at op body facts = elim (Option-cases (read facts body.path)) [
    | inl e ↦ rw (e, walk_leaf)
    | inr (v, e) ↦ rw (e, walk_leaf)
  ]

  leaf_truth-read :
      (op : LeafOp) (body : Leaf N) (facts facts' : Fields N)
      → read facts body.path ≡ read facts' body.path
      → leaf_truth py op body facts ≡ leaf_truth py op body facts'
  leaf_truth-read op body facts facts' e =
      leaf_truth-truth_at op body facts
      ∙ ap (truth_at op body) e
      ∙ sym (leaf_truth-truth_at op body facts')

  leaf_truth_absent :
      (op : Comparison) (body : Leaf N) (facts : Fields N)
      → read facts body.path ≡ none
      → leaf_truth py (comparison op) body facts ≡ unknown
  unfolding walk_absent
  leaf_truth_absent op body facts e =
      leaf_truth-truth_at (comparison op) body facts ∙ ap (truth_at (comparison op) body) e

module _ {N : Type 0} (py : Python N) (facts facts' : Fields N) (more : Extends facts facts') where
  read-Extends :
      (path : Option String) (v : Value N) → read facts path ≡ some v → read facts' path ≡ some v
  unfolding read
  read-Extends none v h = cc
  read-Extends (some path) v h = ground (arith, more path v)

  leaf_truth-Refines :
      (op : LeafOp) (body : Leaf N)
      → is_comparative (leaf op body) ≡ true
      → Refines (leaf_truth py op body facts) (leaf_truth py op body facts')
  unfolding is_comparative
  leaf_truth-Refines exists body h = cc
  leaf_truth-Refines not_exists body h = cc
  leaf_truth-Refines (comparison op) body h = elim (Option-cases (read facts body.path)) [
    | inl absent ↦
        subst (λ o. Refines o (leaf_truth py (comparison op) body facts'))
          (sym (leaf_truth_absent py op body facts absent)) tt
    | inr (v, e) ↦
        subst (Refines (leaf_truth py (comparison op) body facts))
          (leaf_truth-read py (comparison op) body facts facts'
            (e ∙ sym (read-Extends body.path v e)))
          (Refines-refl _)
  ]

  mutual
    unfolding is_comparative truth

    truth-Refines :
        (c : Node N) → is_comparative c ≡ true → Refines (truth py c facts) (truth py c facts')
    truth-Refines (combinator op children) h = truth_all-Refines op children h
    truth-Refines (leaf op body) h = leaf_truth-Refines op body h
    truth-Refines unrecognized h = tt

    truth_all-Refines :
        (op : Combinator) (cs : Nodes N)
        → are_comparative cs ≡ true
        → Refines (truth_all py op cs facts) (truth_all py op cs facts')
    truth_all-Refines op nil h = Refines-refl (neutral op)
    truth_all-Refines op (cons c cs) h =
        kleene-Refines op _ _ _ _ (truth-Refines c (ground arith))
          (truth_all-Refines op cs (ground arith))
