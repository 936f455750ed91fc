-- ===== src/Engine/Node.antt =====
-- A condition tree and what its evaluation records (app/engine/condition_evaluator.py). A node is
-- read by its "op"; a tree in which a node is no object, or a "field" or "normalize" no text, is
-- not represented.
use regnova.Prelude.{String, List, [], Option}
use regnova.Engine.Value.{Value}
use regnova.Engine.Compare.{Outcome, Comparison, Result}

pub data Combinator : Type 0 where
  all_of any_of : Combinator

-- LEAF_OPS.
pub data LeafOp : Type 0 where
  exists not_exists : LeafOp
  comparison : Comparison → LeafOp

-- The keys of a leaf but for "op": `none` for one that is absent.
pub record Leaf (N : Type 0) : Type 0 where
  pub path : Option String
  pub expected : Option (Value N)
  pub min_confidence : Option (Value N)
  pub normalize : Option String

mutual
  pub data Node (N : Type 0) : Type 0 where
    combinator : Combinator → Nodes N → Node N
    leaf : LeafOp → Leaf N → Node N
    unrecognized : Node N

  pub data Nodes (N : Type 0) : Type 0 where
    nil : Nodes N
    cons : Node N → Nodes N → Nodes N

pub data Reason : Type 0 where
  missing low_confidence : Reason

-- One entry of `trace`.
pub record Entry (N : Type 0) : Type 0 where
  pub op : LeafOp
  pub path : Option String
  pub expected : Value N
  pub actual : Value N
  pub outcome : Outcome
  pub reason : Option Reason
  pub confidence : Option (Value N)

-- The two lists that the walk appends to.
pub record Log (N : Type 0) : Type 0 where
  pub trace : List (Entry N)
  pub missing : List (Option String)

pub record Evaluation (N : Type 0) : Type 0 where
  pub outcome : Outcome
  pub trace : List (Entry N)
  pub missing_fields : List (Option String)
  pub unknown_reason : Option Reason

abbrev pub empty_log : {N : Type 0} → Log N
empty_log = record { trace = []; missing = [] }

-- What a node comes out as: the outcome, and why if it is unknown.
abbrev pub Verdict : Type 0
Verdict = Outcome × Option Reason

-- A step of the walk: it may raise, and it appends to the log.
abbrev pub Walk : Type 0 → Type 0 → Type 0
Walk N A = Log N → Result (A × Log N)
