-- ===== src/Engine.antt =====
-- app/engine/condition_evaluator.py: the three-valued evaluation of a rule's condition tree.
pub mod Value
pub mod Compare
pub mod Node
pub mod Combine
pub mod Leaf
pub mod Walk
pub mod Kleene
pub mod Lineage
pub mod Monotone
pub mod Tests
