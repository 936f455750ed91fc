-- ===== src/Finding.antt =====
-- Findings and their review: app/modules/finding.
pub mod Model
pub mod Repository
pub mod Service
pub mod Propose
pub mod Transition
pub mod Latest
pub mod Lifecycle
pub mod Numbering
pub mod Reproposal
pub mod Repeated
pub mod Rejected
pub mod Tests
