-- ===== src/Assignment.antt =====
-- The grants of internal roles: app/modules/internal_role_assignment.
pub mod Model
pub mod Service
pub mod Revocation
pub mod Single
pub mod Supersession
pub mod Approval
pub mod History
mod Tests
