-- ===== src/Audit.antt =====
-- The audit log, the notifications and the worker that fills them from the outbox:
-- app/modules/audit and app/modules/notification.
pub mod Model
pub mod Builders
pub mod Log
pub mod Worker
pub mod Reading
pub mod Once
pub mod Clearance
pub mod Tests
