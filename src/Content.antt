-- ===== src/Content.antt =====
-- The review of regulatory content, from draft to active: app/modules/content_review.
pub mod Model
pub mod Workflow
pub mod Bulk
pub mod Trail
pub mod Perform
pub mod History
pub mod Status
pub mod One
pub mod Batch
mod Tests
