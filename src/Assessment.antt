-- ===== src/Assessment.antt =====
-- The assessment of one dimension of a product in a market: app/modules/assessment_run.
pub mod Model
pub mod Text
pub mod Output
pub mod Step
pub mod State
pub mod Safety
pub mod Count
pub mod Attempts
pub mod Results
pub mod Tests
