-- ===== src/Document.antt =====
-- Documents, their versions and fields, and the evidence that points at them: app/modules/document,
-- document_version and evidence.
pub mod Model
pub mod Repository
pub mod Sniff
pub mod Fields
pub mod Scan
pub mod Upload
pub mod Evidence
pub mod Edit
pub mod Rows
pub mod Chain
pub mod Stored
pub mod Valid
pub mod Preserve
pub mod Perform
pub mod Guards
pub mod Scanned
pub mod Reviewed
pub mod Linked
pub mod Stopped
pub mod History
pub mod Promises
pub mod Again
pub mod Clam
pub mod Tests
