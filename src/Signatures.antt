-- ===== src/Signatures.antt =====
-- The signing flow (apps/api/src/modules/signatures/signatures.service.ts).
pub mod Turn
pub mod Trail
pub mod Fields
pub mod Workflow
pub mod Access
pub mod Sign
pub mod Decline
pub mod Demo
pub mod Session
pub mod Control
pub mod Reminders
pub mod Create
pub mod InPerson
pub mod Evidence
pub mod History
pub mod Lifecycle
