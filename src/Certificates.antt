-- ===== src/Certificates.antt =====
-- Certificates and signing with them (apps/api/src/modules/certificates).
pub mod Assurance
pub mod Evidence
pub mod Rows
pub mod Parse
pub mod Issue
pub mod Listing
pub mod Signing
pub mod Verify
