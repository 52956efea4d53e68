-- ===== src/Execution.antt =====
-- internal/execution: authenticated generation, account selection and cleanup.
pub mod Codes
pub mod Attempt
pub mod Upstream
pub mod Candidates
pub mod Choice
pub mod Retries
pub mod Prepared
pub mod Requests
pub mod Revocation
pub mod Revoked
pub mod Slots
