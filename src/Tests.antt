-- ===== src/Tests.antt =====
-- Tests on concrete inputs, and each theorem applied at one.
pub mod Limits
pub mod Turns
pub mod Keys
pub mod Inputs
pub mod Refreshes
pub mod Tokens
pub mod Records
pub mod Streams
pub mod Requests
pub mod Attempts
pub mod Catalogs
pub mod Errors
pub mod Accounts
pub mod Logins
pub mod Answers
