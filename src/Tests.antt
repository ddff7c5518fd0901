-- ===== src/Tests.antt =====
-- The sample database, and each theorem applied to it.
pub mod Samples
pub mod Accounts
pub mod Concerns
pub mod Advice
pub mod Advisors
pub mod Inbox
pub mod Linking
pub mod Framework
pub mod Api
