-- ===== src/Accounts.antt =====
-- accounts/: roles, profiles and the saving of a user row, the password reset, and the users that are
-- created, with and without Google.
pub mod Roles
pub mod Saving
pub mod Passwords
pub mod Nicknames
pub mod Linking
pub mod Creating
